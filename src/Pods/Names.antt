-- ===== src/Pods/Names.antt =====
-- tc.go, `parsePodName`: which container names give a pod, and which pod.
use scope_network.Prelude.{◌≤◌, List, [], ◌∷◌, ◌++◌, ◌≡◌, sym, ◌∙◌, ap, arith, length, All}
use scope_network.Text.{Text, codes, same_iff, same_refl}
use scope_network.Text.Affix.{trim_prefix, trim_prefix-append}
use scope_network.Text.Split.{split, join, join-split, split-join, Lacks}
use scope_network.Errors.{ok}
use scope_network.Pods.{pod_part, parse_pod_name}

k8s-Lacks : Lacks b'_' (codes "k8s")
k8s-Lacks = ground arith

-- A name of the form `/k8s_container_pod_namespace_uid_attempt`, with any further parts, in which
-- no part holds the separator, gives its pod.
pub parse_pod_name-join :
    (container pod namespace uid attempt : Text) (more : List Text)
    → All (Lacks b'_') (container ∷ pod ∷ namespace ∷ uid ∷ attempt ∷ more)
    → parse_pod_name (
        codes "/"
        ++ join (codes "k8s" ∷ container ∷ pod ∷ namespace ∷ uid ∷ attempt ∷ more) (codes "_"))
      ≡ ok pod
unfolding parse_pod_name
parse_pod_name-join container pod namespace uid attempt more h =
    rw
      (
        trim_prefix-append (codes "/") _,
        split-join (codes "k8s") (container ∷ pod ∷ namespace ∷ uid ∷ attempt ∷ more) b'_' k8s-Lacks
            h,
        same_refl (codes "k8s"),
      )
      (ground arith)

pod_part_sound :
    (name pod : Text) (parts : List Text)
    → pod_part name parts ≡ ok pod
    → (container : Text) × (rest : List Text) × (parts ≡ codes "k8s" ∷ container ∷ pod ∷ rest)
      × (3 ≤ length rest)
pod_part_sound name pod (prefix ∷ container ∷ found ∷ rest) h =
    (container, rest, ground (arith, same_iff prefix (codes "k8s")), ground arith)
pod_part_sound name pod (prefix ∷ container ∷ []) h = absurd (ground arith)
pod_part_sound name pod (prefix ∷ []) h = absurd (ground arith)
pod_part_sound name pod [] h = cc

-- A name that gives a pod has, behind a slash that may be missing, the prefix `k8s`, a container,
-- that pod and at least three more parts.
pub parse_pod_name_sound :
    (name pod : Text)
    → parse_pod_name name ≡ ok pod
    → (container : Text) × (rest : List Text) × (trim_prefix name (codes "/")
        ≡ join (codes "k8s" ∷ container ∷ pod ∷ rest) (codes "_"))
      × (3 ≤ length rest)
unfolding parse_pod_name
parse_pod_name_sound name pod h =
    let trimmed = trim_prefix name (codes "/") in
    let (container, rest, parts, size) = pod_part_sound trimmed pod (split trimmed b'_') h in
    (container, rest, sym (join-split trimmed b'_') ∙ ap (λ ps. join ps (codes "_")) parts, size)
