-- ===== src/Text/Fields.antt =====
-- strings.Fields on ASCII text: the maximal runs of bytes that are no white space. The program
-- applies it to its own literals, to decimal numbers and to a list of host names.
use scope_network.Prelude.{
  ℕ, List, Bool, true, false, ◌||◌, [], ◌∷◌, ◌++◌, append_assoc, append-nil, ◌≡◌, ◌==◌, All,
}
use scope_network.Text.Bytes.{Text}

-- '\t', '\n', '\v', '\f', '\r' and ' '
unfoldable pub is_space : ℕ → Bool
is_space c = c == 9 || c == 10 || c == 11 || c == 12 || c == 13 || c == 32

-- Ends the run `cur`, which is in order.
abbrev close : Text → List Text → List Text
close [] rest = rest
close (c ∷ cur) rest = (c ∷ cur) ∷ rest

fields_from : Text → Text → List Text
fields_from [] cur = close cur []
fields_from (c ∷ s) cur = elim (is_space c) [
  | true ↦ close cur (fields_from s [])
  | false ↦ fields_from s (cur ++ c ∷ [])
]

unfoldable pub fields : Text → List Text
unfolding fields_from
fields s = fields_from s []

abbrev pub IsWord : Text → Type 0
IsWord = All (λ c. is_space c ≡ false)

fields_from-append :
    (p s cur : Text) → IsWord p → fields_from (p ++ s) cur ≡ fields_from s (cur ++ p)
unfolding fields_from
fields_from-append [] s cur h = ap_nil s cur
  where
    ap_nil : (s cur : Text) → fields_from s cur ≡ fields_from s (cur ++ [])
    ap_nil s cur = simp append-nil
fields_from-append (c ∷ p) s cur (hc, h) =
    rw (hc, fields_from) (simp (fields_from-append p s (cur ++ c ∷ []) h, append_assoc))

-- A word that is not empty is one field.
pub fields-IsWord : (c : ℕ) (p : Text) → IsWord (c ∷ p) → fields (c ∷ p) ≡ (c ∷ p) ∷ []
unfolding fields
fields-IsWord c p h =
    simp (← append-nil (c ∷ p)) (rw (fields_from-append (c ∷ p) [] [] h) (simp append-nil))
