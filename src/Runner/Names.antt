-- ===== src/Runner/Names.antt =====
-- tools/runner/runner.go, `getTests`: the number of hosts in a test's name.
use scope_network.Prelude.{
  ℕ, ◌<◌, ◌^◌, ◌≡◌, refl, sym, List, [], ◌∷◌, ◌++◌, arith, false, append_assoc,
}
use scope_network.Prelude.Int.{pos}
use scope_network.Text.{Text, codes}
use scope_network.Text.Affix.{trim_suffix-append}
use scope_network.Text.Split.{split, split-Lacks, split_at_sep, cons_first, Lacks}
use scope_network.Text.Decimal.{itoa, format_int, parse_int, parse_int-format_int, itoa-Lacks}
use scope_network.Runner.{num_hosts, last_of}

-- At least two parts, of which the last is the text after the last separator.
EndsIn : Text → List Text → Type 0
EndsIn q [] = ⊥
EndsIn q (a ∷ []) = ⊥
EndsIn q (a ∷ b ∷ ps) = last_of (b ∷ ps) ≡ q

EndsIn-nil_first : (q : Text) (ps : List Text) → EndsIn q ps → EndsIn q ([] ∷ ps)
unfolding EndsIn
EndsIn-nil_first q [] e = elim e [ ]
EndsIn-nil_first q (a ∷ []) e = elim e [ ]
EndsIn-nil_first q (a ∷ b ∷ ps) e = e

EndsIn-cons_first : (q : Text) (c : ℕ) (ps : List Text) → EndsIn q ps → EndsIn q (cons_first c ps)
unfolding EndsIn
EndsIn-cons_first q c [] e = elim e [ ]
EndsIn-cons_first q c (a ∷ []) e = elim e [ ]
EndsIn-cons_first q c (a ∷ b ∷ ps) e = e

split-EndsIn : (p q : Text) (sep : ℕ) → Lacks sep q → EndsIn q (split (p ++ sep ∷ q) sep)
unfolding split EndsIn
split-EndsIn [] q sep h = rw (split_at_sep q sep, split-Lacks q sep h) refl
split-EndsIn (c ∷ p) q sep h =
    let parts = split (p ++ sep ∷ q) sep in
    let e = split-EndsIn p q sep h in
    ground (arith, EndsIn-nil_first q parts e, EndsIn-cons_first q c parts e)

last_of-EndsIn : (q : Text) (ps : List Text) → EndsIn q ps → last_of ps ≡ q
unfolding EndsIn
last_of-EndsIn q [] e = elim e [ ]
last_of-EndsIn q (a ∷ []) e = elim e [ ]
last_of-EndsIn q (a ∷ b ∷ ps) e = e

-- A test whose name ends with an underscore, a number and `_test.sh` needs that many hosts.
num_hosts_of_name :
    (prefix : Text) (n : ℕ)
    → n < 2 ^ 63
    → num_hosts (prefix ++ (codes "_" ++ (itoa n ++ codes "_test.sh"))) ≡ pos n
unfolding num_hosts
num_hosts_of_name prefix n h =
    let number = itoa n in
    let name = prefix ++ (codes "_" ++ number) in
    let last : last_of (split name b'_') ≡ number =
      last_of-EndsIn number _ (split-EndsIn prefix number b'_' (itoa-Lacks n b'_' (omega arith))) in
    let read : parse_int number ≡ (pos n, false) =
      unfold format_int in parse_int-format_int (pos n) h in
    rw
      (
        sym (append_assoc prefix (codes "_" ++ number) (codes "_test.sh")),
        trim_suffix-append name (codes "_test.sh"),
        last,
        read,
      )
      refl
