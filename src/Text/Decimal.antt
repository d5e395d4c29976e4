-- ===== src/Text/Decimal.antt =====
-- strconv.Itoa, FormatInt and ParseInt in base 10 and 64 bits.
use scope_network.Prelude.{
  ℕ, zero, suc, ◌+◌, ◌-◌, ◌*◌, ◌/◌, ◌%◌, ◌^◌, ◌≤◌, ◌<◌, Bool, true, false, ◌||◌, [], ◌∷◌, ◌≡◌,
  arith, ltb, leb, ◌==◌, if◌then◌else◌,
}
use scope_network.Prelude.Int.{ℤ, pos, negsuc}
use scope_network.Text.Bytes.{Text}
use scope_network.Text.Split.{Lacks}

-- A digit is written for each tenth of `n`, so `suc n` rounds are enough.
unfoldable pub digits : ℕ → ℕ → Text → Text
digits zero n out = out
digits (suc fuel) n out =
    let rest = digits fuel (n / 10) ((b'0' + n % 10) ∷ out) in
    if ltb n 10 then (b'0' + n) ∷ out else rest

unfoldable pub itoa : ℕ → Text
unfolding digits
itoa n = digits (suc n) n []

unfoldable pub format_int : ℤ → Text
unfolding itoa
format_int (pos n) = itoa n
format_int (negsuc n) = b'-' ∷ itoa (suc n)

abbrev pub max_u64 : ℕ
max_u64 = 2 ^ 64 - 1

-- How the reading of an unsigned number ends.
pub data Scan : Type 0 where
  value : ℕ → Scan
  bad_syntax out_of_range : Scan

scan : Text → ℕ → Scan
scan [] n = value n
scan (c ∷ s) n =
    let rest = scan s (n * 10 + (c - b'0')) in
    if ltb c b'0' || ltb b'9' c
    then bad_syntax
    else if ltb max_u64 (n * 10 + (c - b'0'))
    then out_of_range
    else rest

unfoldable pub parse_uint : Text → Scan
unfolding scan
parse_uint [] = bad_syntax
parse_uint (c ∷ s) = scan (c ∷ s) 0

abbrev pub min_i64_size : ℕ
min_i64_size = 2 ^ 63

-- The value, and whether there was an error. A number out of range gives the nearest `int64`.
abbrev pub positive : Scan → ℤ × Bool
positive (value n) = if leb min_i64_size n then (pos (2 ^ 63 - 1), true) else (pos n, false)
positive bad_syntax = (pos 0, true)
positive out_of_range = (pos (2 ^ 63 - 1), true)

abbrev pub negative : Scan → ℤ × Bool
negative (value zero) = (pos 0, false)
negative (value (suc n)) =
    if ltb min_i64_size (suc n) then (negsuc (2 ^ 63 - 1), true) else (negsuc n, false)
negative bad_syntax = (pos 0, true)
negative out_of_range = (negsuc (2 ^ 63 - 1), true)

unfoldable pub parse_int : Text → ℤ × Bool
unfolding parse_uint
parse_int [] = (pos 0, true)
parse_int (c ∷ s) =
    if c == b'-'
    then negative (parse_uint s)
    else if c == b'+'
    then positive (parse_uint s)
    else positive (parse_uint (c ∷ s))

scan-digits :
    (fuel n : ℕ) (out : Text) → n < fuel → n ≤ max_u64 → scan (digits fuel n out) 0 ≡ scan out n
unfolding digits scan
scan-digits zero n out h fits = absurd (omega arith)
scan-digits (suc fuel) n out h fits =
    ground (arith, scan-digits fuel (n / 10) ((b'0' + n % 10) ∷ out))

-- A decimal begins with a digit.
abbrev pub StartsWithDigit : Text → Type 0
StartsWithDigit [] = ⊥
StartsWithDigit (c ∷ s) = (b'0' ≤ c) × (c ≤ b'9')

pub digits_start : (fuel n : ℕ) (out : Text) → n < fuel → StartsWithDigit (digits fuel n out)
unfolding digits
digits_start zero n out h = absurd (omega arith)
digits_start (suc fuel) n out h = ground (arith, digits_start fuel (n / 10) ((b'0' + n % 10) ∷ out))

parse_uint-itoa : (n : ℕ) → n ≤ max_u64 → parse_uint (itoa n) ≡ value n
unfolding scan
parse_uint-itoa n h =
    nonempty (itoa n) (unfold itoa in digits_start (suc n) n [] (omega arith))
      (unfold itoa in scan-digits (suc n) n [] (omega arith) h)
  where
    nonempty : (t : Text) → StartsWithDigit t → scan t 0 ≡ value n → parse_uint t ≡ value n
    nonempty [] d e = elim d [ ]
    nonempty (c ∷ t) d e = unfold parse_uint in e

abbrev pub IsInt64 : ℤ → Type 0
IsInt64 (pos n) = n < 2 ^ 63
IsInt64 (negsuc n) = n < 2 ^ 63

parse_int_unsigned : (t : Text) → StartsWithDigit t → parse_int t ≡ positive (parse_uint t)
unfolding parse_int
parse_int_unsigned [] d = elim d [ ]
parse_int_unsigned (c ∷ t) d = ground arith

-- Every `int64` is read back from its decimal print, with no error.
pub parse_int-format_int : (z : ℤ) → IsInt64 z → parse_int (format_int z) ≡ (z, false)
unfolding format_int
parse_int-format_int (pos n) h =
    rw
      (
        parse_int_unsigned (itoa n) (unfold itoa in digits_start (suc n) n [] (omega arith)),
        parse_uint-itoa n (omega arith),
      )
      (ground arith)
parse_int-format_int (negsuc n) h =
    unfold parse_int in rw (parse_uint-itoa (suc n) (omega arith)) (ground arith)

digits-Lacks : (fuel n b : ℕ) (out : Text) → b'9' < b → Lacks b out → Lacks b (digits fuel n out)
unfolding digits
digits-Lacks zero n b out h lacks = lacks
digits-Lacks (suc fuel) n b out h lacks =
    ground (arith, digits-Lacks fuel (n / 10) b ((b'0' + n % 10) ∷ out) h)

-- No byte above the digits stands in a decimal.
pub itoa-Lacks : (n b : ℕ) → b'9' < b → Lacks b (itoa n)
unfolding itoa
itoa-Lacks n b h = digits-Lacks (suc n) n b [] h tt
