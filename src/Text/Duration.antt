-- ===== src/Text/Duration.antt =====
-- time.ParseDuration: an `int64` of nanoseconds from the text of a duration. What a decimal fraction
-- adds is computed in `float64`; that product is an argument, `fraction digits unit`.
use scope_network.Prelude.{
  ℕ, zero, suc, ◌+◌, ◌-◌, ◌*◌, ◌/◌, ◌%◌, ◌^◌, ◌≤◌, ◌<◌, Bool, true, false, ◌&&◌, ◌||◌, [], ◌∷◌,
  ◌++◌, ◌≡◌, refl, Option, none, some, arith, ltb, leb, ◌==◌, if◌then◌else◌, length, ap, ◌∙◌,
}
use scope_network.Prelude.Int.{ℤ, pos, negsuc}
use scope_network.Text.Bytes.{Text, codes, same}
use scope_network.Text.Decimal.{itoa, digits, digits_start, StartsWithDigit}

abbrev pub max_i64 : ℕ
max_i64 = 2 ^ 63 - 1

abbrev is_digit : ℕ → Bool
is_digit c = leb b'0' c && leb c b'9'

-- The nanoseconds of each unit; the two signs for micro have two bytes each.
abbrev unit_size : Text → Option ℕ
unit_size u =
    if same u (codes "h")
    then some 3600000000000
    else if same u (codes "m")
    then some 60000000000
    else if same u (codes "s")
    then some 1000000000
    else if same u (codes "ms")
    then some 1000000
    else if same u (codes "us")
    then some 1000
    else if same u (0xc2 ∷ 0xb5 ∷ b's' ∷ [])
    then some 1000
    else if same u (0xce ∷ 0xbc ∷ b's' ∷ [])
    then some 1000
    else if same u (codes "ns")
    then some 1
    else none

-- A sum of an `int64`, which is negative where the sign bit is set.
abbrev add_checked : ℕ → ℕ → Option ℕ
add_checked a b = if leb (2 ^ 63) ((a + b) % 2 ^ 64) then none else some ((a + b) % 2 ^ 64)

-- What of a part has been read: nothing, digits, a point and digits, or some of the unit.
pub data Phase : Type 0 where
  opening : Phase
  whole : ℕ → Phase
  point : ℕ → Bool → Text → Phase
  unit : ℕ → Text → Text → Phase

module _ (fraction : Text → ℕ → ℕ) where
  abbrev add_to : ℕ → Option ℕ → Option ℕ
  add_to d none = none
  add_to d (some v) = add_checked d v

  abbrev part_of : ℕ → Text → ℕ → ℕ → Option ℕ
  part_of v frac d size =
      if ltb (max_i64 / size) v
      then none
      else add_to d (add_checked (v * size) (fraction frac size))

  abbrev part_at : ℕ → Text → ℕ → Option ℕ → Option ℕ
  part_at v frac d none = none
  part_at v frac d (some size) = part_of v frac d size

  -- The end of a part: its unit, and the sum so far.
  abbrev end_part : ℕ → Text → Text → ℕ → Option ℕ
  end_part v frac u d = part_at v frac d (unit_size u)

  abbrev another_digit : ℕ → ℕ → Option ℕ
  another_digit v c =
      if ltb (max_i64 / 10) v
      then none
      else if ltb max_i64 (v * 10 + (c - b'0'))
      then none
      else some (v * 10 + (c - b'0'))

  -- What a byte makes of the phase and of the sum; `none` is an error.
  abbrev read_byte : ℕ → Phase → ℕ → Option (Phase × ℕ)
  read_byte c opening d =
      if is_digit c
      then some (whole (c - b'0'), d)
      else if c == b'.'
      then some (point 0 false [], d)
      else none
  read_byte c (whole v) d =
      if is_digit c
      then (elim (another_digit v c) [ none ↦ none | some n ↦ some (whole n, d) ])
      else if c == b'.'
      then some (point v true [], d)
      else some (unit v [] (c ∷ []), d)
  read_byte c (point v pre frac) d =
      if is_digit c
      then some (point v true (frac ++ c ∷ []), d)
      else if c == b'.' || (if pre then false else true)
      then none
      else some (unit v frac (c ∷ []), d)
  read_byte c (unit v frac u) d =
      if is_digit c
      then (elim (end_part v frac u d) [ none ↦ none | some n ↦ some (whole (c - b'0'), n) ])
      else if c == b'.'
      then (elim (end_part v frac u d) [ none ↦ none | some n ↦ some (point 0 false [], n) ])
      else some (unit v frac (u ++ c ∷ []), d)

  abbrev end_of : Phase → ℕ → Option ℕ
  end_of (unit v frac u) d = end_part v frac u d
  end_of _ d = none

  abbrev go_on : Option (Phase × ℕ) → (Phase → ℕ → Option ℕ) → Option ℕ
  go_on none rest = none
  go_on (some (p, d)) rest = rest p d

  read_parts : Text → Phase → ℕ → Option ℕ
  read_parts [] p d = end_of p d
  read_parts (c ∷ s) p d = go_on (read_byte c p d) (read_parts s)

  abbrev negated : Option ℕ → Option ℤ
  negated none = none
  negated (some zero) = some (pos 0)
  negated (some (suc n)) = some (negsuc n)

  abbrev positive : Option ℕ → Option ℤ
  positive none = none
  positive (some n) = some (pos n)

  unfoldable pub parse_size : Text → Option ℕ
  unfolding read_parts
  parse_size [] = none
  parse_size (c ∷ s) = if same (c ∷ s) (codes "0") then some 0 else read_parts (c ∷ s) opening 0

  unfoldable pub parse_duration : Text → Option ℤ
  unfolding parse_size
  parse_duration [] = none
  parse_duration (c ∷ s) =
      if c == b'-'
      then negated (parse_size s)
      else if c == b'+'
      then positive (parse_size s)
      else positive (parse_size (c ∷ s))

module _ (fraction : Text → ℕ → ℕ) where
  read-digits :
      (fuel n d : ℕ) (out : Text)
      → n < fuel
      → n ≤ max_i64
      → read_parts fraction (digits fuel n out) opening d ≡ read_parts fraction out (whole n) d
  unfolding read_parts digits
  read-digits zero n d out h fits = absurd (omega arith)
  read-digits (suc fuel) n d out h fits =
      ground (arith, read-digits fuel (n / 10) d ((b'0' + n % 10) ∷ out))

  -- The sum of whole hours, as long as an `int64` holds it.
  abbrev pub hours_size : ℕ → Option ℕ
  hours_size n = if leb n 2562047 then some (n * 3600000000000) else none

  read-hours :
      (n : ℕ)
      → fraction [] 3600000000000 ≡ 0
      → read_parts fraction (b'h' ∷ []) (whole n) 0 ≡ hours_size n
  unfolding read_parts same
  read-hours n e = ground (arith, e)

digits-append : (fuel n : ℕ) (out s : Text) → digits fuel n out ++ s ≡ digits fuel n (out ++ s)
unfolding digits
digits-append zero n out s = refl
digits-append (suc fuel) n out s =
    ground (arith, digits-append fuel (n / 10) ((b'0' + n % 10) ∷ out) s)

length-digits : (fuel n : ℕ) (out : Text) → n < fuel → length out < length (digits fuel n out)
unfolding digits
length-digits zero n out h = absurd (omega arith)
length-digits (suc fuel) n out h =
    ground (arith, length-digits fuel (n / 10) ((b'0' + n % 10) ∷ out))

parse_unsigned :
    (fraction : Text → ℕ → ℕ) (t : Text)
    → StartsWithDigit t
    → 1 < length t
    → parse_duration fraction t ≡ positive fraction (read_parts fraction t opening 0)
unfolding parse_duration same
parse_unsigned fraction [] d h = elim d [ ]
parse_unsigned fraction (c ∷ []) d h = absurd (omega arith)
parse_unsigned fraction (c ∷ e ∷ t) d h = ground arith

parse_duration-hours :
    (fraction : Text → ℕ → ℕ) (n : ℕ)
    → fraction [] 3600000000000 ≡ 0
    → n ≤ max_i64
    → parse_duration fraction (itoa n ++ codes "h") ≡ positive fraction (hours_size fraction n)
unfolding itoa
parse_duration-hours fraction n e h = rw (digits-append (suc n) n [] (codes "h")) (
    parse_unsigned fraction (digits (suc n) n (codes "h"))
      (digits_start (suc n) n (codes "h") (omega arith))
      (omega (arith, length-digits (suc n) n (codes "h") (omega arith)))
    ∙ ap (positive fraction)
        (read-digits fraction (suc n) n 0 (codes "h") (omega arith) h ∙ read-hours fraction n e))

-- A whole number of hours is read as it is, up to the most that an `int64` of nanoseconds holds.
pub parse_duration_hours :
    (fraction : Text → ℕ → ℕ) (n : ℕ)
    → fraction [] 3600000000000 ≡ 0
    → n ≤ 2562047
    → parse_duration fraction (itoa n ++ codes "h") ≡ some (pos (n * 3600000000000))
parse_duration_hours fraction n e h =
    let fits : leb n 2562047 ≡ true = ground arith in
    parse_duration-hours fraction n e (omega arith) ∙ rw fits refl

pub parse_duration_too_long :
    (fraction : Text → ℕ → ℕ) (n : ℕ)
    → fraction [] 3600000000000 ≡ 0
    → 2562047 < n
    → n ≤ max_i64
    → parse_duration fraction (itoa n ++ codes "h") ≡ none
parse_duration_too_long fraction n e h m =
    let over : leb n 2562047 ≡ false = ground arith in
    parse_duration-hours fraction n e m ∙ rw over refl
