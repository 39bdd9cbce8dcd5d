-- ===== src/Filter/Number.antt =====
-- engine/typed_filter.go: `canonicalNumberToken`. The token is read once, and its first and last
-- significant digits are found by their ordinals, before any digit is copied.
use mathlib.Core.Bool.{◌||◌, ◌&&◌}
use mathlib.Core.List.{[], ◌∷◌, ◌++◌}
use kurn.Prelude.{
  ℕ, zero, suc, ◌+◌, ◌-◌, ◌*◌, Bool, true, false, Option, none, some, ltb, leb, ◌==◌, if◌then◌else◌,
  length, take, drop,
}
use kurn.Prelude.Bytes.{Bytes}
use kurn.Prelude.Int.{ℤ, pos, negsuc, sub_ℕ, ◌+ℤ◌, ◌-ℤ◌, lebℤ}
use kurn.Payload.Scalar.{is_digit, skip_digits, andthen, is_empty}

abbrev pub max_number_bytes : ℕ
max_number_bytes = 256

abbrev pub max_significant : ℕ
max_significant = 40

abbrev pub max_exponent : ℕ
max_exponent = 200

-- A canonical form, a valid number outside the payload's envelope, or one of the errors.
pub data Canonical : Type 0 where
  canonical : Bytes → Canonical
  incomparable : Canonical
  invalid too_long too_many_digits exponent_out_of_range : Canonical

-- The parts of a number token: its sign, its digits before and behind the point, its exponent.
pub record Parts : Type 0 where
  pub negative : Bool
  pub int : Bytes
  pub frac : Bytes
  pub exp : ℤ

unfoldable pub take_digits : Bytes → Bytes
unfolding is_digit
take_digits [] = []
take_digits (c ∷ b) = if is_digit c then c ∷ take_digits b else []

starts_with_digit : Bytes → Bool
unfolding is_digit
starts_with_digit [] = false
starts_with_digit (c ∷ b) = is_digit c

scan_sign : Bytes → Bool × Bytes
scan_sign [] = (false, [])
scan_sign (c ∷ b) = if c == b'-' then (true, b) else (false, c ∷ b)

scan_int : Bytes → Option (Bytes × Bytes)
unfolding take_digits skip_digits starts_with_digit
scan_int [] = none
scan_int (c ∷ b) =
    if c == b'0'
    then (if starts_with_digit b then none else some (c ∷ [], b))
    else if leb b'1' c && leb c b'9'
    then some (take_digits (c ∷ b), skip_digits (c ∷ b))
    else none

scan_frac : Bytes → Option (Bytes × Bytes)
unfolding take_digits skip_digits starts_with_digit
scan_frac [] = some ([], [])
scan_frac (c ∷ b) =
    if c == b'.'
    then (if starts_with_digit b then some (take_digits b, skip_digits b) else none)
    else some ([], c ∷ b)

-- The exponent's value, which stops growing once it has passed 1000000.
unfoldable pub exp_value : ℕ → Bytes → ℕ
exp_value acc [] = acc
exp_value acc (c ∷ b) = exp_value (if leb acc 1000000 then acc * 10 + (c - b'0') else acc) b

abbrev clamp_exp : ℕ → ℕ
clamp_exp e = if ltb 1000000 e then 1000001 else e

abbrev signed : Bool → ℕ → ℤ
signed true n = sub_ℕ 0 n
signed false n = pos n

exp_sign : Bytes → Bool × Bytes
exp_sign [] = (false, [])
exp_sign (c ∷ b) = if c == b'+' || c == b'-' then (c == b'-', b) else (false, c ∷ b)

scan_exp_digits : Bool × Bytes → Option (ℤ × Bytes)
unfolding exp_value take_digits skip_digits starts_with_digit
scan_exp_digits (minus, b) =
    if starts_with_digit b
    then some (signed minus (clamp_exp (exp_value 0 (take_digits b))), skip_digits b)
    else none

scan_exp : Bytes → Option (ℤ × Bytes)
unfolding exp_sign scan_exp_digits
scan_exp [] = some (pos 0, [])
scan_exp (c ∷ b) =
    if c == b'e' || c == b'E' then scan_exp_digits (exp_sign b) else some (pos 0, c ∷ b)

abbrev finish_parts : Bool → Bytes → Bytes → ℤ × Bytes → Option Parts
finish_parts negative int frac (exp, rest) =
    if is_empty rest
    then some (record { negative = negative; int = int; frac = frac; exp = exp })
    else none

unfoldable pub scan_number : Bytes → Option Parts
unfolding scan_sign scan_int scan_frac scan_exp
scan_number tok =
    let (negative, b) = scan_sign tok in
    andthen (scan_int b)
      λ i. andthen (scan_frac i.1) λ f. andthen (scan_exp f.1) λ e. finish_parts negative i.0 f.0 e

-- `visit`: the ordinals of the first and the last digit that is not `0`.
unfoldable pub visit : ℕ → Option (ℕ × ℕ) → Bytes → Option (ℕ × ℕ)
visit ordinal seen [] = seen
visit ordinal seen (c ∷ b) =
    visit (ordinal + 1)
      (if c == b'0' then seen else elim seen [
        | none ↦ some (ordinal, ordinal)
        | some (first, last) ↦ some (first, ordinal)
      ])
      b

unfoldable pub zeros : ℕ → Bytes
zeros zero = []
zeros (suc n) = b'0' ∷ zeros n

-- The digits with the point at `decimalPos`.
unfoldable pub place_point : Bytes → ℤ → Bytes
unfolding zeros
place_point digits (negsuc n) = b'0' ∷ b'.' ∷ (zeros (suc n) ++ digits)
place_point digits (pos p) =
    if p == 0
    then b'0' ∷ b'.' ∷ digits
    else if leb (length digits) p
    then digits ++ zeros (p - length digits)
    else take p digits ++ (b'.' ∷ drop p digits)

abbrev signed_bytes : Bool → Bytes → Bytes
signed_bytes true b = b'-' ∷ b
signed_bytes false b = b

abbrev out_of_envelope : Bool → Canonical → Canonical
out_of_envelope request why = if request then why else incomparable

significant_digits : Parts → ℕ → ℕ → ℕ
significant_digits p first last = last - first + 1

-- The exponent of the last significant digit.
scale_exp : Parts → ℕ → ℤ
scale_exp p last = p.exp -ℤ pos (length p.frac) +ℤ pos (length p.int + length p.frac - 1 - last)

unfoldable pub canonical_of_parts : Bool → Parts → Canonical
unfolding visit place_point significant_digits scale_exp
canonical_of_parts request p = elim (visit 0 none (p.int ++ p.frac)) [
  | none ↦ canonical (b'0' ∷ [])
  | some (first, last) ↦
      let significant = significant_digits p first last in
      let scale = scale_exp p last in
      let math_exp = pos (significant - 1) +ℤ scale in
      let digits = take significant (drop first (p.int ++ p.frac)) in
      if ltb max_significant significant
      then out_of_envelope request too_many_digits
      else if lebℤ (sub_ℕ 0 max_exponent) math_exp && lebℤ math_exp (pos max_exponent)
      then canonical (signed_bytes p.negative (place_point digits (pos (length digits) +ℤ scale)))
      else out_of_envelope request exponent_out_of_range
]

unfoldable pub canonical_number_token : Bool → Bytes → Canonical
unfolding scan_number canonical_of_parts
canonical_number_token request tok =
    if request && ltb max_number_bytes (length tok)
    then too_long
    else elim (scan_number tok) [ none ↦ invalid | some p ↦ canonical_of_parts request p ]
