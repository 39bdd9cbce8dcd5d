-- ===== src/Filter/Compare.antt =====
-- engine/typed_filter.go: the order in which the alternatives of a filter are put.
use Prim.Native.Nat.{max}
use kurn.Prelude.{
  ℕ, zero, suc, ◌+◌, ◌-◌, Bool, false, ◌==◌, ltb, none, some, [], ◌∷◌, if◌then◌else◌, length, take,
  drop, get_elem?,
}
use kurn.Prelude.Bytes.{Bytes, bytes_eq, index_byte}
use kurn.Prelude.Int.{ℤ, pos, negsuc, sub_ℕ}
use kurn.Filter.Value.{
  ScalarKind, filter_false, filter_true, filter_number, filter_string, FilterScalar,
}

abbrev pub neg : ℤ → ℤ
neg (pos zero) = pos zero
neg (pos (suc n)) = negsuc n
neg (negsuc n) = pos (suc n)

abbrev pub is_zero : ℤ → Bool
is_zero (pos n) = n == 0
is_zero (negsuc n) = false

-- `strings.Compare`
unfoldable pub strings_compare : Bytes → Bytes → ℤ
strings_compare [] [] = pos 0
strings_compare [] (y ∷ t) = negsuc 0
strings_compare (x ∷ s) [] = pos 1
strings_compare (x ∷ s) (y ∷ t) =
    let rest = strings_compare s t in if x == y then rest else if ltb x y then negsuc 0 else pos 1

-- The position of the point, or the length.
abbrev pub dot_at : Bytes → ℕ
dot_at a = elim (index_byte b'.' a) [ none ↦ length a | some i ↦ i ]

-- A byte of the fraction, with zeros past its end.
abbrev pub fraction_byte : Bytes → ℕ → ℕ
fraction_byte a i = elim (get_elem? a i) [ none ↦ b'0' | some c ↦ c ]

-- The loop over the fractions, with its number of rounds.
unfoldable pub fraction_loop : ℕ → ℕ → Bytes → ℕ → Bytes → ℕ → ℤ
fraction_loop zero i a adot b bdot = pos 0
fraction_loop (suc n) i a adot b bdot =
    let rest = fraction_loop n (suc i) a adot b bdot in
    let ac = fraction_byte a (adot + i) in
    let bc = fraction_byte b (bdot + i) in if ac == bc then rest else sub_ℕ ac bc

-- The tail of `compareCanonicalMagnitudes`, after the lengths of the integer parts agree.
unfoldable pub compare_aligned : Bytes → ℕ → Bytes → ℕ → ℤ
unfolding fraction_loop
compare_aligned a adot b bdot =
    let cmp = strings_compare (take adot a) (take bdot b) in
    if is_zero cmp
    then fraction_loop (max (length a - adot) (length b - bdot) - 1) 1 a adot b bdot
    else cmp

-- `compareCanonicalMagnitudes`
unfoldable pub compare_canonical_magnitudes : Bytes → Bytes → ℤ
unfolding compare_aligned
compare_canonical_magnitudes a b =
    let adot = dot_at a in
    let bdot = dot_at b in if adot == bdot then compare_aligned a adot b bdot else sub_ℕ adot bdot

abbrev pub is_negative : Bytes → Bool
is_negative [] = false
is_negative (c ∷ s) = c == b'-'

abbrev pub magnitude : Bytes → Bytes
magnitude s = if is_negative s then drop 1 s else s

-- `compareCanonicalNumbers`
unfoldable pub compare_canonical_numbers : Bytes → Bytes → ℤ
unfolding compare_canonical_magnitudes
compare_canonical_numbers a b =
    let a_neg = is_negative a in
    let b_neg = is_negative b in
    let cmp = compare_canonical_magnitudes (magnitude a) (magnitude b) in
    if bytes_eq a b
    then pos 0
    else if a_neg
    then (if b_neg then neg cmp else negsuc 0)
    else if b_neg
    then pos 1
    else cmp

abbrev pub kind_code : ScalarKind → ℕ
kind_code filter_false = 0
kind_code filter_true = 1
kind_code filter_number = 2
kind_code filter_string = 3

abbrev pub compare_values : ScalarKind → Bytes → Bytes → ℤ
compare_values filter_false a b = pos 0
compare_values filter_true a b = pos 0
compare_values filter_number a b = compare_canonical_numbers a b
compare_values filter_string a b = strings_compare a b

-- `compareFilterScalar`
unfoldable pub compare_filter_scalar : FilterScalar → FilterScalar → ℤ
unfolding compare_canonical_numbers strings_compare
compare_filter_scalar a b =
    if kind_code a.kind == kind_code b.kind
    then compare_values a.kind a.value b.value
    else sub_ℕ (kind_code a.kind) (kind_code b.kind)
