-- ===== src/Filter/Swap.antt =====
-- engine/typed_filter.go: exchanging the sides of a comparison turns its sign.
use Prim.Native.Nat.{max}
use kurn.Prelude.{
  ℕ, zero, suc, ◌+◌, ◌-◌, ◌≡◌, refl, ap, sym, ◌∙◌, Bool, true, false, ◌==◌, [], ◌∷◌, if◌then◌else◌,
  Bool-cases, inl, inr, arith, length, take,
}
use kurn.Prelude.Bytes.{Bytes, bytes_eq}
use kurn.Prelude.Int.{ℤ, pos, negsuc, sub_ℕ}
use kurn.Filter.Value.{
  ScalarKind, filter_false, filter_true, filter_number, filter_string, FilterScalar,
}
use kurn.Filter.Compare.{
  neg, is_zero, strings_compare, fraction_loop, fraction_byte, compare_aligned, dot_at,
  compare_canonical_magnitudes, compare_canonical_numbers, is_negative, magnitude, kind_code,
  compare_values, compare_filter_scalar,
}

neg-neg : (z : ℤ) → neg (neg z) ≡ z
neg-neg (pos zero) = refl
neg-neg (pos (suc n)) = refl
neg-neg (negsuc n) = refl

is_zero-neg : (z : ℤ) → is_zero (neg z) ≡ is_zero z
is_zero-neg (pos zero) = refl
is_zero-neg (pos (suc n)) = ground arith
is_zero-neg (negsuc n) = ground arith

sub_ℕ-suc : (a b : ℕ) → sub_ℕ (suc a) (suc b) ≡ sub_ℕ a b
sub_ℕ-suc a b = ground arith

sub_ℕ_swap : (a b : ℕ) → sub_ℕ b a ≡ neg (sub_ℕ a b)
sub_ℕ_swap zero zero = refl
sub_ℕ_swap zero (suc b) = ground arith
sub_ℕ_swap (suc a) zero = ground arith
sub_ℕ_swap (suc a) (suc b) = sub_ℕ-suc b a ∙ sub_ℕ_swap a b ∙ ap neg (sym (sub_ℕ-suc a b))

==_swap : (a b : ℕ) → (a == b) ≡ (b == a)
==_swap a b = ground arith

if-neg : (c : Bool) (x y : ℤ) → (if c then neg x else neg y) ≡ neg (if c then x else y)
if-neg true x y = refl
if-neg false x y = refl

strings_compare_swap : (s t : Bytes) → strings_compare t s ≡ neg (strings_compare s t)
unfolding strings_compare
strings_compare_swap [] [] = refl
strings_compare_swap [] (y ∷ t) = refl
strings_compare_swap (x ∷ s) [] = refl
strings_compare_swap (x ∷ s) (y ∷ t) = ground (arith, strings_compare_swap s t)

fraction_loop_swap :
    (n i : ℕ) (a : Bytes) (adot : ℕ) (b : Bytes) (bdot : ℕ)
    → fraction_loop n i b bdot a adot ≡ neg (fraction_loop n i a adot b bdot)
unfolding fraction_loop
fraction_loop_swap zero i a adot b bdot = refl
fraction_loop_swap (suc n) i a adot b bdot =
    let ac = fraction_byte a (adot + i) in
    let bc = fraction_byte b (bdot + i) in
    rw (==_swap bc ac, sub_ℕ_swap ac bc, fraction_loop_swap n (suc i) a adot b bdot)
      (if-neg (ac == bc) _ _)

compare_aligned_swap :
    (a b : Bytes) (adot bdot : ℕ)
    → compare_aligned b bdot a adot ≡ neg (compare_aligned a adot b bdot)
unfolding compare_aligned
compare_aligned_swap a b adot bdot =
    let cmp = strings_compare (take adot a) (take bdot b) in
    let rounds : max (length b - bdot) (length a - adot) ≡ max (length a - adot) (length b - bdot) =
      omega arith in
    rw
      (
        strings_compare_swap (take adot a) (take bdot b),
        is_zero-neg cmp,
        rounds,
        fraction_loop_swap (max (length a - adot) (length b - bdot) - 1) 1 a adot b bdot,
      )
      (if-neg (is_zero cmp) _ _)

compare_canonical_magnitudes_swap :
    (a b : Bytes) → compare_canonical_magnitudes b a ≡ neg (compare_canonical_magnitudes a b)
unfolding compare_canonical_magnitudes
compare_canonical_magnitudes_swap a b =
    rw
      (
        ==_swap (dot_at b) (dot_at a),
        sub_ℕ_swap (dot_at a) (dot_at b),
        compare_aligned_swap a b (dot_at a) (dot_at b),
      )
      (if-neg (dot_at a == dot_at b) _ _)

bytes_eq_swap : (s t : Bytes) → bytes_eq s t ≡ bytes_eq t s
bytes_eq_swap [] [] = refl
bytes_eq_swap [] (y ∷ t) = refl
bytes_eq_swap (x ∷ s) [] = refl
bytes_eq_swap (x ∷ s) (y ∷ t) = ground (arith, bytes_eq_swap s t)

by_signs_swap :
    (same a_neg b_neg : Bool) (cmp : ℤ)
    → (if same
        then pos 0
        else if b_neg
        then (if a_neg then neg (neg cmp) else negsuc 0)
        else if a_neg
        then pos 1
        else neg cmp)
      ≡ neg (
          if same
          then pos 0
          else if a_neg
          then (if b_neg then neg cmp else negsuc 0)
          else if b_neg
          then pos 1
          else cmp)
by_signs_swap true a_neg b_neg cmp = refl
by_signs_swap false true true cmp = refl
by_signs_swap false true false cmp = refl
by_signs_swap false false true cmp = refl
by_signs_swap false false false cmp = refl

compare_canonical_numbers_swap :
    (a b : Bytes) → compare_canonical_numbers b a ≡ neg (compare_canonical_numbers a b)
unfolding compare_canonical_numbers
compare_canonical_numbers_swap a b =
    rw (bytes_eq_swap b a, compare_canonical_magnitudes_swap (magnitude a) (magnitude b))
      (by_signs_swap (bytes_eq a b) (is_negative a) (is_negative b)
        (compare_canonical_magnitudes (magnitude a) (magnitude b)))

compare_values_swap :
    (k : ScalarKind) (a b : Bytes) → compare_values k b a ≡ neg (compare_values k a b)
compare_values_swap filter_false a b = refl
compare_values_swap filter_true a b = refl
compare_values_swap filter_number a b = compare_canonical_numbers_swap a b
compare_values_swap filter_string a b = strings_compare_swap a b

kind_of : ℕ → ScalarKind
kind_of zero = filter_false
kind_of (suc zero) = filter_true
kind_of (suc (suc zero)) = filter_number
kind_of (suc (suc (suc n))) = filter_string

kind_of-kind_code : (k : ScalarKind) → kind_of (kind_code k) ≡ k
unfolding kind_of
kind_of-kind_code filter_false = refl
kind_of-kind_code filter_true = refl
kind_of-kind_code filter_number = refl
kind_of-kind_code filter_string = refl

-- Exchanging the two scalars of a comparison turns the sign of its result, whatever their kinds.
pub compare_filter_scalar_swap :
    (a b : FilterScalar) → compare_filter_scalar b a ≡ neg (compare_filter_scalar a b)
unfolding compare_filter_scalar
compare_filter_scalar_swap a b = elim (Bool-cases (kind_code a.kind == kind_code b.kind)) [
  | inl same ↦
      let codes_agree : kind_code a.kind ≡ kind_code b.kind = ground arith in
      let kinds_agree : a.kind ≡ b.kind =
        sym (kind_of-kind_code a.kind) ∙ ap kind_of codes_agree ∙ kind_of-kind_code b.kind in
      rw (==_swap (kind_code b.kind) (kind_code a.kind), same)
        (ap (λ k. compare_values k b.value a.value) (sym kinds_agree)
          ∙ compare_values_swap a.kind a.value b.value)
  | inr other ↦
      rw (==_swap (kind_code b.kind) (kind_code a.kind), other)
        (sub_ℕ_swap (kind_code a.kind) (kind_code b.kind))
]
