-- ===== src/Prelude/Pigeon.antt =====
-- Lists of distinct numbers below a bound.
use Prim.Native.Nat.{ℕ, zero, suc, ◌≤◌, ◌<◌}
use mathlib.Core.Path.{◌≡◌, refl}
use mathlib.Core.Bool.{Bool, true, false, not, ◌||◌}
use mathlib.Core.Logic.{inl, inr}
use mathlib.Core.List.{List, [], ◌∷◌}
use native.Mathlib.Omega.{arith}
use kurn.Prelude.Tests.{◌==◌, ltb, if◌then◌else◌, Bool-cases}
use kurn.Prelude.Lists.{length, keep}

abbrev pub member : ℕ → List ℕ → Bool
member o [] = false
member o (x ∷ l) = (x == o) || member o l

abbrev pub all_below : ℕ → List ℕ → Bool
all_below n [] = true
all_below n (x ∷ l) = if ltb x n then all_below n l else false

abbrev pub are_distinct : List ℕ → Bool
are_distinct [] = true
are_distinct (x ∷ l) = if member x l then false else are_distinct l

abbrev without : ℕ → List ℕ → List ℕ
without n l = keep (λ x. not (x == n)) l

member-without : (o n : ℕ) (l : List ℕ) → member o l ≡ false → member o (without n l) ≡ false
member-without o n [] h = refl
member-without o n (x ∷ l) h = ground (arith, member-without o n l)

without-all_below :
    (n : ℕ) (l : List ℕ) → all_below (suc n) l ≡ true → all_below n (without n l) ≡ true
without-all_below n [] h = refl
without-all_below n (x ∷ l) h = ground (arith, without-all_below n l)

without-are_distinct :
    (n : ℕ) (l : List ℕ) → are_distinct l ≡ true → are_distinct (without n l) ≡ true
without-are_distinct n [] h = refl
without-are_distinct n (x ∷ l) h = ground (arith, without-are_distinct n l, member-without x n l)

length-without-absent : (n : ℕ) (l : List ℕ) → member n l ≡ false → length (without n l) ≡ length l
length-without-absent n [] h = refl
length-without-absent n (x ∷ l) h = ground (arith, length-without-absent n l)

length-without :
    (n : ℕ) (l : List ℕ) → are_distinct l ≡ true → length l ≤ suc (length (without n l))
length-without n [] h = omega arith
length-without n (x ∷ l) h = elim (Bool-cases (x == n)) [
  | inl e ↦
      let same : x ≡ n = ground arith in
      let fresh : member x l ≡ false = ground arith in
      let absent : member n l ≡ false = rw same at fresh in
      rw e (ground (arith, length-without-absent n l absent))
  | inr e ↦
      rw e (let d : are_distinct l ≡ true = ground arith in omega (arith, length-without n l d))
]

-- There are no more of them than the bound.
length-bound : (n : ℕ) (l : List ℕ) → all_below n l ≡ true → are_distinct l ≡ true → length l ≤ n
length-bound zero [] b d = omega arith
length-bound zero (x ∷ l) b d = absurd (ground arith)
length-bound (suc n) l b d =
    let fewer =
      length-bound n (without n l) (without-all_below n l b) (without-are_distinct n l d) in
    omega (arith, length-without n l d)

-- As many as the bound are all the numbers below it.
pub full-member :
    (n o : ℕ) (l : List ℕ)
    → all_below n l ≡ true
    → are_distinct l ≡ true
    → length l ≡ n
    → o < n
    → member o l ≡ true
full-member n o l b d full low = elim (Bool-cases (member o l)) [
  | inl e ↦ e
  | inr e ↦ absurd (
      let below : all_below n (o ∷ l) ≡ true = ground arith in
      let apart : are_distinct (o ∷ l) ≡ true = rw e d in
      omega (arith, length-bound n (o ∷ l) below apart))
]
