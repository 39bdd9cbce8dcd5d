-- ===== src/Prelude/Lists.antt =====
-- Lists measured and indexed by native numbers, under the library's names.
use Prim.Native.Nat.{ℕ, zero, suc, ◌+◌, ◌-◌, ◌≤◌}
use mathlib.Core.Path.{◌≡◌, refl, ap, sym, ◌∙◌}
use mathlib.Core.List.{List, [], ◌∷◌, ◌++◌}
use mathlib.Core.Option.{Option, none, some}
use mathlib.Core.Bool.{Bool, true, ◌&&◌}
use mathlib.Core.Logic.{inl, inr}
use kurn.Prelude.Tests.{if◌then◌else◌, Bool-cases}
use native.Mathlib.Omega.{arith}

module _ {ℓ} {A : Type ℓ} where
  abbrev pub length : List A → ℕ
  length [] = 0
  length (x ∷ xs) = suc (length xs)

  abbrev pub get_elem? : List A → ℕ → Option A
  get_elem? [] i = none
  get_elem? (x ∷ xs) zero = some x
  get_elem? (x ∷ xs) (suc i) = get_elem? xs i

  abbrev pub take : ℕ → List A → List A
  take zero xs = []
  take (suc n) [] = []
  take (suc n) (x ∷ xs) = x ∷ take n xs

  abbrev pub drop : ℕ → List A → List A
  drop zero xs = xs
  drop (suc n) [] = []
  drop (suc n) (x ∷ xs) = drop n xs

  -- The elements that pass a test, in order.
  abbrev pub keep : (A → Bool) → List A → List A
  keep p [] = []
  keep p (x ∷ xs) = let rest = keep p xs in if p x then x ∷ rest else rest

  pub keep-append : (p : A → Bool) (xs ys : List A) → keep p (xs ++ ys) ≡ keep p xs ++ keep p ys
  keep-append p [] ys = refl
  keep-append p (x ∷ xs) ys = elim (Bool-cases (p x)) [
    | inl e ↦ rw e (ap (◌∷◌ x) (keep-append p xs ys))
    | inr e ↦ rw e (keep-append p xs ys)
  ]

  pub keep-and : (p q : A → Bool) (xs : List A) → keep (λ x. p x && q x) xs ≡ keep q (keep p xs)
  keep-and p q [] = refl
  keep-and p q (x ∷ xs) = ground (arith, keep-and p q xs)

  pub keep-swap : (p q : A → Bool) (xs : List A) → keep p (keep q xs) ≡ keep q (keep p xs)
  keep-swap p q [] = refl
  keep-swap p q (x ∷ xs) = ground (arith, keep-swap p q xs)

  pub keep-all : (p : A → Bool) (xs : List A) → ((x : A) → p x ≡ true) → keep p xs ≡ xs
  keep-all p [] h = refl
  keep-all p (x ∷ xs) h = let passed = h x in rw passed (ap (◌∷◌ x) (keep-all p xs h))

  pub length-append : (xs ys : List A) → length (xs ++ ys) ≡ length xs + length ys
  length-append [] ys = omega arith
  length-append (x ∷ xs) ys = omega (arith, length-append xs ys)

  pub take-append-drop : (n : ℕ) (xs : List A) → take n xs ++ drop n xs ≡ xs
  take-append-drop zero xs = refl
  take-append-drop (suc n) [] = refl
  take-append-drop (suc n) (x ∷ xs) = ap (◌∷◌ x) (take-append-drop n xs)

  pub length-drop : (n : ℕ) (xs : List A) → length (drop n xs) ≡ length xs - n
  length-drop zero xs = omega arith
  length-drop (suc n) [] = omega arith
  length-drop (suc n) (x ∷ xs) = omega (arith, length-drop n xs)

  pub drop-past : (k : ℕ) (xs rest : List A) → length xs ≡ k → drop k (xs ++ rest) ≡ rest
  drop-past zero [] rest h = refl
  drop-past (suc k) (x ∷ xs) rest h = drop-past k xs rest (omega arith)
  drop-past zero (x ∷ xs) rest h = absurd (omega arith)
  drop-past (suc k) [] rest h = absurd (omega arith)

  pub take-past : (k : ℕ) (xs rest : List A) → length xs ≡ k → take k (xs ++ rest) ≡ xs
  take-past zero [] rest h = refl
  take-past (suc k) (x ∷ xs) rest h = ap (◌∷◌ x) (take-past k xs rest (omega arith))
  take-past zero (x ∷ xs) rest h = absurd (omega arith)
  take-past (suc k) [] rest h = absurd (omega arith)

  drop-none : (k : ℕ) → drop k [] ≡ []
  drop-none zero = refl
  drop-none (suc k) = refl

  pub drop-drop : (k j : ℕ) (xs : List A) → drop k (drop j xs) ≡ drop (j + k) xs
  drop-drop k zero xs = let same : 0 + k ≡ k = omega arith in rw same refl
  drop-drop k (suc j) [] = drop-none k ∙ sym (drop-none (suc j + k))
  drop-drop k (suc j) (x ∷ xs) =
      let same : suc j + k ≡ suc (j + k) = omega arith in rw same (drop-drop k j xs)

  pub length-take-fits : (k : ℕ) (xs : List A) → k ≤ length xs → length (take k xs) ≡ k
  length-take-fits zero xs h = refl
  length-take-fits (suc k) [] h = absurd (omega arith)
  length-take-fits (suc k) (x ∷ xs) h = omega (arith, length-take-fits k xs (omega arith))

  pub length-take_le : (k : ℕ) (xs : List A) → length (take k xs) ≤ length xs
  length-take_le zero xs = omega arith
  length-take_le (suc k) [] = omega arith
  length-take_le (suc k) (x ∷ xs) = omega (arith, length-take_le k xs)
