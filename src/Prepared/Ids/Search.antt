-- ===== src/Prepared/Ids/Search.antt =====
-- What `sort.Search` finds under a test that stays true once it is.
use kurn.Prelude.{
  ◌≡◌, refl, ap, ◌∙◌, inl, inr, ℕ, zero, suc, ◌+◌, ◌/◌, ◌≤◌, ◌<◌, Bool, true, false, ltb,
  Bool-cases, arith,
}
use kurn.Prepared.Words.{Parsed, parsed}
use kurn.Prepared.Ids.{search}

-- The first index below `n` where the test holds, or `n`.
pub record Splits (n : ℕ) (p : ℕ → Bool) (r : ℕ) : Type 0 where
  pub bounded : r ≤ n
  pub before : (k : ℕ) → k < r → p k ≡ false
  pub behind : (k : ℕ) → r ≤ k → k < n → p k ≡ true

module _ (f : ℕ → Parsed Bool) (p : ℕ → Bool) (n : ℕ)
    (tested : (k : ℕ) → k < n → f k ≡ parsed (p k))
    (stays : (k m : ℕ) → k ≤ m → m < n → p k ≡ true → p m ≡ true) where
  stays_false : (k m : ℕ) → k < m + 1 → m < n → p m ≡ false → p k ≡ false
  stays_false k m low small h = elim (Bool-cases (p k)) [
    | inr e ↦ e
    | inl e ↦ let later = stays k m (omega arith) small e in cc
  ]

  search-lower :
      (fuel i j : ℕ)
      → ltb i j ≡ true
      → f ((i + j) / 2) ≡ parsed true
      → search f (suc fuel) i j ≡ search f fuel i ((i + j) / 2)
  unfolding search
  search-lower fuel i j e t = rw (search, e, t) refl

  search-upper :
      (fuel i j : ℕ)
      → ltb i j ≡ true
      → f ((i + j) / 2) ≡ parsed false
      → search f (suc fuel) i j ≡ search f fuel ((i + j) / 2 + 1) j
  unfolding search
  search-upper fuel i j e t = rw (search, e, t) refl

  search-window :
      (fuel i j : ℕ)
      → j ≤ i + fuel
      → i ≤ j
      → j ≤ n
      → ((k : ℕ) → k < i → p k ≡ false)
      → ((k : ℕ) → j ≤ k → k < n → p k ≡ true)
      → (r : ℕ) × (search f fuel i j ≡ parsed r) × Splits n p r
  unfolding search
  search-window zero i j enough low high before behind =
      let same : j ≡ i = omega arith in
      let over : ltb i j ≡ false = ground arith in
      (
        i,
        rw (search, over) refl,
        record { bounded = omega arith; before = before; behind = rw same at behind },
      )
  search-window (suc fuel) i j enough low high before behind = elim (Bool-cases (ltb i j)) [
    | inr e ↦
        let same : j ≡ i = ground arith in
        (
          i,
          rw (search, e) refl,
          record { bounded = omega arith; before = before; behind = rw same at behind },
        )
    | inl e ↦
        let m : ℕ = (i + j) / 2 in
        let inside : i < j = ground arith in
        let small : m < n = omega arith in
        elim (Bool-cases (p m)) [
          | inl t ↦
              let (r, run, s) =
                search-window fuel i m (omega arith) (omega arith) (omega arith) before
                  (λ k above below. stays m k above below t) in
              (r, search-lower fuel i j e (tested m small ∙ ap parsed t) ∙ run, s)
          | inr t ↦
              let (r, run, s) =
                search-window fuel (m + 1) j (omega arith) (omega arith) high
                  (λ k below. stays_false k m below small t) behind in
              (r, search-upper fuel i j e (tested m small ∙ ap parsed t) ∙ run, s)
        ]
  ]

  pub search-Splits : (r : ℕ) × (search f n 0 n ≡ parsed r) × Splits n p r
  search-Splits =
      search-window n 0 n (omega arith) (omega arith) (omega arith) (λ k h. absurd (omega arith))
        (λ k h g. absurd (omega arith))
