-- ===== src/Prepared/Frozen/Tally.antt =====
-- engine/prepared/frozen.go: what the loop over the typecodes of a frozen bitmap tallies.
use kurn.Prelude.{
  ◌≡◌, refl, ap, ◌∙◌, subst, inl, inr, ℕ, zero, suc, ◌+◌, ◌*◌, ◌≤◌, List, [], ◌∷◌, ◌==◌,
  if◌then◌else◌, length, Bool-cases, arith,
}
use kurn.Prelude.Bytes.{Bytes}
use kurn.Prepared.Words.{parsed, le}
use kurn.Prepared.Gives.{Gives, Gives-bind, Gives-read, Gives-map}
use kurn.Prepared.Frozen.{FrozenLayout, tally, tally_types}

-- What a container of a type, `c` its count, takes in each region.
abbrev pub bitsets : ℕ → ℕ
bitsets t = if t == 1 then 1 else 0

abbrev pub elements : ℕ → ℕ → ℕ
elements t c = if t == 2 then c + 1 else 0

abbrev pub runs : ℕ → ℕ → ℕ
runs t c = if t == 3 then c else 0

abbrev pub IsTypecode : ℕ → Type 0
IsTypecode t = (1 ≤ t) × (t ≤ 3)

-- The trailer holds the typecodes and the counts, from the `i`th on.
abbrev pub Typed : Bytes → ℕ → ℕ → ℕ → List (ℕ × ℕ) → Type 0
Typed b types_at counts_at i [] = Unit
Typed b types_at counts_at i ((t, c) ∷ cs) =
    (le 1 b (types_at + i) ≡ parsed t)
    × (le 2 b (counts_at + 2 * i) ≡ parsed c)
    × IsTypecode t
    × Typed b types_at counts_at (i + 1) cs

abbrev pub all_bitsets : List (ℕ × ℕ) → ℕ
all_bitsets [] = 0
all_bitsets ((t, c) ∷ cs) = bitsets t + all_bitsets cs

abbrev pub all_elements : List (ℕ × ℕ) → ℕ
all_elements [] = 0
all_elements ((t, c) ∷ cs) = elements t c + all_elements cs

abbrev pub all_runs : List (ℕ × ℕ) → ℕ
all_runs [] = 0
all_runs ((t, c) ∷ cs) = runs t c + all_runs cs

-- The places of a layout are those of another one.
abbrev SamePlaces : FrozenLayout → FrozenLayout → Type 0
SamePlaces l m =
    (m.n ≡ l.n)
    × (m.key_words_at ≡ l.key_words_at)
    × (m.counts_at ≡ l.counts_at)
    × (m.types_at ≡ l.types_at)

abbrev Tallied : ℕ → ℕ → FrozenLayout → FrozenLayout → Type 0
Tallied t c l m =
    SamePlaces l m
    × IsTypecode t
    × (m.n_bitset ≡ l.n_bitset + bitsets t)
    × (m.n_array_el ≡ l.n_array_el + elements t c)
    × (m.n_run_el ≡ l.n_run_el + runs t c)

tally-Tallied : (t c : ℕ) (l : FrozenLayout) → Gives (Tallied t c l) (tally t c l)
unfolding tally
tally-Tallied t c l = elim (Bool-cases (t == 1)) [
  | inl e ↦ rw e (ground arith)
  | inr e ↦ elim (Bool-cases (t == 2)) [
    | inl f ↦ rw (e, f) (ground arith)
    | inr f ↦ elim (Bool-cases (t == 3)) [
      | inl g ↦ rw (e, f, g) (ground arith)
      | inr g ↦ rw (e, f, g) tt
    ]
  ]
]

-- What the loop has tallied, from a layout with the tables at `types_at` and `counts_at`.
abbrev pub Summed : Bytes → ℕ → ℕ → ℕ → ℕ → FrozenLayout → FrozenLayout → List (ℕ × ℕ) → Type 0
Summed b types_at counts_at rounds i l m cs =
    (length cs ≡ rounds)
    × Typed b types_at counts_at i cs
    × SamePlaces l m
    × (m.n_bitset ≡ l.n_bitset + all_bitsets cs)
    × (m.n_array_el ≡ l.n_array_el + all_elements cs)
    × (m.n_run_el ≡ l.n_run_el + all_runs cs)

pub tally_types-Summed :
    (b : Bytes) (types_at counts_at rounds i : ℕ) (l : FrozenLayout)
    → l.types_at ≡ types_at
    → l.counts_at ≡ counts_at
    → types_at + i + rounds ≤ length b
    → counts_at + 2 * (i + rounds) ≤ length b
    → Gives
        (λ m. (cs : List (ℕ × ℕ)) × Summed b types_at counts_at rounds i l m cs)
        (tally_types b rounds i l)
unfolding tally_types
tally_types-Summed b types_at counts_at zero i l ta ca fit fit' =
    ([], (refl, tt, (refl, refl, refl, refl), omega arith, omega arith, omega arith))
tally_types-Summed b types_at counts_at (suc rounds) i l ta ca fit fit' =
    Gives-read _ 1 b (l.types_at + i) _ (omega arith) λ t at.
      Gives-read _ 2 b (l.counts_at + 2 * i) _ (omega arith) λ c cat.
        Gives-bind (Tallied t c l) _ (tally t c l) _ (tally-Tallied t c l)
          λ m (places, code, nb, na, nr).
            Gives-map _ _ (tally_types b rounds (i + 1) m)
              (tally_types-Summed b types_at counts_at rounds (i + 1) m (places.3 ∙ ta)
                (places.2 ∙ ca) (omega arith) (omega arith))
              (λ z.
                one_more t c m z (subst (λ o. le 1 b (o + i) ≡ parsed t) ta at)
                  (subst (λ o. le 2 b (o + 2 * i) ≡ parsed c) ca cat) places code nb na nr)
  where
    one_more :
        (t c : ℕ) (m z : FrozenLayout)
        → le 1 b (types_at + i) ≡ parsed t
        → le 2 b (counts_at + 2 * i) ≡ parsed c
        → SamePlaces l m
        → IsTypecode t
        → m.n_bitset ≡ l.n_bitset + bitsets t
        → m.n_array_el ≡ l.n_array_el + elements t c
        → m.n_run_el ≡ l.n_run_el + runs t c
        → (cs : List (ℕ × ℕ)) × Summed b types_at counts_at rounds (i + 1) m z cs
        → (cs : List (ℕ × ℕ)) × Summed b types_at counts_at (suc rounds) i l z cs
    one_more t c m z at cat (p0, p1, p2, p3) code nb na nr
          (cs, (many, typed, (q0, q1, q2, q3), sb, sa, sr)) =
        (
          (t, c) ∷ cs,
          (
            ap suc many,
            (at, cat, code, typed),
            (q0 ∙ p0, q1 ∙ p1, q2 ∙ p2, q3 ∙ p3),
            omega arith,
            omega arith,
            omega arith,
          ),
        )
