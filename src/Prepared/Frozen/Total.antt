-- ===== src/Prepared/Frozen/Total.antt =====
-- engine/prepared/frozen.go: the check of a frozen bitmap reads only the bitmap.
use kurn.Prelude.{
  ◌≡◌, refl, subst, inl, inr, ℕ, zero, suc, ◌+◌, ◌-◌, ◌*◌, ◌^◌, ◌≤◌, false, not, ◌&&◌, List, [],
  ◌∷◌, ltb, leb, ◌==◌, length, Bool-cases, arith,
}
use kurn.Prelude.Bytes.{Bytes}
use kurn.Prepared.Words.{le}
use kurn.Prepared.Gives.{Gives, Gives-bind, Gives-check, Gives-read, Gives-map, Gives-known}
use kurn.Prepared.Frozen.{
  FrozenInfo, FrozenLayout, frozen_bitset_bytes, frozen_max_conts, frozen_array_max_card,
  check_frozen_trailer, Content, bitset_words, array_values, run_values, Pass, bitset_container,
  array_container, run_container, container, check_containers, check_frozen,
}
use kurn.Prepared.Frozen.Tally.{
  bitsets, elements, runs, IsTypecode, Typed, all_bitsets, all_elements, all_runs,
}
use kurn.Prepared.Frozen.Trailer.{check_frozen_trailer-Laid}

bitset_words-Gives :
    (b : Bytes) (at rounds w : ℕ) (f : Content)
    → at + 8 * (w + rounds) ≤ length b
    → Gives (λ g. Unit {0}) (bitset_words b at rounds w f)
unfolding bitset_words
bitset_words-Gives b at zero w f fit = tt
bitset_words-Gives b at (suc rounds) w f fit =
    Gives-read _ 8 b (at + 8 * w) _ (omega arith)
      λ v e. bitset_words-Gives b at rounds (w + 1) _ (omega arith)

array_values-Gives :
    (b : Bytes) (at rounds j prev : ℕ)
    → at + 2 * (j + rounds) ≤ length b
    → Gives (λ g. Unit {0}) (array_values b at rounds j prev)
unfolding array_values
array_values-Gives b at zero j prev fit = tt
array_values-Gives b at (suc rounds) j prev fit =
    Gives-read _ 2 b (at + 2 * j) _ (omega arith) λ v e.
      Gives-check _ (ltb 0 j && leb v prev) _
        λ up. array_values-Gives b at rounds (j + 1) v (omega arith)

-- Each run holds a value.
run_values-Gives :
    (b : Bytes) (at rounds j : ℕ) (f : Content)
    → at + 4 * (j + rounds) ≤ length b
    → Gives (λ (g : Content). f.card + rounds ≤ g.card) (run_values b at rounds j f)
unfolding run_values
run_values-Gives b at zero j f fit = omega arith
run_values-Gives b at (suc rounds) j f fit =
    Gives-read _ 2 b (at + 4 * j) _ (omega arith) λ first e.
      Gives-read _ 2 b (at + 4 * j + 2) _ (omega arith) λ len e'.
        Gives-check _ (ltb (2 ^ 16 - 1) (first + len)) _ λ small.
          Gives-check _ (ltb first f.past) _ λ up.
            let g : Content = record { card = f.card + (len + 1); past = first + len + 1 } in
            Gives-map _ _ (run_values b at rounds (j + 1) g)
              (run_values-Gives b at rounds (j + 1) g (omega arith)) (λ h more. omega arith)

-- Room for what a container of the type takes in each region.
abbrev Room : Bytes → Pass → ℕ → ℕ → ℕ → Type 0
Room b p nb nr na =
    (p.bitset_at + nb * frozen_bitset_bytes ≤ length b)
    × (p.runs_at + 4 * nr ≤ length b)
    × (p.array_at + 2 * na ≤ length b)

abbrev Moved : Pass → ℕ → ℕ → Content × Pass → Type 0
Moved p t c r =
    (1 ≤ r.0.card)
    × (r.1.bitset_at ≡ p.bitset_at + bitsets t * frozen_bitset_bytes)
    × (r.1.runs_at ≡ p.runs_at + 4 * runs t c)
    × (r.1.array_at ≡ p.array_at + 2 * elements t c)

bitset_container-Moved :
    (b : Bytes) (c : ℕ) (p : Pass)
    → p.bitset_at + frozen_bitset_bytes ≤ length b
    → Gives (Moved p 1 c) (bitset_container b c p)
unfolding bitset_container
bitset_container-Moved b c p room =
    Gives-bind (λ g. Unit {0}) _ (bitset_words b p.bitset_at 1024 0 _) _
      (bitset_words-Gives b p.bitset_at 1024 0 _ (omega arith))
      λ f u.
        Gives-check _ (not (f.card == c + 1)) _
          λ full. (some f.card full, omega arith, omega arith, omega arith)
  where
    some : (n : ℕ) → not (n == c + 1) ≡ false → 1 ≤ n
    some n h = ground arith

array_container-Moved :
    (b : Bytes) (c : ℕ) (p : Pass)
    → p.array_at + 2 * (c + 1) ≤ length b
    → Gives (Moved p 2 c) (array_container b c p)
unfolding array_container
array_container-Moved b c p room = Gives-check _ (ltb frozen_array_max_card (c + 1)) _ λ small.
    Gives-bind (λ g. Unit {0}) _ (array_values b p.array_at (c + 1) 0 0) _
      (array_values-Gives b p.array_at (c + 1) 0 0 (omega arith))
      λ last u. (omega arith, omega arith, omega arith, omega arith)

run_container-Moved :
    (b : Bytes) (c : ℕ) (p : Pass)
    → p.runs_at + 4 * c ≤ length b
    → Gives (Moved p 3 c) (run_container b c p)
unfolding run_container
run_container-Moved b c p room = Gives-check _ (ltb c 1) _ λ some.
    Gives-bind _ _ (run_values b p.runs_at c 0 _) _
      (run_values-Gives b p.runs_at c 0 _ (omega arith))
      λ g more. (held g.card some more, omega arith, omega arith, omega arith)
  where
    held : (n : ℕ) → ltb c 1 ≡ false → 0 + c ≤ n → 1 ≤ n
    held n h le = ground arith

container-Moved :
    (b : Bytes) (t c : ℕ) (p : Pass)
    → IsTypecode t
    → Room b p (bitsets t) (runs t c) (elements t c)
    → Gives (Moved p t c) (container b t c p)
unfolding container
container-Moved b t c p code room = elim (Bool-cases (t == 1)) [
  | inl e ↦
      let one : 1 ≡ t = ground arith in
      subst
        (λ k.
          Room b p (bitsets k) (runs k c) (elements k c) → Gives (Moved p k c) (container b k c p))
        one (λ (rb, rr, ra). bitset_container-Moved b c p (omega arith)) room
  | inr e ↦ elim (Bool-cases (t == 2)) [
    | inl f ↦
        let two : 2 ≡ t = ground arith in
        subst
          (λ k.
            Room b p (bitsets k) (runs k c) (elements k c)
            → Gives (Moved p k c) (container b k c p))
          two (λ (rb, rr, ra). array_container-Moved b c p (omega arith)) room
    | inr f ↦
        let three : 3 ≡ t = ground arith in
        subst
          (λ k.
            Room b p (bitsets k) (runs k c) (elements k c)
            → Gives (Moved p k c) (container b k c p))
          three (λ (rb, rr, ra). run_container-Moved b c p (omega arith)) room
  ]
]

-- What a bitmap that is accepted holds.
abbrev pub Holding : ℕ → ℕ → FrozenInfo → Type 0
Holding n least fi = (fi.containers ≡ n) × (least ≤ fi.cardinality)

check_containers-Holding :
    (b : Bytes) (l : FrozenLayout) (cs : List (ℕ × ℕ)) (i prev : ℕ) (p : Pass)
    → Typed b l.types_at l.counts_at i cs
    → l.key_words_at + 2 * (i + length cs) ≤ length b
    → Room b p (all_bitsets cs) (all_runs cs) (all_elements cs)
    → p.info.containers ≡ l.n
    → Gives
        (Holding l.n (p.info.cardinality + length cs))
        (check_containers b l (length cs) i prev p)
unfolding check_containers
check_containers-Holding b l [] i prev p typed keys room named = (named, omega arith)
check_containers-Holding b l ((t, c) ∷ cs) i prev p (at, cat, code, typed) keys (rb, rr, ra) named =
    Gives-known _ (le 1 b (l.types_at + i)) _ t at (
      Gives-read _ 2 b (l.key_words_at + 2 * i) _ (omega arith) λ k e.
        Gives-check _ (ltb 0 i && leb k prev) _ λ up.
          Gives-known _ (le 2 b (l.counts_at + 2 * i)) _ c cat (
            Gives-bind (Moved p t c) _ (container b t c p) _
              (container-Moved b t c p code (omega arith, omega arith, omega arith))
              λ r (some, mb, mr, ma).
                Gives-map _ _ (check_containers b l (length cs) (i + 1) k _)
                  (check_containers-Holding b l cs (i + 1) k _ typed (omega arith)
                    (omega arith, omega arith, omega arith) refl)
                  (λ fi (n, least). (n, omega arith))))

abbrev pub IsFilled : FrozenInfo → Type 0
IsFilled fi =
    (1 ≤ fi.containers) × (fi.containers ≤ frozen_max_conts) × (fi.containers ≤ fi.cardinality)

-- The check of a frozen bitmap reads only the bitmap, whatever its bytes: it says malformed, or it
-- tells of 1 to 2^16 containers and of at least one value for each of them.
pub check_frozen-IsFilled : (b : Bytes) → Gives IsFilled (check_frozen b)
unfolding check_frozen
check_frozen-IsFilled b =
    Gives-bind _ _ (check_frozen_trailer b) _ (check_frozen_trailer-Laid b)
      λ l (cs, (many, typed, pos, few, keys, sb, sr, implied)).
        let runs_at : ℕ = l.n_bitset * frozen_bitset_bytes in
        let p : Pass = record {
          bitset_at = 0;
          runs_at = runs_at;
          array_at = runs_at + 4 * l.n_run_el;
          info = record { containers = l.n; cardinality = 0; max = 0 };
        } in
        subst (λ n. Gives IsFilled (check_containers b l n 0 0 p)) many
          (Gives-map (Holding l.n (0 + length cs)) IsFilled (check_containers b l (length cs) 0 0 p)
            (check_containers-Holding b l cs 0 0 p typed (omega arith)
              (omega arith, omega arith, omega arith) refl)
            (λ fi (n, least). (omega arith, omega arith, omega arith)))
