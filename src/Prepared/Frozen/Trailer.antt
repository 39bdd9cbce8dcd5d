-- ===== src/Prepared/Frozen/Trailer.antt =====
-- engine/prepared/frozen.go: the trailer of a frozen bitmap tells where its parts lie.
use kurn.Prelude.{
  ◌≡◌, ◌≢◌, refl, sym, ◌∙◌, subst, ℕ, zero, suc, ◌+◌, ◌-◌, ◌*◌, ◌/◌, ◌%◌, ◌^◌, ◌≤◌, false, not,
  ◌||◌, List, [], ◌∷◌, ltb, ◌==◌, length, drop, length-drop, arith,
}
use kurn.Prelude.Bytes.{Bytes}
use kurn.Prepared.Words.{malformed, parsed, ◌>>=◌}
use kurn.Prepared.Format.{refuse_if}
use kurn.Prepared.Gives.{Gives, Gives-bind, Gives-check, Gives-read}
use kurn.Prepared.Frozen.{
  FrozenLayout, frozen_bitset_bytes, frozen_max_conts, frozen_cookie, read_be, tally_types,
  check_frozen_trailer,
}
use kurn.Prepared.Frozen.Tally.{
  Typed, all_bitsets, all_elements, all_runs, Summed, tally_types-Summed,
}

read_be-in_range : (w high : ℕ) (b : Bytes) → w ≤ length b → (v : ℕ) × (read_be w high b ≡ parsed v)
unfolding read_be
read_be-in_range zero high b h = (high, refl)
read_be-in_range (suc w) high [] h = absurd (omega arith)
read_be-in_range (suc w) high (c ∷ b) h = read_be-in_range w (high * 256 + c) b (omega arith)

-- A trailer whose tables and data regions lie in the bitmap, with the containers that it tells.
abbrev pub Laid : Bytes → FrozenLayout → List (ℕ × ℕ) → Type 0
Laid b l cs =
    (length cs ≡ l.n)
    × Typed b l.types_at l.counts_at 0 cs
    × (1 ≤ l.n)
    × (l.n ≤ frozen_max_conts)
    × (l.key_words_at + 2 * l.n ≤ length b)
    × (l.n_bitset ≡ all_bitsets cs)
    × (l.n_run_el ≡ all_runs cs)
    × (l.n_bitset * frozen_bitset_bytes + 4 * l.n_run_el + 2 * all_elements cs ≡ l.key_words_at)

-- The trailer with its tables behind the data, and nothing tallied.
abbrev untallied : Bytes → ℕ → FrozenLayout
untallied b n = record {
  n = n;
  key_words_at = length b - 4 - n - 2 * n - 2 * n;
  counts_at = length b - 4 - n - 2 * n;
  types_at = length b - 4 - n;
  n_bitset = 0;
  n_run_el = 0;
  n_array_el = 0;
}

tallied-Laid :
    (b : Bytes) (n : ℕ) (l : FrozenLayout)
    → 4 ≤ length b
    → (n == 0) ≡ false
    → n ≤ frozen_max_conts
    → 5 * n ≤ length b - 4
    → l.n_bitset * frozen_bitset_bytes + 4 * l.n_run_el + 2 * l.n_array_el ≡ l.key_words_at
    → (cs : List (ℕ × ℕ)) × Summed b
        (length b - 4 - n)
        (length b - 4 - n - 2 * n)
        n
        0
        (untallied b n)
        l
        cs
    → (cs : List (ℕ × ℕ)) × Laid b l cs
tallied-Laid b n l long some few room implied
      (cs, (many, typed, (same_n, same_keys, same_counts, same_types), sb, sa, sr)) =
    let some_n : n ≢ 0 = ground arith in
    (
      cs,
      (
        many ∙ sym same_n,
        subst (λ o. Typed b l.types_at o 0 cs) (sym same_counts)
            (subst (λ o. Typed b o (length b - 4 - n - 2 * n) 0 cs) (sym same_types) typed),
        omega arith,
        omega arith,
        omega arith,
        omega arith,
        omega arith,
        omega arith,
      ),
    )

equal_of : (a b : ℕ) → not (a == b) ≡ false → a ≡ b
equal_of a b h = ground arith

within : (a b : ℕ) → ltb a b ≡ false → b ≤ a
within a b h = ground arith

counted :
    (n : ℕ)
    → (ltb n 1 || ltb frozen_max_conts n) ≡ false
    → ((n == 0) ≡ false) × (n ≤ frozen_max_conts)
counted n h = ground arith

pub check_frozen_trailer-Laid :
    (b : Bytes) → Gives (λ l. (cs : List (ℕ × ℕ)) × Laid b l cs) (check_frozen_trailer b)
unfolding check_frozen_trailer
check_frozen_trailer-Laid b = Gives-check _ (ltb (length b) 4) _ λ short.
    let long : 4 ≤ length b = within (length b) 4 short in
    let (be, big) =
      read_be-in_range 4 0 (drop (length b - 4) b) (omega (arith, length-drop (length b - 4) b)) in
    rw big (
      Gives-check _ (be % 2 ^ 15 == frozen_cookie) _ λ little.
        Gives-read _ 4 b (length b - 4) _ (omega arith) λ header at.
          Gives-check _ (not (header % 2 ^ 15 == frozen_cookie)) _ λ cookie.
            Gives-check _ (ltb (header / 2 ^ 15) 1 || ltb frozen_max_conts (header / 2 ^ 15)) _
              λ count. Gives-check _ (ltb (length b - 4) (5 * (header / 2 ^ 15))) _ λ room.
                tables (header / 2 ^ 15) long (counted _ count).0 (counted _ count).1
                  (within _ _ room))
  where
    tables :
        (n : ℕ)
        → 4 ≤ length b
        → (n == 0) ≡ false
        → n ≤ frozen_max_conts
        → 5 * n ≤ length b - 4
        → Gives
            (λ l. (cs : List (ℕ × ℕ)) × Laid b l cs)
            (tally_types b n 0 (untallied b n) >>= λ l.
              refuse_if
                (not (
                  l.n_bitset * frozen_bitset_bytes + 4 * l.n_run_el + 2 * l.n_array_el
                  == l.key_words_at))
                malformed
              >>= λ _. parsed l)
    tables n long some few room =
        Gives-bind _ _ (tally_types b n 0 (untallied b n)) _
          (tally_types-Summed b (length b - 4 - n) (length b - 4 - n - 2 * n) n 0 (untallied b n)
            refl refl (omega arith) (omega arith))
          λ l summed.
            Gives-check _ _ _
              λ implied. tallied-Laid b n l long some few room (equal_of _ _ implied) summed
