-- ===== src/Prepared/Ids/Ordered.antt =====
-- engine/prepared/view.go: the ids section that `parseIDs` accepts names every record once, in order.
use kurn.Prelude.{
  ◌≡◌, refl, sym, ap, ◌∙◌, subst, inl, inr, ℕ, zero, suc, ◌+◌, ◌*◌, ◌<◌, Bool, true, false, not,
  ◌&&◌, List, [], ◌∷◌, map, ltb, leb, ◌==◌, length, drop, Bool-cases, arith,
}
use kurn.Prelude.Bytes.{Bytes, bytes_lt}
use kurn.Prelude.Order.{bytes_lt_irrefl, bytes_lt_trans}
use kurn.Prelude.Pigeon.{member, all_below, are_distinct, full-member}
use kurn.Prepared.Words.{malformed, parsed, >>=-eq-parsed, parsed-injective}
use kurn.Prepared.Bounds.{refuse_if-then}
use kurn.Prepared.Records.{RecordsView, id_at, count}
use kurn.Prepared.Ids.{id_ordinal, check_ids, parse_ids}

-- An entry of the section: an ordinal, and the ID of its record.
abbrev Named : Type 0
Named = ℕ × Bytes

abbrev pub entry_at : List Named → ℕ → Named
entry_at [] k = (0, [])
entry_at (e ∷ es) zero = e
entry_at (e ∷ es) (suc k) = entry_at es k

-- The section holds the entries, from the `i`th on.
abbrev Holds : RecordsView → Bytes → ℕ → List Named → Type 0
Holds v ids i [] = Unit
Holds v ids i ((o, id) ∷ es) =
    (id_ordinal ids i ≡ parsed o) × (o < v.n) × (id_at v o ≡ parsed id) × Holds v ids (i + 1) es

-- The IDs rise; the first is compared if `b` tells so.
abbrev Rises : Bool → Bytes → List Named → Type 0
Rises b prev [] = Unit
Rises b prev ((o, id) ∷ es) = ((b && not (bytes_lt prev id)) ≡ false) × Rises true id es

module _ (v : RecordsView) (ids : Bytes) where
  check_ids-Holds :
      (rounds i : ℕ) (prev : Bytes) (u : Unit {0})
      → check_ids v ids rounds i prev ≡ parsed u
      → (es : List Named) × (length es ≡ rounds) × Holds v ids i es × Rises (ltb 0 i) prev es
  unfolding check_ids
  check_ids-Holds zero i prev u h = ([], refl, tt, tt)
  check_ids-Holds (suc rounds) i prev u h =
      let (o, at, h1) = >>=-eq-parsed (id_ordinal ids i) _ h in
      let (low, h2) = refuse_if-then (leb v.n o) malformed _ h1 in
      let (id, named, h3) = >>=-eq-parsed (id_at v o) _ h2 in
      let (rise, h4) = refuse_if-then (ltb 0 i && not (bytes_lt prev id)) malformed _ h3 in
      let (es, many, held, rises) = check_ids-Holds rounds (i + 1) id u h4 in
      let later : ltb 0 (i + 1) ≡ true = ground arith in
      (
        (o, id) ∷ es,
        ap suc many,
        (at, ground arith, named, held),
        (rise, subst (λ b. Rises b id es) later rises),
      )

  Holds-at :
      (i k : ℕ) (es : List Named)
      → Holds v ids i es
      → k < length es
      → (id_ordinal ids (i + k) ≡ parsed (entry_at es k).0)
        × ((entry_at es k).0 < v.n)
        × (id_at v (entry_at es k).0 ≡ parsed (entry_at es k).1)
  Holds-at i k [] h low = absurd (omega arith)
  Holds-at i zero ((o, id) ∷ es) (at, below, named, h) low =
      let same : i + 0 ≡ i = omega arith in (rw same at, below, named)
  Holds-at i (suc k) ((o, id) ∷ es) (at, below, named, h) low =
      let same : i + 1 + k ≡ i + suc k = omega arith in
      let (a, b, c) = Holds-at (i + 1) k es h (omega arith) in
      (subst (λ j. id_ordinal ids j ≡ parsed (entry_at es k).0) same a, b, c)

  Rises-above :
      (b : Bool) (prev : Bytes) (es : List Named) (m : ℕ)
      → b ≡ true
      → Rises b prev es
      → m < length es
      → bytes_lt prev (entry_at es m).1 ≡ true
  Rises-above b prev [] m on h low = absurd (omega arith)
  Rises-above b prev ((o, id) ∷ es) zero on (rise, h) low = ground arith
  Rises-above b prev ((o, id) ∷ es) (suc m) on (rise, h) low =
      let first : bytes_lt prev id ≡ true = ground arith in
      bytes_lt_trans prev id (entry_at es m).1 first (Rises-above true id es m refl h (omega arith))

  Rises-at :
      (b : Bool) (prev : Bytes) (es : List Named) (k m : ℕ)
      → Rises b prev es
      → k < m
      → m < length es
      → bytes_lt (entry_at es k).1 (entry_at es m).1 ≡ true
  Rises-at b prev [] k m h lt low = absurd (omega arith)
  Rises-at b prev ((o, id) ∷ es) k zero h lt low = absurd (omega arith)
  Rises-at b prev ((o, id) ∷ es) zero (suc m) (rise, h) lt low =
      Rises-above true id es m refl h (omega arith)
  Rises-at b prev ((o, id) ∷ es) (suc k) (suc m) (rise, h) lt low =
      Rises-at true id es k m h (omega arith) (omega arith)

  abbrev ordinals : List Named → List ℕ
  ordinals es = map (λ e. e.0) es

  Holds-all_below :
      (i : ℕ) (es : List Named) → Holds v ids i es → all_below v.n (ordinals es) ≡ true
  Holds-all_below i [] h = refl
  Holds-all_below i ((o, id) ∷ es) (at, below, named, h) =
      ground (arith, Holds-all_below (i + 1) es h)

  -- An ID below the later ones is not theirs, so that its ordinal is not.
  ordinal-apart :
      (i : ℕ) (o : ℕ) (id : Bytes) (es : List Named)
      → id_at v o ≡ parsed id
      → Holds v ids i es
      → Rises true id es
      → member o (ordinals es) ≡ false
  ordinal-apart i o id [] named h rises = refl
  ordinal-apart i o id ((o', id') ∷ es) named (at, below, named', h) (rise, rises) =
      let above : bytes_lt id id' ≡ true = ground arith in
      elim (Bool-cases (o' == o)) [
        | inl e ↦
            let same : o' ≡ o = ground arith in
            let one : id' ≡ id = parsed-injective (sym named' ∙ ap (id_at v) same ∙ named) in
            absurd (cc (bytes_lt_irrefl id, rw one at above))
        | inr e ↦ rw e (ordinal-apart (i + 1) o id es named h (Rises-lower id id' es above rises))
      ]
    where
      Rises-lower :
          (id id' : Bytes) (es : List Named)
          → bytes_lt id id' ≡ true
          → Rises true id' es
          → Rises true id es
      Rises-lower id id' [] above rises = tt
      Rises-lower id id' ((p, x) ∷ es) above (rise, rises) =
          let higher : bytes_lt id' x ≡ true = ground arith in
          (rw (bytes_lt_trans id id' x above higher) refl, rises)

  Holds-are_distinct :
      (b : Bool) (prev : Bytes) (i : ℕ) (es : List Named)
      → Holds v ids i es
      → Rises b prev es
      → are_distinct (ordinals es) ≡ true
  Holds-are_distinct b prev i [] h rises = refl
  Holds-are_distinct b prev i ((o, id) ∷ es) (at, below, named, h) (rise, rises) =
      rw (ordinal-apart (i + 1) o id es named h rises)
        (Holds-are_distinct true id (i + 1) es h rises)

  member-index :
      (o : ℕ) (es : List Named)
      → member o (ordinals es) ≡ true
      → (k : ℕ) × (k < length es) × ((entry_at es k).0 ≡ o)
  member-index o [] h = cc
  member-index o ((p, id) ∷ es) h = elim (Bool-cases (p == o)) [
    | inl e ↦ (0, omega arith, ground arith)
    | inr e ↦ let (k, low, at) = member-index o es (rw e at h) in (suc k, omega arith, at)
  ]

  length-ordinals : (es : List Named) → length (ordinals es) ≡ length es
  length-ordinals [] = refl
  length-ordinals (e ∷ es) = ap suc (length-ordinals es)

-- What an accepted section holds: as many entries as records, each of an ordinal in range and the ID
-- of its record, the IDs rising, and every record among them.
pub record Ordered (v : RecordsView) (ids : Bytes) (es : List Named) : Type 0 where
  pub entry : (k : ℕ) → k < v.n → id_ordinal ids k ≡ parsed (entry_at es k).0
  pub in_range : (k : ℕ) → k < v.n → (entry_at es k).0 < v.n
  pub named : (k : ℕ) → k < v.n → id_at v (entry_at es k).0 ≡ parsed (entry_at es k).1
  pub rising : (k m : ℕ) → k < m → m < v.n → bytes_lt (entry_at es k).1 (entry_at es m).1 ≡ true
  pub all_there : (o : ℕ) → o < v.n → (k : ℕ) × (k < v.n) × ((entry_at es k).0 ≡ o)

entries-Ordered :
    (v : RecordsView) (ids prev : Bytes) (b : Bool) (es : List Named)
    → length es ≡ v.n
    → Holds v ids 0 es
    → Rises b prev es
    → Ordered v ids es
entries-Ordered v ids prev b es many held rises = record {
  entry = λ k low.
      let same : 0 + k ≡ k = omega arith in
      subst (λ j. id_ordinal ids j ≡ parsed (entry_at es k).0) same
        (Holds-at v ids 0 k es held (omega arith)).0;
  in_range = λ k low. (Holds-at v ids 0 k es held (omega arith)).1;
  named = λ k low. (Holds-at v ids 0 k es held (omega arith)).2;
  rising = λ k m lt low. Rises-at v ids b prev es k m rises lt (omega arith);
  all_there = λ o low.
      let (k, small, at) = member-index v ids o es (
        full-member v.n o (ordinals v ids es) (Holds-all_below v ids 0 es held)
          (Holds-are_distinct v ids b prev 0 es held rises) (length-ordinals v ids es ∙ many)
          low) in
      (k, omega arith, at);
}

pub parse_ids-Ordered :
    (v : RecordsView) (b ids : Bytes)
    → parse_ids v b ≡ parsed ids
    → (es : List Named) × Ordered v ids es
unfolding parse_ids
parse_ids-Ordered v b ids h =
    let (n, _, h1) = >>=-eq-parsed (count b 0 8 0) _ h in
    let (all, h2) = refuse_if-then (not (n == v.n)) malformed _ h1 in
    let (_, h3) = refuse_if-then (not (length b == 8 + 8 * n)) malformed _ h2 in
    let (u, walked, h4) = >>=-eq-parsed (check_ids v (drop 8 b) n 0 []) _ h3 in
    let (es, many, held, rises) = check_ids-Holds v (drop 8 b) n 0 [] u walked in
    let full : length es ≡ v.n = ground arith in
    (
      es,
      subst (λ i. Ordered v i es) (parsed-injective h4)
          (entries-Ordered v (drop 8 b) [] (ltb 0 0) es full held rises),
    )
