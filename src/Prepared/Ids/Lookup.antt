-- ===== src/Prepared/Ids/Lookup.antt =====
-- engine/prepared/view.go: `Lookup` finds the record that has the ID, when there is one.
use kurn.Prelude.{
  ◌≡◌, ◌≢◌, refl, sym, ap, ◌∙◌, subst, inl, inr, ℕ, ◌≤◌, ◌<◌, Bool, true, false, not, Option, none,
  some, List, ltb, Bool-cases, arith,
}
use kurn.Prelude.Bytes.{Bytes, bytes_eq, bytes_eq_iff, bytes_lt}
use kurn.Prelude.Order.{bytes_lt_irrefl, bytes_lt_split, bytes_lt_asym}
use kurn.Prepared.Words.{Parsed, parsed, ◌>>=◌, parsed-injective}
use kurn.Prepared.Records.{RecordsView, id_at}
use kurn.Prepared.Ids.{id_of, lookup, parse_ids}
use kurn.Prepared.Ids.Search.{Splits, search-Splits}
use kurn.Prepared.Ids.Ordered.{entry_at, Ordered, parse_ids-Ordered}

-- What a lookup of the ID is to return.
abbrev pub Finds : RecordsView → Bytes → Option ℕ → Type 0
Finds v id (some o) = (o < v.n) × (id_at v o ≡ parsed id)
Finds v id none = (o : ℕ) → o < v.n → id_at v o ≢ parsed id

module _ (v : RecordsView) (ids : Bytes) (es : List (ℕ × Bytes)) (ordered : Ordered v ids es)
    (id : Bytes) where
  abbrev name : ℕ → Bytes
  name k = (entry_at es k).1

  abbrev no_less : ℕ → Bool
  no_less k = not (bytes_lt (name k) id)

  id_of-name : (k : ℕ) → k < v.n → id_of v ids k ≡ parsed (name k)
  id_of-name k low = rw (ordered.entry k low) (ordered.named k low)

  no_less-stays : (k m : ℕ) → k ≤ m → m < v.n → no_less k ≡ true → no_less m ≡ true
  no_less-stays k m le low h = elim (Bool-cases (ltb k m)) [
    | inr e ↦ let same : k ≡ m = ground arith in rw same at h
    | inl e ↦
        let rise = ordered.rising k m (ground arith) low in
        let above : bytes_lt (name k) id ≡ false = ground arith in
        let beyond : bytes_lt id (name m) ≡ true = bytes_lt_split (name k) id (name m) rise above in
        rw (bytes_lt_asym id (name m) beyond) refl
  ]

  -- A record that has the ID stands where the search stops.
  stops_there :
      (r o : ℕ) → Splits v.n no_less r → o < v.n → id_at v o ≡ parsed id → (r < v.n) × (name r ≡ id)
  stops_there r o s low has =
      let (k, small, at) = ordered.all_there o low in
      let same : name k ≡ id =
        parsed-injective (sym (ordered.named k small) ∙ ap (id_at v) at ∙ has) in
      let here : no_less k ≡ true = rw same (rw (bytes_lt_irrefl id) refl) in
      elim (Bool-cases (ltb k r)) [
        | inl e ↦ absurd (let no = s.before k (ground arith) in cc)
        | inr e ↦ elim (Bool-cases (ltb r k)) [
          | inr f ↦
              let one : k ≡ r = ground arith in (omega arith, subst (λ j. name j ≡ id) one same)
          | inl f ↦ absurd (
              let rise : bytes_lt (name r) (name k) ≡ true =
                ordered.rising r k (ground arith) small in
              let stop : no_less r ≡ true = s.behind r (omega arith) (ground arith) in
              let less : bytes_lt (name r) id ≡ true =
                subst (λ x. bytes_lt (name r) x ≡ true) same rise in
              cc (rw less at stop))
        ]
      ]

  found : (found : Option ℕ) × (lookup v ids id ≡ parsed found) × Finds v id found
  unfolding lookup
  found =
      let f : ℕ → Parsed Bool = λ k. id_of v ids k >>= λ x. parsed (not (bytes_lt x id)) in
      let (r, run, s) =
        search-Splits f no_less v.n (λ k low. rw (id_of-name k low) refl) no_less-stays in
      elim (Bool-cases (ltb r v.n)) [
        | inr e ↦ (
          none,
          rw (run, e) refl,
          λ o low has. let (in_range, _) = stops_there r o s low has in ground arith,
        )
        | inl e ↦
            let low : r < v.n = ground arith in
            elim (Bool-cases (bytes_eq (name r) id)) [
              | inl same ↦ (
                some (entry_at es r).0,
                rw (run, e, id_of-name r low, same, ordered.entry r low) refl,
                (
                  ordered.in_range r low,
                  ordered.named r low ∙ ap parsed ((bytes_eq_iff (name r) id).0 same),
                ),
              )
              | inr other ↦ (
                none,
                rw (run, e, id_of-name r low, other) refl,
                λ o below has.
                    let (_, one) = stops_there r o s below has in
                    let same = (bytes_eq_iff (name r) id).1 one in cc,
              )
            ]
      ]

-- When the ids section is accepted for a records section, a lookup never reads out of range. It
-- returns a record that has the ID, and none only if no record has it.
pub lookup-Finds :
    (v : RecordsView) (b ids id : Bytes)
    → parse_ids v b ≡ parsed ids
    → (found : Option ℕ) × (lookup v ids id ≡ parsed found) × Finds v id found
lookup-Finds v b ids id h =
    let (es, ordered) = parse_ids-Ordered v b ids h in found v ids es ordered id
