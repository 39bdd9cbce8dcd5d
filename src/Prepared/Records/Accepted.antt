-- ===== src/Prepared/Records/Accepted.antt =====
-- engine/prepared/view.go: what `parseRecords` accepts is a list of records.
use kurn.Prelude.{
  ◌≡◌, refl, sym, ap, ◌∙◌, subst, ℕ, zero, suc, ◌+◌, ◌*◌, ◌≤◌, ◌<◌, Bool, true, not, Option, List,
  [], ◌∷◌, ◌++◌, ◌==◌, length, arith, drop, drop-drop, take-append-drop, append_assoc, append-nil,
}
use kurn.Prelude.Bytes.{Bytes}
use kurn.Prepared.Words.{parsed, >>=-eq-parsed, parsed-injective, malformed}
use kurn.Prepared.Bounds.{refuse_if-then}
use kurn.Prepared.Records.{
  Record, RecordsView, Cursors, count, take_id, take_keys, take_payload, parse_row, parse_rows,
  view_of, parse_records,
}
use kurn.Prepared.Records.Encode.{keys_bytes}
use kurn.Prepared.Records.Packed.{
  Piece, key_list, span, KeysPacked, behind_row, RowPacked, Packed, ShowsAll, Packed-ShowsAll,
}
use kurn.Prepared.Records.Taken.{AllValid}
use kurn.Prepared.Records.Parts.{
  IdTaken, take_id-IdTaken, RangeTaken, take_keys-RangeTaken, LoadTaken, take_payload-LoadTaken,
}

abbrev pub rows_end : Cursors → List Record → Cursors
rows_end c [] = c
rows_end c (r ∷ recs) = rows_end (behind_row c r) recs

module _ (valid : Bytes → Bool) where
  -- A record that a section may hold.
  pub record IsSound (r : Record) : Type 0 where
    pub some_id : 0 < length r.id
    pub id_valid : valid r.id ≡ true
    pub keys_valid : AllValid valid (key_list r.keys)

  abbrev pub AllSound : List Record → Type 0
  AllSound [] = Unit
  AllSound (r ∷ recs) = IsSound r × AllSound recs

  abbrev RowTaken : RecordsView → ℕ → Cursors → Cursors → Record → Type 0
  RowTaken v i c d r =
      RowPacked v i c r × IsSound r × (d ≡ behind_row c r) × (d.cur ≤ length v.blob)

  row_taken :
      (v : RecordsView) (i : ℕ) (c a b d : Cursors) (id : Bytes) (keys : Option (List Bytes))
      (load : Bytes)
      → IdTaken valid v i c a id
      → RangeTaken valid v i a b keys
      → LoadTaken valid v i b d load
      → RowTaken v i c d (record { id = id; keys = keys; payload = load })
  row_taken v i c a b d id keys load (f0, f8, ip, named, ok, past_id)
        (f16, f24, few, packed, valids, past_keys, _) (f32, f40, lp, past) =
      let at_id : a.cur ≡ c.cur + length id = ap (λ (x : Cursors). x.cur) past_id in
      let k_same : a.k_idx ≡ c.k_idx = ap (λ (x : Cursors). x.k_idx) past_id in
      let at_keys : b.cur ≡ c.cur + length id + span (key_list keys) =
        ap (λ (x : Cursors). x.cur) past_keys ∙ ap (λ n. n + span (key_list keys)) at_id in
      let k_past : b.k_idx ≡ c.k_idx + length (key_list keys) =
        ap (λ (x : Cursors). x.k_idx) past_keys ∙ ap (λ n. n + length (key_list keys)) k_same in
      (
        record {
          id_off = f0;
          id_len = f8;
          id_there = ip;
          keys_start = f16 ∙ ap parsed k_same;
          keys_word = f24;
          few_keys = few;
          keys_there =
              subst (λ n. KeysPacked v n (c.cur + length id) (key_list keys)) k_same
                (subst (λ n. KeysPacked v a.k_idx n (key_list keys)) at_id packed);
          payload_off = f32 ∙ ap parsed at_keys;
          payload_len = f40;
          payload_there = subst (λ n. Piece v.blob n load) at_keys lp;
        },
        record { some_id = named; id_valid = ok; keys_valid = valids },
        past ∙ (λ t. record { cur = at_keys t + length load; k_idx = k_past t }),
        subst (λ (x : Cursors). x.cur ≤ length v.blob) (sym past) lp.inside,
      )

  parse_row-RowTaken :
      (v : RecordsView) (i : ℕ) (c d : Cursors)
      → c.cur ≤ length v.blob
      → parse_row valid v i c ≡ parsed d
      → (r : Record) × RowTaken v i c d r
  unfolding parse_row
  parse_row-RowTaken v i c d low h =
      let (a, ha, h1) = >>=-eq-parsed (take_id valid v i c) _ h in
      let (b, hb, h2) = >>=-eq-parsed (take_keys valid v i a) _ h1 in
      with_id a b hb h2 (take_id-IdTaken valid v i c a low ha)
    where
      with_keys :
          (a b : Cursors) (id : Bytes)
          → take_payload valid v i b ≡ parsed d
          → IdTaken valid v i c a id
          → (keys : Option (List Bytes)) × RangeTaken valid v i a b keys
          → (r : Record) × RowTaken v i c d r
      with_keys a b id h t (keys, u) =
          let (load, w) = take_payload-LoadTaken valid v i b d u.6 h in
          (
            record { id = id; keys = keys; payload = load },
            row_taken v i c a b d id keys load t u w,
          )

      with_id :
          (a b : Cursors)
          → take_keys valid v i a ≡ parsed b
          → take_payload valid v i b ≡ parsed d
          → (id : Bytes) × IdTaken valid v i c a id
          → (r : Record) × RowTaken v i c d r
      with_id a b h1 h2 (id, t) =
          let low' : a.cur ≤ length v.blob =
            subst (λ (x : Cursors). x.cur ≤ length v.blob) (sym t.5) t.2.inside in
          with_keys a b id h2 t (take_keys-RangeTaken valid v i a b low' h1)

  abbrev RowsTaken : RecordsView → ℕ → ℕ → Cursors → Cursors → List Record → Type 0
  RowsTaken v n i c d recs =
      (length recs ≡ n) × Packed v i c recs × AllSound recs × (d ≡ rows_end c recs)

  parse_rows-RowsTaken :
      (v : RecordsView) (n i : ℕ) (c d : Cursors)
      → c.cur ≤ length v.blob
      → parse_rows valid v n i c ≡ parsed d
      → (recs : List Record) × RowsTaken v n i c d recs
  unfolding parse_rows
  parse_rows-RowsTaken v zero i c d low h = ([], (refl, tt, tt, sym (parsed-injective h)))
  parse_rows-RowsTaken v (suc n) i c d low h =
      let (e, h0, h1) = >>=-eq-parsed (parse_row valid v i c) _ h in
      let (r, (packed, sound, past, low')) = parse_row-RowTaken v i c e low h0 in
      let (recs, (many, more, sounds, end)) = parse_rows-RowsTaken v n (i + 1) e d low' h1 in
      (
        r ∷ recs,
        (
          ap suc many,
          (packed, subst (λ x. Packed v (i + 1) x recs) past more),
          (sound, sounds),
          end ∙ ap (λ x. rows_end x recs) past,
        ),
      )

abbrev pub start : Cursors
start = record { cur = 0; k_idx = 0 }

-- The strings of the records, one behind another.
abbrev pub blob_bytes : List Record → Bytes
blob_bytes [] = []
blob_bytes (r ∷ recs) = r.id ++ (keys_bytes (key_list r.keys) ++ (r.payload ++ blob_bytes recs))

Piece-drop :
    (blob : Bytes) (at : ℕ) (s : Bytes)
    → Piece blob at s
    → drop at blob ≡ s ++ drop (at + length s) blob
Piece-drop blob at s p =
    sym (take-append-drop (length s) (drop at blob))
    ∙ ap (λ front. front ++ drop (length s) (drop at blob)) p.there
    ∙ ap (◌++◌ s) (drop-drop (length s) at blob)

KeysPacked-drop :
    (v : RecordsView) (j at : ℕ) (keys : List Bytes)
    → KeysPacked v j at keys
    → drop at v.blob ≡ keys_bytes keys ++ drop (at + span keys) v.blob
KeysPacked-drop v j at [] h = let same : at + 0 ≡ at = omega arith in rw same refl
KeysPacked-drop v j at (k ∷ keys) (_, _, p, h) =
    let far : at + length k + span keys ≡ at + (length k + span keys) = omega arith in
    Piece-drop v.blob at k p
    ∙ ap (◌++◌ k) (rw far at (KeysPacked-drop v (j + 1) (at + length k) keys h))
    ∙ sym (append_assoc k (keys_bytes keys) (drop (at + (length k + span keys)) v.blob))

Packed-drop :
    (v : RecordsView) (i : ℕ) (c : Cursors) (recs : List Record)
    → Packed v i c recs
    → drop c.cur v.blob ≡ blob_bytes recs ++ drop (rows_end c recs).cur v.blob
Packed-drop v i c [] h = refl
Packed-drop v i c (r ∷ recs) (p, h) =
    let ks = keys_bytes (key_list r.keys) in
    let rest = drop (rows_end (behind_row c r) recs).cur v.blob in
    let tail : drop (behind_row c r).cur v.blob ≡ blob_bytes recs ++ rest =
      Packed-drop v (i + 1) (behind_row c r) recs h in
    Piece-drop v.blob c.cur r.id p.id_there
    ∙ ap (◌++◌ r.id) (
        KeysPacked-drop v c.k_idx (c.cur + length r.id) (key_list r.keys) p.keys_there
        ∙ ap (◌++◌ ks) (Piece-drop v.blob _ r.payload p.payload_there ∙ ap (◌++◌ r.payload) tail))
    ∙ regroup r.id ks r.payload (blob_bytes recs) rest
  where
    regroup : (a b c d e : Bytes) → a ++ (b ++ (c ++ (d ++ e))) ≡ (a ++ (b ++ (c ++ d))) ++ e
    regroup a b c d e =
        ap (λ x. a ++ (b ++ x)) (sym (append_assoc c d e))
        ∙ ap (◌++◌ a) (sym (append_assoc b (c ++ d) e))
        ∙ sym (append_assoc a (b ++ (c ++ d)) e)

drop-all : (n : ℕ) (b : Bytes) → n ≡ length b → drop n b ≡ []
drop-all zero [] h = refl
drop-all zero (x ∷ b) h = absurd (omega arith)
drop-all (suc n) [] h = absurd (omega arith)
drop-all (suc n) (x ∷ b) h = drop-all n b (omega arith)

abbrev pub Serves : (valid : Bytes → Bool) → RecordsView → List Record → Type 0
Serves valid v recs =
    (length recs ≡ v.n) × AllSound valid recs × ShowsAll v 0 recs × (v.blob ≡ blob_bytes recs)

-- A records section that is accepted holds a list of records: as many as it counts, each with an ID
-- that is not empty, with IDs and keys that are valid UTF-8. The accessors give exactly these
-- records, without a read out of range, and the blob holds their strings in order and nothing else.
pub parse_records-Serves :
    (valid : Bytes → Bool) (b : Bytes) (v : RecordsView)
    → parse_records valid b ≡ parsed v
    → (recs : List Record) × Serves valid v recs
unfolding parse_records
parse_records-Serves valid b v h =
    let (n, _, h1) = >>=-eq-parsed (count b 0 48 8) _ h in
    let (nk, _, h2) = >>=-eq-parsed (count b (8 + 48 * n) 16 0) _ h1 in
    let (c, read, h3) = >>=-eq-parsed (parse_rows valid (view_of b n nk) n 0 start) _ h2 in
    let (_, h4) = refuse_if-then (not (c.k_idx == nk)) malformed _ h3 in
    let (spent, h5) = refuse_if-then (not (c.cur == length (view_of b n nk).blob)) malformed _ h4 in
    finish n nk c (ground arith) (parsed-injective h5)
      (parse_rows-RowsTaken valid (view_of b n nk) n 0 start c (omega arith) read)
  where
    finish :
        (n nk : ℕ) (c : Cursors)
        → c.cur ≡ length (view_of b n nk).blob
        → view_of b n nk ≡ v
        → (recs : List Record) × RowsTaken valid (view_of b n nk) n 0 start c recs
        → (recs : List Record) × Serves valid v recs
    finish n nk c spent same (recs, (many, packed, sound, end)) =
        let w = view_of b n nk in
        let last : drop (rows_end start recs).cur w.blob ≡ [] =
          drop-all _ w.blob (sym (ap (λ (x : Cursors). x.cur) end) ∙ spent) in
        let whole : w.blob ≡ blob_bytes recs =
          Packed-drop w 0 start recs packed
          ∙ ap (◌++◌ (blob_bytes recs)) last
          ∙ append-nil (blob_bytes recs) in
        (
          recs,
          subst (λ (x : RecordsView). Serves valid x recs) same
              (many, sound, Packed-ShowsAll w 0 start recs packed, whole),
        )
