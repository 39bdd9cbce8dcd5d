-- ===== src/Prepared/Records/Packed.antt =====
-- engine/prepared/view.go: a records section whose strings stand in the blob one behind another, as
-- its accessors and its parser read it.
use kurn.Prelude.{
  ◌≡◌, refl, ap, ℕ, ◌+◌, ◌%◌, ◌≤◌, ◌<◌, true, false, Option, none, some, List, [], ◌∷◌, ltb, ◌==◌,
  length, take, drop, arith, Bool-cases, inl, inr,
}
use kurn.Prelude.Bytes.{Bytes}
use kurn.Prepared.Words.{parsed}
use kurn.Prepared.Records.{
  Record, RecordsView, keys_null_flag, field, str, id_at, key_at, append_keys, keys_at, payload_at,
  Cursors,
}

-- A string that stands at an offset of the blob.
pub record Piece (blob : Bytes) (at : ℕ) (s : Bytes) : Type 0 where
  pub inside : at + length s ≤ length blob
  pub there : take (length s) (drop at blob) ≡ s

abbrev pub key_list : Option (List Bytes) → List Bytes
key_list none = []
key_list (some keys) = keys

-- The key word of a row.
abbrev pub key_word : Option (List Bytes) → ℕ
key_word none = keys_null_flag
key_word (some keys) = length keys

-- The bytes of some strings.
abbrev pub span : List Bytes → ℕ
span [] = 0
span (k ∷ keys) = length k + span keys

-- The keys of a record, from the row `j` of the key table and the offset `at` of the blob on.
abbrev pub KeysPacked : RecordsView → ℕ → ℕ → List Bytes → Type 0
KeysPacked v j at [] = Unit
KeysPacked v j at (k ∷ keys) =
    (field v.key_rows 16 j 0 ≡ parsed at)
    × (field v.key_rows 16 j 8 ≡ parsed (length k))
    × Piece v.blob at k
    × KeysPacked v (j + 1) (at + length k) keys

abbrev pub behind_row : Cursors → Record → Cursors
behind_row c r = record {
  cur = c.cur + length r.id + span (key_list r.keys) + length r.payload;
  k_idx = c.k_idx + length (key_list r.keys);
}

-- The row `i` and what it points to are the record.
pub record RowPacked (v : RecordsView) (i : ℕ) (c : Cursors) (r : Record) : Type 0 where
  pub id_off : field v.rows 48 i 0 ≡ parsed c.cur
  pub id_len : field v.rows 48 i 8 ≡ parsed (length r.id)
  pub id_there : Piece v.blob c.cur r.id
  pub keys_start : field v.rows 48 i 16 ≡ parsed c.k_idx
  pub keys_word : field v.rows 48 i 24 ≡ parsed (key_word r.keys)
  pub few_keys : length (key_list r.keys) < keys_null_flag
  pub keys_there : KeysPacked v c.k_idx (c.cur + length r.id) (key_list r.keys)
  pub payload_off : field v.rows 48 i 32 ≡ parsed (c.cur + length r.id + span (key_list r.keys))
  pub payload_len : field v.rows 48 i 40 ≡ parsed (length r.payload)
  pub payload_there : Piece v.blob (c.cur + length r.id + span (key_list r.keys)) r.payload

-- The rows from `i` on are the records.
abbrev pub Packed : RecordsView → ℕ → Cursors → List Record → Type 0
Packed v i c [] = Unit
Packed v i c (r ∷ recs) = RowPacked v i c r × Packed v (i + 1) (behind_row c r) recs

empty : (s : Bytes) → (length s == 0) ≡ true → [] ≡ s
empty [] h = refl
empty (x ∷ s) h = absurd (ground arith)

str-Piece :
    (blob : Bytes) (at : ℕ) (s : Bytes) → Piece blob at s → str blob at (length s) ≡ parsed s
unfolding str
str-Piece blob at s p =
    let fits : ltb (length blob) (at + length s) ≡ false = ground (arith, p.inside) in
    elim (Bool-cases (length s == 0)) [
      | inl e ↦ rw e (ap parsed (empty s e))
      | inr e ↦ rw (e, fits) (ap parsed p.there)
    ]

append_keys-Packed :
    (v : RecordsView) (i start : ℕ) (j at : ℕ) (keys : List Bytes)
    → field v.rows 48 i 16 ≡ parsed start
    → KeysPacked v (start + j) at keys
    → append_keys v i (length keys) j ≡ parsed keys
unfolding append_keys key_at
append_keys-Packed v i start j at [] s h = refl
append_keys-Packed v i start j at (k ∷ keys) s (off, n, p, h) =
    let same : start + j + 1 ≡ start + (j + 1) = omega arith in
    rw
      (
        s,
        off,
        n,
        str-Piece v.blob at k p,
        append_keys-Packed v i start (j + 1) (at + length k) keys s (rw same at h),
      )
      refl

keys_at-RowPacked :
    (v : RecordsView) (i : ℕ) (c : Cursors) (keys : Option (List Bytes)) (at : ℕ)
    → field v.rows 48 i 16 ≡ parsed c.k_idx
    → field v.rows 48 i 24 ≡ parsed (key_word keys)
    → length (key_list keys) < keys_null_flag
    → KeysPacked v c.k_idx at (key_list keys)
    → keys_at v i ≡ parsed keys
unfolding keys_at
keys_at-RowPacked v i c none at s w few h = rw w refl
keys_at-RowPacked v i c (some keys) at s w few h =
    let counted : (length keys == keys_null_flag) ≡ false = ground arith in
    let mask : length keys % keys_null_flag ≡ length keys = omega arith in
    let from : c.k_idx + 0 ≡ c.k_idx = omega arith in
    rw (w, counted, mask, append_keys-Packed v i c.k_idx 0 at keys s (rw from h)) refl

-- The accessors of a packed row give the record.
pub record Shows (v : RecordsView) (i : ℕ) (r : Record) : Type 0 where
  pub id_shown : id_at v i ≡ parsed r.id
  pub keys_shown : keys_at v i ≡ parsed r.keys
  pub payload_shown : payload_at v i ≡ parsed r.payload

RowPacked-Shows :
    (v : RecordsView) (i : ℕ) (c : Cursors) (r : Record) → RowPacked v i c r → Shows v i r
unfolding id_at payload_at
RowPacked-Shows v i c r p = record {
  id_shown = rw (p.id_off, p.id_len) (str-Piece v.blob c.cur r.id p.id_there);
  keys_shown =
      keys_at-RowPacked v i c r.keys (c.cur + length r.id) p.keys_start p.keys_word p.few_keys
        p.keys_there;
  payload_shown = rw (p.payload_off, p.payload_len) (str-Piece v.blob _ r.payload p.payload_there);
}

-- The accessors give the records, from the row `i` on.
abbrev pub ShowsAll : RecordsView → ℕ → List Record → Type 0
ShowsAll v i [] = Unit
ShowsAll v i (r ∷ recs) = Shows v i r × ShowsAll v (i + 1) recs

pub Packed-ShowsAll :
    (v : RecordsView) (i : ℕ) (c : Cursors) (recs : List Record)
    → Packed v i c recs
    → ShowsAll v i recs
Packed-ShowsAll v i c [] p = tt
Packed-ShowsAll v i c (r ∷ recs) (p, more) =
    (RowPacked-Shows v i c r p, Packed-ShowsAll v (i + 1) (behind_row c r) recs more)
