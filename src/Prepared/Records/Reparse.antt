-- ===== src/Prepared/Records/Reparse.antt =====
-- engine/prepared/view.go: the loop of `parseRecords` accepts records that are packed.
use kurn.Prelude.{
  ◌≡◌, refl, ap, ◌∙◌, ℕ, suc, ◌+◌, ◌-◌, ◌%◌, ◌≤◌, ◌<◌, Bool, true, false, not, ◌&&◌, Option, none,
  some, List, [], ◌∷◌, ltb, leb, ◌==◌, ==_refl, length, arith,
}
use kurn.Prelude.Bytes.{Bytes}
use kurn.Prepared.Words.{parsed}
use kurn.Prepared.Records.{
  Record, RecordsView, keys_null_flag, field, Cursors, take_str, parse_keys, take_id, take_keys,
  take_payload, parse_row, parse_rows,
}
use kurn.Prepared.Records.Packed.{
  Piece, key_list, key_word, span, KeysPacked, behind_row, RowPacked, Packed,
}
use kurn.Prepared.Records.Taken.{AllValid}
use kurn.Prepared.Records.Accepted.{rows_end, IsSound, AllSound}
use kurn.Prepared.Records.Encode.{n_keys_of}

module _ (valid : Bytes → Bool) where
  take_str-Piece :
      (checked : Bool) (blob : Bytes) (at : ℕ) (s : Bytes)
      → Piece blob at s
      → (checked && not (valid s)) ≡ false
      → take_str valid checked blob at at (length s) ≡ parsed (at + length s)
  unfolding take_str
  take_str-Piece checked blob at s p ok =
      let fits : ltb (length blob - at) (length s) ≡ false = ground (arith, p.inside) in
      rw (==_refl at, fits, p.there, ok) refl

  sound : (s : Bytes) → valid s ≡ true → (true && not (valid s)) ≡ false
  sound s h = rw h refl

  parse_keys-KeysPacked :
      (v : RecordsView) (c : Cursors) (keys : List Bytes)
      → KeysPacked v c.k_idx c.cur keys
      → AllValid valid keys
      → parse_keys valid v (length keys) c
        ≡ parsed (record { cur = c.cur + span keys; k_idx = c.k_idx + length keys })
  unfolding parse_keys
  parse_keys-KeysPacked v c [] h ok =
      let cur_same : c.cur ≡ c.cur + 0 = omega arith in
      let idx_same : c.k_idx ≡ c.k_idx + 0 = omega arith in
      ap parsed (λ t. record { cur = cur_same t; k_idx = idx_same t })
  parse_keys-KeysPacked v c (k ∷ keys) (f0, f8, p, h) (ok, oks) =
      let next : Cursors = record { cur = c.cur + length k; k_idx = c.k_idx + 1 } in
      let far : c.cur + length k + span keys ≡ c.cur + (length k + span keys) = omega arith in
      let idx : c.k_idx + 1 + length keys ≡ c.k_idx + suc (length keys) = omega arith in
      rw (f0, f8, take_str-Piece true v.blob c.cur k p (sound k ok))
        (parse_keys-KeysPacked v next keys h oks
          ∙ ap parsed (λ t. record { cur = far t; k_idx = idx t }))

  take_keys-RowPacked :
      (v : RecordsView) (i : ℕ) (c : Cursors) (keys : Option (List Bytes))
      → field v.rows 48 i 16 ≡ parsed c.k_idx
      → field v.rows 48 i 24 ≡ parsed (key_word keys)
      → length (key_list keys) < keys_null_flag
      → c.k_idx + length (key_list keys) ≤ v.n_keys
      → KeysPacked v c.k_idx c.cur (key_list keys)
      → AllValid valid (key_list keys)
      → take_keys valid v i c
        ≡ parsed (record {
          cur = c.cur + span (key_list keys);
          k_idx = c.k_idx + length (key_list keys);
        })
  unfolding take_keys
  take_keys-RowPacked v i c none f16 f24 few room packed oks =
      let fits : ltb (v.n_keys - c.k_idx) 0 ≡ false = ground arith in
      rw (f16, f24, ==_refl c.k_idx, fits) (parse_keys-KeysPacked v c [] packed oks)
  take_keys-RowPacked v i c (some keys) f16 f24 few room packed oks =
      let counted : leb keys_null_flag (length keys) ≡ false = ground arith in
      let mask : length keys % keys_null_flag ≡ length keys = omega arith in
      let fits : ltb (v.n_keys - c.k_idx) (length keys) ≡ false = ground arith in
      rw (f16, f24, counted, ==_refl c.k_idx, mask, fits)
        (parse_keys-KeysPacked v c keys packed oks)

  parse_row-RowPacked :
      (v : RecordsView) (i : ℕ) (c : Cursors) (r : Record)
      → RowPacked v i c r
      → IsSound valid r
      → c.k_idx + length (key_list r.keys) ≤ v.n_keys
      → parse_row valid v i c ≡ parsed (behind_row c r)
  unfolding parse_row take_id take_payload
  parse_row-RowPacked v i c r p s room =
      let named : (length r.id == 0) ≡ false = ground (arith, s.some_id) in
      let behind_id : Cursors = record { cur = c.cur + length r.id; k_idx = c.k_idx } in
      let id_taken = take_str-Piece true v.blob c.cur r.id p.id_there (sound r.id s.id_valid) in
      let keys_taken =
        take_keys-RowPacked v i behind_id r.keys p.keys_start p.keys_word p.few_keys room
          p.keys_there s.keys_valid in
      let load_taken = take_str-Piece false v.blob _ r.payload p.payload_there refl in
      rw (p.id_len, named, p.id_off, id_taken, keys_taken, p.payload_off, p.payload_len, load_taken)
        refl

  pub parse_rows-Packed :
      (v : RecordsView) (i : ℕ) (c : Cursors) (recs : List Record)
      → Packed v i c recs
      → AllSound valid recs
      → c.k_idx + n_keys_of recs ≤ v.n_keys
      → parse_rows valid v (length recs) i c ≡ parsed (rows_end c recs)
  unfolding parse_rows
  parse_rows-Packed v i c [] packed sounds room = refl
  parse_rows-Packed v i c (r ∷ recs) (p, packed) (s, sounds) room =
      rw (parse_row-RowPacked v i c r p s (omega arith))
        (parse_rows-Packed v (i + 1) (behind_row c r) recs packed sounds (omega arith))
