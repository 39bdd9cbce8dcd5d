-- ===== src/Prepared/Records/Rows.antt =====
-- engine/prepared/encode.go: all the records that the second loop of `encodeRecords` has written.
use kurn.Prelude.{
  ◌≡◌, refl, sym, ap, ◌∙◌, subst, ℕ, ◌+◌, ◌*◌, ◌^◌, ◌≤◌, ◌<◌, not, Option, List, [], ◌∷◌, ◌++◌,
  length, drop, length-append, arith,
}
use kurn.Prelude.Bytes.{Bytes, bytes_eq}
use kurn.Prepared.Words.{put_le}
use kurn.Prepared.Records.{Record, RecordsView, keys_null_flag, Cursors}
use kurn.Prepared.Records.Packed.{key_list, behind_row, Packed}
use kurn.Prepared.Records.Accepted.{rows_end}
use kurn.Prepared.Records.Encode.{
  encoded, fail_if, payload_not_canonical, Written, put_row, put_keys, keys_bytes, write_row,
  n_keys_of, canonical_payload, add_line, write_rows,
}
use kurn.Prepared.Records.Laid.{
  >>=-eq-encoded, encoded-injective, drop-next, length-keys_bytes, row-RowPacked,
}

length-put_keys : (at : ℕ) (keys : List Bytes) → length (put_keys at keys) ≡ 16 * length keys
unfolding put_le
length-put_keys at [] = refl
length-put_keys at (k ∷ keys) = omega (arith, length-put_keys (at + length k) keys)

-- The sizes of what has been written.
pub record Sized (c : Cursors) (recs : List Record) (w : Written) : Type 0 where
  pub rows_sized : length w.rows ≡ 48 * length recs
  pub key_rows_sized : length w.key_rows ≡ 16 * n_keys_of recs
  pub blob_sized : (rows_end c recs).cur ≡ c.cur + length w.blob
  pub keys_counted : (rows_end c recs).k_idx ≡ c.k_idx + n_keys_of recs

module _ (canonical : Bytes → Option Bytes) (line : Record → Option Bytes) where
  -- What one round adds.
  write_rows-cons :
      (c : Cursors) (r : Record) (recs : List Record) (w : Written)
      → write_rows canonical line c (r ∷ recs) ≡ encoded w
      → (l : Bytes) × (more : Written) × (write_rows canonical line (behind_row c r) recs
          ≡ encoded more)
        × (write_row c r l more ≡ w)
  unfolding write_rows
  write_rows-cons c r recs w h =
      let (canon, _, h1) = >>=-eq-encoded (canonical_payload canonical r.payload) _ h in
      let (_, _, h2) =
        >>=-eq-encoded (fail_if (not (bytes_eq canon r.payload)) payload_not_canonical) _ h1 in
      let (l, _, h3) = >>=-eq-encoded (add_line line r) _ h2 in
      let (more, written, h4) =
        >>=-eq-encoded (write_rows canonical line (behind_row c r) recs) _ h3 in
      (l, more, written, encoded-injective h4)

  pub write_rows-Sized :
      (c : Cursors) (recs : List Record) (w : Written)
      → write_rows canonical line c recs ≡ encoded w
      → Sized c recs w
  unfolding write_rows put_le
  write_rows-Sized c [] w h = subst (Sized c []) (encoded-injective h) (record {
    rows_sized = refl;
    key_rows_sized = refl;
    blob_sized = omega arith;
    keys_counted = omega arith;
  })
  write_rows-Sized c (r ∷ recs) w h =
      let (l, more, written, e) = write_rows-cons c r recs w h in
      subst (Sized c (r ∷ recs)) e
        (one_more l more (write_rows-Sized (behind_row c r) recs more written))
    where
      one_more :
          (l : Bytes) (more : Written)
          → Sized (behind_row c r) recs more
          → Sized c (r ∷ recs) (write_row c r l more)
      one_more l more s =
          let ks = keys_bytes (key_list r.keys) in
          record {
            rows_sized = omega (arith, length-append (put_row c r) more.rows, s.rows_sized);
            key_rows_sized = omega (
              arith,
              length-append (put_keys (c.cur + length r.id) (key_list r.keys)) more.key_rows,
              length-put_keys (c.cur + length r.id) (key_list r.keys),
              s.key_rows_sized,
            );
            blob_sized = omega (
              arith,
              length-append r.id (ks ++ (r.payload ++ more.blob)),
              length-append ks (r.payload ++ more.blob),
              length-append r.payload more.blob,
              length-keys_bytes (key_list r.keys),
              s.blob_sized,
            );
            keys_counted = omega (arith, s.keys_counted);
          }

  pub write_rows-Packed :
      (v : RecordsView) (i : ℕ) (c : Cursors) (recs : List Record) (w : Written)
      → length v.blob < 256 ^ 8
      → c.cur ≤ length v.blob
      → c.k_idx + n_keys_of recs < keys_null_flag
      → drop (48 * i) v.rows ≡ w.rows
      → drop (16 * c.k_idx) v.key_rows ≡ w.key_rows
      → drop c.cur v.blob ≡ w.blob
      → write_rows canonical line c recs ≡ encoded w
      → Packed v i c recs
  unfolding put_le
  write_rows-Packed v i c [] w fits low few hr hk hb h = tt
  write_rows-Packed v i c (r ∷ recs) w fits low few hr hk hb h =
      let (l, more, written, e) = write_rows-cons c r recs w h in
      let rows_at : drop (48 * i) v.rows ≡ put_row c r ++ more.rows =
        hr ∙ ap (λ (x : Written). x.rows) (sym e) in
      let keys_row : Bytes = put_keys (c.cur + length r.id) (key_list r.keys) in
      let keys_at : drop (16 * c.k_idx) v.key_rows ≡ keys_row ++ more.key_rows =
        hk ∙ ap (λ (x : Written). x.key_rows) (sym e) in
      let (packed, blob_next, low') =
        row-RowPacked v i c r more.rows more.key_rows more.blob fits low (omega arith) rows_at
          keys_at (hb ∙ ap (λ (x : Written). x.blob) (sym e)) in
      let size : length keys_row ≡ 16 * length (key_list r.keys) =
        length-put_keys (c.cur + length r.id) (key_list r.keys) in
      let row_next : 48 * i + 48 ≡ 48 * (i + 1) = omega arith in
      let key_next : 16 * c.k_idx + length keys_row ≡ 16 * (behind_row c r).k_idx = omega arith in
      (
        packed,
        write_rows-Packed v (i + 1) (behind_row c r) recs more fits low' (omega arith)
            (subst (λ n. drop n v.rows ≡ more.rows) row_next
              (drop-next (48 * i) v.rows (put_row c r) more.rows rows_at))
            (subst (λ n. drop n v.key_rows ≡ more.key_rows) key_next
              (drop-next (16 * c.k_idx) v.key_rows keys_row more.key_rows keys_at))
            blob_next written,
      )
