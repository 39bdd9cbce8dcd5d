-- ===== src/Prepared/Records/RoundTrip.antt =====
-- engine/prepared/encode.go and view.go: a records section that is written is read back.
use kurn.Prelude.{
  ◌≡◌, refl, sym, ap, ◌∙◌, subst, ℕ, ◌+◌, ◌*◌, ◌%◌, ◌^◌, ◌≤◌, ◌<◌, Bool, Option, List, ◌++◌, ltb,
  ==_refl, length, take, drop, length-append, drop-past, take-past, drop-drop, arith,
}
use kurn.Prelude.Bytes.{Bytes}
use kurn.Prepared.Words.{parsed, put_le, length-put_le}
use kurn.Prepared.Records.{
  Record, RecordsView, max_uint32, count, parse_rows, view_of, parse_records,
}
use kurn.Prepared.Records.Packed.{Packed, ShowsAll, Packed-ShowsAll}
use kurn.Prepared.Records.Accepted.{rows_end, AllSound, start}
use kurn.Prepared.Records.Encode.{
  encoded, fail_if, too_large, max_int, Written, n_keys_of, section_size, check_records, write_rows,
  encode_records,
}
use kurn.Prepared.Records.Laid.{>>=-eq-encoded, encoded-injective}
use kurn.Prepared.Records.Checked.{check_records-AllSound, count-at, rows_end-cur}
use kurn.Prepared.Records.Rows.{Sized, write_rows-Sized, write_rows-Packed}
use kurn.Prepared.Records.Reparse.{parse_rows-Packed}

-- The section, as its parts stand in it.
abbrev laid_out : List Record → Written → Bytes
laid_out recs w =
    put_le 8 (length recs) ++ (w.rows ++ (put_le 8 (n_keys_of recs) ++ (w.key_rows ++ w.blob)))

module _ (valid : Bytes → Bool) (recs : List Record) (w : Written)
    (rows_sized : length w.rows ≡ 48 * length recs)
    (key_rows_sized : length w.key_rows ≡ 16 * n_keys_of recs) where
  written_view : RecordsView
  written_view = record {
    n = length recs;
    rows = w.rows;
    n_keys = n_keys_of recs;
    key_rows = w.key_rows;
    blob = w.blob;
  }

  drop_rows :
      drop (8 + 48 * length recs) (laid_out recs w)
      ≡ put_le 8 (n_keys_of recs) ++ (w.key_rows ++ w.blob)
  unfolding put_le
  drop_rows =
      let behind = put_le 8 (n_keys_of recs) ++ (w.key_rows ++ w.blob) in
      sym (drop-drop (48 * length recs) 8 (laid_out recs w))
      ∙ drop-past (48 * length recs) w.rows behind rows_sized

  drop_key_count : drop (16 + 48 * length recs) (laid_out recs w) ≡ w.key_rows ++ w.blob
  unfolding put_le
  drop_key_count =
      let at : 8 + 48 * length recs + 8 ≡ 16 + 48 * length recs = omega arith in
      subst (λ n. drop n (laid_out recs w) ≡ w.key_rows ++ w.blob) at
        (sym (drop-drop 8 (8 + 48 * length recs) (laid_out recs w)) ∙ ap (drop 8) drop_rows)

  view_of-laid_out : view_of (laid_out recs w) (length recs) (n_keys_of recs) ≡ written_view
  unfolding put_le written_view
  view_of-laid_out =
      let behind = put_le 8 (n_keys_of recs) ++ (w.key_rows ++ w.blob) in
      let rows_same = take-past (48 * length recs) w.rows behind rows_sized in
      let keys_same =
        ap (take (16 * n_keys_of recs)) drop_key_count
        ∙ take-past (16 * n_keys_of recs) w.key_rows w.blob key_rows_sized in
      let blob_same =
        sym (drop-drop (16 * n_keys_of recs) (16 + 48 * length recs) (laid_out recs w))
        ∙ ap (drop (16 * n_keys_of recs)) drop_key_count
        ∙ drop-past (16 * n_keys_of recs) w.key_rows w.blob key_rows_sized in
      λ i. record {
        n = length recs;
        rows = rows_same i;
        n_keys = n_keys_of recs;
        key_rows = keys_same i;
        blob = blob_same i;
      }

  length-tail : length (w.key_rows ++ w.blob) ≡ 16 * n_keys_of recs + length w.blob
  length-tail = omega (arith, length-append w.key_rows w.blob, key_rows_sized)

  length-behind :
      length (w.rows ++ (put_le 8 (n_keys_of recs) ++ (w.key_rows ++ w.blob)))
      ≡ 48 * length recs + 8 + 16 * n_keys_of recs + length w.blob
  length-behind =
      let tail : Bytes = w.key_rows ++ w.blob in
      let counted : Bytes = put_le 8 (n_keys_of recs) in
      omega (
        arith,
        length-append w.rows (counted ++ tail),
        length-append counted tail,
        length-put_le 8 (n_keys_of recs),
        length-tail,
        rows_sized,
      )

  length-laid_out : 8 + 48 * length recs ≤ length (laid_out recs w)
  length-laid_out =
      let behind : Bytes = w.rows ++ (put_le 8 (n_keys_of recs) ++ (w.key_rows ++ w.blob)) in
      omega (
        arith,
        length-append (put_le 8 (length recs)) behind,
        length-put_le 8 (length recs),
        length-behind,
      )

  parse_records-laid_out :
      length recs ≤ max_uint32
      → n_keys_of recs ≤ max_uint32
      → Packed written_view 0 start recs
      → AllSound valid recs
      → (rows_end start recs).cur ≡ length w.blob
      → (rows_end start recs).k_idx ≡ n_keys_of recs
      → parse_records valid (laid_out recs w) ≡ parsed written_view
  unfolding parse_records written_view
  parse_records-laid_out few few_keys packed sounds spent used =
      let b = laid_out recs w in
      let n_read : count b 0 48 8 ≡ parsed (length recs) =
        count-at b 0 48 8 (length recs) _ (omega arith) (omega arith) refl
          (omega (arith, length-behind)) few in
      let nk_read : count b (8 + 48 * length recs) 16 0 ≡ parsed (n_keys_of recs) =
        count-at b (8 + 48 * length recs) 16 0 (n_keys_of recs) _ length-laid_out (omega arith)
          drop_rows (omega (arith, length-tail)) few_keys in
      let rows_read : parse_rows valid written_view (length recs) 0 start
          ≡ parsed (rows_end start recs) =
        parse_rows-Packed valid written_view 0 start recs packed sounds (omega arith) in
      let blob_len : length (view_of b (length recs) (n_keys_of recs)).blob ≡ length w.blob =
        ap (λ (v : RecordsView). length v.blob) view_of-laid_out in
      rw
        (
          n_read,
          nk_read,
          view_of-laid_out,
          rows_read,
          used,
          ==_refl (n_keys_of recs),
          spent,
          blob_len,
          ==_refl (length w.blob),
        )
        refl

-- A records section that is written, for no more records and keys than 32 bits count and with a size
-- below 2^64, is accepted, and its accessors give the records that were written.
pub parse_records-encode_records :
    (valid : Bytes → Bool) (canonical : Bytes → Option Bytes) (line : Record → Option Bytes)
    (digest : Bytes → Bytes) (recs : List Record) (b : Bytes) (nk : ℕ) (base_id : Bytes)
    → encode_records valid canonical line digest recs ≡ encoded (b, nk, base_id)
    → section_size recs < 2 ^ 64
    → length recs ≤ max_uint32
    → n_keys_of recs ≤ max_uint32
    → (v : RecordsView) × (parse_records valid b ≡ parsed v)
      × (v.n ≡ length recs)
      × (v.n_keys ≡ nk)
      × ShowsAll v 0 recs
unfolding encode_records written_view
parse_records-encode_records valid canonical line digest recs b nk base_id h fits few few_keys =
    let (u, checked, h1) = >>=-eq-encoded (check_records valid recs) _ h in
    let (_, _, h2) =
      >>=-eq-encoded (fail_if (ltb max_int (section_size recs % 2 ^ 64)) too_large) _ h1 in
    let (w, written, h3) = >>=-eq-encoded (write_rows canonical line start recs) _ h2 in
    finish w written (encoded-injective h3) (check_records-AllSound valid recs u checked)
      (write_rows-Sized canonical line start recs w written)
  where
    finish :
        (w : Written)
        → write_rows canonical line start recs ≡ encoded w
        → ◌≡◌ {A = Bytes × ℕ × Bytes}
            (laid_out recs w, n_keys_of recs, digest w.lines)
            (b, nk, base_id)
        → AllSound valid recs
        → Sized start recs w
        → (v : RecordsView) × (parse_records valid b ≡ parsed v)
          × (v.n ≡ length recs)
          × (v.n_keys ≡ nk)
          × ShowsAll v 0 recs
    finish w written same sounds s =
        let v = written_view valid recs w s.rows_sized s.key_rows_sized in
        let small : length w.blob < 256 ^ 8 =
          omega (arith, s.blob_sized, rows_end-cur start recs) in
        let packed : Packed v 0 start recs =
          write_rows-Packed canonical line v 0 start recs w small (omega arith) (omega arith) refl
            refl refl written in
        let read =
          parse_records-laid_out valid recs w s.rows_sized s.key_rows_sized few few_keys packed
            sounds (omega (arith, s.blob_sized)) (omega (arith, s.keys_counted)) in
        (
          v,
          ap (parse_records valid) (sym (ap (λ (t : Bytes × ℕ × Bytes). t.0) same)) ∙ read,
          refl,
          ap (λ (t : Bytes × ℕ × Bytes). t.1) same,
          Packed-ShowsAll v 0 start recs packed,
        )
