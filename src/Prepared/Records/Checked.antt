-- ===== src/Prepared/Records/Checked.antt =====
-- engine/prepared/encode.go and view.go: what the checks of the writer and of the counts give.
use kurn.Prelude.{
  ◌≡◌, refl, ap, ◌∙◌, ℕ, ◌+◌, ◌-◌, ◌*◌, ◌/◌, ◌≤◌, ◌<◌, Bool, true, false, not, List, [], ◌∷◌, ◌++◌,
  ltb, length, drop, length-append, length-drop, arith,
}
use native.Mathlib.Nat.{le-div_iff_mul-le}
use kurn.Prelude.Bytes.{Bytes}
use kurn.Payload.Scalar.{is_empty}
use kurn.Prepared.Words.{parsed, le, put_le, length-put_le, le-at}
use kurn.Prepared.Records.{Record, max_uint32, Cursors, count}
use kurn.Prepared.Records.Packed.{key_list, behind_row}
use kurn.Prepared.Records.Taken.{AllValid}
use kurn.Prepared.Records.Accepted.{rows_end, AllSound}
use kurn.Prepared.Records.Encode.{
  encoded, fail_if, empty_id, id_not_utf8, key_not_utf8, blob_size, check_keys, check_records,
}
use kurn.Prepared.Records.Laid.{>>=-eq-encoded}

fail_if-passed : (b : Bool) (e : _) (u : Unit {0}) → fail_if b e ≡ encoded u → b ≡ false
fail_if-passed true e u h = cc
fail_if-passed false e u h = refl

module _ (valid : Bytes → Bool) where
  check_keys-AllValid :
      (keys : List Bytes) (u : Unit {0}) → check_keys valid keys ≡ encoded u → AllValid valid keys
  unfolding check_keys
  check_keys-AllValid [] u h = tt
  check_keys-AllValid (k ∷ keys) u h =
      let (a, ok, more) = >>=-eq-encoded (fail_if (not (valid k)) key_not_utf8) _ h in
      let bad = fail_if-passed (not (valid k)) key_not_utf8 a ok in
      (ground arith, check_keys-AllValid keys u more)

  pub check_records-AllSound :
      (recs : List Record) (u : Unit {0})
      → check_records valid recs ≡ encoded u
      → AllSound valid recs
  unfolding check_records
  check_records-AllSound [] u h = tt
  check_records-AllSound (r ∷ recs) u h =
      let (a, ha, h1) = >>=-eq-encoded (fail_if (is_empty r.id) empty_id) _ h in
      let (b, hb, h2) = >>=-eq-encoded (fail_if (not (valid r.id)) id_not_utf8) _ h1 in
      let (c, hc, h3) = >>=-eq-encoded (check_keys valid (key_list r.keys)) _ h2 in
      let bad = fail_if-passed (not (valid r.id)) id_not_utf8 b hb in
      (
        record {
          some_id = named r.id (fail_if-passed (is_empty r.id) empty_id a ha);
          id_valid = ground arith;
          keys_valid = check_keys-AllValid (key_list r.keys) c hc;
        },
        check_records-AllSound recs u h3,
      )
    where
      named : (id : Bytes) → is_empty id ≡ false → 0 < length id
      named [] h = cc
      named (x ∷ id) h = omega arith

-- A count that is written before enough room is read.
pub count-at :
    (b : Bytes) (off elem reserve n : ℕ) (rest : Bytes)
    → off ≤ length b
    → 0 < elem
    → drop off b ≡ put_le 8 n ++ rest
    → n * elem + reserve ≤ length rest
    → n ≤ max_uint32
    → count b off elem reserve ≡ parsed n
unfolding count
count-at b off elem reserve n rest low pos at room few =
    let whole : length (drop off b) ≡ 8 + length rest =
      ap length at
      ∙ length-append (put_le 8 n) rest
      ∙ ap (λ k. k + length rest) (length-put_le 8 n) in
    let long : length b ≡ off + 8 + length rest = omega (arith, length-drop off b) in
    let here : ltb (length b) (off + 8) ≡ false = ground arith in
    let word : le 8 b off ≡ parsed n = le-at 8 n off b rest low (omega arith) at in
    let spare : ltb (length b - off - 8) reserve ≡ false = ground arith in
    let fits : ltb ((length b - off - 8 - reserve) / elem) n ≡ false =
      quotient (length b - off - 8 - reserve) elem n pos (omega arith) in
    let small : ltb max_uint32 n ≡ false = ground arith in
    let some_elem : ltb 0 elem ≡ true = ground arith in
    rw (here, word, spare, some_elem, fits, small) refl
  where
    quotient : (room elem n : ℕ) → 0 < elem → n * elem ≤ room → ltb (room / elem) n ≡ false
    quotient room elem n pos h =
        let enough : n ≤ room / elem = (le-div_iff_mul-le pos).1 h in ground arith

pub rows_end-cur :
    (c : Cursors) (recs : List Record) → (rows_end c recs).cur ≡ c.cur + blob_size recs
rows_end-cur c [] = omega arith
rows_end-cur c (r ∷ recs) = omega (arith, rows_end-cur (behind_row c r) recs)
