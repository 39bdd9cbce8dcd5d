-- ===== src/Prepared/Records/Laid.antt =====
-- engine/prepared/encode.go: where `encodeRecords` puts the parts of each record.
use kurn.Prelude.{
  ◌≡◌, refl, sym, ap, ◌∙◌, subst, ℕ, ◌+◌, ◌*◌, ◌^◌, ◌≤◌, ◌<◌, Option, none, some, List, [], ◌∷◌,
  ◌++◌, append_assoc, length, take, drop, length-append, length-drop, drop-past, take-past,
  drop-drop, arith,
}
use kurn.Prelude.Bytes.{Bytes}
use kurn.Prepared.Words.{parsed, put_le, length-put_le, le-at}
use kurn.Prepared.Records.{Record, RecordsView, keys_null_flag, field, Cursors}
use kurn.Prepared.Records.Packed.{
  Piece, key_list, key_word, span, KeysPacked, behind_row, RowPacked,
}
use kurn.Prepared.Records.Encode.{Encoded, encoded, failed, ◌>>=◌, put_row, put_keys, keys_bytes}

pub >>=-eq-encoded {ℓ κ} :
    {A : Type ℓ} {B : Type κ} (first : Encoded A) (next : A → Encoded B) {b : B}
    → (first >>= next) ≡ encoded b
    → (a : A) × (first ≡ encoded a) × (next a ≡ encoded b)
>>=-eq-encoded (encoded a) next h = (a, refl, h)
>>=-eq-encoded (failed e) next h = cc

pub encoded-injective {ℓ} : {A : Type ℓ} {x y : A} → encoded x ≡ encoded y → x ≡ y
encoded-injective h = cc

pub drop-next : (at : ℕ) (b s rest : Bytes) → drop at b ≡ s ++ rest → drop (at + length s) b ≡ rest
drop-next at b s rest h =
    sym (drop-drop (length s) at b) ∙ ap (drop (length s)) h ∙ drop-past (length s) s rest refl

drop-fits :
    (at : ℕ) (b s rest : Bytes) → at ≤ length b → drop at b ≡ s ++ rest → at + length s ≤ length b
drop-fits at b s rest low h =
    let whole : length (drop at b) ≡ length s + length rest = ap length h ∙ length-append s rest in
    omega (arith, length-drop at b)

drop-Piece : (at : ℕ) (b s rest : Bytes) → at ≤ length b → drop at b ≡ s ++ rest → Piece b at s
drop-Piece at b s rest low h = record {
  inside = drop-fits at b s rest low h;
  there = ap (take (length s)) h ∙ take-past (length s) s rest refl;
}

field-at :
    (table : Bytes) (width i k v : ℕ) (rest : Bytes)
    → drop k (drop (width * i) table) ≡ put_le 8 v ++ rest
    → v < 256 ^ 8
    → field table width i k ≡ parsed v
field-at table width i k v rest h fits =
    let at : drop (width * i + k) table ≡ put_le 8 v ++ rest =
      sym (drop-drop k (width * i) table) ∙ h in
    let whole : length (drop (width * i + k) table) ≡ length (put_le 8 v) + length rest =
      ap length at ∙ length-append (put_le 8 v) rest in
    le-at 8 v (width * i + k) table rest
      (omega (arith, length-put_le 8 v, length-drop (width * i + k) table)) fits at

pub length-keys_bytes : (keys : List Bytes) → length (keys_bytes keys) ≡ span keys
length-keys_bytes [] = refl
length-keys_bytes (k ∷ keys) =
    omega (arith, length-append k (keys_bytes keys), length-keys_bytes keys)

put_keys-KeysPacked :
    (v : RecordsView) (j at : ℕ) (keys : List Bytes) (more_rows more : Bytes)
    → length v.blob < 256 ^ 8
    → at ≤ length v.blob
    → drop (16 * j) v.key_rows ≡ put_keys at keys ++ more_rows
    → drop at v.blob ≡ keys_bytes keys ++ more
    → KeysPacked v j at keys
unfolding put_le
put_keys-KeysPacked v j at [] more_rows more fits low hr hb = tt
put_keys-KeysPacked v j at (k ∷ keys) more_rows more fits low hr hb =
    let after : Bytes = put_keys (at + length k) keys ++ more_rows in
    let here : drop at v.blob ≡ k ++ (keys_bytes keys ++ more) =
      hb ∙ append_assoc k (keys_bytes keys) more in
    let row : Bytes = put_le 8 at ++ put_le 8 (length k) in
    let there : drop (16 * j) v.key_rows ≡ row ++ after =
      hr ∙ append_assoc row (put_keys (at + length k) keys) more_rows in
    let inside : at + length k ≤ length v.blob = drop-fits at v.blob k _ low here in
    let next : 16 * j + 16 ≡ 16 * (j + 1) = omega arith in
    (
      field-at v.key_rows 16 j 0 at _ there (omega arith),
      field-at v.key_rows 16 j 8 (length k) after (ap (drop 8) there) (omega arith),
      drop-Piece at v.blob k _ low here,
      put_keys-KeysPacked v (j + 1) (at + length k) keys more_rows more fits inside
          (subst (λ o. drop o v.key_rows ≡ after) next
            (drop-next (16 * j) v.key_rows row after there))
          (drop-next at v.blob k _ here),
    )

-- The blob, from a record's strings on.
abbrev pub strings : Record → Bytes → Bytes
strings r more = r.id ++ (keys_bytes (key_list r.keys) ++ (r.payload ++ more))

-- One round leaves a row, its keys and its strings where the reader looks for them.
pub row-RowPacked :
    (v : RecordsView) (i : ℕ) (c : Cursors) (r : Record) (rows keys more : Bytes)
    → length v.blob < 256 ^ 8
    → c.cur ≤ length v.blob
    → c.k_idx + length (key_list r.keys) < keys_null_flag
    → drop (48 * i) v.rows ≡ put_row c r ++ rows
    → drop (16 * c.k_idx) v.key_rows ≡ put_keys (c.cur + length r.id) (key_list r.keys) ++ keys
    → drop c.cur v.blob ≡ strings r more
    → RowPacked v i c r
      × (drop (behind_row c r).cur v.blob ≡ more)
      × ((behind_row c r).cur ≤ length v.blob)
unfolding put_le
row-RowPacked v i c r rows keys more fits low few hr hk hb =
    let ks = keys_bytes (key_list r.keys) in
    let id_in : c.cur + length r.id ≤ length v.blob =
      drop-fits c.cur v.blob r.id (ks ++ (r.payload ++ more)) low hb in
    let at_keys : drop (c.cur + length r.id) v.blob ≡ ks ++ (r.payload ++ more) =
      drop-next c.cur v.blob r.id (ks ++ (r.payload ++ more)) hb in
    let size : length ks ≡ span (key_list r.keys) = length-keys_bytes (key_list r.keys) in
    let keys_in : c.cur + length r.id + span (key_list r.keys) ≤ length v.blob =
      subst (λ n. c.cur + length r.id + n ≤ length v.blob) size
        (drop-fits (c.cur + length r.id) v.blob ks (r.payload ++ more) id_in at_keys) in
    let at_load : drop (c.cur + length r.id + span (key_list r.keys)) v.blob ≡ r.payload ++ more =
      subst (λ n. drop (c.cur + length r.id + n) v.blob ≡ r.payload ++ more) size
        (drop-next (c.cur + length r.id) v.blob ks (r.payload ++ more) at_keys) in
    let load_in : (behind_row c r).cur ≤ length v.blob =
      drop-fits _ v.blob r.payload more keys_in at_load in
    let word_fits : key_word r.keys < 256 ^ 8 = key_word-fits r.keys (omega arith) in
    (
      record {
        id_off = field-at v.rows 48 i 0 c.cur _ hr (omega arith);
        id_len = field-at v.rows 48 i 8 (length r.id) _ (ap (drop 8) hr) (omega arith);
        id_there = drop-Piece c.cur v.blob r.id (ks ++ (r.payload ++ more)) low hb;
        keys_start = field-at v.rows 48 i 16 c.k_idx _ (ap (drop 16) hr) (omega arith);
        keys_word = field-at v.rows 48 i 24 (key_word r.keys) _ (ap (drop 24) hr) word_fits;
        few_keys = omega arith;
        keys_there =
            put_keys-KeysPacked v c.k_idx (c.cur + length r.id) (key_list r.keys) keys
              (r.payload ++ more) fits id_in hk at_keys;
        payload_off =
            field-at v.rows 48 i 32 (c.cur + length r.id + span (key_list r.keys)) _
              (ap (drop 32) hr) (omega arith);
        payload_len =
            field-at v.rows 48 i 40 (length r.payload) rows (ap (drop 40) hr) (omega arith);
        payload_there = drop-Piece _ v.blob r.payload more keys_in at_load;
      },
      drop-next _ v.blob r.payload more at_load,
      load_in,
    )
  where
    key_word-fits :
        (keys : Option (List Bytes))
        → length (key_list keys) < keys_null_flag
        → key_word keys < 256 ^ 8
    key_word-fits none h = omega arith
    key_word-fits (some ks) h = omega arith
