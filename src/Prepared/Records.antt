-- ===== src/Prepared/Records.antt =====
-- engine/prepared/view.go and engine/prepared/encode.go: the records section, its parser, its
-- accessors and its writer. `utf8.Valid` and `json.Marshal` are parameters.
pub mod Taken
pub mod Parts
pub mod Accepted
pub mod Encode
pub mod Laid
pub mod Rows
pub mod Reparse
pub mod Checked
pub mod RoundTrip
pub mod Packed
use kurn.Prelude.{
  ℕ, zero, suc, ◌+◌, ◌-◌, ◌*◌, ◌/◌, ◌%◌, ◌^◌, Bool, true, false, not, ◌&&◌, Option, none, some,
  List, [], ◌∷◌, ◌++◌, ltb, leb, ◌==◌, if◌then◌else◌, length, take, drop,
}
use kurn.Prelude.Bytes.{Bytes, bytes_eq}
use kurn.Payload.Scalar.{is_empty}
use kurn.Prepared.Words.{malformed, Parsed, parsed, refused, panicked, ◌>>=◌, le, put_le}
use kurn.Prepared.Format.{refuse_if}

-- `Record`; its keys are none where Go's slice is nil.
pub record Record : Type 0 where
  pub id : Bytes
  pub keys : Option (List Bytes)
  pub payload : Bytes

-- What `parseRecords` leaves in the `View`.
pub record RecordsView : Type 0 where
  pub n : ℕ
  pub rows : Bytes
  pub n_keys : ℕ
  pub key_rows : Bytes
  pub blob : Bytes

abbrev pub max_uint32 : ℕ
max_uint32 = 2 ^ 32 - 1

-- `keysNullFlag`: bit 63 is set in the 64-bit words that are no less.
abbrev pub keys_null_flag : ℕ
keys_null_flag = 2 ^ 63

-- `le64(table[width*i:], k)`
abbrev pub field : Bytes → ℕ → ℕ → ℕ → Parsed ℕ
field table width i k = le 8 table (width * i + k)

-- `str`, and the slice of `Payload`; a read past the blob is out of range.
unfoldable pub str : Bytes → ℕ → ℕ → Parsed Bytes
str blob off n =
    if n == 0
    then parsed []
    else if ltb (length blob) (off + n)
    then panicked
    else parsed (take n (drop off blob))

-- `ID`
unfoldable pub id_at : RecordsView → ℕ → Parsed Bytes
unfolding str
id_at v i = field v.rows 48 i 0 >>= λ off. field v.rows 48 i 8 >>= λ n. str v.blob off n

-- `Key`
unfoldable pub key_at : RecordsView → ℕ → ℕ → Parsed Bytes
unfolding str
key_at v i j = field v.rows 48 i 16 >>= λ ks. field v.key_rows 16 (ks + j) 0 >>= λ off.
    field v.key_rows 16 (ks + j) 8 >>= λ n. str v.blob off n

-- `AppendKeys`, with `count` keys to go from the `j`th.
unfoldable pub append_keys : RecordsView → ℕ → ℕ → ℕ → Parsed (List Bytes)
unfolding key_at
append_keys v i zero j = parsed []
append_keys v i (suc count) j =
    key_at v i j >>= λ k. append_keys v i count (j + 1) >>= λ more. parsed (k ∷ more)

-- `Keys`, with `KeysNull` and `KeyCount`
unfoldable pub keys_at : RecordsView → ℕ → Parsed (Option (List Bytes))
unfolding append_keys
keys_at v i = field v.rows 48 i 24 >>= λ kc.
    if kc == keys_null_flag
    then parsed none
    else (append_keys v i (kc % keys_null_flag) 0 >>= λ keys. parsed (some keys))

-- `Payload`; nil is empty.
unfoldable pub payload_at : RecordsView → ℕ → Parsed Bytes
unfolding str
payload_at v i = field v.rows 48 i 32 >>= λ off. field v.rows 48 i 40 >>= λ n. str v.blob off n

-- `count`
unfoldable pub count : Bytes → ℕ → ℕ → ℕ → Parsed ℕ
count b off elem reserve = refuse_if (ltb (length b) (off + 8)) malformed >>= λ _.
    le 8 b off >>= λ n. refuse_if (ltb (length b - off - 8) reserve) malformed >>= λ _.
    refuse_if (ltb 0 elem && ltb ((length b - off - 8 - reserve) / elem) n) malformed >>= λ _.
    refuse_if (ltb max_uint32 n) malformed >>= λ _. parsed n

-- Where the loop of `parseRecords` stands: in the blob and in the key table.
pub record Cursors : Type 0 where
  pub cur : ℕ
  pub k_idx : ℕ

-- The parts of a section of `n` records and `nk` keys.
abbrev pub view_of : Bytes → ℕ → ℕ → RecordsView
view_of b n nk = record {
  n = n;
  rows = take (48 * n) (drop 8 b);
  n_keys = nk;
  key_rows = take (16 * nk) (drop (16 + 48 * n) b);
  blob = drop (16 + 48 * n + 16 * nk) b;
}

module _ (valid : Bytes → Bool) where
  -- `take`: the cursor behind the string. A payload is not checked to be UTF-8.
  unfoldable pub take_str : Bool → Bytes → ℕ → ℕ → ℕ → Parsed ℕ
  take_str checked blob cur off n = refuse_if (not (off == cur)) malformed >>= λ _.
      refuse_if (ltb (length blob - cur) n) malformed >>= λ _.
      refuse_if (checked && not (valid (take n (drop cur blob)))) malformed >>= λ _.
      parsed (cur + n)

  -- The keys of one record, `kc` to go.
  unfoldable pub parse_keys : RecordsView → ℕ → Cursors → Parsed Cursors
  unfolding take_str
  parse_keys v zero c = parsed c
  parse_keys v (suc kc) c = field v.key_rows 16 c.k_idx 0 >>= λ off.
      field v.key_rows 16 c.k_idx 8 >>= λ n. take_str true v.blob c.cur off n >>= λ cur.
      parse_keys v kc (record { cur = cur; k_idx = c.k_idx + 1 })

  -- The parts of the body of the loop of `parseRecords`: the ID, the keys, the payload.
  unfoldable pub take_id : RecordsView → ℕ → Cursors → Parsed Cursors
  unfolding take_str
  take_id v i c = field v.rows 48 i 8 >>= λ id_len. refuse_if (id_len == 0) malformed >>= λ _.
      field v.rows 48 i 0 >>= λ id_off. take_str true v.blob c.cur id_off id_len >>= λ cur.
      parsed (record { cur = cur; k_idx = c.k_idx })

  unfoldable pub take_keys : RecordsView → ℕ → Cursors → Parsed Cursors
  unfolding parse_keys
  take_keys v i c = field v.rows 48 i 16 >>= λ ks. field v.rows 48 i 24 >>= λ kc.
      refuse_if (leb keys_null_flag kc && not (kc == keys_null_flag)) malformed >>= λ _.
      refuse_if (not (ks == c.k_idx)) malformed >>= λ _.
      refuse_if (ltb (v.n_keys - c.k_idx) (kc % keys_null_flag)) malformed >>= λ _.
      parse_keys v (kc % keys_null_flag) c

  unfoldable pub take_payload : RecordsView → ℕ → Cursors → Parsed Cursors
  unfolding take_str
  take_payload v i c = field v.rows 48 i 32 >>= λ off. field v.rows 48 i 40 >>= λ n.
      take_str false v.blob c.cur off n >>= λ cur. parsed (record { cur = cur; k_idx = c.k_idx })

  unfoldable pub parse_row : RecordsView → ℕ → Cursors → Parsed Cursors
  unfolding take_id take_keys take_payload
  parse_row v i c = take_id v i c >>= λ d. take_keys v i d >>= λ e. take_payload v i e

  -- The loop of `parseRecords`, with `rounds` records to go from the `i`th.
  unfoldable pub parse_rows : RecordsView → ℕ → ℕ → Cursors → Parsed Cursors
  unfolding parse_row
  parse_rows v zero i c = parsed c
  parse_rows v (suc rounds) i c = parse_row v i c >>= λ d. parse_rows v rounds (i + 1) d

  unfoldable pub parse_records : Bytes → Parsed RecordsView
  unfolding count parse_rows
  parse_records b = count b 0 48 8 >>= λ n. count b (8 + 48 * n) 16 0 >>= λ nk.
      parse_rows (view_of b n nk) n 0 (record { cur = 0; k_idx = 0 }) >>= λ c.
      refuse_if (not (c.k_idx == nk)) malformed >>= λ _.
      refuse_if (not (c.cur == length (view_of b n nk).blob)) malformed >>= λ _.
      parsed (view_of b n nk)
