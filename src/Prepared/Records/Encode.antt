-- ===== src/Prepared/Records/Encode.antt =====
-- engine/prepared/encode.go: `encodeRecords`, with the canonical lines that it hashes. `utf8`,
-- `json.Marshal` and the digest of the lines are parameters.
use kurn.Prelude.{
  ℕ, ◌+◌, ◌-◌, ◌*◌, ◌%◌, ◌^◌, Bool, not, Option, none, some, List, [], ◌∷◌, ◌++◌, ltb,
  if◌then◌else◌, length,
}
use kurn.Prelude.Bytes.{Bytes, bytes_eq}
use kurn.Payload.Scalar.{is_empty}
use kurn.Prepared.Words.{put_le}
use kurn.Prepared.Records.{Record, Cursors}
use kurn.Prepared.Records.Packed.{key_list, key_word, span, behind_row}

-- Why a section is not written.
pub data EncodeError : Type 0 where
  empty_id id_not_utf8 key_not_utf8 too_large payload_not_json payload_not_canonical : EncodeError
  no_line line_too_long : EncodeError

pub data Encoded {ℓ} (A : Type ℓ) : Type ℓ where
  encoded : A → Encoded A
  failed : EncodeError → Encoded A

infixl 5 ◌>>=◌
abbrev pub ◌>>=◌ {ℓ κ} : {A : Type ℓ} {B : Type κ} → Encoded A → (A → Encoded B) → Encoded B
encoded a >>= next = next a
failed e >>= next = failed e

abbrev pub fail_if : Bool → EncodeError → Encoded (Unit {0})
fail_if b e = if b then failed e else encoded tt

-- `MaxLine`
abbrev pub max_line : ℕ
max_line = 2 ^ 20

-- `math.MaxInt`
abbrev pub max_int : ℕ
max_int = 2 ^ 63 - 1

-- What the loop of `encodeRecords` has written: the two tables, the blob, and the lines hashed.
pub record Written : Type 0 where
  pub rows : Bytes
  pub key_rows : Bytes
  pub blob : Bytes
  pub lines : Bytes

abbrev pub put_row : Cursors → Record → Bytes
put_row c r =
    put_le 8 c.cur
    ++ (put_le 8 (length r.id)
        ++ (put_le 8 c.k_idx
            ++ (put_le 8 (key_word r.keys)
                ++ (put_le 8 (c.cur + length r.id + span (key_list r.keys))
                    ++ put_le 8 (length r.payload)))))

-- The rows of one record's keys.
abbrev pub put_keys : ℕ → List Bytes → Bytes
put_keys at [] = []
put_keys at (k ∷ keys) = (put_le 8 at ++ put_le 8 (length k)) ++ put_keys (at + length k) keys

abbrev pub keys_bytes : List Bytes → Bytes
keys_bytes [] = []
keys_bytes (k ∷ keys) = k ++ keys_bytes keys

-- One round's writing, before what the later rounds wrote.
abbrev pub write_row : Cursors → Record → Bytes → Written → Written
write_row c r line w = record {
  rows = put_row c r ++ w.rows;
  key_rows = put_keys (c.cur + length r.id) (key_list r.keys) ++ w.key_rows;
  blob = r.id ++ (keys_bytes (key_list r.keys) ++ (r.payload ++ w.blob));
  lines = line ++ (10 ∷ w.lines);
}

abbrev pub n_keys_of : List Record → ℕ
n_keys_of [] = 0
n_keys_of (r ∷ recs) = length (key_list r.keys) + n_keys_of recs

abbrev pub blob_size : List Record → ℕ
blob_size [] = 0
blob_size (r ∷ recs) = length r.id + length r.payload + span (key_list r.keys) + blob_size recs

abbrev pub section_size : List Record → ℕ
section_size recs = 8 + 48 * length recs + 8 + 16 * n_keys_of recs + blob_size recs

module _ (valid : Bytes → Bool) where
  unfoldable pub check_keys : List Bytes → Encoded (Unit {0})
  check_keys [] = encoded tt
  check_keys (k ∷ keys) = fail_if (not (valid k)) key_not_utf8 >>= λ _. check_keys keys

  -- The first loop.
  unfoldable pub check_records : List Record → Encoded (Unit {0})
  unfolding check_keys
  check_records [] = encoded tt
  check_records (r ∷ recs) = fail_if (is_empty r.id) empty_id >>= λ _.
      fail_if (not (valid r.id)) id_not_utf8 >>= λ _.
      check_keys (key_list r.keys) >>= λ _. check_records recs

-- `CanonicalPayload`; a payload that is empty stays so.
unfoldable pub canonical_payload : (Bytes → Option Bytes) → Bytes → Encoded Bytes
canonical_payload canonical p =
    if is_empty p
    then encoded []
    else elim (canonical p) [ none ↦ failed payload_not_json | some c ↦ encoded c ]

-- `lineHasher.add`
unfoldable pub add_line : (Record → Option Bytes) → Record → Encoded Bytes
add_line line r = elim (line r) [
  | none ↦ failed no_line
  | some l ↦ if ltb max_line (length l + 1) then failed line_too_long else encoded l
]

module _ (canonical : Bytes → Option Bytes) (line : Record → Option Bytes) where
  -- The second loop.
  unfoldable pub write_rows : Cursors → List Record → Encoded Written
  unfolding canonical_payload add_line
  write_rows c [] = encoded (record { rows = []; key_rows = []; blob = []; lines = [] })
  write_rows c (r ∷ recs) = canonical_payload canonical r.payload >>= λ canon.
      fail_if (not (bytes_eq canon r.payload)) payload_not_canonical >>= λ _.
      add_line line r >>= λ l. write_rows (behind_row c r) recs >>= λ w. encoded (write_row c r l w)

module _ (valid : Bytes → Bool) (canonical : Bytes → Option Bytes) (line : Record → Option Bytes)
    (digest : Bytes → Bytes) where
  -- The section, the number of its keys and the base ID.
  unfoldable pub encode_records : List Record → Encoded (Bytes × ℕ × Bytes)
  unfolding check_records write_rows
  encode_records recs = check_records valid recs >>= λ _.
      fail_if (ltb max_int (section_size recs % 2 ^ 64)) too_large >>= λ _.
      write_rows canonical line (record { cur = 0; k_idx = 0 }) recs >>= λ w. encoded (
        put_le 8 (length recs) ++ (w.rows ++ (put_le 8 (n_keys_of recs) ++ (w.key_rows ++ w.blob))),
        n_keys_of recs,
        digest w.lines,
      )
