-- ===== src/Samples/Records.antt =====
-- The theorems on the records section at a small one.
use kurn.Prelude.{◌≡◌, refl, ℕ, Bool, true, Option, none, some, List, [], ◌∷◌, arith}
use kurn.Prelude.Bytes.{Bytes}
use kurn.Prepared.Words.{parsed, read_le, put_le}
use kurn.Prepared.Records.{
  Record, RecordsView, str, count, take_str, parse_keys, take_id, take_keys, take_payload,
  parse_row, parse_rows, parse_records,
}
use kurn.Prepared.Records.Packed.{ShowsAll}
use kurn.Prepared.Records.Accepted.{Serves, parse_records-Serves}
use kurn.Prepared.Records.Encode.{
  encoded, failed, check_keys, check_records, canonical_payload, add_line, write_rows,
  encode_records,
}
use kurn.Prepared.Records.{id_at}
use kurn.Prepared.Ids.{check_ids, parse_ids, lookup}
use kurn.Prepared.Ids.Lookup.{Finds, lookup-Finds}
use kurn.Prepared.ExactSection.{check_run, check_exact_keys, exact_view_of, parse_exact_section}
use kurn.Prepared.ExactSection.Accepted.{Indexed, exact_index-parse_exact_section}
use kurn.Exact.Index.{Index}
use kurn.Prelude.Dict.{Dict}
use kurn.Prepared.Records.RoundTrip.{parse_records-encode_records}

abbrev pub utf8 : Bytes → Bool
utf8 s = true

abbrev compact_json : Bytes → Option Bytes
compact_json = some

abbrev id_line : Record → Option Bytes
id_line r = some r.id

abbrev no_hash : Bytes → Bytes
no_hash b = b

-- One record with two keys and a payload, and one without a key list.
abbrev two_records : List Record
two_records =
    record { id = 97 ∷ []; keys = some ((107 ∷ 49 ∷ []) ∷ [] ∷ []); payload = 49 ∷ [] }
    ∷ record { id = 98 ∷ 99 ∷ []; keys = none; payload = [] }
    ∷ []

unfoldable pub small_section : Bytes
unfolding put_le check_keys check_records canonical_payload add_line write_rows encode_records
small_section = elim (encode_records utf8 compact_json id_line no_hash two_records) [
  | encoded (b, _, _) ↦ b
  | failed _ ↦ []
]

unfoldable small_view : RecordsView
unfolding small_section str count take_str parse_keys take_id take_keys take_payload parse_row
    parse_rows parse_records read_le
small_view = elim (parse_records utf8 small_section) [
  | parsed v ↦ v
  | _ ↦ record { n = 0; rows = []; n_keys = 0; key_rows = []; blob = [] }
]

small_section-written :
    encode_records utf8 compact_json id_line no_hash two_records
    ≡ encoded (small_section, 2, 97 ∷ 10 ∷ 98 ∷ 99 ∷ 10 ∷ [])
unfolding small_section put_le check_keys check_records canonical_payload add_line write_rows
    encode_records
small_section-written = refl

small_section-parsed : parse_records utf8 small_section ≡ parsed small_view
unfolding small_view small_section put_le check_keys check_records canonical_payload add_line
    write_rows encode_records str count take_str parse_keys take_id take_keys take_payload parse_row
    parse_rows parse_records read_le
small_section-parsed = refl

parse_records-Serves_example : (recs : List Record) × Serves utf8 small_view recs
parse_records-Serves_example =
    parse_records-Serves utf8 small_section small_view small_section-parsed

parse_records-encode_records_example :
    (v : RecordsView) × (parse_records utf8 small_section ≡ parsed v)
    × (v.n ≡ 2)
    × (v.n_keys ≡ 2)
    × ShowsAll v 0 two_records
parse_records-encode_records_example =
    parse_records-encode_records utf8 compact_json id_line no_hash two_records small_section 2
      (97 ∷ 10 ∷ 98 ∷ 99 ∷ 10 ∷ []) small_section-written (omega arith) (omega arith) (omega arith)

-- The ids section of the two records, and an exact section of one key that both have.
abbrev small_ids : Bytes
small_ids = 0 ∷ 0 ∷ 0 ∷ 0 ∷ 0 ∷ 0 ∷ 0 ∷ 0 ∷ 1 ∷ 0 ∷ 0 ∷ 0 ∷ 0 ∷ 0 ∷ 0 ∷ 0 ∷ []

abbrev pub ids_section : Bytes
ids_section = 2 ∷ 0 ∷ 0 ∷ 0 ∷ 0 ∷ 0 ∷ 0 ∷ 0 ∷ small_ids

abbrev pub exact_section : Bytes
exact_section =
    1 ∷ 0 ∷ 0 ∷ 0 ∷ 0 ∷ 0 ∷ 0 ∷ 0 ∷ 2 ∷ 0 ∷ 0 ∷ 0 ∷ 0 ∷ 0 ∷ 0 ∷ 0 ∷ 1 ∷ 0 ∷ 0 ∷ 0 ∷ 0 ∷ 0 ∷ 0 ∷ 0
    ∷ 1 ∷ 0 ∷ 0 ∷ 0 ∷ 2 ∷ 0 ∷ 0 ∷ 0 ∷ 0 ∷ 0 ∷ 0 ∷ 0 ∷ 1 ∷ 0 ∷ 0 ∷ 0 ∷ 107 ∷ []

small_ids-parsed : parse_ids small_view ids_section ≡ parsed small_ids
unfolding small_view small_section put_le check_keys check_records canonical_payload add_line
    write_rows encode_records str count take_str parse_keys take_id take_keys take_payload parse_row
    parse_rows parse_records read_le id_at check_ids parse_ids
small_ids-parsed = refl

lookup-Finds_example :
    (found : Option ℕ) × (lookup small_view small_ids (98 ∷ 99 ∷ []) ≡ parsed found)
    × Finds small_view (98 ∷ 99 ∷ []) found
lookup-Finds_example = lookup-Finds small_view ids_section small_ids (98 ∷ 99 ∷ []) small_ids-parsed

small_exact-parsed : parse_exact_section 2 exact_section ≡ parsed (exact_view_of exact_section 1 2)
unfolding read_le check_run check_exact_keys parse_exact_section
small_exact-parsed = refl

exact_index-parse_exact_section_example :
    (es : Dict (List ℕ)) × (i : Index) × Indexed 2 (exact_view_of exact_section 1 2) 4096 es i
exact_index-parse_exact_section_example =
    exact_index-parse_exact_section 2 exact_section (exact_view_of exact_section 1 2) 4096
      (omega arith) refl small_exact-parsed
