-- ===== src/Samples/View.antt =====
-- A whole artifact of an exact list with two records, and the view over it.
use kurn.Prelude.{
  ◌≡◌, refl, ℕ, zero, suc, ◌+◌, ◌≤◌, false, none, some, List, [], ◌∷◌, ◌++◌, length, arith,
}
use kurn.Prelude.Bytes.{Bytes, codes}
use kurn.Prelude.Int.{pos}
use kurn.Prepared.Words.{parsed, read_le, put_le, align32, max_uint64}
use kurn.Prepared.Format.{
  Section, find, head_len, has_seen, misplaced, check_section, read_section, section_at,
  read_sections, any_unreadable, check_sections, parse_table, put_section, put_sections, put_table,
  encode_head,
}
use kurn.Prepared.Records.{
  str, id_at, count, take_str, parse_keys, take_id, take_keys, take_payload, parse_row, parse_rows,
  parse_records,
}
use kurn.Prepared.Records.Encode.{
  check_keys, check_records, canonical_payload, add_line, write_rows, encode_records,
}
use kurn.Prepared.Ids.{check_ids, parse_ids}
use kurn.Prepared.ExactSection.{check_run, check_exact_keys, parse_exact_section}
use kurn.Prepared.NgramSection.{slice, has_nonzero}
use kurn.Prepared.Config.{
  ConfigDoc, ListConfig, BuildInfo, Json, exact_mode, is_hex64, valid_list_name, check_list_config,
  strict_json, parse_config, parse_build,
}
use kurn.Prepared.View.{View, over_exact, check_gaps, body, parse_index, parse_companion, new_view}
use kurn.Prepared.View.Indices.{IsServed}
use kurn.Prepared.View.Opened.{new_view-IsServed}
use kurn.Samples.Prepared.{no_sha256, required}
use kurn.Samples.Records.{utf8, small_section, ids_section, exact_section}

abbrev repeated : ℕ → ℕ → Bytes
repeated c zero = []
repeated c (suc n) = c ∷ repeated c n

abbrev doc : ConfigDoc
doc = record {
  name = codes "a";
  analyzer_digest = repeated 48 64;
  config_digest = repeated 48 64;
  list = [];
}

abbrev exact_config : ListConfig
exact_config = record {
  mode = exact_mode;
  gram_sizes = [];
  strip_spaces = false;
  exact_companion = false;
}

abbrev info : BuildInfo
info = record {
  base_id = repeated 48 64;
  entries = pos 2;
  keys = pos 2;
  dropped_keys = pos 0;
  keyless_entries = pos 1;
  n_collapsed = pos 0;
  source = codes "feed";
  created_at = [];
  input_sha256 = [];
}

-- Both documents are written as "{}".
abbrev two_braces : Json
two_braces = record {
  decode_config = λ b. some doc;
  encode_config = λ d. some (codes "{}");
  decode_list = λ b. some exact_config;
  decode_build = λ b. some info;
  encode_build = λ b. some (codes "{}");
  valid = utf8;
}

abbrev sections : List Section
sections =
    required 1 384 2
    ∷ required 2 416 2
    ∷ required 3 448 150
    ∷ required 4 608 24
    ∷ required 6 640 41
    ∷ []

abbrev parts : Bytes
parts =
    repeated 0 8
    ++ (codes "{}"
        ++ (repeated 0 30
            ++ (codes "{}"
                ++ (repeated 0 30
                    ++ (small_section
                        ++ (repeated 0 10 ++ (ids_section ++ (repeated 0 8 ++ exact_section))))))))

abbrev artifact : Bytes
artifact = encode_head no_sha256 sections ++ parts

abbrev closed : View
closed = record {
  tab = record { major = 0; minor = 0; sections = []; head_end = 0; digest = [] };
  cfg = record { doc = doc; match = exact_config };
  build = info;
  records = record { n = 0; rows = []; n_keys = 0; key_rows = []; blob = [] };
  ids = [];
  index =
      over_exact (record { k = 0; p = 0; key_lens = []; run_lens = []; postings = []; arena = [] });
  companion = none;
}

unfoldable opened_view : View
unfolding put_le check_keys check_records canonical_payload add_line write_rows encode_records
    small_section put_section put_sections put_table encode_head read_le align32 find head_len
    has_seen misplaced check_section read_section section_at read_sections any_unreadable
    check_sections parse_table slice has_nonzero check_gaps body is_hex64 valid_list_name
    check_list_config strict_json parse_config parse_build str id_at count take_str parse_keys
    take_id take_keys take_payload parse_row parse_rows parse_records check_ids parse_ids check_run
    check_exact_keys parse_exact_section parse_index parse_companion new_view
opened_view = elim (new_view two_braces 4096 artifact) [ parsed v ↦ v | _ ↦ closed ]

artifact-opened : new_view two_braces 4096 artifact ≡ parsed opened_view
unfolding opened_view put_le check_keys check_records canonical_payload add_line write_rows
    encode_records small_section put_section put_sections put_table encode_head read_le align32 find
    head_len has_seen misplaced check_section read_section section_at read_sections any_unreadable
    check_sections parse_table slice has_nonzero check_gaps body is_hex64 valid_list_name
    check_list_config strict_json parse_config parse_build str id_at count take_str parse_keys
    take_id take_keys take_payload parse_row parse_rows parse_records check_ids parse_ids check_run
    check_exact_keys parse_exact_section parse_index parse_companion new_view
artifact-opened = refl

artifact-fits : length artifact + 31 ≤ max_uint64
unfolding put_le check_keys check_records canonical_payload add_line write_rows encode_records
    small_section put_section put_sections put_table encode_head
artifact-fits = omega arith

new_view-IsServed_example : IsServed two_braces 4096 opened_view
new_view-IsServed_example =
    new_view-IsServed two_braces 4096 artifact opened_view artifact-fits artifact-opened
