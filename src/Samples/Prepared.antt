-- ===== src/Samples/Prepared.antt =====
-- The theorems on the prepared format at a small artifact.
use kurn.Prelude.{◌≡◌, refl, ℕ, ◌^◌, ◌<◌, some, List, [], ◌∷◌, arith}
use kurn.Prelude.Bytes.{Bytes}
use kurn.Prepared.Words.{parsed, align32}
use kurn.Prepared.Format.{
  Section, parse_table, encode_head, Walked, check_section, check_sections, any_unreadable,
  has_seen, misplaced,
}
use kurn.Prepared.Total.{Tells, parse_table-total}
use kurn.Prepared.RoundTrip.{Fits, check_each, IsWritable, written, parse_table-encode_head}

abbrev no_digest : Bytes
no_digest =
    0 ∷ 0 ∷ 0 ∷ 0 ∷ 0 ∷ 0 ∷ 0 ∷ 0 ∷ 0 ∷ 0 ∷ 0 ∷ 0 ∷ 0 ∷ 0 ∷ 0 ∷ 0 ∷ 0 ∷ 0 ∷ 0 ∷ 0 ∷ 0 ∷ 0 ∷ 0 ∷ 0
    ∷ 0 ∷ 0 ∷ 0 ∷ 0 ∷ 0 ∷ 0 ∷ 0 ∷ 0 ∷ []

abbrev pub no_sha256 : Bytes → Bytes
no_sha256 b = no_digest

abbrev pub required : ℕ → ℕ → ℕ → Section
required kind off len = record { kind = kind; flags = 1; off = off; length = len; sum = no_digest }

abbrev config : Section
config = required 1 384 10

abbrev records : Section
records = required 3 448 40

abbrev artifact : List Section
artifact = config ∷ required 2 416 32 ∷ records ∷ required 4 512 0 ∷ required 6 544 33 ∷ []

abbrev artifact_end : Walked
artifact_end = record {
  prev = some (required 6 544 33);
  prev_end = 577;
  seen = 6 ∷ 4 ∷ 3 ∷ 2 ∷ 1 ∷ [];
}

required-Fits :
    (kind off len : ℕ)
    → kind < 256 ^ 4
    → off < 256 ^ 8
    → len < 256 ^ 8
    → Fits (required kind off len)
required-Fits kind off len a b c = record {
  kind_fits = a;
  flags_fit = omega arith;
  off_fits = b;
  length_fits = c;
  sum_fits = refl;
}

artifact-IsWritable : IsWritable artifact 577
unfolding align32 check_each check_section has_seen misplaced check_sections any_unreadable
artifact-IsWritable = record {
  fits = (
    required-Fits 1 384 10 (omega arith) (omega arith) (omega arith),
    (
      required-Fits 2 416 32 (omega arith) (omega arith) (omega arith),
      (
        required-Fits 3 448 40 (omega arith) (omega arith) (omega arith),
        (
          required-Fits 4 512 0 (omega arith) (omega arith) (omega arith),
          (required-Fits 6 544 33 (omega arith) (omega arith) (omega arith), tt),
        ),
      ),
    ),
  );
  some_section = omega arith;
  few = omega arith;
  room = omega arith;
  walked = artifact_end;
  placed = refl;
  complete = refl;
}

artifact-parsed :
    parse_table (encode_head no_sha256 artifact) 577 ≡ parsed (written no_sha256 artifact)
artifact-parsed = parse_table-encode_head no_sha256 artifact 577 refl artifact-IsWritable

parse_table-encode_head_example :
    parse_table (encode_head no_sha256 artifact) 577 ≡ parsed (written no_sha256 artifact)
parse_table-encode_head_example =
    parse_table-encode_head no_sha256 artifact 577 refl artifact-IsWritable

parse_table-total_example : Tells (parse_table (75 ∷ []) 1)
parse_table-total_example = parse_table-total (75 ∷ []) 1
