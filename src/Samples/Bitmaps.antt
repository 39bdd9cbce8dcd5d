-- ===== src/Samples/Bitmaps.antt =====
-- The theorems on frozen bitmaps and the n-gram section at a section of one gram.
use kurn.Prelude.{◌≡◌, refl, [], ◌∷◌, arith}
use kurn.Prelude.Bytes.{Bytes}
use kurn.Prepared.Words.{parsed, read_le, align32}
use kurn.Prepared.Gives.{Gives}
use kurn.Prepared.Records.{count}
use kurn.Prepared.Frozen.{
  read_be, tally, tally_types, check_frozen_trailer, array_values, array_container, container,
  check_containers, check_frozen,
}
use kurn.Prepared.Frozen.Total.{IsFilled, check_frozen-IsFilled}
use kurn.Prepared.NgramSection.{
  slice, has_nonzero, parse_gram, parse_grams, ngram_view_of, parse_ngram,
}
use kurn.Prepared.NgramSection.Accepted.{IsUsable, parse_ngram-IsUsable}

-- One array container with the values 0 and 1.
abbrev small_bitmap : Bytes
small_bitmap = 0 ∷ 0 ∷ 1 ∷ 0 ∷ 0 ∷ 0 ∷ 1 ∷ 0 ∷ 2 ∷ 198 ∷ 181 ∷ 0 ∷ 0 ∷ []

-- The gram "ab" with that bitmap, over two records.
abbrev ngram_section : Bytes
ngram_section =
    1 ∷ 0 ∷ 0 ∷ 0 ∷ 0 ∷ 0 ∷ 0 ∷ 0 ∷ 0 ∷ 0 ∷ 0 ∷ 0 ∷ 0 ∷ 0 ∷ 0 ∷ 0 ∷ 2 ∷ 0 ∷ 0 ∷ 0 ∷ 0 ∷ 0 ∷ 0 ∷ 0
    ∷ 0 ∷ 0 ∷ 0 ∷ 0 ∷ 0 ∷ 0 ∷ 0 ∷ 0 ∷ 13 ∷ 0 ∷ 0 ∷ 0 ∷ 0 ∷ 0 ∷ 0 ∷ 0 ∷ 2 ∷ 0 ∷ 0 ∷ 0 ∷ 0 ∷ 0 ∷ 0 ∷ 0
    ∷ 2 ∷ 0 ∷ 0 ∷ 0 ∷ 0 ∷ 0 ∷ 0 ∷ 0 ∷ 97 ∷ 98 ∷ 0 ∷ 0 ∷ 0 ∷ 0 ∷ 0 ∷ 0 ∷ small_bitmap

small_bitmap-checked :
    check_frozen small_bitmap ≡ parsed (record { containers = 1; cardinality = 2; max = 1 })
unfolding read_le read_be tally tally_types check_frozen_trailer array_values array_container
    container check_containers check_frozen
small_bitmap-checked = refl

ngram_section-parsed : parse_ngram 2 ngram_section ≡ parsed (ngram_view_of ngram_section 1 2 2)
unfolding read_le align32 count read_be tally tally_types check_frozen_trailer array_values
    array_container container check_containers check_frozen slice has_nonzero parse_gram parse_grams
    parse_ngram
ngram_section-parsed = refl

check_frozen-IsFilled_example : Gives IsFilled (check_frozen small_bitmap)
check_frozen-IsFilled_example = check_frozen-IsFilled small_bitmap

parse_ngram-IsUsable_example : Gives (IsUsable 2) (parse_ngram 2 ngram_section)
parse_ngram-IsUsable_example = parse_ngram-IsUsable 2 ngram_section (omega arith)
