-- ===== src/Prepared/View.antt =====
-- engine/prepared/view.go: `NewView`, over the readers of the sections.
pub mod Indices
pub mod Opened
use kurn.Prelude.{
  ℕ, ◌+◌, ◌*◌, ◌%◌, Bool, true, false, not, ◌&&◌, ◌||◌, Option, none, some, List, [], ◌∷◌, ltb, leb,
  ◌==◌, if◌then◌else◌, length, take,
}
use kurn.Prelude.Bytes.{Bytes, bytes_eq}
use kurn.Prelude.Int.{ℤ, pos, negsuc}
use kurn.Prepared.Words.{malformed, unaligned, Parsed, parsed, ◌>>=◌, align}
use kurn.Prepared.Format.{
  Section, end_of, Table, find, refuse_if, head_len, parse_table, kind_config, kind_build,
  kind_records, kind_ids, kind_ngram, kind_exact, kind_exact_companion,
}
use kurn.Prepared.Records.{RecordsView, parse_records}
use kurn.Prepared.Ids.{parse_ids}
use kurn.Prepared.ExactSection.{ExactView, parse_exact_section}
use kurn.Prepared.NgramSection.{slice, has_nonzero, NgramView, parse_ngram}
use kurn.Prepared.Config.{Json, Config, BuildInfo, ngram_mode, parse_config, parse_build}

-- The index of a view: the one that its mode asks for.
pub data IndexView : Type 0 where
  over_ngrams : NgramView → IndexView
  over_exact : ExactView → IndexView

-- `View`
pub record View : Type 0 where
  pub tab : Table
  pub cfg : Config
  pub build : BuildInfo
  pub records : RecordsView
  pub ids : Bytes
  pub index : IndexView
  pub companion : Option ExactView

-- `checkGaps`, from the end of the section before on
unfoldable pub check_gaps : Bytes → ℕ → List Section → Parsed (Unit {0})
unfolding slice has_nonzero
check_gaps buf prev [] = parsed tt
check_gaps buf prev (s ∷ sections) = slice buf prev s.off >>= λ gap.
    refuse_if (has_nonzero gap) malformed >>= λ _. check_gaps buf (end_of s) sections

-- `body`; a section that is missing is empty.
unfoldable pub body : Bytes → List Section → ℕ → Parsed Bytes
unfolding slice find
body buf sections kind = elim (find sections kind) [
  | none ↦ slice buf 0 0
  | some s ↦ slice buf s.off (end_of s)
]

abbrev pub has : List Section → ℕ → Bool
has sections kind = elim (find sections kind) [ none ↦ false | some s ↦ true ]

abbrev is_count : ℤ → ℕ → Bool
is_count (pos a) n = a == n
is_count (negsuc a) n = false

abbrev above_count : ℤ → ℕ → Bool
above_count (pos a) n = ltb n a
above_count (negsuc a) n = false

-- The index section that the mode asks for.
unfoldable pub parse_index : Bytes → List Section → ℕ → Parsed IndexView
unfolding body
parse_index buf sections n =
    if has sections kind_ngram
    then (body buf sections kind_ngram >>= λ b. parse_ngram n b >>= λ nv. parsed (over_ngrams nv))
    else (body buf sections kind_exact >>= λ b.
        parse_exact_section n b >>= λ ev. parsed (over_exact ev))

unfoldable pub parse_companion : Bytes → List Section → ℕ → Parsed (Option ExactView)
unfolding body
parse_companion buf sections n =
    if has sections kind_exact_companion
    then (body buf sections kind_exact_companion >>= λ b.
        parse_exact_section n b >>= λ ev. parsed (some ev))
    else parsed none

abbrev differ : Bool → Bool → Bool
differ true b = not b
differ false b = b

-- `NewView` of a buffer at an address, on a host that reads the format
unfoldable pub new_view : Json → ℕ → Bytes → Parsed View
unfolding check_gaps body parse_index parse_companion
new_view json address buf =
    refuse_if (ltb 0 (length buf) && not (address % align == 0)) unaligned >>= λ _.
    head_len buf >>= λ hl. refuse_if (ltb (length buf) hl) malformed >>= λ _.
    parse_table (take hl buf) (length buf) >>= λ tab.
    check_gaps buf tab.head_end tab.sections >>= λ _.
    body buf tab.sections kind_config >>= λ config_b. parse_config json config_b >>= λ cfg.
    body buf tab.sections kind_build >>= λ build_b. parse_build json build_b >>= λ build.
    body buf tab.sections kind_records >>= λ records_b.
    parse_records json.valid records_b >>= λ records.
    refuse_if (not (is_count build.entries records.n)) malformed >>= λ _.
    refuse_if (not (is_count build.keys records.n_keys)) malformed >>= λ _.
    refuse_if (above_count build.keyless_entries records.n) malformed >>= λ _.
    body buf tab.sections kind_ids >>= λ ids_b. parse_ids records ids_b >>= λ ids.
    refuse_if (differ (has tab.sections kind_ngram) (bytes_eq cfg.match.mode ngram_mode)) malformed
    >>= λ _. parse_index buf tab.sections records.n >>= λ index.
        refuse_if (differ (has tab.sections kind_exact_companion) cfg.match.exact_companion)
          malformed
        >>= λ _. parse_companion buf tab.sections records.n >>= λ companion. parsed (record {
          tab = tab;
          cfg = cfg;
          build = build;
          records = records;
          ids = ids;
          index = index;
          companion = companion;
        })
