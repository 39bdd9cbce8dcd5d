-- ===== src/Prepared/View/Opened.antt =====
-- engine/prepared/view.go: what a view that `NewView` returns serves.
use kurn.Prelude.{
  ◌≡◌, some, true, false, arith, subst, ℕ, ◌+◌, ◌%◌, ◌≤◌, not, ◌&&◌, Option, ltb, ◌==◌, length,
  take,
}
use kurn.Prelude.Bytes.{Bytes, bytes_eq}
use kurn.Prepared.Words.{
  malformed, unaligned, parsed, ◌>>=◌, >>=-eq-parsed, parsed-injective, align, max_uint64,
}
use kurn.Prepared.Bounds.{refuse_if-then, head_len-counted, find-parse_table}
use kurn.Prepared.Format.{
  Section, find, Table, refuse_if, head_len, parse_table, kind_config, kind_build, kind_records,
  kind_ids, kind_ngram, kind_exact_companion,
}
use kurn.Prepared.Records.{RecordsView, parse_records}
use kurn.Prepared.Records.Accepted.{parse_records-Serves}
use kurn.Prepared.Ids.{parse_ids}
use kurn.Prepared.Ids.Lookup.{lookup-Finds}
use kurn.Prepared.ExactSection.{ExactView}
use kurn.Prepared.Config.{Json, Config, BuildInfo, ngram_mode, parse_config, parse_build}
use kurn.Prepared.View.{
  IndexView, View, check_gaps, body, has, is_count, above_count, differ, parse_index,
  parse_companion, new_view,
}
use kurn.Prepared.View.Indices.{
  IsServed, parse_records-small, parse_index-IndexServes, parse_companion-CompanionServes,
}

-- A view that is returned, of a buffer of at most 2^64 - 32 bytes, serves a list of records: the
-- accessors give exactly these records, a lookup by ID finds a record that has the ID or tells that
-- none has it, and the n-gram section is usable or the exact section, its postings where they lie in
-- memory, is restored to an index over these records, and so is the companion section, if there is
-- one.
pub new_view-IsServed :
    (json : Json) (address : ℕ) (buf : Bytes) (v : View)
    → length buf + 31 ≤ max_uint64
    → new_view json address buf ≡ parsed v
    → IsServed json address v
unfolding new_view
new_view-IsServed json address buf v fits h =
    let (at, h1) =
      refuse_if-then (ltb 0 (length buf) && not (address % align == 0)) unaligned _ h in
    let (hl, measured, h2) = >>=-eq-parsed (head_len buf) _ h1 in
    let (whole, h3) = refuse_if-then (ltb (length buf) hl) malformed _ h2 in
    let (tab, parsed_table, h4) = >>=-eq-parsed (parse_table (take hl buf) (length buf)) _ h3 in
    let (_, _, h5) = >>=-eq-parsed (check_gaps buf tab.head_end tab.sections) _ h4 in
    let (config_b, _, h6) = >>=-eq-parsed (body buf tab.sections kind_config) _ h5 in
    let (cfg, _, h7) = >>=-eq-parsed (parse_config json config_b) _ h6 in
    let (build_b, _, h8) = >>=-eq-parsed (body buf tab.sections kind_build) _ h7 in
    let (build, _, h9) = >>=-eq-parsed (parse_build json build_b) _ h8 in
    sections tab cfg build (placed-sections tab at hl measured whole parsed_table) h9
  where
    -- Each section lies at an address that 32 divides.
    Placed : Table → Type 0
    Placed tab =
        (kind : ℕ) (s : Section) → find tab.sections kind ≡ some s → (address + s.off) % 32 ≡ 0

    placed-sections :
        (tab : Table)
        → (ltb 0 (length buf) && not (address % align == 0)) ≡ false
        → (hl : ℕ) → head_len buf ≡ parsed hl
        → ltb (length buf) hl ≡ false
        → parse_table (take hl buf) (length buf) ≡ parsed tab
        → Placed tab
    placed-sections tab at hl measured whole read kind s found =
        let (_, _, aligned) = find-parse_table (take hl buf) (length buf) tab kind s read found in
        let (n, _, counted, _) = head_len-counted buf hl measured in
        let some_bytes : ltb 0 (length buf) ≡ true = ground arith in
        let base : (address % align == 0) ≡ true = ground arith in
        let even : address % 32 ≡ 0 = ground arith in omega arith

    opened :
        (tab : Table) (cfg : Config) (build : BuildInfo) (records_b ids_b : Bytes)
        (records : RecordsView) (ids : Bytes) (index : IndexView) (companion : Option ExactView)
        → Placed tab
        → parse_records json.valid records_b ≡ parsed records
        → parse_ids records ids_b ≡ parsed ids
        → parse_index buf tab.sections records.n ≡ parsed index
        → parse_companion buf tab.sections records.n ≡ parsed companion
        → IsServed json address (record {
          tab = tab;
          cfg = cfg;
          build = build;
          records = records;
          ids = ids;
          index = index;
          companion = companion;
        })
    opened tab cfg build records_b ids_b records ids index companion placed r i x c =
        let small = parse_records-small json.valid records_b records r in
        let (recs, serves) = parse_records-Serves json.valid records_b records r in
        (
          recs,
          serves,
          λ id. lookup-Finds records ids_b ids id i,
          parse_index-IndexServes address buf tab.sections placed records.n small index fits x,
          parse_companion-CompanionServes address buf tab.sections placed records.n small companion
              c,
        )

    sections :
        (tab : Table) (cfg : Config) (build : BuildInfo)
        → Placed tab
        → (body buf tab.sections kind_records >>= λ records_b.
            parse_records json.valid records_b >>= λ records.
            refuse_if (not (is_count build.entries records.n)) malformed >>= λ _.
            refuse_if (not (is_count build.keys records.n_keys)) malformed >>= λ _.
            refuse_if (above_count build.keyless_entries records.n) malformed >>= λ _.
            body buf tab.sections kind_ids >>= λ ids_b. parse_ids records ids_b >>= λ ids.
            refuse_if
              (differ (has tab.sections kind_ngram) (bytes_eq cfg.match.mode ngram_mode))
              malformed
            >>= λ _. parse_index buf tab.sections records.n >>= λ index.
                refuse_if
                  (differ (has tab.sections kind_exact_companion) cfg.match.exact_companion)
                  malformed
                >>= λ _. parse_companion buf tab.sections records.n >>= λ companion.
                    parsed (record {
                      tab = tab;
                      cfg = cfg;
                      build = build;
                      records = records;
                      ids = ids;
                      index = index;
                      companion = companion;
                    }))
          ≡ parsed v
        → IsServed json address v
    sections tab cfg build placed h =
        let (records_b, _, h1) = >>=-eq-parsed (body buf tab.sections kind_records) _ h in
        let (records, r, h2) = >>=-eq-parsed (parse_records json.valid records_b) _ h1 in
        let (_, h3) = refuse_if-then (not (is_count build.entries records.n)) malformed _ h2 in
        let (_, h4) = refuse_if-then (not (is_count build.keys records.n_keys)) malformed _ h3 in
        let (_, h5) = refuse_if-then (above_count build.keyless_entries records.n) malformed _ h4 in
        let (ids_b, _, h6) = >>=-eq-parsed (body buf tab.sections kind_ids) _ h5 in
        let (ids, i, h7) = >>=-eq-parsed (parse_ids records ids_b) _ h6 in
        let (_, h8) =
          refuse_if-then (differ (has tab.sections kind_ngram) (bytes_eq cfg.match.mode ngram_mode))
            malformed _ h7 in
        let (index, x, h9) = >>=-eq-parsed (parse_index buf tab.sections records.n) _ h8 in
        let (_, h10) =
          refuse_if-then (differ (has tab.sections kind_exact_companion) cfg.match.exact_companion)
            malformed _ h9 in
        let (companion, c, h11) =
          >>=-eq-parsed (parse_companion buf tab.sections records.n) _ h10 in
        subst (IsServed json address) (parsed-injective h11)
          (opened tab cfg build records_b ids_b records ids index companion placed r i x c)
