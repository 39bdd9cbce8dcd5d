-- ===== src/Samples/Query.antt =====
-- The reads of an exact-mode list on concrete lists.
use kurn.Prelude.{
  ◌≡◌, refl, ℕ, Bool, false, some, if◌then◌else◌, true, none, List, [], ◌∷◌, map, take, keep, arith,
}
use kurn.Prelude.Bytes.{Bytes, codes}
use kurn.Exact.Index.{Result, ok, err, lookup_ords, empty_index}
use kurn.Live.Types.{Entry, Segment, LiveList}
use kurn.Live.Segment.{build_segment, sort_by_id}
use kurn.Live.Mutate.{replace}
use kurn.Live.View.{view, last_match}
use kurn.Live.Coherent.{new_list, Reach, here, next, replaces, upserts}
use kurn.Live.Dedupe.{view-replace}
use kurn.Query.Levels.{exact_levels, parents, exact_levels-parents}
use kurn.Query.Terms.{any_of_terms, terms_loop}
use kurn.Query.Carriers.{carriers, lookup_ords-build_segment}
use kurn.Payload.Scalar.{is_empty}
use kurn.Payload.Token.{ScanError, Scan}
use kurn.Query.Search.{
  Filter, query_snap, answered, probe_levels, probe_level, probe_both, probe, walk, consider,
  finish_query, cut_top, sort_candidates, insert_hit, attribute_keys, shown_entry, key_of,
}
use kurn.Query.Level.{asks, collected}
use kurn.Query.Answers.{expected, query_snap-expected}
use kurn.Query.Shown.{listed}
use kurn.Query.Fallback.{first_level, query_snap-first_level}
use kurn.Query.TopK.{query_snap-top_k}
use kurn.Samples.Live.{same_bytes, entry, mutations_run, two, changed}

abbrev twice : List Entry
twice =
    entry (codes "a") (codes "ann")
    ∷ entry (codes "b") (codes "bob")
    ∷ entry (codes "a") (codes "eve")
    ∷ []

-- Opens what the reads compute with.
query_runs : Unit {0}
unfolding mutations_run exact_levels any_of_terms terms_loop
query_runs = tt

view-replace_example :
    view (replace twice (new_list same_bytes)).0 (codes "a") ≡ last_match (codes "a") twice none
unfolding query_runs
view-replace_example =
    view-replace twice (new_list same_bytes) (replace twice (new_list same_bytes)).0 (codes "a")
      refl

abbrev no_segment : Segment
no_segment = record {
  entries = [];
  by_id = [];
  ex = empty_index;
  payload_bytes = 0;
  dropped_keys = 0;
  keyless_entries = 0;
  total_keys = 0;
}

abbrev built : Result Segment → Segment
built (ok seg) = seg
built (err e) = no_segment

lookup_ords-build_segment_example :
    lookup_ords (built (build_segment same_bytes twice)).ex (codes "bob")
    ≡ carriers same_bytes (codes "bob") 0 twice
unfolding query_runs
lookup_ords-build_segment_example =
    lookup_ords-build_segment same_bytes twice (built (build_segment same_bytes twice))
      (codes "bob") refl

exact_levels-parents_example :
    exact_levels (codes "a.b.co") true ≡ codes "a.b.co" ∷ parents (codes "a.b.co")
exact_levels-parents_example = exact_levels-parents (codes "a.b.co") true

levels_run : exact_levels (codes "a.b.co") true ≡ codes "a.b.co" ∷ codes "b.co" ∷ []
unfolding query_runs
levels_run = refl

abbrev some_terms : List Bytes
some_terms = codes "x" ∷ codes "" ∷ codes "y" ∷ codes "x" ∷ []

abbrev not_empty : Filter
not_empty = some λ b. if is_empty b then Scan.fail ScanError.truncated_value else Scan.ok true

abbrev over_floor : ℕ → Bool
over_floor score = false

changed-Reach : Reach (new_list same_bytes) changed
changed-Reach = next (next here (replaces two)) (upserts (entry (codes "b") (codes "rob") ∷ []))

query_snap-expected_example :
    query_snap changed not_empty 0 over_floor false (codes "rob")
    ≡ expected changed not_empty (codes "rob")
unfolding query_runs
query_snap-expected_example =
    query_snap-expected same_bytes changed-Reach not_empty over_floor (codes "rob") refl refl

query_snap-top_k_example :
    query_snap changed none 1 over_floor false (codes "rob")
    ≡ answered (
        map
          (listed same_bytes (codes "rob") 100)
          (sort_by_id (take 1 (keep (asks changed (codes "rob")) (collected changed)))))
unfolding query_runs
query_snap-top_k_example =
    query_snap-top_k same_bytes changed-Reach 1 (omega arith) over_floor (codes "rob") refl refl

query_snap_run :
    query_snap changed none 1 over_floor false (codes "rob")
    ≡ answered (listed same_bytes (codes "rob") 100 (entry (codes "b") (codes "rob")) ∷ [])
unfolding query_runs query_snap probe_levels probe_level probe_both probe walk consider finish_query
    cut_top sort_candidates insert_hit attribute_keys shown_entry key_of
query_snap_run = refl

abbrev domains : LiveList
domains = (replace (entry (codes "d") (codes "a.b") ∷ []) (new_list same_bytes)).0

query_snap-first_level_example :
    query_snap domains none 0 over_floor true (codes "c.a.b")
    ≡ answered (first_level domains over_floor (codes "c.a.b") (codes "c.a.b" ∷ codes "a.b" ∷ []))
unfolding query_runs
query_snap-first_level_example =
    query_snap-first_level same_bytes (next here (replaces (entry (codes "d") (codes "a.b") ∷ [])))
      over_floor true (codes "c.a.b") refl
