-- ===== src/Query/Answers.antt =====
-- engine/list.go: what a query for one key answers, against the live entries of the list.
use kurn.Prelude.{ℕ, ◌≡◌, Bool, false, ◌&&◌, none, some, map, keep}
use kurn.Prelude.Bytes.{Bytes}
use kurn.Payload.Scalar.{is_empty}
use kurn.Live.Types.{LiveList}
use kurn.Live.Mutate.{live_entries}
use kurn.Live.Coherent.{Reach, new_list, Reach-IsCoherent}
use kurn.Query.Levels.{exact_levels}
use kurn.Query.Search.{Filter, Answer, answered, filter_failed, nothing_found, query_snap}
use kurn.Query.Collect.{passes, failure}
use kurn.Query.Shown.{listed}
use kurn.Query.Kept.{probe_levels-once}
use kurn.Query.Level.{asks, collected, wanted, found, probed_base, probed_overlay, finished}

-- What a query for one key answers: its filter's error, if the filter cannot read the payload of a
-- live entry that is asked for, and else those live entries that it lets pass, by their IDs.
pub expected : LiveList → Filter → Bytes → Answer
expected l cf q = elim (failure cf (keep (asks l (l.an q)) (collected l))) [
  | some err ↦ filter_failed err
  | none ↦ answered (
      map (listed l.an (l.an q) 100)
        (keep (λ e. asks l (l.an q) e && passes cf e) (live_entries l)))
]

-- On a list reached from a new one by mutations, a query without a top-K cut and without the parents
-- of a domain, for a key that the analyzer does not make empty and with a threshold that the full
-- score meets, does not panic and answers: the error of its filter for the first of the live entries
-- with a key that is analyzed to the query's whose payload it cannot read, and where there is none,
-- those of these entries that the filter lets pass, in the order of their IDs, with the full score.
pub query_snap-expected :
    (an : Bytes → Bytes) {l : LiveList}
    → Reach (new_list an) l
    → (cf : Filter) (below : ℕ → Bool) (q : Bytes) → below 100 ≡ false
    → is_empty (l.an q) ≡ false
    → query_snap l cf 0 below false q ≡ expected l cf q
unfolding query_snap expected exact_levels wanted
query_snap-expected an {l} reached cf below q over_floor some_key =
    let coherent = Reach-IsCoherent an reached in
    let probed =
      probe_levels-once l.snap cf 0 below (l.an q) nothing_found _
        (found l coherent cf (l.an q) 100) over_floor
        (probed_base l coherent cf (l.an q) 100 some_key)
        (probed_overlay l coherent cf (l.an q) 100 some_key) in
    rw (some_key, probed) (finished l coherent cf (l.an q) 100)
