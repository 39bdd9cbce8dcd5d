-- ===== src/Samples/Live.antt =====
-- engine/list.go and engine/journal.go on concrete lists.
use kurn.Prelude.{◌≡◌, refl, if◌then◌else◌, none, some, List, [], ◌∷◌}
use kurn.Prelude.Bytes.{Bytes, bytes_eq, codes}
use kurn.Prelude.Dict.{lookup, insert, remove}
use kurn.Exact.Build.{finish, add, add_key, run_of, ends_with, last?}
use kurn.Exact.Index.{Result, ok, err, empty_index, lookup_ords, run_at}
use kurn.Live.Types.{Entry, LiveList}
use kurn.Live.Segment.{
  build_segment, build_loop, build_entry, analyzed, collapsed, sort_by_id, insert_by_id, values,
  dedupe_last_wins, keep_last, last_positions,
}
use kurn.Live.Mutate.{
  upsert, delete, replace, compact, apply_journal, guarded, prepare_overlay, commit_overlay,
  install_base, put_all, take_out, in_base, live_entries, live_base, fold_journal, JournalRec,
  upsert_rec, delete_rec, unknown_rec, prepare_compact, commit_compact, CompactBuild,
}
use kurn.Live.View.{
  KnowsIds, find_entry, view, last_match, replayed, view-upsert, view-delete, view-apply_journal,
}
use kurn.Live.Fold.{view-compact}
use kurn.Live.Coherent.{
  IsCoherent, here, next, upserts, deletes, replaces, compacts, new_list, Reach-IsCoherent,
}

abbrev pub same_bytes : Bytes → Bytes
same_bytes s = s

abbrev pub entry : Bytes → Bytes → Entry
entry id key = record { id = id; keys = key ∷ []; payload = codes "{}" }

abbrev pub two : List Entry
two = entry (codes "b") (codes "bob") ∷ entry (codes "a") (codes "ann") ∷ []

abbrev pub started : LiveList
started = (replace two (new_list same_bytes)).0

abbrev pub changed : LiveList
changed = (upsert (entry (codes "b") (codes "rob") ∷ []) started).0

abbrev ops : List JournalRec
ops =
    upsert_rec (some (entry (codes "c") (codes "cyd"))) ∷ unknown_rec ∷ delete_rec (codes "a") ∷ []

Reach-IsCoherent_example : IsCoherent (compact (delete (codes "a") changed).0).0
Reach-IsCoherent_example = Reach-IsCoherent same_bytes (
    next
      (next (next (next here (replaces two)) (upserts (entry (codes "b") (codes "rob") ∷ [])))
        (deletes (codes "a")))
      compacts)

-- Opens what the mutations compute with.
unfoldable pub mutations_run : Unit {0}
unfolding upsert delete replace compact apply_journal install_base guarded prepare_overlay
    commit_overlay put_all take_out fold_journal in_base live_entries live_base prepare_compact
    commit_compact build_segment build_loop build_entry analyzed collapsed sort_by_id insert_by_id
    values dedupe_last_wins last_positions keep_last finish add add_key run_of ends_with last?
    lookup insert remove find_entry lookup_ords run_at
mutations_run = tt

view-upsert_example :
    view changed (codes "b")
    ≡ last_match (codes "b") (entry (codes "b") (codes "rob") ∷ []) (view started (codes "b"))
unfolding mutations_run
view-upsert_example =
    view-upsert (entry (codes "b") (codes "rob") ∷ []) started changed (codes "b") refl

started-knows : KnowsIds started.snap.base
started-knows = (Reach-IsCoherent same_bytes (next here (replaces two))).knows

changed-knows : KnowsIds changed.snap.base
changed-knows = changed-IsCoherent.knows
  where
    changed-IsCoherent : IsCoherent changed
    changed-IsCoherent =
        Reach-IsCoherent same_bytes
          (next (next here (replaces two)) (upserts (entry (codes "b") (codes "rob") ∷ [])))

view-delete_example :
    view (delete (codes "a") changed).0 (codes "b")
    ≡ (if bytes_eq (codes "a") (codes "b") then none else view changed (codes "b"))
unfolding mutations_run
view-delete_example =
    view-delete (codes "a") changed (delete (codes "a") changed).0 (codes "b") changed-knows refl

view-apply_journal_example :
    view (apply_journal ops 40 started).0 (codes "a")
    ≡ replayed (codes "a") ops (view started (codes "a"))
unfolding mutations_run
view-apply_journal_example =
    view-apply_journal ops 40 started (apply_journal ops 40 started).0 (codes "a") started-knows
      refl

view-compact_example : view (compact changed).0 (codes "b") ≡ view changed (codes "b")
unfolding mutations_run
view-compact_example = view-compact changed (compact changed).0 (codes "b") (refl, tt) refl

-- An index-less fold, for the case that does not happen.
abbrev no_build : CompactBuild
no_build = record {
  live = [];
  seg = record {
    entries = [];
    by_id = [];
    ex = empty_index;
    payload_bytes = 0;
    dropped_keys = 0;
    keyless_entries = 0;
    total_keys = 0;
  };
}

abbrev built : Result CompactBuild → CompactBuild
built (ok b) = b
built (err e) = no_build

-- The journal's delete took the base's entry away, and its upsert is there.
replayed_run :
    (view (apply_journal ops 40 started).0 (codes "a") ≡ none)
    × (view (apply_journal ops 40 started).0 (codes "c") ≡ some (entry (codes "c") (codes "cyd")))
unfolding mutations_run
replayed_run = (refl, refl)

-- The live entries of the changed list, in the order of their IDs.
live_run :
    live_entries changed ≡ entry (codes "a") (codes "ann") ∷ entry (codes "b") (codes "rob") ∷ []
unfolding mutations_run
live_run = refl
