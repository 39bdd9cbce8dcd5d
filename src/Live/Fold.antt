-- ===== src/Live/Fold.antt =====
-- engine/list.go: sorting by ID, `liveEntriesLocked` and `Compact` keep what a list holds.
use kurn.Prelude.{
  length, ◌+◌, ◌≡◌, refl, ap, sym, ◌∙◌, false, none, some, List, [], ◌∷◌, ◌++◌, if◌then◌else◌,
  arith,
}
use kurn.Prelude.Bytes.{Bytes, bytes_eq, bytes_eq_iff}
use kurn.Prelude.Dict.{Dict, lookup}
use kurn.Exact.Index.{Result, ok, err, >>=-eq-ok, ok-injective}
use kurn.Live.Types.{Entry, Segment, LiveList, Version}
use kurn.Prelude.Order.{bytes_lt_irrefl}
use kurn.Live.Segment.{sort_by_id, insert_by_id, values, build_segment, build_loop, build_start}
use kurn.Exact.Build.{finish}
use kurn.Live.Mutate.{
  Outcome, is_some, live_base, live_entries, base_entries, with_build, compact, only_base,
  CompactBuild, prepare_compact, commit_compact,
}
use kurn.Live.View.{find_entry, otherwise, view, guarded-done}

find_entry-insert_by_id :
    (id : Bytes) (e : Entry) (l : List Entry)
    → find_entry id (insert_by_id e l) ≡ (if bytes_eq e.id id then some e else find_entry id l)
unfolding insert_by_id find_entry
find_entry-insert_by_id id e [] = refl
find_entry-insert_by_id id e (x ∷ l) = ground (
  arith,
  find_entry-insert_by_id id e l,
  bytes_eq_iff e.id id,
  bytes_eq_iff x.id id,
  bytes_lt_irrefl id,
)

-- Sorting moves no entry in front of another one with its ID.
pub find_entry-sort_by_id :
    (id : Bytes) (l : List Entry) → find_entry id (sort_by_id l) ≡ find_entry id l
unfolding sort_by_id find_entry
find_entry-sort_by_id id [] = refl
find_entry-sort_by_id id (e ∷ l) =
    find_entry-insert_by_id id e (sort_by_id l)
    ∙ ap (λ r. if bytes_eq e.id id then some e else r) (find_entry-sort_by_id id l)

find_entry-append :
    (id : Bytes) (xs ys : List Entry)
    → find_entry id (xs ++ ys) ≡ otherwise (find_entry id xs) (find_entry id ys)
unfolding find_entry
find_entry-append id [] ys = refl
find_entry-append id (x ∷ xs) ys = ground (arith, find_entry-append id xs ys)

-- Every binding of the overlay's sources is under its entry's own ID.
abbrev pub Keyed : Dict Entry → Type 0
Keyed [] = Unit
Keyed ((k, e) ∷ m) = (e.id ≡ k) × Keyed m

pub find_entry-values :
    (id : Bytes) (src : Dict Entry) → Keyed src → find_entry id (values src) ≡ lookup id src
unfolding find_entry values lookup
find_entry-values id [] h = refl
find_entry-values id ((k, e) ∷ src) h =
    simp h.0 (ap (λ r. if bytes_eq k id then some e else r) (find_entry-values id src h.1))

find_entry-live_base :
    (id : Bytes) (tomb : Dict (Unit {0})) (src : Dict Entry) (entries : List Entry)
    → find_entry id (live_base tomb src entries) ≡ (
        if is_some (lookup id tomb)
        then none
        else if is_some (lookup id src)
        then none
        else find_entry id entries)
unfolding find_entry live_base
find_entry-live_base id tomb src [] = ground arith
find_entry-live_base id tomb src (e ∷ entries) =
    ground (arith, find_entry-live_base id tomb src entries, bytes_eq_iff e.id id)

-- The live entries hold under each ID what the list holds.
pub find_entry-live_entries :
    (l : LiveList) (id : Bytes) → Keyed l.overlay_src → find_entry id (live_entries l) ≡ view l id
unfolding live_entries
find_entry-live_entries l id keyed =
    let split =
      find_entry-append id (live_base l.snap.tombstones l.overlay_src (base_entries l.snap.base))
        (values l.overlay_src) in
    find_entry-sort_by_id id _
    ∙ split
    ∙ ground (
      arith,
      find_entry-values id l.overlay_src keyed,
      find_entry-live_base id l.snap.tombstones l.overlay_src (base_entries l.snap.base),
    )

-- The entries of a built segment are those that it was built from.
pub entries-build_segment :
    (an : Bytes → Bytes) (entries : List Entry) (seg : Segment)
    → build_segment an entries ≡ ok seg
    → seg.entries ≡ entries
unfolding build_segment
entries-build_segment an entries seg h =
    let (ex, _, e) = >>=-eq-ok (finish (build_loop an 0 entries build_start).exb) _ h in
    sym (ap (λ (s : Segment). s.entries) (ok-injective e))

-- Where the overlay map is keyed by the IDs of its entries, a compaction that returns no error
-- changes nothing under any ID.
pub view-compact :
    (l l' : LiveList) (id : Bytes)
    → Keyed l.overlay_src
    → compact l ≡ (l', none)
    → view l' id ≡ view l id
unfolding compact
view-compact l l' id keyed h = go (build_segment l.an (live_entries l)) refl (guarded-done l l' _ h)
  where
    folded : Segment → LiveList
    folded seg = record l {
      gen = l.gen + 1;
      base_id = [];
      snap = only_base seg (Version.gen_base (l.gen + 1) (length (live_entries l)));
      overlay_src = [];
    }

    go :
        (r : Result Segment)
        → build_segment l.an (live_entries l) ≡ r
        → with_build l r folded ≡ (l', none)
        → view l' id ≡ view l id
    go (ok seg) b e =
        ap (λ (o : Outcome). view o.0 id) (sym e)
        ∙ unfold lookup in
          ap (find_entry id) (entries-build_segment l.an (live_entries l) seg b)
          ∙ find_entry-live_entries l id keyed
    go (err x) b e = cc (ap (λ (o : Outcome). o.1) e)

-- Where the overlay map is keyed by the IDs of its entries, a prepared fold that is committed to the
-- writable list it was prepared from changes nothing under any ID.
view-commit_compact :
    (l : LiveList) (b : CompactBuild) (base_id id : Bytes)
    → Keyed l.overlay_src
    → l.read_only ≡ false
    → prepare_compact l ≡ ok b
    → view (commit_compact b base_id l) id ≡ view l id
unfolding commit_compact prepare_compact lookup
view-commit_compact l b base_id id keyed writable h =
    let (seg, built, e) = >>=-eq-ok (build_segment l.an (live_entries l)) _ h in
    rw (writable, commit_compact)
      (ap (λ (c : CompactBuild). find_entry id c.seg.entries) (sym (ok-injective e))
        ∙ ap (find_entry id) (entries-build_segment l.an (live_entries l) seg built)
        ∙ find_entry-live_entries l id keyed)
