-- ===== src/Live/Mutate.antt =====
-- engine/list.go and engine/journal.go: the mutations of a list. Each returns the list and, where
-- Go returns an error, the error.
use mathlib.Core.Bool.{◌&&◌, ◌||◌, not}
use kurn.Prelude.{
  ℕ, ◌+◌, Bool, true, false, Option, none, some, List, [], ◌∷◌, ◌++◌, ◌==◌, if◌then◌else◌, length,
}
use kurn.Prelude.Bytes.{Bytes}
use kurn.Prelude.Dict.{Dict, lookup, insert, remove}
use kurn.Payload.Scalar.{is_empty}
use kurn.Exact.Index.{Result, ok, err, ◌>>=◌, ExactError}
use kurn.Live.Types.{Entry, Segment, Version, Snapshot, LiveList}
use kurn.Live.Segment.{build_segment, sort_by_id, values, dedupe_last_wins}

pub data ListError : Type 0 where
  read_only : ListError
  build : ExactError → ListError

abbrev pub Outcome : Type 0
Outcome = LiveList × Option ListError

abbrev pub is_some {ℓ} : {A : Type ℓ} → Option A → Bool
is_some none = false
is_some (some a) = true

-- `refuseReadOnly`: the refusal is counted, where there is a counter.
unfoldable pub refuse : LiveList → LiveList
refuse l = record l { refusals = elim l.refusals [ none ↦ none | some n ↦ some (n + 1) ] }

unfoldable pub guarded : LiveList → Outcome → Outcome
unfolding refuse
guarded l rest = if l.read_only then (refuse l, some read_only) else rest

-- The end of `preparedList`: a list is made read-only, with its counter of refusals.
abbrev pub protected : Option ℕ → LiveList → LiveList
protected refusals l = record l { read_only = true; refusals = refusals }

abbrev pub with_build {ℓ} : {A : Type ℓ} → LiveList → Result A → (A → LiveList) → Outcome
with_build l (ok a) install = (install a, none)
with_build l (err e) install = (l, some (build e))

-- `baseStampLocked`
unfoldable pub base_stamp : LiveList → ℕ → Version
base_stamp l n =
    if is_empty l.base_id then Version.gen_base l.gen n else Version.content l.base_id n 0 none

abbrev pub only_base : Segment → Version → Snapshot
only_base seg v = record { base = some seg; overlay = none; tombstones = []; version = v }

unfoldable pub install_base : Segment → LiveList → LiveList
unfolding base_stamp
install_base seg l =
    let l' : LiveList = record l { overlay_src = []; gen = l.gen + 1 } in
    record l' { snap = only_base seg (base_stamp l' (length seg.entries)) }

-- `Replace`
unfoldable pub replace : List Entry → LiveList → Outcome
unfolding guarded install_base
replace entries l =
    guarded l
      (with_build l (build_segment l.an (dedupe_last_wins entries)) (λ seg. install_base seg l))

-- The overlay's sources and the tombstones, which a mutation changes on clones.
pub record Sources : Type 0 where
  pub src : Dict Entry
  pub tomb : Dict (Unit {0})

unfoldable pub in_base : Option Segment → Bytes → Bool
in_base none id = false
in_base (some seg) id = is_some (lookup id seg.by_id)

abbrev pub mask : Option Segment → Bytes → Dict (Unit {0}) → Dict (Unit {0})
mask base id tomb = if in_base base id then insert id tt tomb else tomb

-- The loop of `prepareUpsertLocked`.
unfoldable pub put_all : Option Segment → List Entry → Sources → Sources
unfolding in_base
put_all base [] s = s
put_all base (e ∷ entries) s =
    put_all base entries (record { src = insert e.id e s.src; tomb = mask base e.id s.tomb })

-- The body of `prepareDeleteLocked`.
unfoldable pub take_out : Option Segment → Bytes → Sources → Sources
unfolding in_base
take_out base id s = record { src = remove id s.src; tomb = mask base id s.tomb }

-- A prepared mutation of the overlay.
pub record OverlayBuild : Type 0 where
  pub sources : Sources
  pub seg : Option Segment

abbrev pub build_overlay : (Bytes → Bytes) → List Entry → Result (Option Segment)
build_overlay an [] = ok none
build_overlay an (e ∷ entries) = build_segment an (e ∷ entries) >>= λ seg. ok (some seg)

unfoldable pub prepare_overlay : LiveList → (Sources → Sources) → Result OverlayBuild
prepare_overlay l mutate =
    let s = mutate (record { src = l.overlay_src; tomb = l.snap.tombstones }) in
    build_overlay l.an (sort_by_id (values s.src)) >>= λ ov. ok (record { sources = s; seg = ov })

abbrev pub base_size : Option Segment → ℕ
base_size none = 0
base_size (some seg) = length seg.entries

-- `jpos` is none for a mutation without a journal.
unfoldable pub overlay_stamp : LiveList → Sources → Option ℕ → Version
overlay_stamp l s none =
    Version.gen_overlay l.gen (base_size l.snap.base) (length s.src) (length s.tomb)
overlay_stamp l s (some jpos) =
    if not (is_empty l.base_id) && (jpos == 0 || is_some l.jhash)
    then Version.content l.base_id (base_size l.snap.base) jpos
        (if jpos == 0 then none else l.jhash)
    else Version.gen_overlay l.gen (base_size l.snap.base) (length s.src) (length s.tomb)

-- `commitOverlayLockedAt`
unfoldable pub commit_overlay : LiveList → Option ℕ → OverlayBuild → LiveList
unfolding overlay_stamp
commit_overlay l jpos b =
    let l' : LiveList = record l { overlay_src = b.sources.src; gen = l.gen + 1 } in
    record l' {
      snap = record {
        base = l.snap.base;
        overlay = b.seg;
        tombstones = b.sources.tomb;
        version = overlay_stamp l' b.sources jpos;
      };
    }

-- `Upsert`
unfoldable pub upsert : List Entry → LiveList → Outcome
upsert entries l =
    guarded l
      (with_build l (prepare_overlay l (put_all l.snap.base entries)) (commit_overlay l none))

-- `Delete`
unfoldable pub delete : Bytes → LiveList → Outcome
delete id l =
    guarded l (with_build l (prepare_overlay l (take_out l.snap.base id)) (commit_overlay l none))

-- `liveEntriesLocked`, before it sorts: what of the base is neither dead nor shadowed.
unfoldable pub live_base : Dict (Unit {0}) → Dict Entry → List Entry → List Entry
live_base tomb src [] = []
live_base tomb src (e ∷ entries) =
    let rest = live_base tomb src entries in
    if is_some (lookup e.id tomb)
    then rest
    else if is_some (lookup e.id src)
    then rest
    else e ∷ rest

abbrev pub base_entries : Option Segment → List Entry
base_entries none = []
base_entries (some seg) = seg.entries

unfoldable pub live_entries : LiveList → List Entry
live_entries l =
    sort_by_id
      (live_base l.snap.tombstones l.overlay_src (base_entries l.snap.base) ++ values l.overlay_src)

-- `Compact`
unfoldable pub compact : LiveList → Outcome
compact l = guarded l (
    with_build l (build_segment l.an (live_entries l)) λ seg. record l {
      gen = l.gen + 1;
      base_id = [];
      snap = only_base seg (Version.gen_base (l.gen + 1) (length (live_entries l)));
      overlay_src = [];
    })

-- engine/journal.go: a record of the journal, an upsert without its entry and an unknown `op` too.
pub data JournalRec : Type 0 where
  upsert_rec : Option Entry → JournalRec
  delete_rec : Bytes → JournalRec
  unknown_rec : JournalRec

unfoldable pub fold_journal : Option Segment → List JournalRec → Sources → Sources
unfolding put_all take_out
fold_journal base [] s = s
fold_journal base (upsert_rec (some e) ∷ ops) s = fold_journal base ops (put_all base (e ∷ []) s)
fold_journal base (upsert_rec none ∷ ops) s = fold_journal base ops s
fold_journal base (delete_rec id ∷ ops) s = fold_journal base ops (take_out base id s)
fold_journal base (unknown_rec ∷ ops) s = fold_journal base ops s

-- `applyJournalLocked`
unfoldable pub apply_journal : List JournalRec → ℕ → LiveList → Outcome
apply_journal [] jpos l = (l, none)
apply_journal (op ∷ ops) jpos l =
    with_build l (prepare_overlay l (fold_journal l.snap.base (op ∷ ops)))
      (commit_overlay l (some jpos))

-- `PrepareCompact` and `CommitCompact`: the fold and its segment, and their installing under the
-- identity of the persisted base.
pub record CompactBuild : Type 0 where
  pub live : List Entry
  pub seg : Segment

unfoldable pub prepare_compact : LiveList → Result CompactBuild
prepare_compact l =
    build_segment l.an (live_entries l) >>= λ seg. ok (record { live = live_entries l; seg = seg })

unfoldable pub commit_compact : CompactBuild → Bytes → LiveList → LiveList
unfolding refuse
commit_compact b id l = if l.read_only then refuse l else record l {
  gen = l.gen + 1;
  base_id = id;
  snap = only_base b.seg (Version.content id (length b.live) 0 none);
  overlay_src = [];
}
