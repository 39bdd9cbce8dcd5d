-- ===== src/Store/Durable.antt =====
-- engine/store.go: what a list shows is what its journal says, whatever fails in a mutation.
use kurn.Prelude.{◌≡◌, refl, ap, sym, ◌∙◌, subst, Option, none, some, List, [], ◌∷◌, ◌++◌, map}
use kurn.Prelude.Bytes.{Bytes}
use kurn.Exact.Index.{Result, ok, err, >>=-eq-ok, ok-injective}
use kurn.Live.Types.{Entry, Segment, LiveList}
use kurn.Live.Segment.{sort_by_id, values}
use kurn.Live.Mutate.{
  JournalRec, upsert_rec, delete_rec, unknown_rec, OverlayBuild, Sources, prepare_overlay,
  commit_overlay, put_all, take_out, fold_journal, build_overlay,
}
use kurn.Live.View.{sources}
use kurn.Store.Journal.{
  JournalFile, Disk, FsyncMode, Appended, appended_to, failed, append_journal, read_journal,
  no_damage,
}
use kurn.Store.Codec.{IsLawful}
use kurn.Store.Append.{append_journal_failed, append_journal_done, read_journal-append}
use kurn.Store.Mutate.{StoreList, upsert_of, journalled, commit_at, upsert_locked, delete_locked}

abbrev pub no_sources : Sources
no_sources = record { src = []; tomb = [] }

-- The journal reads clean, and what it holds, over the base, is what the list shows.
abbrev pub IsDurable : (Bytes → Option JournalRec) → StoreList → Type 0
IsDurable decode s =
    s.journal.damage ≡ no_damage
    → (ops : List JournalRec) × (read_journal decode s.journal.file
        ≡ record { ops = ops; torn_at = none })
      × (sources s.list ≡ fold_journal s.list.snap.base ops no_sources)

pub fold_journal-append :
    (base : Option Segment) (ops more : List JournalRec) (s : Sources)
    → fold_journal base (ops ++ more) s ≡ fold_journal base more (fold_journal base ops s)
unfolding fold_journal
fold_journal-append base [] more s = refl
fold_journal-append base (upsert_rec (some e) ∷ ops) more s = fold_journal-append base ops more _
fold_journal-append base (upsert_rec none ∷ ops) more s = fold_journal-append base ops more s
fold_journal-append base (delete_rec id ∷ ops) more s = fold_journal-append base ops more _
fold_journal-append base (unknown_rec ∷ ops) more s = fold_journal-append base ops more s

fold_journal-upserts :
    (base : Option Segment) (entries : List Entry) (s : Sources)
    → fold_journal base (map upsert_of entries) s ≡ put_all base entries s
unfolding fold_journal put_all
fold_journal-upserts base [] s = refl
fold_journal-upserts base (e ∷ entries) s = fold_journal-upserts base entries _

pub sources-prepare_overlay :
    (l : LiveList) (mutate : Sources → Sources) (b : OverlayBuild)
    → prepare_overlay l mutate ≡ ok b
    → b.sources ≡ mutate (sources l)
unfolding prepare_overlay
sources-prepare_overlay l mutate b h =
    let (ov, _, e) =
      >>=-eq-ok (build_overlay l.an (sort_by_id (values (mutate (sources l)).src))) _ h in
    ap (λ (x : OverlayBuild). x.sources) (sym (ok-injective e))

module _ (digest : Bytes → Bytes) (encode : JournalRec → Option Bytes)
    (decode : Bytes → Option JournalRec) (normal : JournalRec → JournalRec)
    (lawful : IsLawful encode decode normal) (mode : FsyncMode) (d : Disk) (recs : List JournalRec)
    (plain : map normal recs ≡ recs) (s : StoreList) (durable : IsDurable decode s) where
  commit_at-IsDurable :
      (b : OverlayBuild)
      → b.sources ≡ fold_journal s.list.snap.base recs (sources s.list)
      → (r : JournalFile × Appended) → append_journal encode mode d recs s.journal ≡ r
      → IsDurable decode (commit_at digest encode s b r).0
  unfolding commit_overlay
  commit_at-IsDurable b built (j, failed e) h sound =
      let same = append_journal_failed encode mode d recs s.journal j e h sound in
      subst (λ k. IsDurable decode (record s { journal = k })) (sym same) durable sound
  commit_at-IsDurable b built (j, appended_to p) h sound =
      let (buf, encoded, file, _, before, _, _) =
        append_journal_done encode mode d recs s.journal j p h in
      let (ops, clean, shown) = durable before in
      (
        ops ++ recs,
        ap (read_journal decode) file
            ∙ read_journal-append encode decode normal lawful s.journal.file ops clean recs buf
                encoded
            ∙ ap (λ rs. record { ops = ops ++ rs; torn_at = none }) plain,
        built
            ∙ ap (fold_journal s.list.snap.base recs) shown
            ∙ sym (fold_journal-append s.list.snap.base ops recs no_sources),
      )

  journalled-IsDurable :
      (mutate : Sources → Sources)
      → mutate (sources s.list) ≡ fold_journal s.list.snap.base recs (sources s.list)
      → (r : Result OverlayBuild) → prepare_overlay s.list mutate ≡ r
      → IsDurable decode (journalled digest encode mode d recs r s).0
  journalled-IsDurable mutate same (err e) h = durable
  journalled-IsDurable mutate same (ok b) h =
      commit_at-IsDurable b (sources-prepare_overlay s.list mutate b h ∙ same)
        (append_journal encode mode d recs s.journal) refl

-- Where the codec is lawful, an upsert of entries that are read back as they are written leaves a
-- durable list durable, whatever fails on the way: the file of an undamaged list reads clean, and
-- its records over the base are what the list shows.
pub upsert_locked-IsDurable :
    (digest : Bytes → Bytes) (encode : JournalRec → Option Bytes)
    (decode : Bytes → Option JournalRec) (normal : JournalRec → JournalRec)
    → IsLawful encode decode normal
    → (mode : FsyncMode) (d : Disk) (entries : List Entry) (s : StoreList)
    → map normal (map upsert_of entries) ≡ map upsert_of entries
    → IsDurable decode s
    → IsDurable decode (upsert_locked digest encode mode d entries s).0
unfolding upsert_locked
upsert_locked-IsDurable digest encode decode normal lawful mode d entries s plain h =
    journalled-IsDurable digest encode decode normal lawful mode d (map upsert_of entries) plain s h
      (put_all s.list.snap.base entries)
      (sym (fold_journal-upserts s.list.snap.base entries (sources s.list)))
      (prepare_overlay s.list (put_all s.list.snap.base entries)) refl

-- Where the codec is lawful, a delete of an ID that is read back as it is written leaves a durable
-- list durable, whatever fails on the way.
pub delete_locked-IsDurable :
    (digest : Bytes → Bytes) (encode : JournalRec → Option Bytes)
    (decode : Bytes → Option JournalRec) (normal : JournalRec → JournalRec)
    → IsLawful encode decode normal
    → (mode : FsyncMode) (d : Disk) (id : Bytes) (s : StoreList)
    → normal (delete_rec id) ≡ delete_rec id
    → IsDurable decode s
    → IsDurable decode (delete_locked digest encode mode d id s).0
unfolding delete_locked fold_journal
delete_locked-IsDurable digest encode decode normal lawful mode d id s plain h =
    journalled-IsDurable digest encode decode normal lawful mode d (delete_rec id ∷ [])
      (ap (λ r. r ∷ []) plain) s h (take_out s.list.snap.base id) refl
      (prepare_overlay s.list (take_out s.list.snap.base id)) refl
