-- ===== src/Store/Serve.antt =====
-- engine/store.go: a list of the store while it is open, and the same list opened again.
use kurn.Prelude.{
  ℕ, ◌≡◌, refl, ap, sym, ◌∙◌, subst, Bool, false, Option, none, some, List, [], ◌∷◌, map, length,
}
use kurn.Prelude.Bytes.{Bytes}
use kurn.Exact.Index.{Result, ok, err, ok-injective}
use kurn.Live.Types.{Entry, Segment, LiveList}
use kurn.Live.Segment.{sort_by_id, values}
use kurn.Live.Mutate.{
  JournalRec, delete_rec, OverlayBuild, Sources, prepare_overlay, commit_overlay, put_all, take_out,
  fold_journal, apply_journal, build_overlay, with_build,
}
use kurn.Live.View.{sources}
use kurn.Live.Sound.{IsSound, IsSound-put_all, IsSound-take_out}
use kurn.Live.Coherent.{IsCoherent, overlay-IsCoherent}
use kurn.Query.Reads.{SameReads, query_snap-SameReads}
use kurn.Store.Journal.{
  JournalFile, Disk, FsyncMode, Appended, appended_to, failed, append_journal, read_journal,
  no_damage, read_lines,
}
use kurn.Store.Lines.{lines_of}
use kurn.Query.Search.{Filter, query_snap}
use kurn.Store.Codec.{IsLawful}
use kurn.Store.Mutate.{
  StoreList, upsert_of, journalled, commit_at, upsert_locked, delete_locked, reopen, with_hash,
}
use kurn.Store.Durable.{IsDurable, upsert_locked-IsDurable, delete_locked-IsDurable, no_sources}

-- A coherent list has the overlay that its sources are built into.
overlay-built :
    (l : LiveList)
    → IsCoherent l
    → build_overlay l.an (sort_by_id (values l.overlay_src)) ≡ ok l.snap.overlay
overlay-built l h = ap (build_overlay l.an) (sym h.overlay) ∙ h.overlay_made

prepare_overlay-built :
    (l : LiveList) (mutate : Sources → Sources) (ov : Option Segment)
    → build_overlay l.an (sort_by_id (values (mutate (sources l)).src)) ≡ ok ov
    → prepare_overlay l mutate ≡ ok (record { sources = mutate (sources l); seg = ov })
unfolding prepare_overlay
prepare_overlay-built l mutate ov h = rw h refl

-- Where the running list was built from what its journal says, the journal is replayed without an
-- error, and the list that it gives reads the same.
pub apply_journal-SameReads :
    (l fresh : LiveList) (ops : List JournalRec) (jpos : ℕ)
    → IsCoherent l
    → IsCoherent fresh
    → fresh.an ≡ l.an
    → fresh.snap.base ≡ l.snap.base
    → fold_journal fresh.snap.base ops (sources fresh) ≡ sources l
    → (l' : LiveList) × (apply_journal ops jpos fresh ≡ (l', none)) × SameReads l l'
unfolding apply_journal fold_journal commit_overlay
apply_journal-SameReads l fresh [] jpos h g an base same = (
  fresh,
  refl,
  record {
    an = an;
    base = base;
    overlay = ok-injective (
        sym (overlay-built fresh g)
        ∙ (λ i. build_overlay (an i) (sort_by_id (values (same i).src)))
        ∙ overlay-built l h);
    tombstones = ap (λ (s : Sources). s.tomb) same;
  },
)
apply_journal-SameReads l fresh (op ∷ ops) jpos h g an base same =
    let folded = fold_journal fresh.snap.base (op ∷ ops) (sources fresh) in
    let b : OverlayBuild = record { sources = folded; seg = l.snap.overlay } in
    let built : build_overlay fresh.an (sort_by_id (values folded.src)) ≡ ok l.snap.overlay =
      (λ i. build_overlay (an i) (sort_by_id (values (same i).src))) ∙ overlay-built l h in
    (
      commit_overlay fresh (some jpos) b,
      ap (λ r. with_build fresh r (commit_overlay fresh (some jpos)))
          (prepare_overlay-built fresh (fold_journal fresh.snap.base (op ∷ ops)) l.snap.overlay
            built),
      record {
        an = an;
        base = base;
        overlay = refl;
        tombstones = ap (λ (s : Sources). s.tomb) same;
      },
    )

module _ (digest : Bytes → Bytes) (encode : JournalRec → Option Bytes)
    (decode : Bytes → Option JournalRec) (normal : JournalRec → JournalRec) where
  -- One mutation of an open list by entries or an ID that are read back as they are written,
  -- whatever the disk does and whatever it returns.
  pub data StoreStep (s : StoreList) : StoreList → Type 0 where
    upserts :
        (mode : FsyncMode) (d : Disk) (entries : List Entry)
        → map normal (map upsert_of entries) ≡ map upsert_of entries
        → StoreStep s (upsert_locked digest encode mode d entries s).0
    deletes :
        (mode : FsyncMode) (d : Disk) (id : Bytes)
        → normal (delete_rec id) ≡ delete_rec id
        → StoreStep s (delete_locked digest encode mode d id s).0

  pub data StoreRuns (s : StoreList) : StoreList → Type 0 where
    idle : StoreRuns s s
    then_step : {t u : StoreList} → StoreRuns s t → StoreStep t u → StoreRuns s u

  -- What an open list keeps: it is durable and coherent, over the base and analyzer it was opened
  -- with.
  record IsServing (first : LiveList) (s : StoreList) : Type 0 where
    durable : IsDurable decode s
    coherent : IsCoherent s.list
    same_an : first.an ≡ s.list.an
    same_base : first.snap.base ≡ s.list.snap.base

  -- A list that a mutation leaves, coherent over the same base and analyzer.
  record Keeps (l l' : LiveList) : Type 0 where
    coherent : IsCoherent l'
    same_an : l.an ≡ l'.an
    same_base : l.snap.base ≡ l'.snap.base

  with_hash-IsCoherent :
      (hashed : Option Bytes) (l : LiveList) → IsCoherent l → IsCoherent (with_hash digest hashed l)
  with_hash-IsCoherent hashed l h = record {
    sound = h.sound;
    knows = h.knows;
    overlay = h.overlay;
    base_built = h.base_built;
    overlay_built = h.overlay_built;
    overlay_made = h.overlay_made;
  }

  journalled-Keeps :
      (mode : FsyncMode) (d : Disk) (recs : List JournalRec) (mutate : Sources → Sources)
      (s : StoreList)
      → IsCoherent s.list
      → IsSound s.list.snap.base (mutate (sources s.list))
      → Keeps s.list (journalled digest encode mode d recs (prepare_overlay s.list mutate) s).0.list
  unfolding prepare_overlay commit_overlay
  journalled-Keeps mode d recs mutate s h sound = done (prepare_overlay s.list mutate) refl
    where
      kept : Keeps s.list s.list
      kept = record { coherent = h; same_an = refl; same_base = refl }

      at_end :
          (b : OverlayBuild)
          → prepare_overlay s.list mutate ≡ ok b
          → (r : JournalFile × Appended) → Keeps s.list (commit_at digest encode s b r).0.list
      at_end b built (j, failed e) = kept
      at_end b built (j, appended_to p) = record {
        coherent =
            subst
              (λ r.
                IsCoherent
                  (with_build (with_hash digest j.hashed s.list) r
                    (commit_overlay (with_hash digest j.hashed s.list) (some p))).0)
              built
              (overlay-IsCoherent (with_hash digest j.hashed s.list) (some p) mutate
                (with_hash-IsCoherent j.hashed s.list h) sound);
        same_an = refl;
        same_base = refl;
      }

      done :
          (r : Result OverlayBuild)
          → prepare_overlay s.list mutate ≡ r
          → Keeps s.list (journalled digest encode mode d recs r s).0.list
      done (err e) built = kept
      done (ok b) built = at_end b built (append_journal encode mode d recs s.journal)

  StoreStep-Keeps : (s t : StoreList) → StoreStep s t → IsCoherent s.list → Keeps s.list t.list
  unfolding upsert_locked delete_locked
  StoreStep-Keeps s t (upserts mode d entries _) h =
      journalled-Keeps mode d (map upsert_of entries) (put_all s.list.snap.base entries) s h
        (IsSound-put_all s.list.snap.base entries (sources s.list) h.sound)
  StoreStep-Keeps s t (deletes mode d id _) h =
      journalled-Keeps mode d (delete_rec id ∷ []) (take_out s.list.snap.base id) s h
        (IsSound-take_out s.list.snap.base id (sources s.list) h.sound)

  StoreStep-IsDurable :
      (s t : StoreList)
      → StoreStep s t
      → IsLawful encode decode normal
      → IsDurable decode s
      → IsDurable decode t
  StoreStep-IsDurable s t (upserts mode d entries plain) lawful h =
      upsert_locked-IsDurable digest encode decode normal lawful mode d entries s plain h
  StoreStep-IsDurable s t (deletes mode d id plain) lawful h =
      delete_locked-IsDurable digest encode decode normal lawful mode d id s plain h

  -- A list that is opened over a base, without a journal.
  abbrev pub opened_empty : LiveList → StoreList
  opened_empty first = record {
    list = with_hash digest (some []) first;
    journal = record { file = []; hashed = some []; damage = no_damage };
  }

  StoreRuns-IsServing :
      (first : LiveList) (s : StoreList)
      → IsLawful encode decode normal
      → IsCoherent first
      → sources first ≡ no_sources
      → StoreRuns (opened_empty first) s
      → IsServing first s
  unfolding fold_journal
  StoreRuns-IsServing first s lawful h empty idle = record {
    durable = λ sound. ([], unfold read_journal read_lines lines_of in refl, empty);
    coherent = with_hash-IsCoherent (some []) first h;
    same_an = refl;
    same_base = refl;
  }
  StoreRuns-IsServing first s lawful h empty (then_step {t} runs step) =
      let before = StoreRuns-IsServing first t lawful h empty runs in
      let kept = StoreStep-Keeps t s step before.coherent in
      record {
        durable = StoreStep-IsDurable t s step lawful before.durable;
        coherent = kept.coherent;
        same_an = before.same_an ∙ kept.same_an;
        same_base = before.same_base ∙ kept.same_base;
      }

  -- The list that the reopening leads to.
  reopened :
      (first : LiveList) (s : StoreList)
      → IsCoherent first
      → sources first ≡ no_sources
      → IsServing first s
      → s.journal.damage ≡ no_damage
      → (l' : LiveList) × ((reopen digest decode first s.journal.file).quarantined ≡ false)
        × ((reopen digest decode first s.journal.file).store.list ≡ l')
        × SameReads s.list l'
  unfolding reopen
  reopened first s h empty serving sound =
      let (ops, clean, shown) = serving.durable sound in
      let file = s.journal.file in
      let fresh = with_hash digest (some file) first in
      let (l', replays, same) =
        apply_journal-SameReads s.list fresh ops (length file) serving.coherent
          (with_hash-IsCoherent (some file) first h) serving.same_an serving.same_base
          ((λ i. fold_journal (serving.same_base i) ops (empty i)) ∙ sym shown) in
      (l', rw (clean, replays) refl, rw (clean, replays) refl, same)

-- Where the codec is lawful: a list that is opened over a coherent base with nothing above it, then
-- changed by any upserts and deletes of entries and IDs that are read back as they are written,
-- whatever the disk does on the way, and is not damaged at the
-- end, is opened again from the same base and its journal without the journal being put aside, and
-- answers every query as it did.
pub reopen-query_snap :
    (digest : Bytes → Bytes) (encode : JournalRec → Option Bytes)
    (decode : Bytes → Option JournalRec) (normal : JournalRec → JournalRec) (first : LiveList)
    (s : StoreList)
    → IsLawful encode decode normal
    → IsCoherent first
    → sources first ≡ no_sources
    → StoreRuns digest encode decode normal (opened_empty digest encode decode normal first) s
    → s.journal.damage ≡ no_damage
    → (cf : Filter) (top_k : ℕ) (below : ℕ → Bool) (fallback : Bool) (q : Bytes)
    → ((reopen digest decode first s.journal.file).quarantined ≡ false)
      × (query_snap (reopen digest decode first s.journal.file).store.list cf top_k below fallback q
          ≡ query_snap s.list cf top_k below fallback q)
reopen-query_snap digest encode decode normal first s lawful h empty runs sound cf top_k below
      fallback q =
    let serving = StoreRuns-IsServing digest encode decode normal first s lawful h empty runs in
    let (l', kept, shown, same) =
      reopened digest encode decode normal first s h empty serving sound in
    (
      kept,
      ap (λ l. query_snap l cf top_k below fallback q) shown
          ∙ query_snap-SameReads s.list l' cf top_k below fallback q same,
    )
