-- ===== src/Store/Mutate.antt =====
-- engine/store.go: a list with its journal. A mutation is prepared, appended to the journal, and only
-- then applied; opening a list repairs its journal and replays it over the base.
use mathlib.Core.Option
use kurn.Prelude.{Bool, true, false, Option, none, some, List, [], ◌∷◌, map, length}
use kurn.Prelude.Bytes.{Bytes}
use kurn.Exact.Index.{Result, ok, err}
use kurn.Live.Types.{Entry, LiveList}
use kurn.Live.Mutate.{
  JournalRec, upsert_rec, delete_rec, OverlayBuild, Outcome, prepare_overlay, commit_overlay,
  put_all, take_out, apply_journal,
}
use kurn.Store.Journal.{
  JournalFile, Journal, Disk, FsyncMode, StoreError, unbuildable, Appended, appended_to, failed,
  append_journal, read_journal, cut_at, no_damage,
}

pub record StoreList : Type 0 where
  pub list : LiveList
  pub journal : JournalFile

-- The record of an upserted entry.
abbrev pub upsert_of : Entry → JournalRec
upsert_of e = upsert_rec (some e)

-- What a list has been reopened to; its journal may have been put aside.
pub record Opened : Type 0 where
  pub store : StoreList
  pub quarantined : Bool

-- `digest` is the journal hash of the bytes that it was given.
module _ (digest : Bytes → Bytes) where
  abbrev pub with_hash : Option Bytes → LiveList → LiveList
  with_hash hashed l = record l { jhash = Option.map digest hashed }

  module _ (encode : JournalRec → Option Bytes) where
    abbrev pub commit_at :
        StoreList → OverlayBuild → JournalFile × Appended → StoreList × Option StoreError
    commit_at s b (j, failed e) = (record s { journal = j }, some e)
    commit_at s b (j, appended_to p) =
        (record { list = commit_overlay (with_hash j.hashed s.list) (some p) b; journal = j }, none)

    -- The common end of the mutations: append, then commit at the journal's position.
    abbrev pub journalled :
        FsyncMode
        → Disk
        → List JournalRec
        → Result OverlayBuild
        → StoreList
        → StoreList × Option StoreError
    journalled mode d recs (err e) s = (s, some unbuildable)
    journalled mode d recs (ok b) s = commit_at s b (append_journal encode mode d recs s.journal)

    -- `upsertLocked`
    unfoldable pub upsert_locked :
        FsyncMode → Disk → List Entry → StoreList → StoreList × Option StoreError
    upsert_locked mode d entries s =
        journalled mode d (map upsert_of entries)
          (prepare_overlay s.list (put_all s.list.snap.base entries)) s

    -- The body of `DeleteVersioned`, under the list's lock.
    unfoldable pub delete_locked :
        FsyncMode → Disk → Bytes → StoreList → StoreList × Option StoreError
    delete_locked mode d id s =
        journalled mode d (delete_rec id ∷ [])
          (prepare_overlay s.list (take_out s.list.snap.base id)) s

  abbrev pub replay_or_quarantine : LiveList → Bytes → Outcome → Opened
  replay_or_quarantine fresh file (l, none) = record {
    store = record {
      list = l;
      journal = record { file = file; hashed = some file; damage = no_damage };
    };
    quarantined = false;
  }
  replay_or_quarantine fresh file (l, some e) = record {
    store = record {
      list = with_hash (some []) fresh;
      journal = record { file = []; hashed = some []; damage = no_damage };
    };
    quarantined = true;
  }

  -- The truncation of a torn journal, the hashing of what is left, and the replay.
  abbrev pub open_journal : LiveList → Bytes → Journal → Opened
  open_journal fresh b j =
      replay_or_quarantine (with_hash (some (cut_at j b)) fresh) (cut_at j b)
        (apply_journal j.ops (length (cut_at j b)) (with_hash (some (cut_at j b)) fresh))

  -- The end of `openList`, from the reading of the journal on; `fresh` has the base installed.
  unfoldable pub reopen : (Bytes → Option JournalRec) → LiveList → Bytes → Opened
  reopen decode fresh b = open_journal fresh b (read_journal decode b)
