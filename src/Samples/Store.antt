-- ===== src/Samples/Store.antt =====
-- A list with its journal, on a concrete list and with a small codec.
use mathlib.Core.Bool.{◌&&◌}
use kurn.Prelude.{
  map, ℕ, ◌==◌, ◌≡◌, refl, Bool, true, false, Option, none, some, List, [], ◌∷◌, ◌++◌,
  if◌then◌else◌, Bool-cases, inl, inr, arith, take, not, subst,
}
use kurn.Prelude.Bytes.{Bytes, codes}
use kurn.Payload.Scalar.{is_empty}
use kurn.Live.Types.{Entry, LiveList}
use kurn.Live.Mutate.{JournalRec, upsert_rec, delete_rec, unknown_rec, fold_journal}
use kurn.Live.View.{view, view_of, sources}
use kurn.Store.Lines.{newline, lines_of, IsTail}
use kurn.Store.Journal.{
  Disk, fsync_none, fsync_every, no_damage, content_damage, failed, sync_failed, read_journal,
  read_lines, records_of, repair, encode_lines, buffered, append_journal, append_buf,
}
use kurn.Store.Replay.{read_journal-repair}
use kurn.Store.Codec.{IsLawful}
use kurn.Store.Append.{
  read_journal-append, IsInStep, append_journal-IsInStep, append_journal_failed,
}
use kurn.Store.Mutate.{StoreList, upsert_of, upsert_locked, delete_locked, reopen}
use kurn.Store.Durable.{IsDurable, upsert_locked-IsDurable, delete_locked-IsDurable}
use kurn.Store.Reopened.{reopen-IsDurable, reopen-torn}
use kurn.Store.Stamp.{reopen-version}
use kurn.Samples.Live.{started, mutations_run}

abbrev one_line : Bytes → Bool
one_line [] = true
one_line (c ∷ s) = not (c == newline) && one_line s

one_line-IsTail : (s : Bytes) → one_line s ≡ true → IsTail s
one_line-IsTail [] h = tt
one_line-IsTail (c ∷ s) h = (ground arith, one_line-IsTail s (ground arith))

-- Deletes, and upserts of entries without their keys and payload.
abbrev pub small_encode : JournalRec → Option Bytes
small_encode (delete_rec id) = if one_line id then some (b'd' ∷ id) else none
small_encode (upsert_rec (some e)) = if one_line e.id then some (b'u' ∷ e.id) else none
small_encode (upsert_rec none) = none
small_encode unknown_rec = none

abbrev pub small_decode : Bytes → Option JournalRec
small_decode [] = none
small_decode (c ∷ id) =
    if c == b'd'
    then some (delete_rec id)
    else if c == b'u'
    then some (upsert_rec (some (record { id = id; keys = []; payload = [] })))
    else none

-- What the two make of a record.
abbrev pub small_normal : JournalRec → JournalRec
small_normal (delete_rec id) = delete_rec id
small_normal (upsert_rec (some e)) =
    upsert_rec (some (record { id = e.id; keys = []; payload = [] }))
small_normal (upsert_rec none) = upsert_rec none
small_normal unknown_rec = unknown_rec

abbrev Marshalled : JournalRec → Bytes → Type 0
Marshalled r line =
    IsTail line × (is_empty line ≡ false) × (small_decode line ≡ some (small_normal r))

small-Marshalled : (r : JournalRec) (line : Bytes) → small_encode r ≡ some line → Marshalled r line
small-Marshalled (delete_rec id) line h = elim (Bool-cases (one_line id)) [
  | inr o ↦ cc (rw o at h)
  | inl o ↦
      let found : some (b'd' ∷ id) ≡ some line = rw o at h in
      let same : b'd' ∷ id ≡ line = cc in
      subst (Marshalled (delete_rec id)) same ((refl, one_line-IsTail id o), refl, refl)
]
small-Marshalled (upsert_rec (some e)) line h = elim (Bool-cases (one_line e.id)) [
  | inr o ↦ cc (rw o at h)
  | inl o ↦
      let found : some (b'u' ∷ e.id) ≡ some line = rw o at h in
      let same : b'u' ∷ e.id ≡ line = cc in
      subst (Marshalled (upsert_rec (some e))) same ((refl, one_line-IsTail e.id o), refl, refl)
]
small-Marshalled (upsert_rec none) line h = cc
small-Marshalled unknown_rec line h = cc

pub small-IsLawful : IsLawful small_encode small_decode small_normal
small-IsLawful = record {
  no_newline = λ r line h. (small-Marshalled r line h).0;
  not_empty = λ r line h. (small-Marshalled r line h).1;
  inverse = λ r line h. (small-Marshalled r line h).2;
}

abbrev pub bare_entry : Bytes → Entry
bare_entry id = record { id = id; keys = []; payload = [] }

-- Nothing fails.
abbrev pub sound_disk : Disk
sound_disk = record {
  opens = true;
  writes = true;
  reached = 0;
  syncs = true;
  closes = true;
  commits = true;
  truncates = true;
}

abbrev pub same_digest : Bytes → Bytes
same_digest b = b

abbrev named : LiveList
named = record started { base_id = codes "v1" }

abbrev opened : StoreList
opened = record {
  list = named;
  journal = record { file = []; hashed = some []; damage = no_damage };
}

-- Opens what the journal computes with.
unfoldable pub store_runs : Unit {0}
unfolding mutations_run read_journal repair read_lines lines_of records_of encode_lines
    append_journal append_buf upsert_locked delete_locked reopen
store_runs = tt

abbrev torn_file : Bytes
torn_file = codes "dab" ++ newline ∷ codes "dc"

torn_run : repair small_decode torn_file ≡ codes "dab" ++ newline ∷ []
unfolding store_runs
torn_run = refl

-- A failed sync is rolled back; where that fails too, the list is damaged.
rollback_run :
    (append_journal small_encode fsync_every
        (record sound_disk { syncs = false })
        (delete_rec (codes "a") ∷ [])
        opened.journal
      ≡ (opened.journal, failed sync_failed))
    × (append_journal small_encode fsync_every
          (record sound_disk { syncs = false; truncates = false })
          (delete_rec (codes "a") ∷ [])
          opened.journal
        ≡ (
          record { file = codes "da" ++ newline ∷ []; hashed = some []; damage = content_damage },
          failed sync_failed,
        ))
unfolding store_runs
rollback_run = (refl, refl)

read_journal-repair_example :
    read_journal small_decode (repair small_decode torn_file)
    ≡ record { ops = (read_journal small_decode torn_file).ops; torn_at = none }
read_journal-repair_example = read_journal-repair small_decode torn_file

abbrev first_file : Bytes
first_file = codes "da" ++ newline ∷ []

first_clean :
    read_journal small_decode first_file
    ≡ record { ops = delete_rec (codes "a") ∷ []; torn_at = none }
unfolding store_runs
first_clean = refl

-- The payload is not read back.
abbrev more_recs : List JournalRec
more_recs =
    delete_rec (codes "b")
    ∷ upsert_of (record { id = codes "c"; keys = []; payload = codes " 1" })
    ∷ []

abbrev more_buf : Bytes
more_buf = codes "db" ++ newline ∷ codes "uc" ++ newline ∷ []

more_encoded : encode_lines small_encode more_recs ≡ buffered more_buf
unfolding store_runs
more_encoded = refl

read_journal-append_example : read_journal small_decode (first_file ++ more_buf) ≡ record {
  ops = delete_rec (codes "a") ∷ delete_rec (codes "b") ∷ upsert_of (bare_entry (codes "c")) ∷ [];
  torn_at = none;
}
read_journal-append_example =
    read_journal-append small_encode small_decode small_normal small-IsLawful first_file
      (delete_rec (codes "a") ∷ []) first_clean more_recs more_buf more_encoded

opened-IsInStep : IsInStep opened.journal
opened-IsInStep sound h e = cc

append_journal-IsInStep_example :
    IsInStep (append_journal small_encode fsync_every sound_disk more_recs opened.journal).0
append_journal-IsInStep_example =
    append_journal-IsInStep small_encode fsync_every sound_disk more_recs opened.journal
      opened-IsInStep

opened-IsDurable : IsDurable small_decode opened
unfolding store_runs
opened-IsDurable sound = ([], refl, refl)

upsert_locked-IsDurable_example :
    IsDurable small_decode
      (upsert_locked same_digest small_encode fsync_none sound_disk
        (bare_entry (codes "c") ∷ [])
        opened).0
upsert_locked-IsDurable_example =
    upsert_locked-IsDurable same_digest small_encode small_decode small_normal small-IsLawful
      fsync_none sound_disk (bare_entry (codes "c") ∷ []) opened refl opened-IsDurable

delete_locked-IsDurable_example :
    IsDurable small_decode
      (delete_locked same_digest small_encode fsync_none sound_disk (codes "a") opened).0
delete_locked-IsDurable_example =
    delete_locked-IsDurable same_digest small_encode small_decode small_normal small-IsLawful
      fsync_none sound_disk (codes "a") opened refl opened-IsDurable

reopen-IsDurable_example :
    IsDurable small_decode (reopen same_digest small_decode named torn_file).store
unfolding store_runs
reopen-IsDurable_example = reopen-IsDurable same_digest small_decode named torn_file refl

reopen-torn_example :
    (m : ℕ) × ((id : Bytes)
      → view
          (reopen same_digest small_decode named
            (opened.journal.file ++ take 4 more_buf)).store.list
          id
        ≡ view_of named.snap.base
            (fold_journal named.snap.base (take m (map small_normal more_recs)) (sources named))
            id)
unfolding store_runs
reopen-torn_example =
    reopen-torn same_digest small_encode small_decode small_normal opened named more_recs more_buf 4
      small-IsLawful opened-IsDurable refl more_encoded (record { same_base = refl; empty = refl })
      refl

abbrev upserted : StoreList
upserted =
    (upsert_locked same_digest small_encode fsync_none sound_disk (bare_entry (codes "c") ∷ [])
      opened).0

reopen-version_example :
    (reopen same_digest small_decode named upserted.journal.file).store.list.snap.version
    ≡ upserted.list.snap.version
unfolding store_runs
reopen-version_example =
    reopen-version same_digest small_encode small_decode small_normal fsync_none sound_disk
      (bare_entry (codes "c")) [] [] opened upserted named small-IsLawful refl refl refl refl refl
      refl refl

append_journal_failed_example : opened.journal ≡ opened.journal
unfolding store_runs
append_journal_failed_example =
    append_journal_failed small_encode fsync_every (record sound_disk { syncs = false }) more_recs
      opened.journal opened.journal sync_failed refl refl
