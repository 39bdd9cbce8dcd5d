-- ===== src/Store/Journal.antt =====
-- engine/store.go: the reading of a journal, its repair, and the append with its rollbacks.
-- `encode` and `decode` are `json.Marshal` and `json.Unmarshal` on journal records.
use mathlib.Core.Bool.{◌&&◌, not}
use mathlib.Core.Option
use kurn.Prelude.{
  ℕ, suc, ◌+◌, ◌^◌, Bool, true, false, Option, none, some, List, [], ◌∷◌, ◌++◌, if◌then◌else◌, ltb,
  length, take,
}
use kurn.Prelude.Bytes.{Bytes}
use kurn.Payload.Scalar.{is_empty}
use kurn.Live.Mutate.{JournalRec, upsert_rec, delete_rec, unknown_rec}
use kurn.Store.Lines.{newline, lines_of}

abbrev pub max_line : ℕ
max_line = 2 ^ 20

-- What `readJournal` returns; `torn_at` is none for a clean file.
pub record Journal : Type 0 where
  pub ops : List JournalRec
  pub torn_at : Option ℕ

pub data FsyncMode : Type 0 where
  fsync_none fsync_every fsync_interval : FsyncMode

pub data DamageKind : Type 0 where
  no_damage content_damage create_damage : DamageKind

pub data StoreError : Type 0 where
  damaged : DamageKind → StoreError
  entry_too_large : Bytes → ℕ → StoreError
  unbuildable marshal_failed open_failed write_failed sync_failed close_failed commit_failed :
      StoreError

-- How the calls on the file end, and how many bytes of the write reach it if it fails.
pub record Disk : Type 0 where
  pub opens : Bool
  pub writes : Bool
  pub reached : ℕ
  pub syncs : Bool
  pub closes : Bool
  pub commits : Bool
  pub truncates : Bool

-- The journal file, the bytes that the running hash was given, and the list's damage.
pub record JournalFile : Type 0 where
  pub file : Bytes
  pub hashed : Option Bytes
  pub damage : DamageKind

pub data Appended : Type 0 where
  appended_to : ℕ → Appended
  failed : StoreError → Appended

pub data Buffer : Type 0 where
  buffered : Bytes → Buffer
  refused : StoreError → Buffer

abbrev pub is_every : FsyncMode → Bool
is_every fsync_every = true
is_every _ = false

abbrev pub is_interval : FsyncMode → Bool
is_interval fsync_interval = true
is_interval _ = false

abbrev pub rec_id : JournalRec → Bytes
rec_id (upsert_rec none) = []
rec_id (upsert_rec (some e)) = e.id
rec_id (delete_rec id) = id
rec_id unknown_rec = []

abbrev pub before_newline : Bytes → Bytes
before_newline [] = []
before_newline (c ∷ []) = []
before_newline (c ∷ d ∷ l) = c ∷ before_newline (d ∷ l)

-- The truncation of a torn journal in `openList`.
abbrev pub cut_at : Journal → Bytes → Bytes
cut_at j b = elim j.torn_at [ none ↦ b | some off ↦ take off b ]

module _ (decode : Bytes → Option JournalRec) where
  -- The records of a line: none of an empty one, and no list if it does not parse or is too long.
  unfoldable pub records_of : Bytes → Option (List JournalRec)
  records_of l =
      if ltb max_line (length l)
      then none
      else (if is_empty (before_newline l)
          then some []
          else Option.map (λ r. r ∷ []) (decode (before_newline l)))

  -- The loop of `readJournal` over the lines that it reads.
  unfoldable pub read_lines : List Bytes → Bytes → List JournalRec → ℕ → Journal
  read_lines [] tail ops off = record {
    ops = ops;
    torn_at = if is_empty tail then none else some off;
  }
  read_lines (l ∷ lines) tail ops off = elim (records_of l) [
    | none ↦ record { ops = ops; torn_at = some off }
    | some rs ↦ read_lines lines tail (ops ++ rs) (off + length l)
  ]

  unfoldable pub read_journal : Bytes → Journal
  unfolding read_lines
  read_journal b = read_lines (lines_of b).0 (lines_of b).1 [] 0

  unfoldable pub repair : Bytes → Bytes
  repair b = cut_at (read_journal b) b

abbrev pub add_line : Bytes → Buffer → Buffer
add_line line (buffered buf) = buffered (line ++ newline ∷ buf)
add_line line (refused e) = refused e

module _ (encode : JournalRec → Option Bytes) where
  -- The loop of `appendJournal` over the records.
  unfoldable pub encode_lines : List JournalRec → Buffer
  encode_lines [] = buffered []
  encode_lines (r ∷ recs) =
      let rest = encode_lines recs in
      elim (encode r) [
        | none ↦ refused marshal_failed
        | some line ↦
            if ltb max_line (suc (length line))
            then refused (entry_too_large (rec_id r) (suc (length line)))
            else add_line line rest
      ]

-- The file has `partial` behind its old end; it is cut off again, or the list is damaged.
unfoldable pub rollback : Disk → Bytes → StoreError → JournalFile → JournalFile × Appended
rollback d partial e j = (
  if d.truncates then j else record j { file = j.file ++ partial; damage = content_damage },
  failed e,
)

unfoldable pub append_buf : FsyncMode → Disk → Bytes → JournalFile → JournalFile × Appended
unfolding rollback
append_buf mode d buf j =
    if not d.opens
    then (j, failed open_failed)
    else if not d.writes
    then rollback d (take d.reached buf) write_failed j
    else if is_every mode && not d.syncs
    then rollback d buf sync_failed j
    else if not d.closes
    then rollback d (take d.reached buf) close_failed j
    else if is_interval mode && not d.commits
    then rollback d buf commit_failed j
    else (
      record j { file = j.file ++ buf; hashed = Option.map (λ h. h ++ buf) j.hashed },
      appended_to (length j.file + length buf),
    )

abbrev pub append_encoded : FsyncMode → Disk → Buffer → JournalFile → JournalFile × Appended
append_encoded mode d (buffered buf) j = append_buf mode d buf j
append_encoded mode d (refused e) j = (j, failed e)

abbrev pub undamaged : DamageKind → Bool
undamaged no_damage = true
undamaged _ = false

-- `appendJournal`
unfoldable pub append_journal :
    (JournalRec → Option Bytes)
    → FsyncMode
    → Disk
    → List JournalRec
    → JournalFile
    → JournalFile × Appended
append_journal encode mode d recs j =
    if undamaged j.damage
    then append_encoded mode d (encode_lines encode recs) j
    else (j, failed (damaged j.damage))
