-- ===== src/Live/Types.antt =====
-- engine/types.go and engine/list.go: entries, segments, snapshots and the list's mutable state.
-- An entry's payload stays the caller's bytes; keys and IDs are Go strings.
use kurn.Prelude.{ℕ, Bool, Option, List}
use kurn.Prelude.Bytes.{Bytes}
use kurn.Prelude.Dict.{Dict}
use kurn.Exact.Index.{Index}

pub record Entry : Type 0 where
  pub id : Bytes
  pub keys : List Bytes
  pub payload : Bytes

-- A segment of an exact-mode list: its entries by ordinal, the map of IDs, its index, its counters.
pub record Segment : Type 0 where
  pub entries : List Entry
  pub by_id : Dict ℕ
  pub ex : Index
  pub payload_bytes : ℕ
  pub dropped_keys : ℕ
  pub keyless_entries : ℕ
  pub total_keys : ℕ

-- The version stamp. A content stamp has the base's identity, its size, the journal position and,
-- past position 0, the journal's hash; the digest of the list's configuration never changes.
pub data Version : Type 0 where
  fresh : Version
  gen_base : ℕ → ℕ → Version
  gen_overlay : ℕ → ℕ → ℕ → ℕ → Version
  content : Bytes → ℕ → ℕ → Option Bytes → Version

pub record Snapshot : Type 0 where
  pub base : Option Segment
  pub overlay : Option Segment
  pub tombstones : Dict (Unit {0})
  pub version : Version

-- `an` is the analyzer's `Normalize`; `jhash` is the running hash of the journal, if there is one.
pub record LiveList : Type 0 where
  pub an : Bytes → Bytes
  pub snap : Snapshot
  pub gen : ℕ
  pub base_id : Bytes
  pub jhash : Option Bytes
  pub overlay_src : Dict Entry
  pub read_only : Bool
  pub refusals : Option ℕ
