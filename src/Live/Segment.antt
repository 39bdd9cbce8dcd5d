-- ===== src/Live/Segment.antt =====
-- engine/list.go: `buildSegment`, for a list in exact mode, `dedupeLastWins`, and the sorting by ID.
use mathlib.Core.Bool.{◌&&◌, not}
use kurn.Prelude.{
  ℕ, suc, ◌+◌, Bool, true, false, none, some, List, [], ◌∷◌, ◌==◌, if◌then◌else◌, length,
}
use kurn.Prelude.Bytes.{Bytes, bytes_lt}
use kurn.Prelude.Dict.{Dict, lookup, insert}
use kurn.Payload.Scalar.{is_empty}
use kurn.Exact.Index.{Result, ok, ◌>>=◌}
use kurn.Exact.Build.{Builder, add, finish}
use kurn.Live.Types.{Entry, Segment}

-- The analyzed keys that are not empty.
unfoldable pub analyzed : (Bytes → Bytes) → List Bytes → List Bytes
analyzed an [] = []
analyzed an (k ∷ keys) =
    let rest = analyzed an keys in if is_empty (an k) then rest else an k ∷ rest

-- How many keys the analyzer collapsed.
unfoldable pub collapsed : (Bytes → Bytes) → List Bytes → ℕ
collapsed an [] = 0
collapsed an (k ∷ keys) = (if is_empty (an k) then 1 else 0) + collapsed an keys

-- The variables of the loop of `buildSegment`.
pub record Build : Type 0 where
  pub by_id : Dict ℕ
  pub exb : Builder
  pub payload_bytes : ℕ
  pub dropped_keys : ℕ
  pub keyless_entries : ℕ
  pub total_keys : ℕ

abbrev pub build_start : Build
build_start = record {
  by_id = [];
  exb = [];
  payload_bytes = 0;
  dropped_keys = 0;
  keyless_entries = 0;
  total_keys = 0;
}

-- One round of the loop of `buildSegment`. Ordinals are 32 bits wide in the code; here they have no
-- bound, so that the model is the code's for fewer than 2^32 entries.
unfoldable pub build_entry : (Bytes → Bytes) → ℕ → Entry → Build → Build
build_entry an ord e b =
    let keys = analyzed an e.keys in
    record {
      by_id = insert e.id ord b.by_id;
      exb = add ord keys b.exb;
      payload_bytes = b.payload_bytes + length e.payload;
      dropped_keys = b.dropped_keys + collapsed an e.keys;
      keyless_entries =
          b.keyless_entries + (if is_empty keys && not (is_empty e.keys) then 1 else 0);
      total_keys = b.total_keys + length e.keys;
    }

unfoldable pub build_loop : (Bytes → Bytes) → ℕ → List Entry → Build → Build
build_loop an ord [] b = b
build_loop an ord (e ∷ entries) b = build_loop an (suc ord) entries (build_entry an ord e b)

unfoldable pub build_segment : (Bytes → Bytes) → List Entry → Result Segment
build_segment an entries =
    let b = build_loop an 0 entries build_start in
    finish b.exb >>= λ ex. ok (record {
      entries = entries;
      by_id = b.by_id;
      ex = ex;
      payload_bytes = b.payload_bytes;
      dropped_keys = b.dropped_keys;
      keyless_entries = b.keyless_entries;
      total_keys = b.total_keys;
    })

-- `sort.Slice(…, a.ID < b.ID)`
unfoldable pub insert_by_id : Entry → List Entry → List Entry
insert_by_id e [] = e ∷ []
insert_by_id e (x ∷ l) =
    let rest = insert_by_id e l in if bytes_lt x.id e.id then x ∷ rest else e ∷ x ∷ l

unfoldable pub sort_by_id : List Entry → List Entry
sort_by_id [] = []
sort_by_id (e ∷ l) = insert_by_id e (sort_by_id l)

-- The values of a map, in its order.
unfoldable pub values {ℓ} : {V : Type ℓ} → Dict V → List V
values [] = []
values ((k, v) ∷ m) = v ∷ values m

-- The first loop of `dedupeLastWins`: the last position of each ID, and whether one came twice.
unfoldable pub last_positions : ℕ → List Entry → Dict ℕ → Bool → Dict ℕ × Bool
last_positions i [] last dup = (last, dup)
last_positions i (e ∷ entries) last dup =
    last_positions (suc i) entries (insert e.id i last)
      (elim (lookup e.id last) [ none ↦ dup | some _ ↦ true ])

unfoldable pub keep_last : ℕ → Dict ℕ → List Entry → List Entry
keep_last i last [] = []
keep_last i last (e ∷ entries) =
    let rest = keep_last (suc i) last entries in
    elim (lookup e.id last) [ none ↦ rest | some p ↦ if p == i then e ∷ rest else rest ]

unfoldable pub dedupe_last_wins : List Entry → List Entry
dedupe_last_wins entries =
    let (last, dup) = last_positions 0 entries [] false in
    if dup then keep_last 0 last entries else entries
