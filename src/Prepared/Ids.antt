-- ===== src/Prepared/Ids.antt =====
-- engine/prepared/view.go: the ids section, its parser, and the lookup of a record by its ID.
pub mod Search
pub mod Ordered
pub mod Lookup
use kurn.Prelude.{
  ◌≡◌, ℕ, zero, suc, ◌+◌, ◌*◌, ◌/◌, Bool, true, false, not, ◌&&◌, Option, none, some, List, [], ◌∷◌,
  ltb, leb, ◌==◌, if◌then◌else◌, length, drop,
}
use kurn.Prelude.Bytes.{Bytes, bytes_eq, bytes_lt}
use kurn.Prepared.Words.{malformed, Parsed, parsed, refused, panicked, ◌>>=◌, le}
use kurn.Prepared.Format.{refuse_if}
use kurn.Prepared.Records.{RecordsView, id_at, count}

-- `IDOrdinal`, over the section's ordinals
abbrev pub id_ordinal : Bytes → ℕ → Parsed ℕ
id_ordinal ids k = le 8 ids (8 * k)

-- The loop of `parseIDs`, with `rounds` entries to go from the `i`th and the ID before it.
unfoldable pub check_ids : RecordsView → Bytes → ℕ → ℕ → Bytes → Parsed (Unit {0})
check_ids v ids zero i prev = parsed tt
check_ids v ids (suc rounds) i prev = id_ordinal ids i >>= λ o.
    refuse_if (leb v.n o) malformed >>= λ _. id_at v o >>= λ id.
    refuse_if (ltb 0 i && not (bytes_lt prev id)) malformed >>= λ _.
    check_ids v ids rounds (i + 1) id

-- The ordinals in the order of their IDs.
unfoldable pub parse_ids : RecordsView → Bytes → Parsed Bytes
unfolding check_ids
parse_ids v b = count b 0 8 0 >>= λ n. refuse_if (not (n == v.n)) malformed >>= λ _.
    refuse_if (not (length b == 8 + 8 * n)) malformed >>= λ _.
    check_ids v (drop 8 b) n 0 [] >>= λ _. parsed (drop 8 b)

-- `sort.Search`, with fuel: the loop over `i` and `j`, whose test may read out of range.
unfoldable pub search : (ℕ → Parsed Bool) → ℕ → ℕ → ℕ → Parsed ℕ
search f zero i j = if ltb i j then panicked else parsed i
search f (suc fuel) i j = elim (ltb i j) [
  | false ↦ parsed i
  | true ↦ f ((i + j) / 2) >>= λ found. elim found [
    | false ↦ search f fuel ((i + j) / 2 + 1) j
    | true ↦ search f fuel i ((i + j) / 2)
  ]
]

-- The ID that stands `k`th in order.
abbrev pub id_of : RecordsView → Bytes → ℕ → Parsed Bytes
id_of v ids k = id_ordinal ids k >>= λ o. id_at v o

-- `Lookup`
unfoldable pub lookup : RecordsView → Bytes → Bytes → Parsed (Option ℕ)
unfolding search
lookup v ids id =
    search (λ k. id_of v ids k >>= λ x. parsed (not (bytes_lt x id))) v.n 0 v.n >>= λ k.
    if ltb k v.n
    then (id_of v ids k >>= λ x.
        if bytes_eq x id then (id_ordinal ids k >>= λ o. parsed (some o)) else parsed none)
    else parsed none
