-- ===== src/Query/Search.antt =====
-- engine/list.go and engine/rank.go: `querySnap` for a list in exact mode, over one snapshot and in
-- a context that is not cancelled. A hit keeps the entry that the code finds again by segment and
-- ordinal, since a segment never changes; the counts of `FilterStats` are left out.
use kurn.Prelude.{
  ℕ, Bool, true, false, ◌&&◌, Option, none, some, List, [], ◌∷◌, ◌++◌, ltb, leb, ◌==◌,
  if◌then◌else◌, length, take, get_elem?,
}
use kurn.Prelude.Bytes.{Bytes, bytes_eq, bytes_lt}
use kurn.Prelude.Dict.{Dict, lookup}
use kurn.Payload.Scalar.{is_empty}
use kurn.Payload.Token.{Scan, ok, fail, ScanError}
use kurn.Exact.Index.{lookup_ords}
use kurn.Live.Types.{Entry, Segment, Snapshot, LiveList}
use kurn.Live.Mutate.{is_some}
use kurn.Query.Levels.{exact_levels}

-- `eval` of the compiled filter; none for a query without one.
abbrev pub Filter : Type 0
Filter = Option (Bytes → Scan Bool)

-- A candidate before it has its key, and whether its segment is the overlay.
pub record Hit : Type 0 where
  pub entry : Entry
  pub score : ℕ
  pub of_overlay : Bool

pub record Candidate : Type 0 where
  pub entry_id : Bytes
  pub score : ℕ
  pub key : Bytes
  pub payload : Bytes

-- `out` with `meta`, and `filterErr`.
pub record Found : Type 0 where
  pub out : List Hit
  pub filter_err : Option ScanError

abbrev pub verdict : Filter → Bytes → Scan Bool
verdict none payload = ok true
verdict (some eval) payload = eval payload

-- `if filterErr == nil { filterErr = err }`
abbrev pub keep_first : Option ScanError → ScanError → Option ScanError
keep_first none err = some err
keep_first (some first) err = some first

-- `add`, of an entry that its ordinal names.
unfoldable pub consider : Filter → Bool → Dict (Unit {0}) → ℕ → Entry → Found → Found
consider cf of_overlay masked score e f =
    if is_some (lookup e.id masked) then f else (elim (verdict cf e.payload) [
      | fail err ↦ record f { filter_err = keep_first f.filter_err err }
      | ok false ↦ f
      | ok true ↦ record f {
        out = f.out ++ record { entry = e; score = score; of_overlay = of_overlay } ∷ [];
      }
    ])

-- `full`
abbrev pub full : ℕ → List Hit → Bool
full top_k out = ltb 0 top_k && leb top_k (length out)

-- The loop over the ordinals of a key; none is an ordinal out of range.
unfoldable pub walk :
    Filter → ℕ → Bool → Dict (Unit {0}) → ℕ → List Entry → List ℕ → Found → Option Found
unfolding consider
walk cf top_k of_overlay masked score entries [] f = some f
walk cf top_k of_overlay masked score entries (ord ∷ ords) f = elim (get_elem? entries ord) [
  | none ↦ none
  | some e ↦
      let g = consider cf of_overlay masked score e f in
      let rest = walk cf top_k of_overlay masked score entries ords g in
      if full top_k g.out then some g else rest
]

-- One segment at one level; a nil map masks nothing.
unfoldable pub probe :
    Filter → ℕ → Bool → Dict (Unit {0}) → ℕ → Bytes → Option Segment → Found → Option Found
unfolding walk
probe cf top_k of_overlay masked score level none f = some f
probe cf top_k of_overlay masked score level (some seg) f =
    if full top_k f.out
    then some f
    else walk cf top_k of_overlay masked score seg.entries (lookup_ords seg.ex level) f

-- `ParentMatchScore`
abbrev pub parent_match_score : ℕ
parent_match_score = 90

abbrev pub level_score : Bytes → Bytes → ℕ
level_score aq level = if bytes_eq level aq then 100 else parent_match_score

-- Base and overlay together.
unfoldable pub probe_both : Snapshot → Filter → ℕ → ℕ → Bytes → Found → Option Found
unfolding probe
probe_both s cf top_k score level f =
    elim (probe cf top_k false s.tombstones score level s.base f) [
      | none ↦ none
      | some g ↦ probe cf top_k true [] score level s.overlay g
    ]

-- One level, with what follows where it is below the threshold or has no hits. `below` is the
-- comparison of a score with the threshold, in floats.
unfoldable pub probe_level :
    Snapshot
    → Filter
    → ℕ
    → (ℕ → Bool)
    → ℕ
    → Bytes
    → Found
    → (Found → Option (Bytes × Found))
    → Option (Bytes × Found)
unfolding probe_both
probe_level s cf top_k below score level f deeper =
    if below score then deeper f else (elim (probe_both s cf top_k score level f) [
      | none ↦ none
      | some h ↦ if is_empty h.out then deeper h else some (level, h)
    ])

-- The loop over the levels: the key that matched, and what was found.
unfoldable pub probe_levels :
    Snapshot → Filter → ℕ → (ℕ → Bool) → Bytes → List Bytes → Found → Option (Bytes × Found)
unfolding probe_level
probe_levels s cf top_k below aq [] f = some (aq, f)
probe_levels s cf top_k below aq (level ∷ levels) f =
    probe_level s cf top_k below (level_score aq level) level f
      (probe_levels s cf top_k below aq levels)

-- `candSort.Less`
abbrev pub less : Hit → Hit → Bool
less a b = if a.score == b.score then bytes_lt a.entry.id b.entry.id else ltb b.score a.score

-- `sortCandidates`: a stable sort.
unfoldable pub insert_hit : Hit → List Hit → List Hit
insert_hit h [] = h ∷ []
insert_hit h (x ∷ hits) =
    let rest = insert_hit h hits in if less x h then x ∷ rest else h ∷ x ∷ hits

unfoldable pub sort_candidates : List Hit → List Hit
sort_candidates [] = []
sort_candidates (h ∷ hits) = insert_hit h (sort_candidates hits)

unfoldable pub cut_top : ℕ → List Hit → List Hit
cut_top top_k hits = if ltb 0 top_k && ltb top_k (length hits) then take top_k hits else hits

-- The scan for the best key in exact mode: a key scores 1 where the analyzer makes it the matched
-- key, else 0, and the best score starts below both.
unfoldable pub best_key : (Bytes → Bytes) → Bytes → Bytes → Option ℕ → List Bytes → Bytes
best_key an matched best best_score [] = best
best_key an matched best best_score (k ∷ keys) =
    let sc = if bytes_eq (an k) matched then 1 else 0 in
    let taken = best_key an matched k (some sc) keys in
    let kept = best_key an matched best best_score keys in
    elim best_score [ none ↦ taken | some b ↦ if ltb b sc then taken else kept ]

-- The key of a candidate, from the keys of its entry; none leaves it empty.
unfoldable pub key_of : (Bytes → Bytes) → Bytes → List Bytes → Bytes
unfolding best_key
key_of an matched [] = []
key_of an matched (k ∷ []) = k
key_of an matched (k ∷ j ∷ keys) = best_key an matched [] none (k ∷ j ∷ keys)

-- The entry that a candidate's key is taken from: the overlay's copy where there is one; none is a
-- position out of range.
unfoldable pub shown_entry : Option Segment → Hit → Option Entry
shown_entry none h = some h.entry
shown_entry (some ov) h =
    if h.of_overlay then some h.entry else (elim (lookup h.entry.id ov.by_id) [
      | none ↦ some h.entry
      | some ord ↦ get_elem? ov.entries ord
    ])

abbrev pub candidate : (Bytes → Bytes) → Bytes → Entry → Hit → Candidate
candidate an matched shown h = record {
  entry_id = h.entry.id;
  score = h.score;
  key = key_of an matched shown.keys;
  payload = h.entry.payload;
}

-- `attributeKeys`
unfoldable pub attribute_keys :
    (Bytes → Bytes) → Option Segment → Bytes → List Hit → Option (List Candidate)
unfolding shown_entry
attribute_keys an overlay matched [] = some []
attribute_keys an overlay matched (h ∷ hits) = elim (shown_entry overlay h) [
  | none ↦ none
  | some e ↦ elim (attribute_keys an overlay matched hits) [
    | none ↦ none
    | some more ↦ some (candidate an matched e h ∷ more)
  ]
]

-- What a query returns: candidates (none of them is nil), the error of the filter, or a panic.
pub data Answer : Type 0 where
  answered : List Candidate → Answer
  filter_failed : ScanError → Answer
  panicked : Answer

-- What `querySnap` does behind its collection.
unfoldable pub finish_query : (Bytes → Bytes) → Option Segment → ℕ → Option (Bytes × Found) → Answer
unfolding attribute_keys sort_candidates cut_top
finish_query an overlay top_k none = panicked
finish_query an overlay top_k (some (matched, f)) = elim f.filter_err [
  | some err ↦ filter_failed err
  | none ↦ elim (attribute_keys an overlay matched (cut_top top_k (sort_candidates f.out))) [
    | none ↦ panicked
    | some candidates ↦ answered candidates
  ]
]

abbrev pub nothing_found : Found
nothing_found = record { out = []; filter_err = none }

-- `querySnap`; `fallback` says whether the parents of a domain are probed too.
unfoldable pub query_snap : LiveList → Filter → ℕ → (ℕ → Bool) → Bool → Bytes → Answer
unfolding finish_query probe_levels
query_snap l cf top_k below fallback q =
    if is_empty (l.an q)
    then answered []
    else finish_query l.an l.snap.overlay top_k
        (probe_levels l.snap cf top_k below (l.an q) (exact_levels (l.an q) fallback) nothing_found)
