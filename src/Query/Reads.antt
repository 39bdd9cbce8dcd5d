-- ===== src/Query/Reads.antt =====
-- engine/list.go: a query reads of a list its analyzer, its two segments and its tombstones.
use kurn.Prelude.{ℕ, ◌≡◌, refl, ap, ◌∙◌, Bool, List, [], ◌∷◌, if◌then◌else◌}
use kurn.Prelude.Bytes.{Bytes}
use kurn.Payload.Scalar.{is_empty}
use kurn.Query.Levels.{exact_levels}
use kurn.Live.Types.{LiveList, Snapshot, Version}
use kurn.Query.Search.{
  Filter, Found, probe_level, probe_both, probe_levels, level_score, finish_query, query_snap,
  Answer, answered, nothing_found,
}

-- Two lists with the same analyzer, base, overlay and tombstones.
pub record SameReads (l l' : LiveList) : Type 0 where
  pub an : l'.an ≡ l.an
  pub base : l'.snap.base ≡ l.snap.base
  pub overlay : l'.snap.overlay ≡ l.snap.overlay
  pub tombstones : l'.snap.tombstones ≡ l.snap.tombstones

abbrev stamped : Version → Snapshot → Snapshot
stamped v s = record s { version = v }

probe_levels-stamped :
    (v : Version) (s : Snapshot) (cf : Filter) (top_k : ℕ) (below : ℕ → Bool) (aq : Bytes)
    (levels : List Bytes) (f : Found)
    → probe_levels (stamped v s) cf top_k below aq levels f
      ≡ probe_levels s cf top_k below aq levels f
unfolding probe_levels probe_level probe_both
probe_levels-stamped v s cf top_k below aq [] f = refl
probe_levels-stamped v s cf top_k below aq (level ∷ levels) f = λ i.
    probe_level s cf top_k below (level_score aq level) level f
      (λ x. probe_levels-stamped v s cf top_k below aq levels x i)

-- What `query_snap` computes from the analyzer and the snapshot.
abbrev query_at : (Bytes → Bytes) → Snapshot → Filter → ℕ → (ℕ → Bool) → Bool → Bytes → Answer
query_at an s cf top_k below fallback q =
    if is_empty (an q)
    then answered []
    else finish_query an s.overlay top_k
        (probe_levels s cf top_k below (an q) (exact_levels (an q) fallback) nothing_found)

-- Lists that a query reads alike answer it alike.
pub query_snap-SameReads :
    (l l' : LiveList) (cf : Filter) (top_k : ℕ) (below : ℕ → Bool) (fallback : Bool) (q : Bytes)
    → SameReads l l'
    → query_snap l' cf top_k below fallback q ≡ query_snap l cf top_k below fallback q
unfolding query_snap
query_snap-SameReads l l' cf top_k below fallback q same =
    let snap : l'.snap ≡ stamped l'.snap.version l.snap = λ i. record {
      base = same.base i;
      overlay = same.overlay i;
      tombstones = same.tombstones i;
      version = l'.snap.version;
    } in
    (λ i. query_at (same.an i) (snap i) cf top_k below fallback q)
    ∙ ap
        (λ found.
          if is_empty (l.an q) then answered [] else finish_query l.an l.snap.overlay top_k found)
        (probe_levels-stamped l'.snap.version l.snap cf top_k below (l.an q)
          (exact_levels (l.an q) fallback) nothing_found)
