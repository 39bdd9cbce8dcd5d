-- ===== src/Query/Fallback.antt =====
-- engine/list.go: what a query without a filter answers that falls back to the parents of a domain.
use kurn.Prelude.{
  ℕ, ◌≡◌, refl, ap, sym, ◌∙◌, Bool, true, false, ◌==◌, none, some, List, [], ◌∷◌, map,
  if◌then◌else◌, Bool-cases, inl, inr, arith, keep, keep-and, keep-all,
}
use kurn.Prelude.Bytes.{Bytes}
use kurn.Payload.Scalar.{is_empty}
use kurn.Live.Types.{Entry, LiveList}
use kurn.Live.Segment.{sort_by_id, insert_by_id}
use kurn.Live.Mutate.{live_entries}
use kurn.Live.Coherent.{IsCoherent, Reach, new_list, Reach-IsCoherent}
use kurn.Query.Levels.{parents, has_dot, dot, exact_levels-parents}
use kurn.Query.Search.{
  Hit, Found, Candidate, Answer, answered, probe_levels, probe_level, probe_both, level_score,
  finish_query, nothing_found, sort_candidates, cut_top, attribute_keys, query_snap,
}
use kurn.Query.Collect.{passes, failure}
use kurn.Query.Shown.{entries_of, listed}
use kurn.Query.Level.{
  asks, collected, wanted, found, hits, probed_base, probed_overlay, finished, live_entries-wanted,
  entries_of-hits,
}

-- The live entries under the first level that is not below the threshold and has some.
pub first_level : LiveList → (ℕ → Bool) → Bytes → List Bytes → List Candidate
first_level l below aq [] = []
first_level l below aq (level ∷ levels) =
    let rest = first_level l below aq levels in
    let here = keep (asks l level) (live_entries l) in
    if below (level_score aq level)
    then rest
    else if is_empty here
    then rest
    else map (listed l.an level (level_score aq level)) here

-- No level is the empty key.
AllKeys : List Bytes → Type 0
AllKeys [] = Unit
AllKeys (level ∷ levels) = (is_empty level ≡ false) × AllKeys levels

has_dot-is_key : (s : Bytes) → has_dot s ≡ true → is_empty s ≡ false
has_dot-is_key [] h = cc
has_dot-is_key (c ∷ s) h = refl

parents-AllKeys : (s : Bytes) → AllKeys (parents s)
unfolding AllKeys
parents-AllKeys [] = tt
parents-AllKeys (c ∷ s) = elim (Bool-cases (c == dot)) [
  | inr other ↦ rw other (parents-AllKeys s)
  | inl at ↦ elim (Bool-cases (has_dot s)) [
    | inl more ↦ rw (at, more) (has_dot-is_key s more, parents-AllKeys s)
    | inr last ↦ rw (at, last) (parents-AllKeys s)
  ]
]

fallback-AllKeys : (s : Bytes) (fallback : Bool) → AllKeys (if fallback then parents s else [])
unfolding AllKeys
fallback-AllKeys s true = parents-AllKeys s
fallback-AllKeys s false = tt

failure-none : (entries : List Entry) → failure none entries ≡ none
failure-none [] = refl
failure-none (e ∷ entries) = failure-none entries

is_empty-insert_by_id : (e : Entry) (l : List Entry) → is_empty (insert_by_id e l) ≡ false
unfolding insert_by_id
is_empty-insert_by_id e [] = refl
is_empty-insert_by_id e (x ∷ l) = ground arith

is_empty-sort_by_id : (l : List Entry) → is_empty (sort_by_id l) ≡ is_empty l
unfolding sort_by_id
is_empty-sort_by_id [] = refl
is_empty-sort_by_id (e ∷ l) = is_empty-insert_by_id e (sort_by_id l)

is_empty-entries_of : (out : List Hit) → is_empty (entries_of out) ≡ is_empty out
is_empty-entries_of [] = refl
is_empty-entries_of (h ∷ out) = refl

no_hits : (out : List Hit) → is_empty out ≡ true → out ≡ []
no_hits [] h = refl
no_hits (x ∷ out) h = cc

module _ (l : LiveList) (coherent : IsCoherent l) (level : Bytes) (score : ℕ) where
  keep-wanted :
      (entries : List Entry)
      → keep (wanted l coherent none level score) entries ≡ keep (asks l level) entries
  unfolding wanted
  keep-wanted entries =
      keep-and (asks l level) (passes none) entries ∙ keep-all (passes none) _ λ e. refl

  is_empty-hits :
      is_empty (hits l coherent none level score) ≡ is_empty (keep (asks l level) (live_entries l))
  is_empty-hits =
      sym (is_empty-entries_of (hits l coherent none level score))
      ∙ ap is_empty (entries_of-hits l coherent none level score)
      ∙ sym (is_empty-sort_by_id _)
      ∙ ap is_empty (live_entries-wanted l coherent none level score)
      ∙ ap is_empty (keep-wanted (live_entries l))

  found-none :
      is_empty (keep (asks l level) (live_entries l)) ≡ true
      → found l coherent none level score ≡ nothing_found
  unfolding found
  found-none h =
      rw
        (
          no_hits (hits l coherent none level score) (is_empty-hits ∙ h),
          failure-none (keep (asks l level) (collected l)),
        )
        refl

  found-some :
      is_empty (keep (asks l level) (live_entries l)) ≡ false
      → is_empty (found l coherent none level score).out ≡ false
  unfolding found
  found-some h = is_empty-hits ∙ h

  finished_here :
      finish_query l.an l.snap.overlay 0 (some (level, found l coherent none level score))
      ≡ answered (map (listed l.an level score) (keep (asks l level) (live_entries l)))
  finished_here =
      finished l coherent none level score
      ∙ rw (failure-none (keep (asks l level) (collected l)), keep-wanted (live_entries l)) refl

  both_probed :
      is_empty level ≡ false
      → probe_both l.snap none 0 score level nothing_found
        ≡ some (found l coherent none level score)
  unfolding probe_both
  both_probed some_key =
      rw (probe_both, probed_base l coherent none level score some_key)
        (probed_overlay l coherent none level score some_key)

module _ (l : LiveList) (coherent : IsCoherent l) (below : ℕ → Bool) (aq : Bytes) where
  -- What the loop over the levels leads to.
  levels_answer : List Bytes → Found → Answer
  levels_answer levels f =
      finish_query l.an l.snap.overlay 0 (probe_levels l.snap none 0 below aq levels f)

  levels_answer-first :
      (levels : List Bytes)
      → AllKeys levels
      → levels_answer levels nothing_found ≡ answered (first_level l below aq levels)
  unfolding levels_answer first_level probe_levels probe_level AllKeys
  levels_answer-first [] keys = unfold finish_query cut_top sort_candidates attribute_keys in refl
  levels_answer-first (level ∷ levels) (some_key, keys) =
      let score = level_score aq level in
      let rest = levels_answer-first levels keys in
      elim (Bool-cases (below score)) [
        | inl low ↦ rw low rest
        | inr over_floor ↦ elim (Bool-cases (is_empty (keep (asks l level) (live_entries l)))) [
          | inl nobody ↦
              rw
                (
                  over_floor,
                  both_probed l coherent level score some_key,
                  found-none l coherent level score nobody,
                  nobody,
                )
                rest
          | inr somebody ↦
              rw
                (
                  over_floor,
                  both_probed l coherent level score some_key,
                  somebody,
                  found-some l coherent level score somebody,
                )
                (finished_here l coherent level score)
        ]
      ]

-- On a list reached from a new one by mutations, a query without a filter and without a top-K cut,
-- for a key that the analyzer does not make empty, does not panic and answers the live entries under
-- the first of its levels that is not below the threshold and has some, by ID: the key itself with
-- the full score and, with the fallback, its proper suffixes that begin a label and have a dot,
-- longest first, with the parents' score.
pub query_snap-first_level :
    (an : Bytes → Bytes) {l : LiveList}
    → Reach (new_list an) l
    → (below : ℕ → Bool) (fallback : Bool) (q : Bytes) → is_empty (l.an q) ≡ false
    → query_snap l none 0 below fallback q
      ≡ answered
          (first_level l below (l.an q) (l.an q ∷ (if fallback then parents (l.an q) else [])))
unfolding query_snap levels_answer AllKeys
query_snap-first_level an {l} reached below fallback q some_key =
    rw (some_key, exact_levels-parents (l.an q) fallback)
      (levels_answer-first l (Reach-IsCoherent an reached) below (l.an q)
        (l.an q ∷ (if fallback then parents (l.an q) else []))
        (some_key, fallback-AllKeys (l.an q) fallback))
