-- ===== src/Query/TopK.antt =====
-- engine/list.go: what a query without a filter answers under a top-K cut.
use kurn.Prelude.{
  ℕ, ◌<◌, ◌≡◌, refl, ap, sym, ◌∙◌, subst, Bool, true, false, none, some, List, [], ◌∷◌, ◌++◌, map,
  arith, take, keep, keep-append, keep-swap, keep-all,
}
use kurn.Prelude.Bytes.{Bytes}
use kurn.Payload.Scalar.{is_empty}
use kurn.Live.Types.{LiveList}
use kurn.Live.Segment.{sort_by_id}
use kurn.Live.Mutate.{live_base, base_entries}
use kurn.Live.Coherent.{IsCoherent, Reach, new_list, Reach-IsCoherent}
use kurn.Query.Levels.{exact_levels}
use kurn.Query.Search.{
  Hit, Found, answered, probe, probe_levels, finish_query, nothing_found, query_snap,
}
use kurn.Query.Collect.{alive, hit}
use kurn.Query.Shown.{
  IsShown, entries_of, listed, attribute_keys-sorted, IsShown-overlay, IsShown-base, IsShown-append,
  entries_of-append, entries_of-map,
}
use kurn.Query.Kept.{live_base-alive, probe_levels-once, alive-nil}
use kurn.Query.Level.{asks, collected, absent_ids}
use kurn.Query.Cut.{
  take-all, survivors, probe-top, IsShown-take, entries_of-take, cut_top-sort_candidates,
}

module _ (l : LiveList) (coherent : IsCoherent l) (k : ℕ) (cut : 0 < k) (q : Bytes) where
  all_hits : List Hit
  all_hits =
      map (hit false 100) (
        keep (asks l (l.an q))
          (live_base l.snap.tombstones l.overlay_src (base_entries l.snap.base)))
      ++ map (hit true 100) (keep (asks l (l.an q)) (base_entries l.snap.overlay))

  found_top : Found
  found_top = record { out = take k all_hits; filter_err = none }

  survivors-base :
      survivors l.snap.tombstones l.an (l.an q) (base_entries l.snap.base)
      ≡ keep
          (asks l (l.an q))
          (live_base l.snap.tombstones l.overlay_src (base_entries l.snap.base))
  survivors-base =
      keep-swap (alive l.snap.tombstones) (asks l (l.an q)) (base_entries l.snap.base)
      ∙ ap (keep (asks l (l.an q))) (
          sym (
            live_base-alive l.snap.tombstones l.overlay_src (base_entries l.snap.base)
              λ id h g. coherent.sound.masks id h (coherent.knows id ∙ g)))

  probed_top :
      (below : ℕ → Bool)
      → below 100 ≡ false
      → is_empty (l.an q) ≡ false
      → probe_levels l.snap none k below (l.an q) (l.an q ∷ []) nothing_found
        ≡ some (l.an q, found_top)
  unfolding found_top all_hits
  probed_top below over_floor some_key =
      let none_yet : take {A = Hit} k [] ≡ [] = take-all k [] (omega arith) in
      probe_levels-once l.snap none k below (l.an q) nothing_found _ found_top over_floor
        (subst
          (λ out.
            probe none k false l.snap.tombstones 100 (l.an q) l.snap.base
              (record { out = out; filter_err = none })
            ≡ some (record {
              out = take k (
                  map (hit false 100)
                    (survivors l.snap.tombstones l.an (l.an q) (base_entries l.snap.base)));
              filter_err = none;
            }))
          none_yet
          (probe-top k cut false l.snap.tombstones 100 l.an (l.an q) l.snap.base []
            coherent.base_built some_key))
        (probe-top k cut true [] 100 l.an (l.an q) l.snap.overlay _ coherent.overlay_built some_key
          ∙ ap some (
              rw
                (
                  survivors-base,
                  keep-all (alive []) (keep (asks l (l.an q)) (base_entries l.snap.overlay))
                      alive-nil,
                )
                refl))

  all_hits-IsShown : IsShown l.snap.overlay 100 all_hits
  unfolding all_hits
  all_hits-IsShown =
      IsShown-append l.snap.overlay 100 _ _
        (IsShown-base l.snap.overlay 100 l.snap.tombstones l.overlay_src (asks l (l.an q))
          (base_entries l.snap.base)
          (absent_ids l coherent none (l.an q) 100 l.snap.overlay coherent.overlay_built
            coherent.overlay))
        (IsShown-overlay l.snap.overlay 100 (keep (asks l (l.an q)) (base_entries l.snap.overlay)))

  entries_of-all_hits : entries_of all_hits ≡ keep (asks l (l.an q)) (collected l)
  unfolding all_hits collected
  entries_of-all_hits =
      let base = live_base l.snap.tombstones l.overlay_src (base_entries l.snap.base) in
      let overlay = base_entries l.snap.overlay in
      entries_of-append (map (hit false 100) (keep (asks l (l.an q)) base)) _
      ∙ ap (λ entries. entries ++ entries_of (map (hit true 100) (keep (asks l (l.an q)) overlay)))
          (entries_of-map false 100 (keep (asks l (l.an q)) base))
      ∙ ap (λ entries. keep (asks l (l.an q)) base ++ entries)
          (entries_of-map true 100 (keep (asks l (l.an q)) overlay))
      ∙ sym (keep-append (asks l (l.an q)) base overlay)

  finished_top :
      finish_query l.an l.snap.overlay k (some (l.an q, found_top))
      ≡ answered (
          map
            (listed l.an (l.an q) 100)
            (sort_by_id (take k (keep (asks l (l.an q)) (collected l)))))
  unfolding finish_query found_top
  finished_top =
      let kept = cut_top-sort_candidates k all_hits in
      let sorted =
        attribute_keys-sorted l.an l.snap.overlay (l.an q) 100 (take k all_hits)
          (IsShown-take l.snap.overlay 100 k all_hits all_hits-IsShown)
        ∙ ap (λ entries. some (map (listed l.an (l.an q) 100) (sort_by_id entries)))
            (entries_of-take k all_hits ∙ ap (take k) entries_of-all_hits) in
      rw (finish_query, kept, sorted) refl

-- On a list reached from a new one by mutations, a query without a filter and without the parents
-- of a domain, for a key that the analyzer does not make empty, with a threshold that the full score
-- meets and a top-K cut of k > 0, does not panic and answers the first k of the live entries with a
-- key that is analyzed to the query's, the base's before the overlay's, and puts them in the order
-- of their IDs.
pub query_snap-top_k :
    (an : Bytes → Bytes) {l : LiveList}
    → Reach (new_list an) l
    → (k : ℕ) → 0 < k
    → (below : ℕ → Bool) (q : Bytes) → below 100 ≡ false
    → is_empty (l.an q) ≡ false
    → query_snap l none k below false q
      ≡ answered (
          map
            (listed l.an (l.an q) 100)
            (sort_by_id (take k (keep (asks l (l.an q)) (collected l)))))
unfolding query_snap exact_levels
query_snap-top_k an {l} reached k cut below q over_floor some_key =
    let coherent = Reach-IsCoherent an reached in
    rw (some_key, probed_top l coherent k cut q below over_floor some_key)
      (finished_top l coherent k cut q)
