-- ===== src/Query/Level.antt =====
-- engine/list.go: what one level of a query finds, against the live entries of the list.
use kurn.Prelude.{
  ℕ, ◌≡◌, refl, ap, sym, ◌∙◌, Bool, true, false, ◌&&◌, Option, none, some, List, [], ◌++◌, map,
  Option-cases, inl, inr, keep, keep-append, keep-and, keep-swap, keep-all,
}
use kurn.Prelude.Bytes.{Bytes}
use kurn.Prelude.Dict.{lookup}
use kurn.Payload.Scalar.{is_empty}
use kurn.Live.Types.{Entry, Segment, LiveList}
use kurn.Live.Segment.{sort_by_id, values}
use kurn.Live.Mutate.{is_some, in_base, live_base, live_entries, base_entries}
use kurn.Live.View.{find_entry, otherwise}
use kurn.Live.Fold.{find_entry-sort_by_id, find_entry-values}
use kurn.Live.Sorted.{sort_by_id-append, keep-sort_by_id}
use kurn.Live.Coherent.{IsCoherent, IsBuilt, KnowsIds-build_segment}
use kurn.Query.Terms.{asked}
use kurn.Query.Search.{
  probe, Filter, Hit, Found, answered, filter_failed, cut_top, finish_query, nothing_found,
}
use kurn.Query.Collect.{alive, passes, failure, hit, gathered, probe-built}
use kurn.Query.Shown.{
  IsShown, entries_of, listed, attribute_keys-sorted, IsShown-overlay, IsShown-base, IsShown-append,
  entries_of-append, entries_of-map,
}
use kurn.Query.Kept.{failure-append, live_base-alive, alive-nil}

abbrev pub asks : LiveList → Bytes → Entry → Bool
asks l level e = asked l.an level e.keys

-- The live entries in the order in which a query comes by them: the base's, then the overlay's.
unfoldable pub collected : LiveList → List Entry
collected l =
    live_base l.snap.tombstones l.overlay_src (base_entries l.snap.base)
    ++ base_entries l.snap.overlay

module _ (l : LiveList) (coherent : IsCoherent l) (cf : Filter) (level : Bytes) (score : ℕ) where
  pub base_live : List Entry
  base_live = live_base l.snap.tombstones l.overlay_src (base_entries l.snap.base)

  unfoldable pub wanted : Entry → Bool
  wanted e = asks l level e && passes cf e

  base_live-alive : base_live ≡ keep (alive l.snap.tombstones) (base_entries l.snap.base)
  unfolding base_live
  base_live-alive =
      live_base-alive l.snap.tombstones l.overlay_src (base_entries l.snap.base)
        λ id h g. coherent.sound.masks id h (coherent.knows id ∙ g)

  pub absent_ids :
      (sg : Option Segment)
      → IsBuilt l.an sg
      → base_entries sg ≡ sort_by_id (values l.overlay_src)
      → (id : Bytes) → is_some (lookup id l.overlay_src) ≡ false
      → in_base sg id ≡ false
  unfolding in_base
  absent_ids none built same id h = refl
  absent_ids (some seg) built same id h =
      KnowsIds-build_segment l.an seg.entries seg built id
      ∙ ap (λ entries. is_some (find_entry id entries)) same
      ∙ ap is_some (find_entry-sort_by_id id (values l.overlay_src))
      ∙ ap is_some (find_entry-values id l.overlay_src coherent.sound.keyed)
      ∙ h

  -- What is kept of the two segments, sorted, is what is kept of the live entries.
  pub live_entries-wanted :
      sort_by_id (keep wanted base_live ++ keep wanted (base_entries l.snap.overlay))
      ≡ keep wanted (live_entries l)
  unfolding live_entries base_live
  live_entries-wanted =
      ap (λ entries. sort_by_id (keep wanted base_live ++ keep wanted entries)) coherent.overlay
      ∙ ap (λ entries. sort_by_id (keep wanted base_live ++ entries))
          (keep-sort_by_id wanted (values l.overlay_src))
      ∙ sort_by_id-append (keep wanted base_live) (keep wanted (values l.overlay_src))
      ∙ ap sort_by_id (sym (keep-append wanted base_live (values l.overlay_src)))
      ∙ sym (keep-sort_by_id wanted (base_live ++ values l.overlay_src))

  -- The hits of both segments.
  unfoldable pub hits : List Hit
  hits =
      map (hit false score) (keep wanted base_live)
      ++ map (hit true score) (keep wanted (base_entries l.snap.overlay))

  base_kept :
      keep
        (λ e. alive l.snap.tombstones e && passes cf e)
        (keep (asks l level) (base_entries l.snap.base))
      ≡ keep wanted base_live
  unfolding wanted
  base_kept =
      keep-and (alive l.snap.tombstones) (passes cf) _
      ∙ ap (keep (passes cf)) (
          keep-swap (alive l.snap.tombstones) (asks l level) (base_entries l.snap.base)
          ∙ ap (keep (asks l level)) (sym base_live-alive))
      ∙ sym (keep-and (asks l level) (passes cf) base_live)

  overlay_kept :
      keep (λ e. alive [] e && passes cf e) (keep (asks l level) (base_entries l.snap.overlay))
      ≡ keep wanted (base_entries l.snap.overlay)
  unfolding wanted
  overlay_kept =
      keep-and (alive []) (passes cf) _
      ∙ ap (keep (passes cf)) (keep-all (alive []) _ alive-nil)
      ∙ sym (keep-and (asks l level) (passes cf) (base_entries l.snap.overlay))

  failures :
      otherwise
        (failure cf
          (keep (alive l.snap.tombstones) (keep (asks l level) (base_entries l.snap.base))))
        (failure cf (keep (alive []) (keep (asks l level) (base_entries l.snap.overlay))))
      ≡ failure cf (keep (asks l level) (collected l))
  unfolding collected base_live
  failures =
      ap
        (λ entries.
          otherwise (failure cf entries)
            (failure cf (keep (alive []) (keep (asks l level) (base_entries l.snap.overlay)))))
        (keep-swap (alive l.snap.tombstones) (asks l level) (base_entries l.snap.base)
          ∙ ap (keep (asks l level)) (sym base_live-alive))
      ∙ ap (λ entries. otherwise (failure cf (keep (asks l level) base_live)) (failure cf entries))
          (keep-all (alive []) _ alive-nil)
      ∙ sym (
          ap (failure cf) (keep-append (asks l level) base_live (base_entries l.snap.overlay))
          ∙ failure-append cf (keep (asks l level) base_live) _)

  hits-IsShown : IsShown l.snap.overlay score hits
  unfolding hits base_live
  hits-IsShown =
      IsShown-append l.snap.overlay score _ _
        (IsShown-base l.snap.overlay score l.snap.tombstones l.overlay_src wanted
          (base_entries l.snap.base)
          (absent_ids l.snap.overlay coherent.overlay_built coherent.overlay))
        (IsShown-overlay l.snap.overlay score (keep wanted (base_entries l.snap.overlay)))

  pub entries_of-hits :
      entries_of hits ≡ keep wanted base_live ++ keep wanted (base_entries l.snap.overlay)
  unfolding hits
  entries_of-hits =
      entries_of-append (map (hit false score) (keep wanted base_live)) _
      ∙ ap
          (λ entries.
            entries
            ++ entries_of (map (hit true score) (keep wanted (base_entries l.snap.overlay))))
          (entries_of-map false score (keep wanted base_live))
      ∙ ap (λ entries. keep wanted base_live ++ entries)
          (entries_of-map true score (keep wanted (base_entries l.snap.overlay)))

  unfoldable pub found : Found
  found = record { out = hits; filter_err = failure cf (keep (asks l level) (collected l)) }

  gathered-both :
      gathered cf true [] score (keep (asks l level) (base_entries l.snap.overlay)) (
        gathered cf false l.snap.tombstones score
          (keep (asks l level) (base_entries l.snap.base))
          nothing_found)
      ≡ found
  unfolding gathered found hits
  gathered-both = rw (sym failures, base_kept, overlay_kept) refl

  unfoldable pub found_in_base : Found
  found_in_base =
      gathered cf false l.snap.tombstones score (keep (asks l level) (base_entries l.snap.base))
        nothing_found

  pub probed_base :
      is_empty level ≡ false
      → probe cf 0 false l.snap.tombstones score level l.snap.base nothing_found
        ≡ some found_in_base
  unfolding found_in_base
  probed_base some_key =
      probe-built cf false l.snap.tombstones score l.an level l.snap.base nothing_found
        coherent.base_built some_key

  pub probed_overlay :
      is_empty level ≡ false
      → probe cf 0 true [] score level l.snap.overlay found_in_base ≡ some found
  unfolding found_in_base
  probed_overlay some_key =
      probe-built cf true [] score l.an level l.snap.overlay _ coherent.overlay_built some_key
      ∙ ap some gathered-both

  pub finished :
      finish_query l.an l.snap.overlay 0 (some (level, found))
      ≡ (elim (failure cf (keep (asks l level) (collected l))) [
        | some err ↦ filter_failed err
        | none ↦ answered (map (listed l.an level score) (keep wanted (live_entries l)))
      ])
  unfolding finish_query found cut_top
  finished =
      let sorted =
        attribute_keys-sorted l.an l.snap.overlay level score hits hits-IsShown
        ∙ ap (λ entries. some (map (listed l.an level score) (sort_by_id entries))) entries_of-hits
        ∙ ap (λ entries. some (map (listed l.an level score) entries)) live_entries-wanted in
      elim (Option-cases (failure cf (keep (asks l level) (collected l)))) [
        | inl clean ↦ rw (clean, finish_query, sorted) refl
        | inr (err, failed) ↦ rw failed refl
      ]
