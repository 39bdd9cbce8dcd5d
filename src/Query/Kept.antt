-- ===== src/Query/Kept.antt =====
-- engine/list.go: a query's one level, and what of a segment's entries is live and can be read.
use kurn.Prelude.{
  ℕ, ◌≡◌, refl, ap, sym, subst, Bool, true, false, some, List, [], ◌∷◌, ◌++◌, Bool-cases, inl, inr,
  arith, keep,
}
use kurn.Prelude.Bytes.{Bytes, bytes_eq_refl}
use kurn.Prelude.Dict.{Dict, lookup}
use kurn.Live.Types.{Entry, Snapshot}
use kurn.Live.Mutate.{is_some, live_base}
use kurn.Live.View.{find_entry, otherwise}
use kurn.Query.Search.{Filter, Found, probe, probe_levels, probe_level, probe_both, level_score}
use kurn.Query.Collect.{alive, failure}

pub failure-append :
    (cf : Filter) (xs ys : List Entry)
    → failure cf (xs ++ ys) ≡ otherwise (failure cf xs) (failure cf ys)
failure-append cf [] ys = refl
failure-append cf (x ∷ xs) ys = ground (arith, failure-append cf xs ys)

find_entry-here :
    (e : Entry) (entries : List Entry) → is_some (find_entry e.id (e ∷ entries)) ≡ true
unfolding find_entry
find_entry-here e entries = rw (bytes_eq_refl e.id) refl

find_entry-there :
    (id : Bytes) (e : Entry) (entries : List Entry)
    → is_some (find_entry id entries) ≡ true
    → is_some (find_entry id (e ∷ entries)) ≡ true
unfolding find_entry
find_entry-there id e entries h = ground (arith, h)

-- Where the live IDs of the overlay mask the base, the tombstones alone say what lives there.
pub live_base-alive :
    (tomb : Dict (Unit {0})) (src : Dict Entry) (entries : List Entry)
    → ((id : Bytes)
        → is_some (lookup id src) ≡ true
        → is_some (find_entry id entries) ≡ true
        → is_some (lookup id tomb) ≡ true)
    → live_base tomb src entries ≡ keep (alive tomb) entries
unfolding live_base
live_base-alive tomb src [] masks = refl
live_base-alive tomb src (e ∷ entries) masks =
    let rest =
      live_base-alive tomb src entries λ id h g. masks id h (find_entry-there id e entries g) in
    elim (Bool-cases (is_some (lookup e.id tomb))) [
      | inl dead ↦ rw dead rest
      | inr live ↦ elim (Bool-cases (is_some (lookup e.id src))) [
        | inl shadowed ↦ cc (masks e.id shadowed (find_entry-here e entries), live)
        | inr own ↦ rw (live, own) (ap (◌∷◌ e) rest)
      ]
    ]

-- A level that is not below the threshold, with nothing more behind it.
probe_level-last :
    (s : Snapshot) (cf : Filter) (top_k : ℕ) (below : ℕ → Bool) (score : ℕ) (aq : Bytes)
    (f g h : Found)
    → below score ≡ false
    → probe cf top_k false s.tombstones score aq s.base f ≡ some g
    → probe cf top_k true [] score aq s.overlay g ≡ some h
    → probe_level s cf top_k below score aq f (λ x. some (aq, x)) ≡ some (aq, h)
unfolding probe_level probe_both
probe_level-last s cf top_k below score aq f g h over_floor first second =
    rw (over_floor, first, second) (ground arith)

-- The only level of a query without the parents of a domain.
pub probe_levels-once :
    (s : Snapshot) (cf : Filter) (top_k : ℕ) (below : ℕ → Bool) (aq : Bytes) (f g h : Found)
    → below 100 ≡ false
    → probe cf top_k false s.tombstones 100 aq s.base f ≡ some g
    → probe cf top_k true [] 100 aq s.overlay g ≡ some h
    → probe_levels s cf top_k below aq (aq ∷ []) f ≡ some (aq, h)
unfolding probe_levels
probe_levels-once s cf top_k below aq f g h over_floor first second =
    let whole : level_score aq aq ≡ 100 = rw (bytes_eq_refl aq) refl in
    subst (λ score. probe_level s cf top_k below score aq f (λ x. some (aq, x)) ≡ some (aq, h))
      (sym whole) (probe_level-last s cf top_k below 100 aq f g h over_floor first second)

pub alive-nil : (e : Entry) → alive [] e ≡ true
unfolding lookup
alive-nil e = refl
