-- ===== src/Query/Cut.antt =====
-- engine/list.go: what the walk collects under a top-K cut.
use kurn.Prelude.{
  ℕ, zero, suc, ◌+◌, ◌≤◌, ◌<◌, ◌≡◌, refl, ap, sym, ◌∙◌, Bool, false, Option, none, some, List, [],
  ◌∷◌, ◌++◌, map, append_assoc, append-nil, Bool-cases, inl, inr, arith, ltb, length, length-append,
  take, drop, keep,
}
use kurn.Prelude.Bytes.{Bytes}
use kurn.Prelude.Dict.{Dict, lookup}
use kurn.Payload.Scalar.{is_empty}
use kurn.Live.Types.{Entry, Segment}
use kurn.Live.Mutate.{is_some, base_entries}
use kurn.Live.Coherent.{IsBuilt}
use kurn.Query.Terms.{asked}
use kurn.Query.Carriers.{carriers, lookup_ords-build_segment}
use kurn.Query.Search.{
  Hit, Found, consider, full, walk, probe, insert_hit, sort_candidates, cut_top,
}
use kurn.Query.Collect.{alive, hit, drop-cons}
use kurn.Query.Shown.{IsShown, entries_of}

module _ {ℓ} {A : Type ℓ} where
  pub take-all : (k : ℕ) (xs : List A) → length xs ≤ k → take k xs ≡ xs
  take-all zero [] h = refl
  take-all (suc k) [] h = refl
  take-all zero (x ∷ xs) h = absurd (omega arith)
  take-all (suc k) (x ∷ xs) h = ap (◌∷◌ x) (take-all k xs (omega arith))

  take-front : (k : ℕ) (xs ys : List A) → k ≤ length xs → take k (xs ++ ys) ≡ take k xs
  take-front zero xs ys h = refl
  take-front (suc k) [] ys h = absurd (omega arith)
  take-front (suc k) (x ∷ xs) ys h = ap (◌∷◌ x) (take-front k xs ys (omega arith))

  length-take : (k : ℕ) (xs : List A) → length (take k xs) ≤ k
  length-take zero xs = omega arith
  length-take (suc k) [] = omega arith
  length-take (suc k) (x ∷ xs) = omega (arith, length-take k xs)

  take-short : (k : ℕ) (xs : List A) → length (take k xs) < k → take k xs ≡ xs
  take-short zero xs h = absurd (omega arith)
  take-short (suc k) [] h = refl
  take-short (suc k) (x ∷ xs) h = ap (◌∷◌ x) (take-short k xs (omega arith))

  take-long : (k : ℕ) (xs : List A) → k ≤ length (take k xs) → k ≤ length xs
  take-long zero xs h = omega arith
  take-long (suc k) [] h = absurd (omega arith)
  take-long (suc k) (x ∷ xs) h = omega (arith, take-long k xs (omega arith))

-- The first `k` of what is at hand and what comes.
abbrev topped : ℕ → Bool → ℕ → List Entry → Found → Found
topped k of_overlay score entries f = record {
  out = take k (f.out ++ map (hit of_overlay score) entries);
  filter_err = f.filter_err;
}

abbrev pub survivors : Dict (Unit {0}) → (Bytes → Bytes) → Bytes → List Entry → List Entry
survivors masked an q entries = keep (alive masked) (keep (λ e. asked an q e.keys) entries)

module _ (k : ℕ) (cut : 0 < k) (of_overlay : Bool) (masked : Dict (Unit {0})) (score : ℕ)
    (an : Bytes → Bytes) (q : Bytes) (all : List Entry) where
  abbrev with_hit : Entry → Found → Found
  with_hit e f = record f { out = f.out ++ hit of_overlay score e ∷ [] }

  topped-with_hit :
      (e : Entry) (entries : List Entry) (f : Found)
      → topped k of_overlay score entries (with_hit e f) ≡ topped k of_overlay score (e ∷ entries) f
  topped-with_hit e entries f =
      ap (λ out. record f { out = take k out })
        (append_assoc f.out (hit of_overlay score e ∷ []) (map (hit of_overlay score) entries))

  topped-full :
      (entries : List Entry) (g : Found)
      → length g.out ≡ k
      → topped k of_overlay score entries g ≡ g
  topped-full entries g h =
      ap (λ out. record g { out = out })
        (take-front k g.out (map (hit of_overlay score) entries) (omega arith)
          ∙ take-all k g.out (omega arith))

  -- The walk stops behind the hit that makes the `k`th.
  walk-top :
      (n : ℕ) (entries : List Entry) (f : Found)
      → drop n all ≡ entries
      → length f.out < k
      → walk none k of_overlay masked score all (carriers an q n entries) f
        ≡ some (topped k of_overlay score (survivors masked an q entries) f)
  unfolding walk consider
  walk-top n [] f at short =
      ap (λ out. some (record f { out = out }))
        (sym (ap (take k) (append-nil f.out) ∙ take-all k f.out (omega arith)))
  walk-top n (e ∷ entries) f at short =
      let (here, behind) = drop-cons n all e entries at in
      let room : full k f.out ≡ false = ground arith in
      elim (Bool-cases (asked an q e.keys)) [
        | inr passed ↦ rw passed (walk-top (suc n) entries f behind short)
        | inl asks_it ↦ elim (Bool-cases (is_some (lookup e.id masked))) [
          | inl dead ↦
              rw (asks_it, walk, here, consider, dead, room)
                (walk-top (suc n) entries f behind short)
          | inr live ↦
              let g = with_hit e f in
              let more : length g.out ≡ length f.out + 1 =
                omega (arith, length-append f.out (hit of_overlay score e ∷ [])) in
              elim (Bool-cases (full k g.out)) [
                | inl stop ↦
                    let last : length g.out ≡ k = ground arith in
                    rw (asks_it, walk, here, consider, live, stop)
                      (ap some (
                        sym (topped-full (survivors masked an q entries) g last)
                        ∙ topped-with_hit e (survivors masked an q entries) f))
                | inr further ↦
                    rw (asks_it, walk, here, consider, live, further)
                      (walk-top (suc n) entries g behind (ground arith)
                        ∙ ap some (topped-with_hit e (survivors masked an q entries) f))
              ]
        ]
      ]

-- One segment, behind what stood first among `front`.
pub probe-top :
    (k : ℕ) (cut : 0 < k) (of_overlay : Bool) (masked : Dict (Unit {0})) (score : ℕ)
    (an : Bytes → Bytes) (level : Bytes) (sg : Option Segment) (front : List Hit)
    → IsBuilt an sg
    → is_empty level ≡ false
    → probe none k of_overlay masked score level sg
        (record { out = take k front; filter_err = none })
      ≡ some (record {
        out =
            take k
              (front ++ map (hit of_overlay score) (survivors masked an level (base_entries sg)));
        filter_err = none;
      })
unfolding probe
probe-top k cut of_overlay masked score an level none front built some_key =
    ap (λ out. some (record { out = take k out; filter_err = none })) (sym (append-nil front))
probe-top k cut of_overlay masked score an level (some seg) front built some_key =
    let f : Found = record { out = take k front; filter_err = none } in
    elim (Bool-cases (full k f.out)) [
      | inl stop ↦
          let enough : k ≤ length front = take-long k front (ground arith) in
          rw stop (
            ap (λ out. some (record { out = out; filter_err = none }))
              (sym (take-front k front _ enough)))
      | inr further ↦
          let short : length (take k front) < k = ground arith in
          rw (further, lookup_ords-build_segment an seg.entries seg level built, some_key)
            (walk-top k cut of_overlay masked score an level seg.entries 0 seg.entries f refl short
              ∙ ap
                  (λ out. some (record {
                    out =
                        take k (
                          out
                          ++ map (hit of_overlay score) (survivors masked an level seg.entries));
                    filter_err = none;
                  }))
                  (take-short k front short))
    ]

pub IsShown-take :
    (ov : Option Segment) (score k : ℕ) (hits : List Hit)
    → IsShown ov score hits
    → IsShown ov score (take k hits)
unfolding IsShown
IsShown-take ov score zero hits ok = tt
IsShown-take ov score (suc k) [] ok = tt
IsShown-take ov score (suc k) (h ∷ hits) (a, b, c) = (a, b, IsShown-take ov score k hits c)

pub entries_of-take :
    (k : ℕ) (hits : List Hit) → entries_of (take k hits) ≡ take k (entries_of hits)
entries_of-take zero hits = refl
entries_of-take (suc k) [] = refl
entries_of-take (suc k) (h ∷ hits) = ap (◌∷◌ h.entry) (entries_of-take k hits)

length-insert_hit : (h : Hit) (hits : List Hit) → length (insert_hit h hits) ≡ suc (length hits)
unfolding insert_hit
length-insert_hit h [] = refl
length-insert_hit h (x ∷ hits) = ground (arith, length-insert_hit h hits)

length-sort_candidates : (hits : List Hit) → length (sort_candidates hits) ≡ length hits
unfolding sort_candidates
length-sort_candidates [] = refl
length-sort_candidates (h ∷ hits) =
    length-insert_hit h (sort_candidates hits) ∙ ap suc (length-sort_candidates hits)

-- Nothing is left to cut of hits that were collected under the cut.
pub cut_top-sort_candidates :
    (k : ℕ) (hits : List Hit)
    → cut_top k (sort_candidates (take k hits)) ≡ sort_candidates (take k hits)
unfolding cut_top
cut_top-sort_candidates k hits =
    let few : ltb k (length (sort_candidates (take k hits))) ≡ false =
      let n = length-sort_candidates (take k hits) in let m = length-take k hits in ground arith in
    ground (arith, few)
