-- ===== src/Query/Collect.antt =====
-- engine/list.go: what the loops of `querySnap` collect, as filters on the entries of a segment.
use kurn.Prelude.{
  ℕ, zero, suc, ◌≡◌, refl, ap, sym, ◌∙◌, ◌⊎◌, inl, inr, Bool, true, false, not, ◌&&◌, Option, none,
  some, List, [], ◌∷◌, ◌++◌, map, append_assoc, append-nil, Bool-cases, drop, get_elem?, keep,
}
use kurn.Prelude.Bytes.{Bytes}
use kurn.Prelude.Dict.{Dict, lookup}
use kurn.Payload.Scalar.{is_empty}
use kurn.Payload.Token.{Scan, ok, fail, ScanError}
use kurn.Live.Types.{Entry, Segment}
use kurn.Live.Mutate.{is_some, base_entries}
use kurn.Live.View.{otherwise}
use kurn.Live.Coherent.{IsBuilt}
use kurn.Query.Terms.{asked}
use kurn.Query.Carriers.{carriers, lookup_ords-build_segment}
use kurn.Query.Search.{Filter, Hit, Found, verdict, keep_first, consider, walk, probe}

-- An entry whose ID is not masked.
abbrev pub alive : Dict (Unit {0}) → Entry → Bool
alive masked e = not (is_some (lookup e.id masked))

-- An entry that the filter lets pass.
abbrev pub passes : Filter → Entry → Bool
passes cf e = elim (verdict cf e.payload) [ ok v ↦ v | fail err ↦ false ]

-- The error of the first entry whose payload the filter cannot read.
abbrev pub failure : Filter → List Entry → Option ScanError
failure cf [] = none
failure cf (e ∷ entries) =
    let rest = failure cf entries in
    elim (verdict cf e.payload) [ ok v ↦ rest | fail err ↦ some err ]

abbrev pub hit : Bool → ℕ → Entry → Hit
hit of_overlay score e = record { entry = e; score = score; of_overlay = of_overlay }

-- What stands in `out` and `filterErr` when the entries have been considered.
unfoldable pub gathered : Filter → Bool → Dict (Unit {0}) → ℕ → List Entry → Found → Found
gathered cf of_overlay masked score entries f = record {
  out = f.out ++ map (hit of_overlay score) (keep (λ e. alive masked e && passes cf e) entries);
  filter_err = otherwise f.filter_err (failure cf (keep (alive masked) entries));
}

verdict-cases :
    (v : Scan Bool) → ((err : ScanError) × (v ≡ fail err)) ⊎ ((v ≡ ok true) ⊎ (v ≡ ok false))
verdict-cases (fail err) = inl (err, refl)
verdict-cases (ok true) = inr (inl refl)
verdict-cases (ok false) = inr (inr refl)

otherwise-keep_first :
    (first later : Option ScanError) (err : ScanError)
    → otherwise (keep_first first err) later ≡ otherwise first (some err)
otherwise-keep_first none later err = refl
otherwise-keep_first (some e) later err = refl

-- One entry in front of the others.
gathered-consider :
    (cf : Filter) (of_overlay : Bool) (masked : Dict (Unit {0})) (score : ℕ) (e : Entry)
    (entries : List Entry) (f : Found)
    → gathered cf of_overlay masked score entries (consider cf of_overlay masked score e f)
      ≡ gathered cf of_overlay masked score (e ∷ entries) f
unfolding gathered consider
gathered-consider cf of_overlay masked score e entries f =
    elim (Bool-cases (is_some (lookup e.id masked))) [
      | inl dead ↦ rw dead refl
      | inr live ↦ elim (verdict-cases (verdict cf e.payload)) [
        | inl (err, h) ↦ rw (live, passes, failure, h, otherwise-keep_first f.filter_err _ err) refl
        | inr (inl h) ↦ rw (live, passes, failure, h, append_assoc f.out _ _) refl
        | inr (inr h) ↦ rw (live, passes, failure, h) refl
      ]
    ]

nothing_behind : (first : Option ScanError) → otherwise first none ≡ first
nothing_behind none = refl
nothing_behind (some err) = refl

gathered-nil :
    (cf : Filter) (of_overlay : Bool) (masked : Dict (Unit {0})) (score : ℕ) (f : Found)
    → gathered cf of_overlay masked score [] f ≡ f
unfolding gathered
gathered-nil cf of_overlay masked score f = rw (append-nil f.out, nothing_behind f.filter_err) refl

pub drop-cons :
    (n : ℕ) (all : List Entry) (e : Entry) (entries : List Entry)
    → drop n all ≡ e ∷ entries
    → (get_elem? all n ≡ some e) × (drop (suc n) all ≡ entries)
drop-cons zero (x ∷ all) e entries h =
    let same : x ≡ e = cc in let rest : all ≡ entries = cc in (rw same refl, rest)
drop-cons (suc n) (x ∷ all) e entries h = drop-cons n all e entries h
drop-cons zero [] e entries h = cc
drop-cons (suc n) [] e entries h = cc

-- The walk over the ordinals of a key's carriers, without a top-K cut, considers the carriers.
walk-carriers :
    (cf : Filter) (of_overlay : Bool) (masked : Dict (Unit {0})) (score : ℕ) (an : Bytes → Bytes)
    (q : Bytes) (n : ℕ) (all entries : List Entry) (f : Found)
    → drop n all ≡ entries
    → walk cf 0 of_overlay masked score all (carriers an q n entries) f
      ≡ some (gathered cf of_overlay masked score (keep (λ e. asked an q e.keys) entries) f)
unfolding walk
walk-carriers cf of_overlay masked score an q n all [] f h =
    ap some (sym (gathered-nil cf of_overlay masked score f))
walk-carriers cf of_overlay masked score an q n all (e ∷ entries) f h =
    let (here, behind) = drop-cons n all e entries h in
    elim (Bool-cases (asked an q e.keys)) [
      | inl asks ↦
          rw (asks, walk, here)
            (walk-carriers cf of_overlay masked score an q (suc n) all entries
                (consider cf of_overlay masked score e f) behind
              ∙ ap some (
                  gathered-consider cf of_overlay masked score e
                    (keep (λ x. asked an q x.keys) entries) f))
      | inr passed ↦
          rw passed (walk-carriers cf of_overlay masked score an q (suc n) all entries f behind)
    ]

-- What one segment gives at one level: its entries with a key that is analyzed to the level.
pub probe-built :
    (cf : Filter) (of_overlay : Bool) (masked : Dict (Unit {0})) (score : ℕ) (an : Bytes → Bytes)
    (level : Bytes) (sg : Option Segment) (f : Found)
    → IsBuilt an sg
    → is_empty level ≡ false
    → probe cf 0 of_overlay masked score level sg f
      ≡ some (
          gathered cf of_overlay masked score
            (keep (λ e. asked an level e.keys) (base_entries sg))
            f)
unfolding probe
probe-built cf of_overlay masked score an level none f built h =
    ap some (sym (gathered-nil cf of_overlay masked score f))
probe-built cf of_overlay masked score an level (some seg) f built h =
    rw (lookup_ords-build_segment an seg.entries seg level built, h)
      (walk-carriers cf of_overlay masked score an level 0 seg.entries seg.entries f refl)
