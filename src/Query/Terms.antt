-- ===== src/Query/Terms.antt =====
-- engine/list.go: the terms of an exact any-of lookup.
use kurn.Prelude.{
  ℕ, suc, ◌≤◌, ◌==◌, ◌≡◌, refl, ap, sym, ◌∙◌, Bool, true, false, not, ◌&&◌, ◌||◌, List, [], ◌∷◌,
  if◌then◌else◌, false≢true, Bool-cases, inl, inr, arith, ltb, length, ◌↔◌,
}
use kurn.Prelude.Bytes.{Bytes, bytes_eq, bytes_eq_iff, bytes_eq_refl}
use kurn.Prelude.Dict.{Dict, lookup, insert, lookup-insert}
use kurn.Live.Mutate.{is_some}

-- `MaxExactAnyOfTerms`
abbrev pub max_terms : ℕ
max_terms = 64

pub data TermList : Type 0 where
  no_exact_index : TermList
  bad_term_count : ℕ → TermList
  analyzed_terms : List Bytes → TermList

-- The loop of `anyOfTerms`, with its set `seen`.
unfoldable pub terms_loop : (Bytes → Bytes) → Dict (Unit {0}) → List Bytes → List Bytes
terms_loop an seen [] = []
terms_loop an seen (t ∷ terms) =
    let a = an t in
    let skip = terms_loop an seen terms in
    let keep = terms_loop an (insert a tt seen) terms in
    if bytes_eq a [] then skip else if is_some (lookup a seen) then skip else a ∷ keep

-- `anyOfTerms`; the first argument is what `HasExactIndex` reports.
unfoldable pub any_of_terms : Bool → (Bytes → Bytes) → List Bytes → TermList
unfolding terms_loop
any_of_terms has_index an terms =
    if not has_index
    then no_exact_index
    else if length terms == 0 || ltb max_terms (length terms)
    then bad_term_count (length terms)
    else analyzed_terms (terms_loop an [] terms)

-- How often a key occurs.
abbrev pub count : Bytes → List Bytes → ℕ
count q [] = 0
count q (a ∷ l) = let rest = count q l in if bytes_eq a q then suc rest else rest

-- Whether some term is analyzed to the key.
abbrev pub asked : (Bytes → Bytes) → Bytes → List Bytes → Bool
asked an q [] = false
asked an q (t ∷ terms) = bytes_eq (an t) q || asked an q terms

abbrev one_if : Bool → ℕ
one_if b = if b then 1 else 0

terms_loop-count :
    (an : Bytes → Bytes) (q : Bytes) (seen : Dict (Unit {0})) (terms : List Bytes)
    → count q (terms_loop an seen terms)
      ≡ one_if (not (bytes_eq q []) && (not (is_some (lookup q seen)) && asked an q terms))
unfolding terms_loop
terms_loop-count an q seen [] = ground arith
terms_loop-count an q seen (t ∷ terms) =
    let skipped = terms_loop-count an q seen terms in
    let kept = terms_loop-count an q (insert (an t) tt seen) terms in
    let known = lookup-insert (an t) q tt seen in
    elim (Bool-cases (bytes_eq (an t) q)) [
      | inl same ↦
          let e : an t ≡ q = (bytes_eq_iff (an t) q).0 same in
          rw e (ground (arith, skipped, rw e at kept, rw e at known, bytes_eq_refl q))
      | inr other ↦ ground (arith, skipped, kept, known)
    ]

analyzed_terms-injective : {l m : List Bytes} → analyzed_terms l ≡ analyzed_terms m → l ≡ m
analyzed_terms-injective h = cc

-- The terms that an any-of lookup goes on with: each key that is not empty and that some term is
-- analyzed to once, and no other key.
any_of_terms-count :
    (has_index : Bool) (an : Bytes → Bytes) (terms out : List Bytes) (q : Bytes)
    → any_of_terms has_index an terms ≡ analyzed_terms out
    → count q out ≡ (if not (bytes_eq q []) && asked an q terms then 1 else 0)
unfolding any_of_terms lookup
any_of_terms-count false an terms out q h = cc
any_of_terms-count true an terms out q h =
    elim (Bool-cases (length terms == 0 || ltb max_terms (length terms))) [
      | inl bad ↦ cc (rw bad at h)
      | inr fine ↦
          let e : terms_loop an [] terms ≡ out = analyzed_terms-injective (rw fine at h) in
          ap (count q) (sym e) ∙ terms_loop-count an q [] terms
    ]

-- An any-of lookup is refused exactly for a list without an exact index, for no terms, and for more
-- than 64.
any_of_terms-answers_iff :
    (has_index : Bool) (an : Bytes → Bytes) (terms : List Bytes)
    → ((out : List Bytes) × (any_of_terms has_index an terms ≡ analyzed_terms out))
      ↔ ((has_index ≡ true) × (1 ≤ length terms) × (length terms ≤ 64))
unfolding any_of_terms
any_of_terms-answers_iff false an terms = (λ (out, h). cc, λ (h, _, _). absurd (false≢true h))
any_of_terms-answers_iff true an terms =
    elim (Bool-cases (length terms == 0 || ltb max_terms (length terms))) [
      | inl bad ↦ (λ (out, h). cc (rw bad at h), λ (_, lo, hi). ground arith)
      | inr fine ↦
          (λ _. (refl, ground arith, ground arith), λ _. (terms_loop an [] terms, rw fine refl))
    ]
