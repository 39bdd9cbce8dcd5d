-- ===== src/Query/Levels.antt =====
-- engine/list.go: the keys that an exact-mode query probes, a domain and its parents.
use kurn.Prelude.{
  ℕ, zero, suc, ◌≤◌, ◌==◌, ◌≡◌, refl, ap, sym, ◌∙◌, Bool, true, false, none, some, List, [], ◌∷◌,
  if◌then◌else◌, Bool-cases, Option-cases, inl, inr, arith, length, drop, length-drop,
}
use kurn.Prelude.Bytes.{Bytes, index_byte}

abbrev pub dot : ℕ
dot = 46

-- The rounds of the loop, one unit of fuel for each.
unfoldable pub levels_loop : ℕ → Bytes → List Bytes
levels_loop zero rest = []
levels_loop (suc f) rest = elim (index_byte dot rest) [
  | none ↦ []
  | some i ↦
      let parent = drop (suc i) rest in
      let more = levels_loop f parent in
      elim (index_byte dot parent) [ none ↦ [] | some _ ↦ parent ∷ more ]
]

-- `exactLevels`
unfoldable pub exact_levels : Bytes → Bool → List Bytes
unfolding levels_loop
exact_levels aq parent_fallback = aq ∷ (if parent_fallback then levels_loop (length aq) aq else [])

abbrev pub has_dot : Bytes → Bool
has_dot [] = false
has_dot (c ∷ s) = if c == dot then true else has_dot s

-- The proper suffixes of a domain that begin a label and have a dot, longest first.
abbrev pub parents : Bytes → List Bytes
parents [] = []
parents (c ∷ s) =
    let rest = parents s in if c == dot then (if has_dot s then s ∷ rest else rest) else rest

index_byte-none : (s : Bytes) → index_byte dot s ≡ none → (has_dot s ≡ false) × (parents s ≡ [])
index_byte-none [] h = (refl, refl)
index_byte-none (c ∷ s) h = elim (Bool-cases (c == dot)) [
  | inl e ↦ cc (rw e at h)
  | inr e ↦ elim (Option-cases (index_byte dot s)) [
    | inl n ↦ rw e (index_byte-none s n)
    | inr (i, at) ↦ cc (rw (e, at) at h)
  ]
]

index_byte-some :
    (s : Bytes) (i : ℕ)
    → index_byte dot s ≡ some i
    → (has_dot s ≡ true)
      × (parents s ≡ (
          if has_dot (drop (suc i) s)
          then drop (suc i) s ∷ parents (drop (suc i) s)
          else parents (drop (suc i) s)))
index_byte-some [] i h = cc
index_byte-some (c ∷ s) i h = elim (Bool-cases (c == dot)) [
  | inl e ↦
      let found : some 0 ≡ some i = rw e at h in
      let first : 0 ≡ i = cc in rw (e, sym first) (refl, refl)
  | inr e ↦ elim (Option-cases (index_byte dot s)) [
    | inl n ↦ cc (rw (e, n) at h)
    | inr (j, at) ↦
        let found : some (suc j) ≡ some i = rw (e, at) at h in
        let later : suc j ≡ i = cc in rw (e, sym later) (index_byte-some s j at)
  ]
]

levels_loop-parents : (f : ℕ) (rest : Bytes) → length rest ≤ f → levels_loop f rest ≡ parents rest
unfolding levels_loop
levels_loop-parents zero [] h = refl
levels_loop-parents zero (c ∷ s) h = absurd (omega arith)
levels_loop-parents (suc f) rest h = elim (Option-cases (index_byte dot rest)) [
  | inl n ↦ rw (n, levels_loop) (sym (index_byte-none rest n).1)
  | inr (i, at) ↦
      let parent = drop (suc i) rest in
      let ih = levels_loop-parents f parent (omega (arith, length-drop (suc i) rest)) in
      elim (Option-cases (index_byte dot parent)) [
        | inl n ↦
            let (no_dot, no_parents) = index_byte-none parent n in
            rw (at, n, levels_loop)
              (sym ((index_byte-some rest i at).1 ∙ rw (no_dot, no_parents) refl))
        | inr (j, more) ↦
            let (dots, _) = index_byte-some parent j more in
            rw (at, more, levels_loop)
              (ap (◌∷◌ parent) ih ∙ sym ((index_byte-some rest i at).1 ∙ rw dots refl))
      ]
]

-- A query with the parent fallback probes its key and then every proper suffix of it that begins a
-- label and still has a dot, the longest first; one without probes only its key.
pub exact_levels-parents :
    (aq : Bytes) (parent_fallback : Bool)
    → exact_levels aq parent_fallback ≡ aq ∷ (if parent_fallback then parents aq else [])
unfolding exact_levels
exact_levels-parents aq true = ap (◌∷◌ aq) (levels_loop-parents (length aq) aq (omega arith))
exact_levels-parents aq false = refl
