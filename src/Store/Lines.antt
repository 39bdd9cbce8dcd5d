-- ===== src/Store/Lines.antt =====
-- engine/store.go, `readBoundedLine`: a file as the records that successive reads return.
use kurn.Prelude.{
  ℕ, ◌==◌, ◌≡◌, refl, ap, ◌∙◌, true, false, List, [], ◌∷◌, ◌++◌, if◌then◌else◌, Bool-cases, inl,
  inr, append_assoc,
}
use kurn.Prelude.Bytes.{Bytes}

abbrev pub newline : ℕ
newline = 10

-- A byte in front of the records behind it.
abbrev pub lead : ℕ → List Bytes × Bytes → List Bytes × Bytes
lead c ([], tail) = ([], c ∷ tail)
lead c (l ∷ lines, tail) = ((c ∷ l) ∷ lines, tail)

-- The records that end in a newline, with it, and what is behind the last newline.
unfoldable pub lines_of : Bytes → List Bytes × Bytes
lines_of [] = ([], [])
lines_of (c ∷ b) =
    let rest = lines_of b in if c == newline then ((c ∷ []) ∷ rest.0, rest.1) else lead c rest

abbrev pub concat : List Bytes → Bytes
concat [] = []
concat (l ∷ lines) = l ++ concat lines

-- One newline, at the end.
abbrev pub IsLine : Bytes → Type 0
IsLine [] = ⊥
IsLine (c ∷ []) = (c == newline) ≡ true
IsLine (c ∷ d ∷ l) = ((c == newline) ≡ false) × IsLine (d ∷ l)

-- No newline at all.
abbrev pub IsTail : Bytes → Type 0
IsTail [] = Unit
IsTail (c ∷ t) = ((c == newline) ≡ false) × IsTail t

abbrev pub AllLines : List Bytes → Type 0
AllLines [] = Unit
AllLines (l ∷ lines) = IsLine l × AllLines lines

abbrev parts : List Bytes × Bytes → Bytes
parts p = concat p.0 ++ p.1

parts-lead : (c : ℕ) (p : List Bytes × Bytes) → parts (lead c p) ≡ c ∷ parts p
parts-lead c ([], tail) = refl
parts-lead c (l ∷ lines, tail) = refl

pub concat-lines_of : (b : Bytes) → concat (lines_of b).0 ++ (lines_of b).1 ≡ b
unfolding lines_of
concat-lines_of [] = refl
concat-lines_of (c ∷ b) = elim (Bool-cases (c == newline)) [
  | inl e ↦ rw e (ap (◌∷◌ c) (concat-lines_of b))
  | inr e ↦ rw e (parts-lead c (lines_of b) ∙ ap (◌∷◌ c) (concat-lines_of b))
]

abbrev Split : List Bytes × Bytes → Type 0
Split p = AllLines p.0 × IsTail p.1

Split-lead : (c : ℕ) (p : List Bytes × Bytes) → (c == newline) ≡ false → Split p → Split (lead c p)
Split-lead c ([], tail) e h = (tt, (e, h.1))
Split-lead c ([] ∷ lines, tail) e h = absurd h.0.0
Split-lead c ((d ∷ l) ∷ lines, tail) e h = (((e, h.0.0), h.0.1), h.1)

pub lines_of-Split : (b : Bytes) → AllLines (lines_of b).0 × IsTail (lines_of b).1
unfolding lines_of
lines_of-Split [] = (tt, tt)
lines_of-Split (c ∷ b) = elim (Bool-cases (c == newline)) [
  | inl e ↦ rw (e, Split) (((e, (lines_of-Split b).0), (lines_of-Split b).1))
  | inr e ↦ rw (e, Split) (Split-lead c (lines_of b) e (lines_of-Split b))
]

lines_of-line :
    (l rest : Bytes) → IsLine l → lines_of (l ++ rest) ≡ (l ∷ (lines_of rest).0, (lines_of rest).1)
unfolding lines_of
lines_of-line [] rest h = absurd h
lines_of-line (c ∷ []) rest h = rw h refl
lines_of-line (c ∷ d ∷ l) rest h = rw (h.0, lines_of-line (d ∷ l) rest h.1) refl

pub lines_of-append :
    (lines : List Bytes) (rest : Bytes)
    → AllLines lines
    → lines_of (concat lines ++ rest) ≡ (lines ++ (lines_of rest).0, (lines_of rest).1)
lines_of-append [] rest h = refl
lines_of-append (l ∷ lines) rest h =
    ap lines_of (append_assoc l (concat lines) rest)
    ∙ lines_of-line l (concat lines ++ rest) h.0
    ∙ ap (λ (p : List Bytes × Bytes). (l ∷ p.0, p.1)) (lines_of-append lines rest h.1)

pub lines_of-tail : (t : Bytes) → IsTail t → lines_of t ≡ ([], t)
unfolding lines_of
lines_of-tail [] h = refl
lines_of-tail (c ∷ t) h = rw (h.0, lines_of-tail t h.1) refl
