-- ===== src/Payload/Agree.antt =====
-- The evaluating walk and the plain skip read the same documents (engine/payload.go).
use kurn.Prelude.{
  ℕ, zero, suc, List, Option-cases, ◌≡◌, refl, subst, Bool, true, false, Option, none, some, [],
  ◌∷◌, ◌==◌, Bool-cases, inl, inr, arith,
}
use kurn.Prelude.Bytes.{Bytes}
use kurn.Payload.Token.{Scan, ScanError, ok, fail, ◌>>=◌, out_of_fuel, quote, ws, raw_string}
use kurn.Payload.Scalar.{raw_scalar}
use kurn.Payload.Skip.{
  open_bracket, object_separator, array_separator, member_key, skip_value, skip_members,
  skip_elements, skip_switch, skip_string,
}
use kurn.Payload.Walk.{
  FilterNode, TerminalTerm, Marked, walk_value, walk_object, walk_array, walk_switch, walk_string,
  walk_scalar, member_value, fire, matches_scalar, child, children, terms,
}

abbrev pub is_fuel : ScanError → Bool
is_fuel out_of_fuel = true
is_fuel _ = false

-- The same bytes are left, or both fail, and for want of fuel only together.
abbrev pub Agree : Marked → Scan Bytes → Type 0
Agree (ok m) (ok r) = m.1 ≡ r
Agree (fail e) (fail e') = is_fuel e ≡ is_fuel e'
Agree _ _ = ⊥

Agree-bind :
    (m : Marked) (s : Scan Bytes) (k : ℕ × Bytes → Marked) (j : Bytes → Scan Bytes)
    → Agree m s
    → ((bits : ℕ) (r : Bytes) → Agree (k (bits, r)) (j r))
    → Agree (m >>= k) (s >>= j)
Agree-bind (ok (bits, r)) (ok r') k j h g = subst (λ x. Agree (k (bits, r)) (j x)) h (g bits r)
Agree-bind (fail e) (fail e') k j h g = h
Agree-bind (ok m) (fail e) k j h g = absurd h
Agree-bind (fail e) (ok r) k j h g = absurd h

Agree-bind-same :
    {A : Type 0} (s : Scan A) (k : A → Marked) (j : A → Scan Bytes)
    → ((a : A) → Agree (k a) (j a))
    → Agree (s >>= k) (s >>= j)
Agree-bind-same (ok a) k j g = g a
Agree-bind-same (fail e) k j g = refl

module _ (k : Bytes → Marked) (j : Bytes → Scan Bytes) (same : (b : Bytes) → Agree (k b) (j b))
    (bits : ℕ) where
  Agree-open_bracket :
      (close : ℕ) (b : Bytes)
      → Agree (open_bracket close (λ r. ok (bits, r)) k b) (open_bracket close ok j b)
  unfolding open_bracket
  Agree-open_bracket close [] = same []
  Agree-open_bracket close (c ∷ b) = elim (Bool-cases (c == close)) [
    | inl e ↦ rw (e, Agree, open_bracket) refl
    | inr e ↦ rw (e, Agree, open_bracket) (same (c ∷ b))
  ]

  Agree-object_separator :
      (b : Bytes) → Agree (object_separator k (λ r. ok (bits, r)) b) (object_separator j ok b)
  unfolding object_separator
  Agree-object_separator [] = refl
  Agree-object_separator (c ∷ b) = elim (Bool-cases (c == b',')) [
    | inl e ↦ rw (e, Agree, object_separator) (same b)
    | inr e ↦
        rw (e, Agree, object_separator)
          (elim (Bool-cases (c == b'}')) [
            | inl d ↦ rw (d, Agree, object_separator) refl
            | inr d ↦ rw (d, Agree, object_separator) refl
          ])
  ]

  Agree-array_separator :
      (b : Bytes) → Agree (array_separator k (λ r. ok (bits, r)) b) (array_separator j ok b)
  unfolding array_separator
  Agree-array_separator [] = refl
  Agree-array_separator (c ∷ b) = elim (Bool-cases (c == b',')) [
    | inl e ↦ rw (e, Agree, array_separator) (same b)
    | inr e ↦
        rw (e, Agree, array_separator)
          (elim (Bool-cases (c == b']')) [
            | inl d ↦ rw (d, Agree, array_separator) refl
            | inr d ↦ rw (d, Agree, array_separator) refl
          ])
  ]

Agree-string :
    (ts : List TerminalTerm) (bits : ℕ) (b : Bytes) → Agree (walk_string ts bits b) (skip_string b)
unfolding walk_string skip_string
Agree-string ts bits b = elim (Option-cases (raw_string b)) [
  | inl e ↦ rw (e, Agree, walk_string, skip_string) refl
  | inr (t, e) ↦ rw (e, Agree, walk_string, skip_string) refl
]

Agree-switch :
    (km ke : Bytes → Marked) (jm je : Bytes → Scan Bytes)
    → ((b : Bytes) → Agree (km b) (jm b))
    → ((b : Bytes) → Agree (ke b) (je b))
    → (ts : List TerminalTerm) (bits : ℕ) (b : Bytes)
    → Agree (walk_switch km ke ts bits b) (skip_switch jm je b)
unfolding walk_switch skip_switch walk_scalar
Agree-switch km ke jm je hm he ts bits [] = refl
Agree-switch km ke jm je hm he ts bits (c ∷ b) = elim (Bool-cases (c == quote)) [
  | inl q ↦
      let o : (c == b'{') ≡ false = ground arith in
      let a : (c == b'[') ≡ false = ground arith in
      rw (o, a, q, Agree, walk_switch, skip_switch) (Agree-string ts bits (c ∷ b))
  | inr q ↦ elim (Bool-cases (c == b'{')) [
    | inl o ↦
        rw (q, o, Agree, walk_switch, skip_switch) (Agree-open_bracket km jm hm bits b'}' (ws b))
    | inr o ↦ elim (Bool-cases (c == b'[')) [
      | inl a ↦
          rw (q, o, a, Agree, walk_switch, skip_switch)
            (Agree-open_bracket ke je he bits b']' (ws b))
      | inr a ↦
          rw (q, o, a, Agree, walk_switch, skip_switch)
            (rw (q, Agree, walk_switch)
              (Agree-bind-same (raw_scalar (c ∷ b))
                (λ t. ok (fire (λ v. matches_scalar v t.0) ts bits, t.1)) (λ t. ok t.1)
                (λ t. refl)))
    ]
  ]
]

Agree-member_value :
    (walk : FilterNode → Bytes → Marked) (skip : Bytes → Scan Bytes)
    → ((n : FilterNode) (b : Bytes) → Agree (walk n b) (skip b))
    → (o : Option FilterNode) (bits : ℕ) (b : Bytes)
    → Agree (member_value walk skip o bits b) (skip b)
unfolding member_value
Agree-member_value walk skip same none bits b = same_left (skip b)
  where
    same_left : (s : Scan Bytes) → Agree (s >>= λ r. ok (bits, r)) s
    same_left (ok r) = refl
    same_left (fail e) = refl
Agree-member_value walk skip same (some n) bits b = same n b

mutual
  unfolding walk_value skip_value

  walk_value-Agree :
      (f : ℕ) (n : FilterNode) (bits : ℕ) (b : Bytes)
      → Agree (walk_value f n bits b) (skip_value f b)
  walk_value-Agree zero n bits b = refl
  walk_value-Agree (suc f) n bits b =
      Agree-switch (walk_object f n bits) (walk_array f n bits) (skip_members f) (skip_elements f)
        (walk_object-Agree f n bits) (walk_array-Agree f n bits) (terms n) bits (ws b)

  walk_object-Agree :
      (f : ℕ) (n : FilterNode) (bits : ℕ) (b : Bytes)
      → Agree (walk_object f n bits b) (skip_members f b)
  walk_object-Agree zero n bits b = refl
  walk_object-Agree (suc f) n bits b = Agree-bind-same (member_key b) _ _ λ k.
      Agree-bind
        (member_value (λ m. walk_value f m bits) (skip_value f) (child (children n) k.0) bits k.1)
        (skip_value f k.1) _ _
        (Agree-member_value (λ m. walk_value f m bits) (skip_value f)
          (λ m. walk_value-Agree f m bits) (child (children n) k.0) bits k.1)
        λ bits' r.
          Agree-object_separator (walk_object f n bits') (skip_members f)
            (walk_object-Agree f n bits') bits' (ws r)

  walk_array-Agree :
      (f : ℕ) (n : FilterNode) (bits : ℕ) (b : Bytes)
      → Agree (walk_array f n bits b) (skip_elements f b)
  walk_array-Agree zero n bits b = refl
  walk_array-Agree (suc f) n bits b =
      Agree-bind (walk_value f n bits b) (skip_value f b) _ _ (walk_value-Agree f n bits b)
        λ bits' r.
          Agree-array_separator (walk_array f n bits') (skip_elements f)
            (walk_array-Agree f n bits') bits' (ws r)

-- Walking a value for any node and skipping it, on the same fuel, leave the same bytes, or both fail,
-- for want of fuel only together.
pub walk-Agree :
    (f : ℕ) (n : FilterNode) (bits : ℕ) (b : Bytes) → Agree (walk_value f n bits b) (skip_value f b)
walk-Agree = walk_value-Agree
