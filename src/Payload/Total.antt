-- ===== src/Payload/Total.antt =====
-- The scanner of engine/payload.go always ends: each loop and each nesting consumes bytes, so two
-- units of fuel for each byte are enough.
use kurn.Prelude.{
  ℕ, zero, suc, ◌+◌, ◌*◌, ◌≤◌, ◌<◌, ◌≡◌, refl, true, false, Option, none, some, [], ◌∷◌, ◌++◌, ◌==◌,
  Bool-cases, Option-cases, false≢true, sym, ◌∙◌, inl, inr, arith, length, drop, take, length-drop,
}
use kurn.Prelude.Bytes.{Bytes, index_byte}
use kurn.Payload.Token.{
  Scan, ok, fail, ◌>>=◌, out_of_fuel, quote, backslash, ws, raw_string, raw_string_loop,
  raw_string_round, Special, first_special, has_control, escape_size,
}
use kurn.Payload.Scalar.{raw_scalar, scalar_token, after_token, valid_scalar_token, is_delimiter}
use kurn.Payload.Skip.{
  open_bracket, object_separator, array_separator, member_key, colon, skip_value, skip_members,
  skip_elements, skip_switch, skip_string,
}

-- The scan ended by itself, and `P` holds of what it returned.
abbrev pub Ends {ℓ} : {A : Type ℓ} → (A → Type 0) → Scan A → Type 0
Ends P (ok a) = P a
Ends P (fail out_of_fuel) = ⊥
Ends P (fail _) = Unit

abbrev pub Under : ℕ → Bytes → Type 0
Under n r = length r < n

Ends-bind {ℓ κ} :
    {A : Type ℓ} {B : Type κ} (P : A → Type 0) (Q : B → Type 0) (s : Scan A) (k : A → Scan B)
    → Ends P s
    → ((a : A) → P a → Ends Q (k a))
    → Ends Q (s >>= k)
Ends-bind P Q (ok a) k h g = g a h
Ends-bind P Q (fail out_of_fuel) k h g = absurd h
Ends-bind P Q (fail _) k h g = h

pub length-ws : (b : Bytes) → length (ws b) ≤ length b
unfolding ws
length-ws [] = omega arith
length-ws (c ∷ b) = ground (arith, length-ws b)

length-drop-le : (n : ℕ) (b : Bytes) → length (drop n b) ≤ length b
length-drop-le n b = omega (arith, length-drop n b)

abbrev Shorter : ℕ → Option (Bytes × Bytes) → Type 0
Shorter n none = Unit
Shorter n (some t) = length t.1 < n

Shorter-mono : {m n : ℕ} (o : Option (Bytes × Bytes)) → m ≤ n → Shorter m o → Shorter n o
Shorter-mono none h s = tt
Shorter-mono (some t) h s = omega arith

-- Where a quote was found, there is a byte to take.
length-drop-quote_at :
    (rest : Bytes) (q : ℕ)
    → first_special (index_byte quote rest) (index_byte backslash rest) ≡ Special.quote_at q
    → length (drop (suc q) rest) < length rest
unfolding first_special
length-drop-quote_at [] q e = cc
length-drop-quote_at (c ∷ rest) q e = omega (arith, length-drop-le q rest)

module _ (next : Bytes → Bytes → Option (Bytes × Bytes)) (rest : Bytes)
    (ih : (inner' rest' : Bytes) → Shorter (length rest') (next inner' rest')) where
  raw_string_round-Shorter :
      (inner : Bytes) (s : Special)
      → first_special (index_byte quote rest) (index_byte backslash rest) ≡ s
      → Shorter (length rest) (raw_string_round next inner rest s)
  unfolding raw_string_round
  raw_string_round-Shorter inner Special.nothing e = tt
  raw_string_round-Shorter inner (Special.escape_at bs) e =
      elim (Bool-cases (has_control (take bs rest))) [
        | inl h ↦ rw (h, Shorter) tt
        | inr h ↦
            rw (h, Shorter, raw_string_round)
              (elim (Option-cases (escape_size (drop bs rest))) [
                | inl n ↦ rw (n, Shorter, raw_string_round) tt
                | inr (n, some_n) ↦
                    rw (some_n, Shorter, raw_string_round)
                      (Shorter-mono (next (inner ++ take (bs + n) rest) (drop (bs + n) rest))
                        (length-drop-le (bs + n) rest) (ih _ _))
              ])
      ]
  raw_string_round-Shorter inner (Special.quote_at q) e =
      elim (Bool-cases (has_control (take q rest))) [
        | inl h ↦ rw (h, Shorter) tt
        | inr h ↦ rw (h, Shorter, raw_string_round) (length-drop-quote_at rest q e)
      ]

raw_string_loop-Shorter :
    (f : ℕ) (inner rest : Bytes) → Shorter (length rest) (raw_string_loop f inner rest)
unfolding raw_string_loop
raw_string_loop-Shorter zero inner rest = tt
raw_string_loop-Shorter (suc f) inner rest =
    raw_string_round-Shorter (raw_string_loop f) rest (raw_string_loop-Shorter f) inner
      (first_special (index_byte quote rest) (index_byte backslash rest)) refl

raw_string-Shorter : (b : Bytes) → Shorter (length b) (raw_string b)
unfolding raw_string
raw_string-Shorter [] = tt
raw_string-Shorter (c ∷ b) = elim (Bool-cases (c == quote)) [
  | inl h ↦
      rw (h, Shorter)
        (Shorter-mono (raw_string_loop (suc (length b)) [] b) (omega arith)
          (raw_string_loop-Shorter (suc (length b)) [] b))
  | inr h ↦ rw (h, Shorter) tt
]

length-after_token : (b : Bytes) → length (scalar_token b) + length (after_token b) ≡ length b
unfolding scalar_token after_token
length-after_token [] = refl
length-after_token (c ∷ b) = ground (arith, length-after_token b)

not-valid_scalar_token-nil : valid_scalar_token [] ≡ false
unfolding valid_scalar_token
not-valid_scalar_token-nil = refl

-- A valid token is not empty.
after_token-shorter :
    (b : Bytes) → valid_scalar_token (scalar_token b) ≡ true → length (after_token b) < length b
unfolding scalar_token after_token
after_token-shorter [] h = cc (not-valid_scalar_token-nil)
after_token-shorter (c ∷ b) h = elim (Bool-cases (is_delimiter c)) [
  | inl d ↦ absurd (false≢true (sym not-valid_scalar_token-nil ∙ rw (d, scalar_token) at h))
  | inr d ↦ rw (d, after_token) (omega (arith, length-after_token b))
]

raw_scalar-Ends : (b : Bytes) → Ends (λ t. Under (length b) t.1) (raw_scalar b)
unfolding raw_scalar
raw_scalar-Ends b = elim (Bool-cases (valid_scalar_token (scalar_token b))) [
  | inl h ↦ rw (h, Ends) (after_token-shorter b h)
  | inr h ↦ rw (h, Ends) tt
]

Ends-mono : {m n : ℕ} (s : Scan Bytes) → m ≤ n → Ends (Under m) s → Ends (Under n) s
Ends-mono (ok r) h e = omega arith
Ends-mono (fail out_of_fuel) h e = e
Ends-mono (fail _) h e = e

skip_string-Ends : (b : Bytes) → Ends (Under (length b)) (skip_string b)
unfolding skip_string
skip_string-Ends b = go (raw_string b) refl (raw_string-Shorter b)
  where
    go :
        (o : Option (Bytes × Bytes))
        → raw_string b ≡ o
        → Shorter (length b) o
        → Ends (Under (length b)) (skip_string b)
    go none e h = rw (e, Ends, skip_string) tt
    go (some t) e h = rw (e, Ends, skip_string) h

colon-Ends : (b : Bytes) → Ends (Under (length b)) (colon b)
unfolding colon
colon-Ends [] = tt
colon-Ends (c ∷ b) = elim (Bool-cases (c == b':')) [
  | inl e ↦ rw (e, Ends) (omega arith)
  | inr e ↦ rw (e, Ends) tt
]

member_key-Ends : (b : Bytes) → Ends (λ k. Under (length b) k.1) (member_key b)
unfolding member_key
member_key-Ends b = go (raw_string (ws b)) refl (raw_string-Shorter (ws b))
  where
    go :
        (o : Option (Bytes × Bytes))
        → raw_string (ws b) ≡ o
        → Shorter (length (ws b)) o
        → Ends (λ k. Under (length b) k.1) (member_key b)
    go none e h = rw (e, Ends, member_key) tt
    go (some (key, r)) e h =
        rw (e, Ends, member_key)
          (Ends-bind (Under (length (ws r))) (λ k. Under (length b) k.1) (colon (ws r))
            (λ v. ok (key, v)) (colon-Ends (ws r)) λ v lt. omega (arith, length-ws r, length-ws b))

module _ (n : ℕ) (loop : Bytes → Scan Bytes)
    (ends : (b : Bytes) → length b ≤ n → Ends (Under n) (loop b)) where
  object_separator-Ends : (b : Bytes) → length b ≤ n → Ends (Under n) (object_separator loop ok b)
  unfolding object_separator
  object_separator-Ends [] h = tt
  object_separator-Ends (c ∷ b) h = elim (Bool-cases (c == b',')) [
    | inl e ↦ rw (e, Ends, object_separator) (ends b (omega arith))
    | inr e ↦
        rw (e, Ends, object_separator)
          (elim (Bool-cases (c == b'}')) [
            | inl d ↦ rw (d, Ends, object_separator) (omega arith)
            | inr d ↦ rw (d, Ends, object_separator) tt
          ])
  ]

  array_separator-Ends : (b : Bytes) → length b ≤ n → Ends (Under n) (array_separator loop ok b)
  unfolding array_separator
  array_separator-Ends [] h = tt
  array_separator-Ends (c ∷ b) h = elim (Bool-cases (c == b',')) [
    | inl e ↦ rw (e, Ends, array_separator) (ends b (omega arith))
    | inr e ↦
        rw (e, Ends, array_separator)
          (elim (Bool-cases (c == b']')) [
            | inl d ↦ rw (d, Ends, array_separator) (omega arith)
            | inr d ↦ rw (d, Ends, array_separator) tt
          ])
  ]

-- A loop over members or elements never grows what is left.
abbrev Reads : ℕ → (Bytes → Scan Bytes) → Type 0
Reads n loop = (b : Bytes) → length b ≤ n → Ends (Under (suc n)) (loop b)

open_bracket-Ends :
    (n close : ℕ) (loop : Bytes → Scan Bytes)
    → Reads n loop
    → (b : Bytes) → length b ≤ n
    → Ends (Under (suc n)) (open_bracket close ok loop b)
unfolding open_bracket
open_bracket-Ends n close loop ends [] h = ends [] h
open_bracket-Ends n close loop ends (c ∷ b) h = elim (Bool-cases (c == close)) [
  | inl e ↦ rw (e, Ends, open_bracket) (omega arith)
  | inr e ↦ rw (e, Ends, open_bracket) (ends (c ∷ b) h)
]

skip_switch-Ends :
    (members elements : Bytes → Scan Bytes) (b : Bytes)
    → ((n : ℕ) → suc n ≤ length b → Reads n members)
    → ((n : ℕ) → suc n ≤ length b → Reads n elements)
    → Ends (Under (length b)) (skip_switch members elements b)
unfolding skip_switch
skip_switch-Ends members elements [] hm he = tt
skip_switch-Ends members elements (c ∷ b) hm he = elim (Bool-cases (c == quote)) [
  | inl q ↦ rw (q, Ends, skip_switch) (skip_string-Ends (c ∷ b))
  | inr q ↦ elim (Bool-cases (c == b'{')) [
    | inl o ↦
        rw (q, o, Ends, skip_switch)
          (open_bracket-Ends (length b) b'}' members (hm (length b) (omega arith)) (ws b)
            (length-ws b))
    | inr o ↦ elim (Bool-cases (c == b'[')) [
      | inl a ↦
          rw (q, o, a, Ends, skip_switch)
            (open_bracket-Ends (length b) b']' elements (he (length b) (omega arith)) (ws b)
              (length-ws b))
      | inr a ↦
          rw (q, o, a, Ends, skip_switch)
            (Ends-bind (λ t. Under (length (c ∷ b)) t.1) (Under (length (c ∷ b)))
              (raw_scalar (c ∷ b)) (λ t. ok t.1) (raw_scalar-Ends (c ∷ b)) (λ t h. h))
    ]
  ]
]

mutual
  unfolding skip_value

  skip_value-Ends :
      (f : ℕ) (b : Bytes) → 2 * length b + 1 ≤ f → Ends (Under (length b)) (skip_value f b)
  skip_value-Ends zero b h = absurd (omega arith)
  skip_value-Ends (suc f) b h =
      Ends-mono (skip_switch (skip_members f) (skip_elements f) (ws b)) (length-ws b) (
        skip_switch-Ends (skip_members f) (skip_elements f) (ws b)
          (λ n le r lr.
            Ends-mono (skip_members f r) (omega arith)
              (skip_members-Ends f r (omega (arith, length-ws b))))
          (λ n le r lr.
            Ends-mono (skip_elements f r) (omega arith)
              (skip_elements-Ends f r (omega (arith, length-ws b)))))

  skip_members-Ends :
      (f : ℕ) (b : Bytes) → 2 * length b + 2 ≤ f → Ends (Under (length b)) (skip_members f b)
  skip_members-Ends zero b h = absurd (omega arith)
  skip_members-Ends (suc f) b h =
      Ends-bind (λ k. Under (length b) k.1) (Under (length b)) (member_key b)
        (λ k. skip_value f k.1 >>= λ r. object_separator (skip_members f) ok (ws r))
        (member_key-Ends b)
        λ k lk.
          Ends-bind (Under (length k.1)) (Under (length b)) (skip_value f k.1)
            (λ r. object_separator (skip_members f) ok (ws r)) (skip_value-Ends f k.1 (omega arith))
            λ r lr. Ends-mono (object_separator (skip_members f) ok (ws r)) (omega arith) (
              object_separator-Ends (length k.1) (skip_members f)
                (λ b' lb. Ends-mono (skip_members f b') lb (skip_members-Ends f b' (omega arith)))
                (ws r) (omega (arith, length-ws r)))

  skip_elements-Ends :
      (f : ℕ) (b : Bytes) → 2 * length b + 2 ≤ f → Ends (Under (length b)) (skip_elements f b)
  skip_elements-Ends zero b h = absurd (omega arith)
  skip_elements-Ends (suc f) b h =
      Ends-bind (Under (length b)) (Under (length b)) (skip_value f b)
        (λ r. array_separator (skip_elements f) ok (ws r)) (skip_value-Ends f b (omega arith))
        λ r lr. Ends-mono (array_separator (skip_elements f) ok (ws r)) (omega arith) (
          array_separator-Ends (length r) (skip_elements f)
            (λ b' lb. Ends-mono (skip_elements f b') lb (skip_elements-Ends f b' (omega arith)))
            (ws r) (length-ws r))

-- With two units of fuel for each byte and one more, skipping a value ends by itself, and where it
-- accepts, fewer bytes are left than it was given.
pub skip-Ends :
    (f : ℕ) (b : Bytes) → 2 * length b + 1 ≤ f → Ends (Under (length b)) (skip_value f b)
skip-Ends = skip_value-Ends
