-- ===== src/Payload/Skip.antt =====
-- engine/payload.go: `skipValue`, `skipObject` and `skipArray`. The three call one another, so they
-- run on fuel; each round of a loop and each nesting takes one unit.
use kurn.Prelude.{ℕ, zero, suc, true, false, none, some, [], ◌∷◌, ◌==◌, if◌then◌else◌}
use kurn.Prelude.Bytes.{Bytes}
use kurn.Payload.Token.{
  Scan, ok, fail, ◌>>=◌, truncated_value, bad_string_token, bad_object_key, missing_colon,
  truncated_object, bad_object_separator, truncated_array, bad_array_separator, out_of_fuel, quote,
  ws, raw_string,
}
use kurn.Payload.Scalar.{raw_scalar}

-- Past an opening bracket: the closing one at once, or the loop.
unfoldable pub open_bracket {ℓ} : {A : Type ℓ} → ℕ → (Bytes → A) → (Bytes → A) → Bytes → A
open_bracket close done loop [] = loop []
open_bracket close done loop (c ∷ b) = elim (c == close) [ true ↦ done b | false ↦ loop (c ∷ b) ]

-- Behind a member: `,` goes on, `}` ends the object.
unfoldable pub object_separator {ℓ} :
    {A : Type ℓ} → (Bytes → Scan A) → (Bytes → Scan A) → Bytes → Scan A
object_separator again done [] = fail truncated_object
object_separator again done (c ∷ b) = elim (c == b',') [
  | true ↦ again b
  | false ↦ elim (c == b'}') [ true ↦ done b | false ↦ fail bad_object_separator ]
]

unfoldable pub array_separator {ℓ} :
    {A : Type ℓ} → (Bytes → Scan A) → (Bytes → Scan A) → Bytes → Scan A
array_separator again done [] = fail truncated_array
array_separator again done (c ∷ b) = elim (c == b',') [
  | true ↦ again b
  | false ↦ elim (c == b']') [ true ↦ done b | false ↦ fail bad_array_separator ]
]

unfoldable pub colon : Bytes → Scan Bytes
colon [] = fail missing_colon
colon (c ∷ b) = if c == b':' then ok b else fail missing_colon

-- A member's key and the `:`; the inner bytes of the key, and what follows.
unfoldable pub member_key : Bytes → Scan (Bytes × Bytes)
unfolding colon
member_key b = elim (raw_string (ws b)) [
  | none ↦ fail bad_object_key
  | some (key, r) ↦ colon (ws r) >>= λ v. ok (key, v)
]

unfoldable pub skip_string : Bytes → Scan Bytes
skip_string b = elim (raw_string b) [ none ↦ fail bad_string_token | some (inner, r) ↦ ok r ]

-- The `switch` of `skipValue`, over its loops for an object's members and an array's elements.
unfoldable pub skip_switch : (Bytes → Scan Bytes) → (Bytes → Scan Bytes) → Bytes → Scan Bytes
unfolding open_bracket skip_string
skip_switch members elements [] = fail truncated_value
skip_switch members elements (c ∷ b) = elim (c == quote) [
  | true ↦ skip_string (c ∷ b)
  | false ↦ elim (c == b'{') [
    | true ↦ open_bracket b'}' ok members (ws b)
    | false ↦ elim (c == b'[') [
      | true ↦ open_bracket b']' ok elements (ws b)
      | false ↦ raw_scalar (c ∷ b) >>= λ t. ok t.1
    ]
  ]
]

unfoldable mutual
  pub skip_value : ℕ → Bytes → Scan Bytes
  skip_value zero b = fail out_of_fuel
  skip_value (suc f) b = skip_switch (skip_members f) (skip_elements f) (ws b)

  pub skip_members : ℕ → Bytes → Scan Bytes
  skip_members zero b = fail out_of_fuel
  skip_members (suc f) b =
      member_key b >>= λ k. skip_value f k.1 >>= λ r. object_separator (skip_members f) ok (ws r)

  pub skip_elements : ℕ → Bytes → Scan Bytes
  skip_elements zero b = fail out_of_fuel
  skip_elements (suc f) b = skip_value f b >>= λ r. array_separator (skip_elements f) ok (ws r)
