-- ===== src/Payload/Walk.antt =====
-- engine/payload.go: the path trie of a compiled filter and its evaluation over a payload.
-- engine/filter.go: `eval`.
use Prim.Native.Nat.{bit_and, bit_or}
use mathlib.Core.Bool.{◌&&◌}
use kurn.Prelude.{
  ℕ, zero, suc, ◌+◌, ◌*◌, Bool, true, false, Option, none, some, List, [], ◌∷◌, ◌==◌, if◌then◌else◌,
  length,
}
use kurn.Prelude.Bytes.{Bytes, codes, bytes_eq}
use kurn.Payload.Token.{
  Scan, ok, fail, ◌>>=◌, bad_string_token, empty_value, trailing_data, out_of_fuel, quote, ws,
  raw_string,
}
use kurn.Payload.Scalar.{raw_scalar, is_empty}
use kurn.Payload.Skip.{open_bracket, object_separator, array_separator, member_key, skip_value}
use kurn.Payload.Unquote.{decoded_string_eq}
use kurn.Filter.Number.{Canonical, canonical, canonical_number_token}
use kurn.Filter.Value.{
  FilterScalar, FilterValue, ScalarKind, filter_false, filter_true, filter_number, filter_string,
}

-- One term that ends at a node, with its bit of the match mask.
pub record TerminalTerm : Type 0 where
  pub bit : ℕ
  pub value : FilterValue

-- A map from path segments to children is the list of its bindings, each with `clean[seg]`.
mutual
  pub data FilterNode : Type 0 where
    node : Children → List TerminalTerm → FilterNode

  pub data Children : Type 0 where
    leaf : Children
    branch : Bytes → Bool → FilterNode → Children → Children

abbrev pub children : FilterNode → Children
children (node c t) = c

abbrev pub terms : FilterNode → List TerminalTerm
terms (node c t) = t

unfoldable pub child : Children → Bytes → Option FilterNode
child leaf key = none
child (branch seg clean n rest) key =
    if decoded_string_eq key seg clean then some n else child rest key

is_kind : ScalarKind → ScalarKind → Bool
is_kind filter_false filter_false = true
is_kind filter_true filter_true = true
is_kind filter_number filter_number = true
is_kind filter_string filter_string = true
is_kind _ _ = false

unfoldable pub any_scalar : (FilterScalar → Bool) → List FilterScalar → Bool
any_scalar p [] = false
any_scalar p (s ∷ rest) = if p s then true else any_scalar p rest

unfoldable pub matches_string : FilterValue → Bytes → Bool
unfolding any_scalar is_kind
matches_string v inner =
    any_scalar (λ s. is_kind s.kind filter_string && decoded_string_eq inner s.value s.clean)
      v.scalars

matches_number : FilterValue → Canonical → Bool
unfolding any_scalar is_kind
matches_number v (canonical c) =
    any_scalar (λ s. is_kind s.kind filter_number && bytes_eq s.value c) v.scalars
matches_number v _ = false

unfoldable pub matches_scalar : FilterValue → Bytes → Bool
unfolding any_scalar is_kind matches_number
matches_scalar v token =
    if bytes_eq token (codes "false")
    then any_scalar (λ s. is_kind s.kind filter_false) v.scalars
    else if bytes_eq token (codes "true")
    then any_scalar (λ s. is_kind s.kind filter_true) v.scalars
    else if bytes_eq token (codes "null")
    then false
    else matches_number v (canonical_number_token false token)

-- The loop over a node's terms: the mask with the bit of each term that fires.
unfoldable pub fire : (FilterValue → Bool) → List TerminalTerm → ℕ → ℕ
fire hit [] bits = bits
fire hit (t ∷ rest) bits =
    fire hit rest (if bit_and bits t.bit == 0 && hit t.value then bit_or bits t.bit else bits)

-- The mask, and what the value leaves.
abbrev pub Marked : Type 0
Marked = Scan (ℕ × Bytes)

unfoldable pub walk_string : List TerminalTerm → ℕ → Bytes → Marked
walk_string ts bits b = elim (raw_string b) [
  | none ↦ fail bad_string_token
  | some (inner, r) ↦ ok (fire (λ v. matches_string v inner) ts bits, r)
]

unfoldable pub walk_scalar : List TerminalTerm → ℕ → Bytes → Marked
walk_scalar ts bits b = raw_scalar b >>= λ t. ok (fire (λ v. matches_scalar v t.0) ts bits, t.1)

-- The `switch` of `walkValue`, over the loops for an object's members and an array's elements.
unfoldable pub walk_switch :
    (Bytes → Marked) → (Bytes → Marked) → List TerminalTerm → ℕ → Bytes → Marked
unfolding open_bracket walk_string walk_scalar
walk_switch members elements ts bits [] = fail empty_value
walk_switch members elements ts bits (c ∷ b) = elim (c == b'{') [
  | true ↦ open_bracket b'}' (λ r. ok (bits, r)) members (ws b)
  | false ↦ elim (c == b'[') [
    | true ↦ open_bracket b']' (λ r. ok (bits, r)) elements (ws b)
    | false ↦ elim (c == quote) [
      | true ↦ walk_string ts bits (c ∷ b)
      | false ↦ walk_scalar ts bits (c ∷ b)
    ]
  ]
]

-- A member's value: walked where a child of the node has its key, skipped elsewhere.
unfoldable pub member_value :
    (FilterNode → Bytes → Marked) → (Bytes → Scan Bytes) → Option FilterNode → ℕ → Bytes → Marked
member_value walk skip none bits b = skip b >>= λ r. ok (bits, r)
member_value walk skip (some n) bits b = walk n b

unfoldable mutual
  pub walk_value : ℕ → FilterNode → ℕ → Bytes → Marked
  walk_value zero n bits b = fail out_of_fuel
  walk_value (suc f) n bits b =
      walk_switch (walk_object f n bits) (walk_array f n bits) (terms n) bits (ws b)

  pub walk_object : ℕ → FilterNode → ℕ → Bytes → Marked
  walk_object zero n bits b = fail out_of_fuel
  walk_object (suc f) n bits b = member_key b >>= λ k.
      member_value (λ m. walk_value f m bits) (skip_value f) (child (children n) k.0) bits k.1
      >>= λ m. object_separator (walk_object f n m.0) (λ r. ok (m.0, r)) (ws m.1)

  pub walk_array : ℕ → FilterNode → ℕ → Bytes → Marked
  walk_array zero n bits b = fail out_of_fuel
  walk_array (suc f) n bits b = walk_value f n bits b >>= λ m.
      array_separator (walk_array f n m.0) (λ r. ok (m.0, r)) (ws m.1)

-- Enough for every payload: two units for each byte, and two more.
abbrev pub fuel_for : Bytes → ℕ
fuel_for b = 2 * length b + 2

-- `eval`: whether the payload passes every term.
unfoldable pub eval : FilterNode → ℕ → Bytes → Scan Bool
eval root full payload = walk_value (fuel_for payload) root 0 payload >>= λ m.
    if is_empty (ws m.1) then ok (m.0 == full) else fail trailing_data
