-- ===== src/Ingest/Common.antt =====
-- ingest/path.go: `commonPrefix`, the segments that all paths of a key rule share.
use kurn.Prelude.{
  ℕ, suc, ◌≡◌, refl, ap, ◌∙◌, Bool, true, false, ◌&&◌, List, [], ◌∷◌, if◌then◌else◌, take,
  Bool-cases, inl, inr, arith,
}
use kurn.Prelude.Bytes.{Bytes, bytes_eq, bytes_eq_iff}

-- The loop over `n`: how many segments two paths share.
unfoldable pub shared : List Bytes → List Bytes → ℕ
shared (x ∷ prefix) (y ∷ p) = let rest = shared prefix p in if bytes_eq x y then suc rest else 0
shared _ _ = 0

unfoldable pub narrow : List Bytes → List (List Bytes) → List Bytes
unfolding shared
narrow prefix [] = prefix
narrow prefix (p ∷ paths) = narrow (take (shared prefix p) prefix) paths

-- `commonPrefix`
unfoldable pub common_prefix : List (List Bytes) → List Bytes
unfolding narrow
common_prefix [] = []
common_prefix (p ∷ paths) = narrow p paths

abbrev pub is_prefix : List Bytes → List Bytes → Bool
is_prefix [] p = true
is_prefix (x ∷ r) [] = false
is_prefix (x ∷ r) (y ∷ p) = bytes_eq x y && is_prefix r p

abbrev pub prefix_of_all : List Bytes → List (List Bytes) → Bool
prefix_of_all r [] = true
prefix_of_all r (p ∷ paths) = is_prefix r p && prefix_of_all r paths

is_prefix-take-shared :
    (r a b : List Bytes) → is_prefix r (take (shared a b) a) ≡ (is_prefix r a && is_prefix r b)
unfolding shared
is_prefix-take-shared [] a b = refl
is_prefix-take-shared (x ∷ r) [] b = refl
is_prefix-take-shared (x ∷ r) (y ∷ a) [] = ground arith
is_prefix-take-shared (x ∷ r) (y ∷ a) (z ∷ b) = elim (Bool-cases (bytes_eq y z)) [
  | inl same ↦
      let agree : bytes_eq x y ≡ bytes_eq x z = ap (bytes_eq x) ((bytes_eq_iff y z).0 same) in
      rw same (ground (arith, is_prefix-take-shared r a b, agree))
  | inr other ↦
      let apart : (bytes_eq x y && bytes_eq x z) ≡ false = elim (Bool-cases (bytes_eq x y)) [
        | inl now ↦ rw now (ap (λ w. bytes_eq w z) ((bytes_eq_iff x y).0 now) ∙ other)
        | inr not_now ↦ rw not_now refl
      ] in
      rw other (ground (arith, apart))
]

is_prefix-narrow :
    (r prefix : List Bytes) (paths : List (List Bytes))
    → is_prefix r (narrow prefix paths) ≡ (is_prefix r prefix && prefix_of_all r paths)
unfolding narrow
is_prefix-narrow r prefix [] = ground arith
is_prefix-narrow r prefix (p ∷ paths) = ground (
  arith,
  is_prefix-narrow r (take (shared prefix p) prefix) paths,
  is_prefix-take-shared r prefix p,
)

-- The segment lists that begin the common prefix of one or more paths are exactly those that begin
-- every one of the paths.
pub is_prefix-common_prefix :
    (p : List Bytes) (paths : List (List Bytes)) (r : List Bytes)
    → is_prefix r (common_prefix (p ∷ paths)) ≡ prefix_of_all r (p ∷ paths)
unfolding common_prefix
is_prefix-common_prefix p paths r = is_prefix-narrow r p paths
