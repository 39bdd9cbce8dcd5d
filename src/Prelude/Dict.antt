-- ===== src/Prelude/Dict.antt =====
-- A Go map with string keys, as the list of its bindings in some iteration order.
use kurn.Prelude.Tests.{if◌then◌else◌, Bool-cases}
use kurn.Prelude.Bytes.{Bytes, bytes_eq, bytes_eq_iff}
use mathlib.Core.Path.{◌≡◌, refl}
use mathlib.Core.Logic.{inl, inr}
use mathlib.Core.Bool.{false}
use mathlib.Core.List.{List, [], ◌∷◌}
use mathlib.Core.Option.{Option, none, some}
use native.Mathlib.Omega.{arith}

abbrev pub Dict {ℓ} : Type ℓ → Type ℓ
Dict V = List (Bytes × V)

module _ {ℓ} {V : Type ℓ} where
  -- `v, ok := m[k]`
  unfoldable pub lookup : Bytes → Dict V → Option V
  lookup k [] = none
  lookup k ((j, v) ∷ m) = if bytes_eq j k then some v else lookup k m

  -- `m[k] = v`
  unfoldable pub insert : Bytes → V → Dict V → Dict V
  insert k v [] = (k, v) ∷ []
  insert k v ((j, w) ∷ m) = if bytes_eq j k then (j, v) ∷ m else (j, w) ∷ insert k v m

  -- `delete(m, k)`
  unfoldable pub remove : Bytes → Dict V → Dict V
  remove k [] = []
  remove k ((j, v) ∷ m) = let rest = remove k m in if bytes_eq j k then rest else (j, v) ∷ rest

  pub lookup-insert :
      (k j : Bytes) (v : V) (m : Dict V)
      → lookup j (insert k v m) ≡ (if bytes_eq k j then some v else lookup j m)
  unfolding lookup insert
  lookup-insert k j v [] = refl
  lookup-insert k j v ((i, w) ∷ m) =
      ground (arith, bytes_eq_iff i k, bytes_eq_iff i j, bytes_eq_iff k j, lookup-insert k j v m)

  pub lookup-remove :
      (k j : Bytes) (m : Dict V)
      → lookup j (remove k m) ≡ (if bytes_eq k j then none else lookup j m)
  unfolding lookup remove
  lookup-remove k j [] = ground arith
  lookup-remove k j ((i, w) ∷ m) =
      ground (arith, bytes_eq_iff i k, bytes_eq_iff i j, bytes_eq_iff k j, lookup-remove k j m)

pub ruleset dict_laws = (lookup-insert, lookup-remove)

-- A key that is no key of the map.
abbrev pub Absent {ℓ} : {V : Type ℓ} → Bytes → Dict V → Type 0
Absent k [] = Unit
Absent k ((j, v) ∷ m) = (bytes_eq j k ≡ false) × Absent k m

-- Every key is bound once, as in every map of Go.
abbrev pub IsMap {ℓ} : {V : Type ℓ} → Dict V → Type 0
IsMap [] = Unit
IsMap ((k, v) ∷ m) = Absent k m × IsMap m

module _ {ℓ} {V : Type ℓ} where
  pub lookup_of_Absent : (k : Bytes) (m : Dict V) → Absent k m → lookup k m ≡ none
  unfolding lookup
  lookup_of_Absent k [] h = refl
  lookup_of_Absent k ((j, v) ∷ m) h = rw h.0 (lookup_of_Absent k m h.1)

  Absent-insert :
      (k j : Bytes) (v : V) (m : Dict V)
      → bytes_eq k j ≡ false
      → Absent j m
      → Absent j (insert k v m)
  unfolding insert
  Absent-insert k j v [] h a = (h, tt)
  Absent-insert k j v ((i, w) ∷ m) h a = elim (Bool-cases (bytes_eq i k)) [
    | inl e ↦ rw (e, Absent) (a.0, a.1)
    | inr e ↦ rw (e, Absent) (a.0, Absent-insert k j v m h a.1)
  ]

  pub insert-IsMap : (k : Bytes) (v : V) (m : Dict V) → IsMap m → IsMap (insert k v m)
  unfolding insert
  insert-IsMap k v [] h = (tt, tt)
  insert-IsMap k v ((i, w) ∷ m) h = elim (Bool-cases (bytes_eq i k)) [
    | inl e ↦ rw (e, IsMap) (h.0, h.1)
    | inr e ↦
        rw (e, IsMap)
          (
            Absent-insert k i v m (ground (arith, bytes_eq_iff i k, bytes_eq_iff k i)) h.0,
            insert-IsMap k v m h.1,
          )
  ]

  Absent-remove : (k j : Bytes) (m : Dict V) → Absent j m → Absent j (remove k m)
  unfolding remove
  Absent-remove k j [] a = tt
  Absent-remove k j ((i, w) ∷ m) a = elim (Bool-cases (bytes_eq i k)) [
    | inl e ↦ rw (e, Absent) (Absent-remove k j m a.1)
    | inr e ↦ rw (e, Absent) (a.0, Absent-remove k j m a.1)
  ]

  pub remove-IsMap : (k : Bytes) (m : Dict V) → IsMap m → IsMap (remove k m)
  unfolding remove
  remove-IsMap k [] h = tt
  remove-IsMap k ((i, w) ∷ m) h = elim (Bool-cases (bytes_eq i k)) [
    | inl e ↦ rw (e, IsMap) (remove-IsMap k m h.1)
    | inr e ↦ rw (e, IsMap) (Absent-remove k i m h.0, remove-IsMap k m h.1)
  ]
