-- ===== src/Prepared/Gives.antt =====
-- engine/prepared: what a reader gives. What it parses has a property, it refuses the rest as
-- malformed, and it never indexes out of range.
use kurn.Prelude.{◌≡◌, refl, ℕ, ◌+◌, ◌≤◌, Bool, true, false, length}
use kurn.Prelude.Bytes.{Bytes}
use kurn.Prepared.Words.{
  malformed, incompatible, unaligned, Parsed, parsed, refused, panicked, ◌>>=◌, le, le-in_range,
}
use kurn.Prepared.Format.{refuse_if}

module _ {ℓ} {A : Type ℓ} (P : A → Type 0) where
  abbrev pub Gives : Parsed A → Type 0
  Gives (parsed a) = P a
  Gives (refused malformed) = Unit
  Gives (refused incompatible) = ⊥
  Gives (refused unaligned) = ⊥
  Gives panicked = ⊥

pub Gives-bind {ℓ κ} :
    {A : Type ℓ} {B : Type κ} (P : A → Type 0) (Q : B → Type 0) (first : Parsed A)
    (next : A → Parsed B)
    → Gives P first
    → ((a : A) → P a → Gives Q (next a))
    → Gives Q (first >>= next)
Gives-bind P Q (parsed a) next h g = g a h
Gives-bind P Q (refused malformed) next h g = tt
Gives-bind P Q (refused incompatible) next h g = absurd h
Gives-bind P Q (refused unaligned) next h g = absurd h
Gives-bind P Q panicked next h g = absurd h

-- A check, and what follows it where it passes.
pub Gives-check {ℓ} :
    {A : Type ℓ} (Q : A → Type 0) (b : Bool) (next : Unit {0} → Parsed A)
    → (b ≡ false → Gives Q (next tt))
    → Gives Q (refuse_if b malformed >>= next)
Gives-check Q true next h = tt
Gives-check Q false next h = h refl

-- A read in range, and what follows it.
pub Gives-read {ℓ} :
    {A : Type ℓ} (Q : A → Type 0) (w : ℕ) (b : Bytes) (off : ℕ) (next : ℕ → Parsed A)
    → off + w ≤ length b
    → ((v : ℕ) → le w b off ≡ parsed v → Gives Q (next v))
    → Gives Q (le w b off >>= next)
Gives-read Q w b off next fits h = let (v, e) = le-in_range w b off fits in rw e (h v e)

-- A property that follows from another one.
pub Gives-map {ℓ} :
    {A : Type ℓ} (P Q : A → Type 0) (r : Parsed A) → Gives P r → ((a : A) → P a → Q a) → Gives Q r
Gives-map P Q (parsed a) h g = g a h
Gives-map P Q (refused malformed) h g = tt
Gives-map P Q (refused incompatible) h g = absurd h
Gives-map P Q (refused unaligned) h g = absurd h
Gives-map P Q panicked h g = h

-- A step whose result is known, and what follows it.
pub Gives-known {ℓ κ} :
    {A : Type ℓ} {B : Type κ} (Q : B → Type 0) (first : Parsed A) (next : A → Parsed B) (a : A)
    → first ≡ parsed a
    → Gives Q (next a)
    → Gives Q (first >>= next)
Gives-known Q first next a e h = rw e h

-- `Gives-bind`, with the equation that a result comes from.
pub Gives-then {ℓ κ} :
    {A : Type ℓ} {B : Type κ} (P : A → Type 0) (Q : B → Type 0) (first : Parsed A)
    (next : A → Parsed B)
    → Gives P first
    → ((a : A) → first ≡ parsed a → P a → Gives Q (next a))
    → Gives Q (first >>= next)
Gives-then P Q (parsed a) next h g = g a refl h
Gives-then P Q (refused malformed) next h g = tt
Gives-then P Q (refused incompatible) next h g = absurd h
Gives-then P Q (refused unaligned) next h g = absurd h
Gives-then P Q panicked next h g = absurd h
