-- ===== src/Prelude/Order.antt =====
-- The laws of Go's order on strings.
use mathlib.Core.Path.{◌≡◌, refl}
use mathlib.Core.Bool.{true, false}
use mathlib.Core.List.{[], ◌∷◌}
use native.Mathlib.Omega.{arith}
use kurn.Prelude.Bytes.{Bytes, bytes_lt}

pub bytes_lt_irrefl : (s : Bytes) → bytes_lt s s ≡ false
bytes_lt_irrefl [] = refl
bytes_lt_irrefl (x ∷ s) = ground (arith, bytes_lt_irrefl s)

-- What lies between two strings: a third is above the one or below the other.
pub bytes_lt_split :
    (a b c : Bytes) → bytes_lt a c ≡ true → bytes_lt a b ≡ false → bytes_lt b c ≡ true
bytes_lt_split [] [] c h g = h
bytes_lt_split (x ∷ a) [] [] h g = cc
bytes_lt_split (x ∷ a) [] (z ∷ c) h g = refl
bytes_lt_split [] (y ∷ b) c h g = cc
bytes_lt_split (x ∷ a) (y ∷ b) [] h g = cc
bytes_lt_split (x ∷ a) (y ∷ b) (z ∷ c) h g = ground (arith, bytes_lt_split a b c)

pub bytes_lt_asym : (a b : Bytes) → bytes_lt a b ≡ true → bytes_lt b a ≡ false
bytes_lt_asym [] [] h = cc
bytes_lt_asym [] (y ∷ b) h = refl
bytes_lt_asym (x ∷ a) [] h = cc
bytes_lt_asym (x ∷ a) (y ∷ b) h = ground (arith, bytes_lt_asym a b)

pub bytes_lt_trans :
    (a b c : Bytes) → bytes_lt a b ≡ true → bytes_lt b c ≡ true → bytes_lt a c ≡ true
bytes_lt_trans a [] [] h g = cc
bytes_lt_trans [] (y ∷ b) [] h g = cc
bytes_lt_trans (x ∷ a) (y ∷ b) [] h g = cc
bytes_lt_trans [] [] (z ∷ c) h g = cc
bytes_lt_trans [] (y ∷ b) (z ∷ c) h g = refl
bytes_lt_trans (x ∷ a) [] (z ∷ c) h g = cc
bytes_lt_trans (x ∷ a) (y ∷ b) (z ∷ c) h g = ground (arith, bytes_lt_trans a b c)
