-- ===== src/Prepared/Words.antt =====
-- engine/prepared/format.go: the errors, the little-endian words, and the alignment.
use Prim.Native.Nat.{bit_and}
use kurn.Prelude.{
  ◌≡◌, refl, ap, ℕ, zero, suc, ◌+◌, ◌-◌, ◌*◌, ◌/◌, ◌%◌, ◌^◌, ◌≤◌, ◌<◌, false, Option, none, some,
  [], ◌∷◌, ◌++◌, ltb, if◌then◌else◌, length, drop, length-drop, arith,
}
use kurn.Prelude.Bytes.{Bytes}
use native.Mathlib.Nat.{pow-suc}

-- `ErrMalformed`, `ErrIncompatible` and `ErrUnaligned`, without their messages.
pub data FormatError : Type 0 where
  malformed incompatible unaligned : FormatError

-- What a reader of the format returns; `panicked` is an index out of range.
pub data Parsed {ℓ} (A : Type ℓ) : Type ℓ where
  parsed : A → Parsed A
  refused : FormatError → Parsed A
  panicked : Parsed A

infixl 5 ◌>>=◌
abbrev pub ◌>>=◌ {ℓ κ} : {A : Type ℓ} {B : Type κ} → Parsed A → (A → Parsed B) → Parsed B
parsed a >>= next = next a
refused e >>= next = refused e
panicked >>= next = panicked

pub >>=-eq-parsed {ℓ κ} :
    {A : Type ℓ} {B : Type κ} (first : Parsed A) (next : A → Parsed B) {b : B}
    → (first >>= next) ≡ parsed b
    → (a : A) × (first ≡ parsed a) × (next a ≡ parsed b)
>>=-eq-parsed (parsed a) next h = (a, refl, h)
>>=-eq-parsed (refused e) next h = cc
>>=-eq-parsed panicked next h = cc

pub parsed-injective {ℓ} : {A : Type ℓ} {x y : A} → parsed x ≡ parsed y → x ≡ y
parsed-injective h = cc

-- A word of `w` bytes, the low one first; Go panics when there are fewer.
unfoldable pub read_le : ℕ → Bytes → Parsed ℕ
read_le zero b = parsed 0
read_le (suc w) [] = panicked
read_le (suc w) (c ∷ b) = read_le w b >>= λ high. parsed (c + 256 * high)

-- `binary.LittleEndian.Uint16`, `Uint32` and `Uint64` of `b[off:]`
abbrev pub le : ℕ → Bytes → ℕ → Parsed ℕ
le w b off = if ltb (length b) off then panicked else read_le w (drop off b)

-- `binary.LittleEndian.PutUint16`, `PutUint32` and `PutUint64`
unfoldable pub put_le : ℕ → ℕ → Bytes
put_le zero v = []
put_le (suc w) v = v % 256 ∷ put_le w (v / 256)

abbrev pub max_uint64 : ℕ
max_uint64 = 2 ^ 64 - 1

-- `Align`
abbrev pub align : ℕ
align = 32

-- `&^`
abbrev pub and_not : ℕ → ℕ → ℕ
and_not a b = a - bit_and a b

-- `align32`
unfoldable pub align32 : ℕ → Option ℕ
align32 n =
    if ltb (max_uint64 - (align - 1)) n then none else some (and_not (n + align - 1) (align - 1))

-- A read is in range.
pub read_le-in_range : (w : ℕ) (b : Bytes) → w ≤ length b → (v : ℕ) × (read_le w b ≡ parsed v)
unfolding read_le
read_le-in_range zero b h = (0, refl)
read_le-in_range (suc w) [] h = absurd (omega arith)
read_le-in_range (suc w) (c ∷ b) h =
    let (v, e) = read_le-in_range w b (omega arith) in (c + 256 * v, rw e refl)

pub le-in_range :
    (w : ℕ) (b : Bytes) (off : ℕ) → off + w ≤ length b → (v : ℕ) × (le w b off ≡ parsed v)
le-in_range w b off h =
    let inside : ltb (length b) off ≡ false = ground arith in
    let (v, e) = read_le-in_range w (drop off b) (omega (arith, length-drop off b)) in
    (v, rw (inside, e) refl)

pub length-put_le : (w v : ℕ) → length (put_le w v) ≡ w
unfolding put_le
length-put_le zero v = refl
length-put_le (suc w) v = ap suc (length-put_le w (v / 256))

-- A word is read as it was written.
pub read_le-put_le :
    (w v : ℕ) (rest : Bytes) → v < 256 ^ w → read_le w (put_le w v ++ rest) ≡ parsed v
unfolding read_le put_le
read_le-put_le zero v rest h = let none_left : v ≡ 0 = omega arith in rw none_left refl
read_le-put_le (suc w) v rest h =
    let high : v / 256 < 256 ^ w = omega (arith, pow-suc 256 w) in
    let whole : v % 256 + 256 * (v / 256) ≡ v = omega arith in
    rw (read_le-put_le w (v / 256) rest high, whole) refl

-- A word that stands at an offset is read there.
pub le-at :
    (w v off : ℕ) (b rest : Bytes)
    → off ≤ length b
    → v < 256 ^ w
    → drop off b ≡ put_le w v ++ rest
    → le w b off ≡ parsed v
le-at w v off b rest inside fits at =
    let within : ltb (length b) off ≡ false = ground arith in
    rw (within, at) (read_le-put_le w v rest fits)
