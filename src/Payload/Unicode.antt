-- ===== src/Payload/Unicode.antt =====
-- UTF-8 as Go's package unicode/utf8 decodes and encodes it, for engine/payload.go.
use mathlib.Core.Bool.{◌&&◌}
use kurn.Prelude.{
  ℕ, zero, suc, ◌+◌, ◌*◌, ◌/◌, ◌%◌, Bool, true, false, [], ◌∷◌, ltb, leb, ◌==◌, if◌then◌else◌,
  length, drop,
}
use kurn.Prelude.Bytes.{Bytes}

-- U+FFFD, `utf8.RuneError`.
abbrev pub rune_error : ℕ
rune_error = 0xfffd

-- A decoded rune and the number of bytes that it took.
pub record Rune : Type 0 where
  pub value : ℕ
  pub size : ℕ

abbrev bad : Rune
bad = record { value = rune_error; size = 1 }

unfoldable pub within : ℕ → ℕ → ℕ → Bool
within lo hi c = leb lo c && leb c hi

unfoldable pub decode_two : ℕ → Bytes → Rune
unfolding within
decode_two a (b ∷ _) =
    if within 0x80 0xbf b then record { value = (a % 32) * 64 + b % 64; size = 2 } else bad
decode_two a _ = bad

-- `lo` and `hi` bound the second byte.
unfoldable pub decode_three : ℕ → ℕ → ℕ → Bytes → Rune
unfolding within
decode_three lo hi a (b ∷ c ∷ _) =
    if within lo hi b && within 0x80 0xbf c
    then record { value = (a % 16) * 4096 + (b % 64) * 64 + c % 64; size = 3 }
    else bad
decode_three lo hi a _ = bad

unfoldable pub decode_four : ℕ → ℕ → ℕ → Bytes → Rune
unfolding within
decode_four lo hi a (b ∷ c ∷ d ∷ _) =
    if within lo hi b && (within 0x80 0xbf c && within 0x80 0xbf d)
    then record { value = (a % 8) * 262144 + (b % 64) * 4096 + (c % 64) * 64 + d % 64; size = 4 }
    else bad
decode_four lo hi a _ = bad

-- The table of first bytes.
unfoldable pub decode_rune : ℕ → Bytes → Rune
unfolding within decode_two decode_three decode_four
decode_rune a r =
    if ltb a 0x80
    then record { value = a; size = 1 }
    else if within 0xc2 0xdf a
    then decode_two a r
    else if a == 0xe0
    then decode_three 0xa0 0xbf a r
    else if a == 0xed
    then decode_three 0x80 0x9f a r
    else if within 0xe1 0xef a
    then decode_three 0x80 0xbf a r
    else if a == 0xf0
    then decode_four 0x90 0xbf a r
    else if within 0xf1 0xf3 a
    then decode_four 0x80 0xbf a r
    else if a == 0xf4
    then decode_four 0x80 0x8f a r
    else bad

unfoldable pub three_bytes : ℕ → Bytes
three_bytes r = (0xe0 + r / 4096) ∷ (0x80 + (r / 64) % 64) ∷ (0x80 + r % 64) ∷ []

unfoldable pub encode_rune : ℕ → Bytes
unfolding within three_bytes
encode_rune r =
    if ltb r 0x80
    then r ∷ []
    else if ltb r 0x800
    then (0xc0 + r / 64) ∷ (0x80 + r % 64) ∷ []
    else if within 0xd800 0xdfff r
    then three_bytes rune_error
    else if ltb r 0x10000
    then three_bytes r
    else if leb r 0x10ffff
    then (0xf0 + r / 262144)
      ∷ (0x80 + (r / 4096) % 64)
      ∷ (0x80 + (r / 64) % 64)
      ∷ (0x80 + r % 64)
      ∷ []
    else three_bytes rune_error

unfoldable pub is_bad : Rune → Bool
is_bad r = r.value == rune_error && r.size == 1

unfoldable pub valid_loop : ℕ → Bytes → Bool
unfolding is_bad
valid_loop zero b = false
valid_loop (suc f) [] = true
valid_loop (suc f) (a ∷ b) =
    let r = decode_rune a b in
    elim (is_bad r) [ true ↦ false | false ↦ valid_loop f (drop r.size (a ∷ b)) ]

-- `utf8.Valid`
unfoldable pub utf8_valid : Bytes → Bool
unfolding valid_loop decode_rune
utf8_valid b = valid_loop (suc (length b)) b
