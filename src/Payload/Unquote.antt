-- ===== src/Payload/Unquote.antt =====
-- The decoding of a JSON string by encoding/json, and engine/payload.go's `decodedStringEq` and
-- `cleanASCII` over it.
use mathlib.Core.Bool.{◌&&◌, ◌||◌, not}
use kurn.Prelude.{
  ℕ, zero, suc, ◌+◌, ◌-◌, ◌*◌, Bool, true, false, Option, none, some, [], ◌∷◌, ◌++◌, ltb, leb, ◌==◌,
  if◌then◌else◌, length, drop,
}
use kurn.Prelude.Bytes.{Bytes, bytes_eq}
use kurn.Payload.Token.{quote, backslash}
use kurn.Payload.Scalar.{is_digit, andthen}
use kurn.Payload.Unicode.{rune_error, decode_rune, encode_rune, utf8_valid}

hex_digit : ℕ → Option ℕ
unfolding is_digit
hex_digit c =
    if is_digit c
    then some (c - b'0')
    else if leb b'a' c && leb c b'f'
    then some (c - b'a' + 10)
    else if leb b'A' c && leb c b'F'
    then some (c - b'A' + 10)
    else none

-- The four digits behind `\u`.
hex4 : Bytes → Option ℕ
unfolding hex_digit
hex4 (p ∷ q ∷ r ∷ s ∷ _) = andthen (hex_digit p) λ a. andthen (hex_digit q) λ b.
    andthen (hex_digit r) λ c. andthen (hex_digit s) λ d. some (a * 4096 + b * 256 + c * 16 + d)
hex4 _ = none

-- A second `\uXXXX`, if one follows.
second_unit : Bytes → Option ℕ
unfolding hex4
second_unit (a ∷ b ∷ r) = if a == backslash && b == b'u' then hex4 r else none
second_unit _ = none

is_surrogate : ℕ → Bool
is_surrogate r = leb 0xd800 r && ltb r 0xe000

-- `utf16.DecodeRune`
pair_rune : ℕ → ℕ → Option ℕ
pair_rune hi lo =
    if leb 0xd800 hi && (ltb hi 0xdc00 && (leb 0xdc00 lo && ltb lo 0xe000))
    then some ((hi - 0xd800) * 1024 + (lo - 0xdc00) + 0x10000)
    else none

-- The rune of a `\u` escape and the length of what it took.
unicode_escape : ℕ → Bytes → ℕ × ℕ
unfolding is_surrogate pair_rune second_unit
unicode_escape r b =
    if is_surrogate r
    then (elim (andthen (second_unit (drop 6 b)) (pair_rune r)) [
      | none ↦ (rune_error, 6)
      | some rune ↦ (rune, 12)
    ])
    else (r, 6)

short_escape : ℕ → Option ℕ
short_escape c =
    if c == quote || (c == backslash || (c == b'/' || c == 39))
    then some c
    else if c == b'b'
    then some 8
    else if c == b'f'
    then some 12
    else if c == b'n'
    then some 10
    else if c == b'r'
    then some 13
    else if c == b't'
    then some 9
    else none

-- What one step of `unquote` emits and how much it takes.
unfoldable pub unquote_step : ℕ → Bytes → Option (Bytes × ℕ)
unfolding hex4 unicode_escape short_escape decode_rune encode_rune
unquote_step c b =
    if c == backslash
    then escape b
    else if c == quote || ltb c 0x20
    then none
    else let r = decode_rune c b in some (encode_rune r.value, r.size)
  where
    escape : Bytes → Option (Bytes × ℕ)
    escape [] = none
    escape (e ∷ r) =
        if e == b'u'
        then andthen (hex4 r)
            (λ u. let (rune, n) = unicode_escape u (c ∷ e ∷ r) in some (encode_rune rune, n))
        else andthen (short_escape e) (λ x. some (x ∷ [], 2))

unfoldable pub unquote_loop : ℕ → Bytes → Option Bytes
unquote_loop zero b = none
unquote_loop (suc f) [] = some []
unquote_loop (suc f) (c ∷ b) = elim (unquote_step c b) [
  | none ↦ none
  | some (out, n) ↦ elim (unquote_loop f (drop n (c ∷ b))) [
    | none ↦ none
    | some rest ↦ some (out ++ rest)
  ]
]

-- `json.Unmarshal` of a string token, given the bytes between its quotes.
unfoldable pub unquote : Bytes → Option Bytes
unfolding unquote_loop unquote_step
unquote inner = unquote_loop (suc (length inner)) inner

unfoldable pub clean_ascii : Bytes → Bool
clean_ascii [] = true
clean_ascii (c ∷ s) =
    if ltb c 0x20 || (ltb 0x7e c || (c == quote || c == backslash)) then false else clean_ascii s

unfoldable pub has_byte : ℕ → Bytes → Bool
has_byte x [] = false
has_byte x (c ∷ s) = if c == x then true else has_byte x s

abbrev decoded_is : Bytes → Option Bytes → Bool
decoded_is want none = false
decoded_is want (some got) = bytes_eq got want

-- `inner` is the span between the quotes; the token is `inner` with them.
unfoldable pub decoded_string_eq : Bytes → Bytes → Bool → Bool
unfolding has_byte utf8_valid unquote
decoded_string_eq inner want want_clean =
    if not (has_byte backslash inner) && (want_clean && utf8_valid inner)
    then bytes_eq inner want
    else decoded_is want (unquote inner)
