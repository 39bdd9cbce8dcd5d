-- ===== src/Payload/Token.antt =====
-- engine/payload.go: the cursor's lexical part. The cursor `s.b[s.i:]` is the list of the bytes
-- that are left; a scan returns the bytes that it leaves.
use mathlib.Core.Bool.{◌||◌, ◌&&◌}
use kurn.Prelude.{
  ℕ, zero, suc, ◌+◌, Bool, true, false, Option, none, some, [], ◌∷◌, ◌++◌, ltb, leb, ◌==◌,
  if◌then◌else◌, length, take, drop,
}
use kurn.Prelude.Bytes.{Bytes, index_byte}

-- The messages of `scanError`. `out_of_fuel` belongs to the model only.
pub data ScanError : Type 0 where
  truncated_value bad_string_token invalid_scalar bad_object_key missing_colon : ScanError
  truncated_object bad_object_separator truncated_array bad_array_separator : ScanError
  empty_value trailing_data out_of_fuel : ScanError

pub data Scan {ℓ} (A : Type ℓ) : Type ℓ where
  ok : A → Scan A
  fail : ScanError → Scan A

infixl 5 ◌>>=◌
abbrev pub ◌>>=◌ {ℓ κ} : {A : Type ℓ} {B : Type κ} → Scan A → (A → Scan B) → Scan B
ok a >>= f = f a
fail e >>= f = fail e

abbrev pub backslash : ℕ
backslash = 92

abbrev pub quote : ℕ
quote = 34

unfoldable pub is_space : ℕ → Bool
is_space c = c == 32 || c == 9 || c == 10 || c == 13

unfoldable pub ws : Bytes → Bytes
ws [] = []
ws (c ∷ r) = if is_space c then ws r else c ∷ r

unfoldable pub has_control : Bytes → Bool
has_control [] = false
has_control (c ∷ b) = if ltb c 0x20 then true else has_control b

unfoldable pub is_hex : ℕ → Bool
is_hex c = (leb b'0' c && leb c b'9') || ((leb b'a' c && leb c b'f') || (leb b'A' c && leb c b'F'))

unfoldable pub is_short_escape : ℕ → Bool
is_short_escape c =
    c == quote
    || (c == backslash
        || (c == b'/' || (c == b'b' || (c == b'f' || (c == b'n' || (c == b'r' || c == b't'))))))

-- The length of the escape that begins at a backslash, if it is valid.
unfoldable pub escape_size : Bytes → Option ℕ
unfolding is_short_escape is_hex
escape_size (_ ∷ c ∷ b) =
    if is_short_escape c then some 2 else if c == b'u' then four_hex b else none
  where
    four_hex : Bytes → Option ℕ
    four_hex (p ∷ q ∷ r ∷ s ∷ _) =
        if is_hex p && (is_hex q && (is_hex r && is_hex s)) then some 6 else none
    four_hex _ = none
escape_size _ = none

-- Which of the two bytes searched for comes first, and where.
pub data Special : Type 0 where
  nothing : Special
  escape_at quote_at : ℕ → Special

unfoldable pub first_special : Option ℕ → Option ℕ → Special
first_special none none = Special.nothing
first_special none (some bs) = Special.escape_at bs
first_special (some q) none = Special.quote_at q
first_special (some q) (some bs) = if ltb bs q then Special.escape_at bs else Special.quote_at q

-- One round of `rawString`, over what the next rounds make of the bytes passed and those left.
unfoldable pub raw_string_round :
    (Bytes → Bytes → Option (Bytes × Bytes)) → Bytes → Bytes → Special → Option (Bytes × Bytes)
raw_string_round next inner rest Special.nothing = none
raw_string_round next inner rest (Special.escape_at bs) =
    if has_control (take bs rest) then none else (elim (escape_size (drop bs rest)) [
      | none ↦ none
      | some n ↦ next (inner ++ take (bs + n) rest) (drop (bs + n) rest)
    ])
raw_string_round next inner rest (Special.quote_at q) =
    if has_control (take q rest) then none else some (inner ++ take q rest, drop (suc q) rest)

-- The loop of `rawString`; `inner` is what it has passed since the opening quote.
unfoldable pub raw_string_loop : ℕ → Bytes → Bytes → Option (Bytes × Bytes)
raw_string_loop zero inner rest = none
raw_string_loop (suc f) inner rest =
    raw_string_round (raw_string_loop f) inner rest
      (first_special (index_byte quote rest) (index_byte backslash rest))

-- The bytes between the quotes, and what follows the closing quote.
unfoldable pub raw_string : Bytes → Option (Bytes × Bytes)
unfolding raw_string_loop raw_string_round first_special has_control escape_size
raw_string [] = none
raw_string (c ∷ b) = if c == quote then raw_string_loop (suc (length b)) [] b else none
