-- ===== src/Payload/Scalar.antt =====
-- engine/payload.go: `rawScalar` and `validScalarToken`, the scalars that are no strings.
use mathlib.Core.Bool.{◌||◌, ◌&&◌}
use kurn.Prelude.{ℕ, Bool, true, false, Option, none, some, List, [], ◌∷◌, leb, ◌==◌, if◌then◌else◌}
use kurn.Prelude.Bytes.{Bytes, codes, bytes_eq}
use kurn.Payload.Token.{Scan, ok, fail, invalid_scalar}

unfoldable pub is_digit : ℕ → Bool
is_digit c = leb b'0' c && leb c b'9'

-- The digits that `digits` passes.
unfoldable pub skip_digits : Bytes → Bytes
unfolding is_digit
skip_digits [] = []
skip_digits (c ∷ b) = if is_digit c then skip_digits b else c ∷ b

-- `digits`, where its result is asked for: at least one digit.
unfoldable pub digits : Bytes → Option Bytes
unfolding skip_digits
digits [] = none
digits (c ∷ b) = if is_digit c then some (skip_digits b) else none

unfoldable pub skip_minus : Bytes → Bytes
skip_minus [] = []
skip_minus (c ∷ b) = if c == b'-' then b else c ∷ b

unfoldable pub skip_sign : Bytes → Bytes
skip_sign [] = []
skip_sign (c ∷ b) = if c == b'+' || c == b'-' then b else c ∷ b

unfoldable pub int_part : Bytes → Option Bytes
unfolding skip_digits
int_part [] = none
int_part (c ∷ b) =
    if c == b'0'
    then some b
    else if leb b'1' c && leb c b'9'
    then some (skip_digits (c ∷ b))
    else none

unfoldable pub frac_part : Bytes → Option Bytes
unfolding digits
frac_part [] = some []
frac_part (c ∷ b) = if c == b'.' then digits b else some (c ∷ b)

unfoldable pub exp_part : Bytes → Option Bytes
unfolding digits skip_sign
exp_part [] = some []
exp_part (c ∷ b) = if c == b'e' || c == b'E' then digits (skip_sign b) else some (c ∷ b)

abbrev pub andthen {ℓ κ} : {A : Type ℓ} {B : Type κ} → Option A → (A → Option B) → Option B
andthen none f = none
andthen (some a) f = f a

abbrev pub is_empty {ℓ} : {A : Type ℓ} → List A → Bool
is_empty [] = true
is_empty (x ∷ xs) = false

abbrev at_end : Option Bytes → Bool
at_end none = false
at_end (some b) = is_empty b

unfoldable pub valid_number : Bytes → Bool
unfolding skip_minus int_part frac_part exp_part
valid_number tok =
    at_end (andthen (int_part (skip_minus tok)) (λ b. andthen (frac_part b) exp_part))

unfoldable pub valid_scalar_token : Bytes → Bool
unfolding valid_number
valid_scalar_token tok =
    if bytes_eq tok (codes "true") || (bytes_eq tok (codes "false") || bytes_eq tok (codes "null"))
    then true
    else valid_number tok

-- } ] { [ " and the four spaces
unfoldable pub is_delimiter : ℕ → Bool
is_delimiter c =
    c == b','
    || (c == b'}'
        || (c == b']'
            || (c == b'{'
                || (c == b'[' || (c == 34 || (c == 32 || (c == 9 || (c == 10 || c == 13))))))))

unfoldable pub scalar_token : Bytes → Bytes
unfolding is_delimiter
scalar_token [] = []
scalar_token (c ∷ b) = if is_delimiter c then [] else c ∷ scalar_token b

unfoldable pub after_token : Bytes → Bytes
unfolding is_delimiter
after_token [] = []
after_token (c ∷ b) = if is_delimiter c then c ∷ b else after_token b

-- The token, and what follows it.
unfoldable pub raw_scalar : Bytes → Scan (Bytes × Bytes)
unfolding scalar_token after_token valid_scalar_token
raw_scalar b =
    if valid_scalar_token (scalar_token b)
    then ok (scalar_token b, after_token b)
    else fail invalid_scalar
