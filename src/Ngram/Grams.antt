-- ===== src/Ngram/Grams.antt =====
-- engine/ngram/ngram.go: the grams of an indexed key and those of a query. A key is its bytes. The index
-- takes the runes of the key and encodes the runes of a gram, so that bytes that are not UTF-8 become
-- U+FFFD; a query takes the bytes between two rune starts as they are.
use kurn.Prelude.{
  ℕ, zero, suc, ◌+◌, ◌-◌, Bool, not, List, [], ◌∷◌, ◌++◌, ltb, ◌==◌, if◌then◌else◌, length, take,
  drop, keep,
}
use kurn.Prelude.Bytes.{Bytes}
use kurn.Prelude.Dict.{Dict, lookup, insert}
use kurn.Payload.Scalar.{is_empty}
use kurn.Payload.Unicode.{decode_rune, encode_rune}
use kurn.Live.Mutate.{is_some}

-- A rune of a string, U+FFFD for a byte that is not UTF-8, and its bytes in the string.
pub record RunePiece : Type 0 where
  pub value : ℕ
  pub bytes : Bytes

abbrev pub RunePieces : Type 0
RunePieces = List RunePiece

unfoldable pub pieces_loop : ℕ → Bytes → RunePieces
unfolding decode_rune
pieces_loop zero b = []
pieces_loop (suc f) [] = []
pieces_loop (suc f) (a ∷ b) =
    let r = decode_rune a b in
    record { value = r.value; bytes = take r.size (a ∷ b) } ∷ pieces_loop f (drop r.size (a ∷ b))

-- What `[]rune(s)` and `range s` go through; each rune takes a byte or more.
unfoldable pub pieces : Bytes → RunePieces
unfolding pieces_loop
pieces s = pieces_loop (length s) s

-- `string(r[i:j])` of runes
unfoldable pub of_runes : RunePieces → Bytes
unfolding encode_rune
of_runes [] = []
of_runes (p ∷ ps) = encode_rune p.value ++ of_runes ps

-- `s[offs[i]:offs[j]]`: the bytes of the string between two rune starts
unfoldable pub of_bytes : RunePieces → Bytes
of_bytes [] = []
of_bytes (p ∷ ps) = p.bytes ++ of_bytes ps

abbrev pub Seen : Type 0
Seen = Dict (Unit {0})

-- The loop of `CharGrams`, with `rounds` windows of `n` runes to go from the `i`th.
unfoldable pub char_loop : RunePieces → ℕ → ℕ → ℕ → Seen → List Bytes
unfolding of_runes
char_loop r n zero i seen = []
char_loop r n (suc rounds) i seen =
    let g = of_runes (take n (drop i r)) in
    let known = char_loop r n rounds (i + 1) seen in
    let added = char_loop r n rounds (i + 1) (insert g tt seen) in
    if is_some (lookup g seen) then known else g ∷ added

-- `CharGrams`
unfoldable pub char_grams : Bytes → ℕ → List Bytes
unfolding pieces char_loop
char_grams s n =
    let r = pieces s in if ltb (length r) n then s ∷ [] else char_loop r n (length r + 1 - n) 0 []

-- The loop of `grams` over the sizes.
unfoldable pub grams_loop : Bytes → List ℕ → List Bytes
unfolding char_grams
grams_loop s [] = []
grams_loop s (n ∷ sizes) = char_grams s n ++ grams_loop s sizes

-- `strings.ReplaceAll(s, " ", "")`, where the list strips spaces.
abbrev pub stripped : Bool → Bytes → Bytes
stripped strip_spaces s = if strip_spaces then keep (λ c. not (c == 32)) s else s

-- `grams`
unfoldable pub grams : Bool → List ℕ → Bytes → List Bytes
unfolding grams_loop
grams strip_spaces sizes analyzed =
    if is_empty (stripped strip_spaces analyzed)
    then []
    else grams_loop (stripped strip_spaces analyzed) sizes

-- The windows of one size: the grams that `fn` is called with, and `seen` after them.
unfoldable pub emit_loop : RunePieces → ℕ → ℕ → ℕ → Seen → List Bytes × Seen
unfolding of_bytes
emit_loop s n zero j seen = ([], seen)
emit_loop s n (suc rounds) j seen =
    let g = of_bytes (take n (drop j s)) in
    let known = emit_loop s n rounds (j + 1) seen in
    let added = emit_loop s n rounds (j + 1) (insert g tt seen) in
    if is_some (lookup g seen) then known else (g ∷ added.0, added.1)

-- `EachGram`: the grams that `fn` is called with, in order, and `seen` after them.
unfoldable pub each_gram : Bytes → List ℕ → Seen → List Bytes × Seen
unfolding pieces emit_loop
each_gram s [] seen = ([], seen)
each_gram s (n ∷ sizes) seen =
    let known = each_gram s sizes seen in
    let added = each_gram s sizes (insert s tt seen) in
    let first = emit_loop (pieces s) n (length (pieces s) + 1 - n) 0 seen in
    let behind = each_gram s sizes first.1 in
    if ltb (length (pieces s)) n
    then if is_some (lookup s seen) then known else (s ∷ added.0, added.1)
    else (first.0 ++ behind.0, behind.1)
