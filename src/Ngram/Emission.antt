-- ===== src/Ngram/Emission.antt =====
-- engine/ngram/ngram.go: a query streams the grams that the index takes of the same key.
use kurn.Prelude.{
  ◌≡◌, refl, ap, sym, ◌∙◌, ℕ, zero, suc, ◌+◌, ◌-◌, Bool, true, false, List, [], ◌∷◌, ◌++◌, ltb,
  if◌then◌else◌, length, take, drop, Bool-cases, inl, inr, arith,
}
use kurn.Prelude.Bytes.{Bytes, bytes_eq_iff}
use kurn.Prelude.Dict.{lookup, insert, lookup-insert}
use kurn.Payload.Scalar.{is_empty}
use kurn.Payload.Unicode.{decode_rune, encode_rune, is_bad, valid_loop, utf8_valid}
use kurn.Payload.Recoded.{decode_rune-encode_rune}
use kurn.Live.Mutate.{is_some}
use kurn.Ngram.Grams.{
  RunePieces, pieces_loop, pieces, of_runes, of_bytes, Seen, char_loop, char_grams, grams_loop,
  stripped, grams, emit_loop, each_gram,
}

-- Those of the grams that no earlier one equals and that were not seen, and what is seen then.
unfoldable pub distinct : Seen → List Bytes → List Bytes × Seen
distinct seen [] = ([], seen)
distinct seen (g ∷ gs) =
    let known = distinct seen gs in
    let added = distinct (insert g tt seen) gs in
    if is_some (lookup g seen) then known else (g ∷ added.0, added.1)

distinct-append :
    (seen : Seen) (xs ys : List Bytes)
    → distinct seen (xs ++ ys) ≡ (
      (distinct seen xs).0 ++ (distinct (distinct seen xs).1 ys).0,
      (distinct (distinct seen xs).1 ys).1,
    )
unfolding distinct
distinct-append seen [] ys = refl
distinct-append seen (x ∷ xs) ys = elim (Bool-cases (is_some (lookup x seen))) [
  | inl known ↦ rw known (distinct-append seen xs ys)
  | inr new ↦ rw new (ap (λ r. (x ∷ r.0, r.1)) (distinct-append (insert x tt seen) xs ys))
]

-- What one set holds, another holds too.
abbrev Covers : Seen → Seen → Type 0
Covers seen own = (g : Bytes) → is_some (lookup g own) ≡ true → is_some (lookup g seen) ≡ true

Covers-known :
    (seen own : Seen) (g : Bytes)
    → is_some (lookup g seen) ≡ true
    → Covers seen own
    → Covers seen (insert g tt own)
Covers-known seen own g known h k in_own =
    ground (arith, lookup-insert g k tt own, bytes_eq_iff g k, h k)

Covers-insert :
    (seen own : Seen) (g : Bytes) → Covers seen own → Covers (insert g tt seen) (insert g tt own)
Covers-insert seen own g h k in_own =
    ground (arith, lookup-insert g k tt own, lookup-insert g k tt seen, h k)

-- Each rune is encoded as the bytes it was decoded from.
abbrev Recoded : RunePieces → Type 0
Recoded [] = Unit
Recoded (p ∷ ps) = (encode_rune p.value ≡ p.bytes) × Recoded ps

Recoded-valid : (f g : ℕ) (b : Bytes) → valid_loop f b ≡ true → Recoded (pieces_loop g b)
unfolding valid_loop pieces_loop
Recoded-valid zero g b h = cc
Recoded-valid (suc f) zero b h = tt
Recoded-valid (suc f) (suc g) [] h = tt
Recoded-valid (suc f) (suc g) (a ∷ b) h = elim (Bool-cases (is_bad (decode_rune a b))) [
  | inl bad ↦ cc (rw (bad, valid_loop) at h)
  | inr good ↦ (
    decode_rune-encode_rune a b good,
    Recoded-valid f g (drop (decode_rune a b).size (a ∷ b)) (rw (good, valid_loop) at h),
  )
]

Recoded-drop : (i : ℕ) (ps : RunePieces) → Recoded ps → Recoded (drop i ps)
Recoded-drop zero ps h = h
Recoded-drop (suc i) [] h = tt
Recoded-drop (suc i) (p ∷ ps) h = Recoded-drop i ps h.1

same_gram : (n : ℕ) (ps : RunePieces) → Recoded ps → of_runes (take n ps) ≡ of_bytes (take n ps)
unfolding of_runes of_bytes
same_gram zero ps h = refl
same_gram (suc n) [] h = refl
same_gram (suc n) (p ∷ ps) h = λ i. h.0 i ++ same_gram n ps h.1 i

-- Windows that the index has made distinct are streamed as the windows themselves.
distinct-char_loop :
    (s : RunePieces) (n rounds i : ℕ) (seen own : Seen)
    → Recoded s
    → Covers seen own
    → distinct seen (char_loop s n rounds i own) ≡ emit_loop s n rounds i seen
unfolding distinct char_loop emit_loop
distinct-char_loop s n zero i seen own plain h = refl
distinct-char_loop s n (suc rounds) i seen own plain h =
    let same = same_gram n (drop i s) (Recoded-drop i s plain) in
    let g = of_bytes (take n (drop i s)) in
    elim (Bool-cases (is_some (lookup g own))) [
      | inl mine ↦
          let known = h g mine in
          rw (same, mine, known) (distinct-char_loop s n rounds (i + 1) seen own plain h)
      | inr fresh ↦ elim (Bool-cases (is_some (lookup g seen))) [
        | inl known ↦
            rw (same, fresh, distinct, known)
              (distinct-char_loop s n rounds (i + 1) seen (insert g tt own) plain
                (Covers-known seen own g known h))
        | inr new ↦
            rw (same, fresh, distinct, new)
              (ap (λ r. (g ∷ r.0, r.1))
                (distinct-char_loop s n rounds (i + 1) (insert g tt seen) (insert g tt own) plain
                  (Covers-insert seen own g h)))
      ]
    ]

distinct-grams_loop :
    (s : Bytes) (sizes : List ℕ) (seen : Seen)
    → Recoded (pieces s)
    → distinct seen (grams_loop s sizes) ≡ each_gram s sizes seen
unfolding distinct grams_loop char_grams each_gram
distinct-grams_loop s [] seen plain = refl
distinct-grams_loop s (n ∷ sizes) seen plain = elim (Bool-cases (ltb (length (pieces s)) n)) [
  | inl short ↦ elim (Bool-cases (is_some (lookup s seen))) [
    | inl known ↦ rw (short, distinct, known) (distinct-grams_loop s sizes seen plain)
    | inr new ↦
        rw (short, distinct, new)
          (ap (λ r. (s ∷ r.0, r.1)) (distinct-grams_loop s sizes (insert s tt seen) plain))
  ]
  | inr long ↦
      let rounds = length (pieces s) + 1 - n in
      let windows =
        distinct-char_loop (pieces s) n rounds 0 seen [] plain (unfold lookup in λ g h. cc) in
      let after = (emit_loop (pieces s) n rounds 0 seen).1 in
      rw long (
        distinct-append seen (char_loop (pieces s) n rounds 0 []) (grams_loop s sizes)
        ∙ rw (windows, distinct-grams_loop s sizes after plain) refl)
]

-- For a key that is valid UTF-8 and not empty once its spaces are stripped, as the list says,
-- `EachGram` with an empty set calls back with the grams that `grams` gives, in their order and each
-- once.
pub each_gram-grams :
    (strip_spaces : Bool) (sizes : List ℕ) (analyzed : Bytes)
    → is_empty (stripped strip_spaces analyzed) ≡ false
    → utf8_valid (stripped strip_spaces analyzed) ≡ true
    → each_gram (stripped strip_spaces analyzed) sizes []
      ≡ distinct [] (grams strip_spaces sizes analyzed)
unfolding grams pieces utf8_valid
each_gram-grams strip_spaces sizes analyzed h valid =
    let key = stripped strip_spaces analyzed in
    let plain = Recoded-valid (suc (length key)) (length key) key valid in
    rw h (sym (distinct-grams_loop key sizes [] plain))
