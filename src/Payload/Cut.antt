-- ===== src/Payload/Cut.antt =====
-- engine/payload.go, `rawString`: what the scan of a string consumes.
use kurn.Prelude.{
  ℕ, zero, suc, ◌+◌, ◌==◌, ◌≡◌, refl, ap, sym, ◌∙◌, subst, Bool-cases, Option-cases, Option, none,
  some, [], ◌∷◌, ◌++◌, inl, inr, arith, length, take, drop, append_assoc, take-append-drop,
}
use kurn.Prelude.Bytes.{Bytes, index_byte}
use kurn.Payload.Token.{
  quote, backslash, has_control, escape_size, Special, first_special, raw_string_round,
  raw_string_loop, raw_string,
}

-- Of all bytes, those up to a quote, and those behind it.
abbrev Cut : Bytes → Option (Bytes × Bytes) → Type 0
Cut all none = Unit
Cut all (some t) = all ≡ t.0 ++ quote ∷ t.1

index_byte_cut :
    (rest : Bytes) (q : ℕ)
    → index_byte quote rest ≡ some q
    → rest ≡ take q rest ++ quote ∷ drop (suc q) rest
index_byte_cut [] q h = cc
index_byte_cut (c ∷ rest) q h = elim (Bool-cases (c == quote)) [
  | inl e ↦
      let found : some 0 ≡ some q = rw e at h in
      let first : 0 ≡ q = cc in
      let byte : c ≡ quote = ground arith in rw (sym first) (ap (λ x. x ∷ rest) byte)
  | inr e ↦ elim (Option-cases (index_byte quote rest)) [
    | inl n ↦ cc (rw (e, n) at h)
    | inr (j, at) ↦
        let found : some (suc j) ≡ some q = rw (e, at) at h in
        let later : suc j ≡ q = cc in rw (sym later) (ap (◌∷◌ c) (index_byte_cut rest j at))
  ]
]

quote_found : (o p : Option ℕ) (q : ℕ) → first_special o p ≡ Special.quote_at q → o ≡ some q
unfolding first_special
quote_found none none q h = cc
quote_found none (some bs) q h = cc
quote_found (some x) none q h = cc
quote_found (some x) (some bs) q h = ground arith

passed : (inner rest : Bytes) (n : ℕ) → inner ++ rest ≡ (inner ++ take n rest) ++ drop n rest
passed inner rest n =
    ap (◌++◌ inner) (sym (take-append-drop n rest))
    ∙ sym (append_assoc inner (take n rest) (drop n rest))

module _ (next : Bytes → Bytes → Option (Bytes × Bytes)) (rest : Bytes)
    (ih : (inner' rest' : Bytes) → Cut (inner' ++ rest') (next inner' rest')) where
  raw_string_round-Cut :
      (inner : Bytes) (s : Special)
      → first_special (index_byte quote rest) (index_byte backslash rest) ≡ s
      → Cut (inner ++ rest) (raw_string_round next inner rest s)
  unfolding raw_string_round
  raw_string_round-Cut inner Special.nothing e = tt
  raw_string_round-Cut inner (Special.escape_at bs) e =
      elim (Bool-cases (has_control (take bs rest))) [
        | inl h ↦ rw (h, Cut) tt
        | inr h ↦ elim (Option-cases (escape_size (drop bs rest))) [
          | inl n ↦ rw (h, n, Cut, raw_string_round) tt
          | inr (n, at) ↦
              rw (h, at, Cut, raw_string_round)
                (subst (λ all. Cut all (next (inner ++ take (bs + n) rest) (drop (bs + n) rest)))
                  (sym (passed inner rest (bs + n)))
                  (ih (inner ++ take (bs + n) rest) (drop (bs + n) rest)))
        ]
      ]
  raw_string_round-Cut inner (Special.quote_at q) e =
      elim (Bool-cases (has_control (take q rest))) [
        | inl h ↦ rw (h, Cut) tt
        | inr h ↦
            rw (h, Cut, raw_string_round)
              (ap (◌++◌ inner) (index_byte_cut rest q (quote_found _ _ q e))
                ∙ sym (append_assoc inner (take q rest) (quote ∷ drop (suc q) rest)))
      ]

raw_string_loop-Cut :
    (f : ℕ) (inner rest : Bytes) → Cut (inner ++ rest) (raw_string_loop f inner rest)
unfolding raw_string_loop
raw_string_loop-Cut zero inner rest = tt
raw_string_loop-Cut (suc f) inner rest =
    raw_string_round-Cut (raw_string_loop f) rest (raw_string_loop-Cut f) inner
      (first_special (index_byte quote rest) (index_byte backslash rest)) refl

-- A string that the scanner accepts is, byte for byte, a quote, the inner bytes it returns, a quote,
-- and the bytes it leaves.
pub raw_string_cut :
    (b inner rest : Bytes) → raw_string b ≡ some (inner, rest) → b ≡ quote ∷ inner ++ quote ∷ rest
unfolding raw_string
raw_string_cut [] inner rest h = cc
raw_string_cut (c ∷ b) inner rest h = elim (Bool-cases (c == quote)) [
  | inl e ↦
      let found : raw_string_loop (suc (length b)) [] b ≡ some (inner, rest) = rw e at h in
      let byte : c ≡ quote = ground arith in
      ap (λ x. x ∷ b) byte
      ∙ ap (◌∷◌ quote) (subst (Cut b) found (raw_string_loop-Cut (suc (length b)) [] b))
  | inr e ↦ cc (rw e at h)
]
