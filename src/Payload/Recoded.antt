-- ===== src/Payload/Recoded.antt =====
-- UTF-8 as engine/payload.go and engine/ngram/ngram.go use it: a rune that is decoded from valid bytes
-- is encoded as these bytes.
use kurn.Prelude.{
  ◌≡◌, ◌≢◌, ◌<◌, refl, ℕ, ◌+◌, ◌*◌, ◌/◌, ◌%◌, ◌≤◌, ◌&&◌, true, false, [], ◌∷◌, ltb, leb, ◌==◌, take,
  Bool-cases, inl, inr, arith,
}
use kurn.Prelude.Bytes.{Bytes}
use kurn.Payload.Unicode.{
  Rune, rune_error, within, decode_two, decode_three, decode_four, decode_rune, three_bytes,
  encode_rune, is_bad,
}

within-bounds : (lo hi c : ℕ) → within lo hi c ≡ true → (lo ≤ c) × (c ≤ hi)
unfolding within
within-bounds lo hi c h = (ground arith, ground arith)

-- A first byte of three, the second one from `lo` to `hi`: no shorter form, and no surrogate.
abbrev Threefold : ℕ → ℕ → ℕ → Type 0
Threefold lo hi a =
    (0xe0 ≤ a)
    × (a ≤ 0xef)
    × (0x80 ≤ lo)
    × (hi ≤ 0xbf)
    × ((b : ℕ)
        → lo ≤ b
        → b ≤ hi
        → (0x800 ≤ (a % 16) * 4096 + (b % 64) * 64)
          × (within 0xd800 0xdfff ((a % 16) * 4096 + (b % 64) * 64) ≡ false))

Threefold-first : (a : ℕ) → a ≡ 0xe0 → Threefold 0xa0 0xbf a
unfolding within
Threefold-first a e =
    (omega arith, omega arith, omega arith, omega arith, λ b lo hi. (omega arith, ground arith))

Threefold-surrogates : (a : ℕ) → a ≡ 0xed → Threefold 0x80 0x9f a
unfolding within
Threefold-surrogates a e =
    (omega arith, omega arith, omega arith, omega arith, λ b lo hi. (omega arith, ground arith))

Threefold-plain : (a : ℕ) → 0xe1 ≤ a → a ≤ 0xef → a ≢ 0xed → Threefold 0x80 0xbf a
unfolding within
Threefold-plain a low high plain =
    (omega arith, omega arith, omega arith, omega arith, λ b lo hi. (omega arith, ground arith))

-- A first byte of four: above 16 bits, and no more than the greatest rune.
abbrev Fourfold : ℕ → ℕ → ℕ → Type 0
Fourfold lo hi a =
    (0xf0 ≤ a)
    × (a ≤ 0xf4)
    × (0x80 ≤ lo)
    × (hi ≤ 0xbf)
    × ((b : ℕ)
        → lo ≤ b
        → b ≤ hi
        → (0x10000 ≤ (a % 8) * 262144 + (b % 64) * 4096)
          × ((a % 8) * 262144 + (b % 64) * 4096 ≤ 0x10f000))

Fourfold-first : (a : ℕ) → a ≡ 0xf0 → Fourfold 0x90 0xbf a
Fourfold-first a e =
    (omega arith, omega arith, omega arith, omega arith, λ b lo hi. (omega arith, omega arith))

Fourfold-plain : (a : ℕ) → 0xf1 ≤ a → a ≤ 0xf3 → Fourfold 0x80 0xbf a
Fourfold-plain a low high =
    (omega arith, omega arith, omega arith, omega arith, λ b lo hi. (omega arith, omega arith))

Fourfold-last : (a : ℕ) → a ≡ 0xf4 → Fourfold 0x80 0x8f a
Fourfold-last a e =
    (omega arith, omega arith, omega arith, omega arith, λ b lo hi. (omega arith, omega arith))

encode_rune_one : (a : ℕ) (b : Bytes) → a < 0x80 → encode_rune a ≡ take 1 (a ∷ b)
unfolding encode_rune
encode_rune_one a b small = let e : ltb a 0x80 ≡ true = ground arith in rw e refl

decode_two-Recodes :
    (a : ℕ) (b : Bytes)
    → 0xc2 ≤ a
    → a ≤ 0xdf
    → is_bad (decode_two a b) ≡ false
    → encode_rune (decode_two a b).value ≡ take (decode_two a b).size (a ∷ b)
unfolding decode_two is_bad encode_rune
decode_two-Recodes a [] lo hi h = cc
decode_two-Recodes a (b ∷ s) lo hi h = elim (Bool-cases (within 0x80 0xbf b)) [
  | inr out ↦ cc (rw out at h)
  | inl e ↦
      let (b_lo, b_hi) = within-bounds 0x80 0xbf b e in
      let v = (a % 32) * 64 + b % 64 in
      let e1 : ltb v 0x80 ≡ false = ground arith in
      let e2 : ltb v 0x800 ≡ true = ground arith in
      let first : 0xc0 + v / 64 ≡ a = omega arith in
      let second : 0x80 + v % 64 ≡ b = omega arith in rw (e, e1, e2, first, second) refl
]

decode_three-Recodes :
    (lo hi a : ℕ) (b : Bytes)
    → Threefold lo hi a
    → is_bad (decode_three lo hi a b) ≡ false
    → encode_rune (decode_three lo hi a b).value ≡ take (decode_three lo hi a b).size (a ∷ b)
unfolding decode_three is_bad encode_rune three_bytes within
decode_three-Recodes lo hi a [] h g = cc
decode_three-Recodes lo hi a (b ∷ []) h g = cc
decode_three-Recodes lo hi a (b ∷ c ∷ s) (a_lo, a_hi, l, u, fits) h =
    elim (Bool-cases (within lo hi b && within 0x80 0xbf c)) [
      | inr out ↦ cc (rw out at h)
      | inl e ↦
          let b_in : within lo hi b ≡ true = ground arith in
          let c_in : within 0x80 0xbf c ≡ true = ground arith in
          let (b_lo, b_hi) = within-bounds lo hi b b_in in
          let (c_lo, c_hi) = within-bounds 0x80 0xbf c c_in in
          let (big, plain) = fits b b_lo b_hi in
          let v = (a % 16) * 4096 + (b % 64) * 64 + c % 64 in
          let e1 : ltb v 0x80 ≡ false = ground arith in
          let e2 : ltb v 0x800 ≡ false = ground arith in
          let e3 : (leb 0xd800 v && leb v 0xdfff) ≡ false = ground arith in
          let e4 : ltb v 0x10000 ≡ true = ground arith in
          let first : 0xe0 + v / 4096 ≡ a = omega arith in
          let second : 0x80 + (v / 64) % 64 ≡ b = omega arith in
          let third : 0x80 + v % 64 ≡ c = omega arith in
          rw (e, e1, e2, e3, e4, first, second, third) refl
    ]

decode_four-Recodes :
    (lo hi a : ℕ) (b : Bytes)
    → Fourfold lo hi a
    → is_bad (decode_four lo hi a b) ≡ false
    → encode_rune (decode_four lo hi a b).value ≡ take (decode_four lo hi a b).size (a ∷ b)
unfolding decode_four is_bad encode_rune within
decode_four-Recodes lo hi a [] h g = cc
decode_four-Recodes lo hi a (b ∷ []) h g = cc
decode_four-Recodes lo hi a (b ∷ c ∷ []) h g = cc
decode_four-Recodes lo hi a (b ∷ c ∷ d ∷ s) (a_lo, a_hi, l, u, fits) h =
    elim (Bool-cases (within lo hi b && (within 0x80 0xbf c && within 0x80 0xbf d))) [
      | inr out ↦ cc (rw out at h)
      | inl e ↦
          let b_in : within lo hi b ≡ true = ground arith in
          let c_in : within 0x80 0xbf c ≡ true = ground arith in
          let d_in : within 0x80 0xbf d ≡ true = ground arith in
          let (b_lo, b_hi) = within-bounds lo hi b b_in in
          let (c_lo, c_hi) = within-bounds 0x80 0xbf c c_in in
          let (d_lo, d_hi) = within-bounds 0x80 0xbf d d_in in
          let (big, small) = fits b b_lo b_hi in
          let v = (a % 8) * 262144 + (b % 64) * 4096 + (c % 64) * 64 + d % 64 in
          let e1 : ltb v 0x80 ≡ false = ground arith in
          let e2 : ltb v 0x800 ≡ false = ground arith in
          let e3 : (leb 0xd800 v && leb v 0xdfff) ≡ false = ground arith in
          let e4 : ltb v 0x10000 ≡ false = ground arith in
          let e5 : leb v 0x10ffff ≡ true = ground arith in
          let first : 0xf0 + v / 262144 ≡ a = omega arith in
          let second : 0x80 + (v / 4096) % 64 ≡ b = omega arith in
          let third : 0x80 + (v / 64) % 64 ≡ c = omega arith in
          let fourth : 0x80 + v % 64 ≡ d = omega arith in
          rw (e, e1, e2, e3, e4, e5, first, second, third, fourth) refl
    ]

-- The ways in which a rune is decoded, by its first byte.
decode_rune_ways :
    (P : Rune → Type 0) (a : ℕ) (b : Bytes)
    → (a < 0x80 → P (record { value = a; size = 1 }))
    → (0xc2 ≤ a → a ≤ 0xdf → P (decode_two a b))
    → ((lo hi : ℕ) → Threefold lo hi a → P (decode_three lo hi a b))
    → ((lo hi : ℕ) → Fourfold lo hi a → P (decode_four lo hi a b))
    → P (record { value = rune_error; size = 1 })
    → P (decode_rune a b)
unfolding decode_rune
decode_rune_ways P a b one two three four bad = elim (Bool-cases (ltb a 0x80)) [
  | inl e ↦ rw e (one (ground arith))
  | inr e0 ↦ elim (Bool-cases (within 0xc2 0xdf a)) [
    | inl e ↦ let (low, high) = within-bounds 0xc2 0xdf a e in rw (e0, e) (two low high)
    | inr e1 ↦ elim (Bool-cases (a == 0xe0)) [
      | inl e ↦ rw (e0, e1, e) (three 0xa0 0xbf (Threefold-first a (ground arith)))
      | inr e2 ↦ elim (Bool-cases (a == 0xed)) [
        | inl e ↦ rw (e0, e1, e2, e) (three 0x80 0x9f (Threefold-surrogates a (ground arith)))
        | inr e3 ↦ elim (Bool-cases (within 0xe1 0xef a)) [
          | inl e ↦
              let (low, high) = within-bounds 0xe1 0xef a e in
              rw (e0, e1, e2, e3, e) (three 0x80 0xbf (Threefold-plain a low high (ground arith)))
          | inr e4 ↦ elim (Bool-cases (a == 0xf0)) [
            | inl e ↦ rw (e0, e1, e2, e3, e4, e) (four 0x90 0xbf (Fourfold-first a (ground arith)))
            | inr e5 ↦ elim (Bool-cases (within 0xf1 0xf3 a)) [
              | inl e ↦
                  let (low, high) = within-bounds 0xf1 0xf3 a e in
                  rw (e0, e1, e2, e3, e4, e5, e) (four 0x80 0xbf (Fourfold-plain a low high))
              | inr e6 ↦ elim (Bool-cases (a == 0xf4)) [
                | inl e ↦
                    rw (e0, e1, e2, e3, e4, e5, e6, e)
                      (four 0x80 0x8f (Fourfold-last a (ground arith)))
                | inr e ↦ rw (e0, e1, e2, e3, e4, e5, e6, e) bad
              ]
            ]
          ]
        ]
      ]
    ]
  ]
]

-- A rune that is not an error of the decoding is encoded as the bytes it was decoded from.
pub decode_rune-encode_rune :
    (a : ℕ) (b : Bytes)
    → is_bad (decode_rune a b) ≡ false
    → encode_rune (decode_rune a b).value ≡ take (decode_rune a b).size (a ∷ b)
decode_rune-encode_rune a b =
    decode_rune_ways (λ r. is_bad r ≡ false → encode_rune r.value ≡ take r.size (a ∷ b)) a b
      (λ small _. encode_rune_one a b small) (decode_two-Recodes a b)
      (λ lo hi fits. decode_three-Recodes lo hi a b fits)
      (λ lo hi fits. decode_four-Recodes lo hi a b fits) (unfold is_bad in λ h. cc)
