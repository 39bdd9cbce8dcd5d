-- ===== src/Prepared/Records/Taken.antt =====
-- engine/prepared/view.go: the strings that the parts of a row take from the blob.
use kurn.Prelude.{
  ◌≡◌, refl, sym, ap, ◌∙◌, subst, inl, inr, ℕ, zero, suc, ◌+◌, ◌-◌, ◌≤◌, Bool, true, false, not,
  ◌&&◌, List, [], ◌∷◌, ltb, ◌==◌, length, take, drop, length-take-fits, length-drop, Bool-cases,
  arith,
}
use kurn.Prelude.Bytes.{Bytes}
use kurn.Prepared.Words.{parsed, >>=-eq-parsed, parsed-injective, malformed}
use kurn.Prepared.Bounds.{refuse_if-then}
use kurn.Prepared.Records.{RecordsView, field, Cursors, take_str, parse_keys}
use kurn.Prepared.Records.Packed.{Piece, span, KeysPacked}

Piece-take :
    (blob : Bytes) (at n : ℕ)
    → n ≤ length blob - at
    → at ≤ length blob
    → Piece blob at (take n (drop at blob)) × (length (take n (drop at blob)) ≡ n)
Piece-take blob at n h low =
    let s = take n (drop at blob) in
    let long : length s ≡ n =
      length-take-fits n (drop at blob) (omega (arith, length-drop at blob)) in
    (record { inside = omega arith; there = ap (λ k. take k (drop at blob)) long }, long)

module _ (valid : Bytes → Bool) where
  abbrev pub AllValid : List Bytes → Type 0
  AllValid [] = Unit
  AllValid (k ∷ keys) = (valid k ≡ true) × AllValid keys

  abbrev pub Taken : Bool → Bytes → ℕ → ℕ → ℕ → ℕ → Bytes → Type 0
  Taken checked blob cur off n c s =
      (off ≡ cur)
      × (n ≡ length s)
      × Piece blob cur s
      × ((checked && not (valid s)) ≡ false)
      × (cur + length s ≡ c)

  pub take_str-Taken :
      (checked : Bool) (blob : Bytes) (cur off n c : ℕ)
      → cur ≤ length blob
      → take_str valid checked blob cur off n ≡ parsed c
      → (s : Bytes) × Taken checked blob cur off n c s
  unfolding take_str
  take_str-Taken checked blob cur off n c low h =
      let (at, h1) = refuse_if-then (not (off == cur)) malformed _ h in
      let (room, h2) = refuse_if-then (ltb (length blob - cur) n) malformed _ h1 in
      let (ok, h3) =
        refuse_if-then (checked && not (valid (take n (drop cur blob)))) malformed _ h2 in
      let fits : n ≤ length blob - cur = ground arith in
      let (piece, long) = Piece-take blob cur n fits low in
      (
        take n (drop cur blob),
        (ground arith, sym long, piece, ok, omega (arith, parsed-injective h3, long)),
      )

  pub passed : (s : Bytes) → (true && not (valid s)) ≡ false → valid s ≡ true
  passed s h = elim (Bool-cases (valid s)) [ inl e ↦ e | inr e ↦ cc (rw e at h) ]

  abbrev pub KeysTaken : RecordsView → ℕ → Cursors → Cursors → List Bytes → Type 0
  KeysTaken v kc c d keys =
      (kc ≡ length keys)
      × KeysPacked v c.k_idx c.cur keys
      × AllValid keys
      × (c.cur + span keys ≡ d.cur)
      × (c.k_idx + length keys ≡ d.k_idx)
      × (d.cur ≤ length v.blob)

  pub parse_keys-KeysTaken :
      (v : RecordsView) (kc : ℕ) (c d : Cursors)
      → c.cur ≤ length v.blob
      → parse_keys valid v kc c ≡ parsed d
      → (keys : List Bytes) × KeysTaken v kc c d keys
  unfolding parse_keys
  parse_keys-KeysTaken v zero c d low h =
      let same : c ≡ d = parsed-injective h in
      (
        [],
        (refl, tt, tt, rw (sym same) (omega arith), rw (sym same) (omega arith), rw (sym same) low),
      )
  parse_keys-KeysTaken v (suc kc) c d low h =
      let (off, f0, h1) = >>=-eq-parsed (field v.key_rows 16 c.k_idx 0) _ h in
      let (n, f8, h2) = >>=-eq-parsed (field v.key_rows 16 c.k_idx 8) _ h1 in
      let (cur, took, h3) = >>=-eq-parsed (take_str valid true v.blob c.cur off n) _ h2 in
      let (k, (at, long, piece, ok, next)) = take_str-Taken true v.blob c.cur off n cur low took in
      let behind : Cursors = record { cur = cur; k_idx = c.k_idx + 1 } in
      let (keys, (many, packed, valids, end, idx, inside)) =
        parse_keys-KeysTaken v kc behind d (omega (arith, piece.inside)) h3 in
      let rest : KeysPacked v (c.k_idx + 1) (c.cur + length k) keys =
        subst (λ a. KeysPacked v (c.k_idx + 1) a keys) (sym next) packed in
      (
        k ∷ keys,
        (
          ap suc many,
          (f0 ∙ ap parsed at, f8 ∙ ap parsed long, piece, rest),
          (passed k ok, valids),
          omega arith,
          omega arith,
          inside,
        ),
      )
