-- ===== src/Prepared/Records/Parts.antt =====
-- engine/prepared/view.go: the parts of a row that are accepted: the ID, the keys, the payload.
use kurn.Prelude.{
  ◌≡◌, ◌≢◌, refl, sym, ap, ◌∙◌, subst, inl, inr, ℕ, ◌+◌, ◌-◌, ◌%◌, ◌≤◌, ◌<◌, Bool, true, false, not,
  ◌&&◌, Option, none, some, List, [], ◌∷◌, ltb, leb, ◌==◌, length, Bool-cases, arith,
}
use kurn.Prelude.Bytes.{Bytes}
use kurn.Prepared.Words.{parsed, >>=-eq-parsed, parsed-injective, malformed}
use kurn.Prepared.Bounds.{refuse_if-then}
use kurn.Prepared.Records.{
  RecordsView, keys_null_flag, field, Cursors, take_str, take_id, take_keys, take_payload,
}
use kurn.Prepared.Records.Packed.{Piece, key_list, key_word, span, KeysPacked}
use kurn.Prepared.Records.Taken.{
  AllValid, Taken, take_str-Taken, passed, KeysTaken, parse_keys-KeysTaken,
}

module _ (valid : Bytes → Bool) where
  -- What a key word stands for, with the keys that follow.
  abbrev Worded : ℕ → List Bytes → Option (List Bytes) → Type 0
  Worded kc ks keys = (kc ≡ key_word keys) × (ks ≡ key_list keys) × (length ks < keys_null_flag)

  worded :
      (kc : ℕ) (ks : List Bytes)
      → (leb keys_null_flag kc && not (kc == keys_null_flag)) ≡ false
      → kc % keys_null_flag ≡ length ks
      → (keys : Option (List Bytes)) × Worded kc ks keys
  worded kc [] h n = elim (Bool-cases (kc == keys_null_flag)) [
    | inl e ↦ (none, (ground arith, refl, omega arith))
    | inr e ↦ (some [], (ground arith, refl, omega arith))
  ]
  worded kc (k ∷ ks) h n = (some (k ∷ ks), (ground arith, refl, omega arith))

  abbrev pub IdTaken : RecordsView → ℕ → Cursors → Cursors → Bytes → Type 0
  IdTaken v i c d id =
      (field v.rows 48 i 0 ≡ parsed c.cur)
      × (field v.rows 48 i 8 ≡ parsed (length id))
      × Piece v.blob c.cur id
      × (0 < length id)
      × (valid id ≡ true)
      × (d ≡ record { cur = c.cur + length id; k_idx = c.k_idx })

  pub take_id-IdTaken :
      (v : RecordsView) (i : ℕ) (c d : Cursors)
      → c.cur ≤ length v.blob
      → take_id valid v i c ≡ parsed d
      → (id : Bytes) × IdTaken v i c d id
  unfolding take_id
  take_id-IdTaken v i c d low h =
      let (n, f8, h1) = >>=-eq-parsed (field v.rows 48 i 8) _ h in
      let (named, h2) = refuse_if-then (n == 0) malformed _ h1 in
      let (off, f0, h3) = >>=-eq-parsed (field v.rows 48 i 0) _ h2 in
      let (cur, took, h4) = >>=-eq-parsed (take_str valid true v.blob c.cur off n) _ h3 in
      finish n off cur f8 (ground arith) f0 h4
        (take_str-Taken valid true v.blob c.cur off n cur low took)
    where
      finish :
          (n off cur : ℕ)
          → field v.rows 48 i 8 ≡ parsed n
          → n ≢ 0
          → field v.rows 48 i 0 ≡ parsed off
          → parsed (record { cur = cur; k_idx = c.k_idx }) ≡ parsed d
          → (id : Bytes) × Taken valid true v.blob c.cur off n cur id
          → (id : Bytes) × IdTaken v i c d id
      finish n off cur f8 named f0 e (id, (at, long, piece, ok, next)) = (
        id,
        (
          f0 ∙ ap parsed at,
          f8 ∙ ap parsed long,
          piece,
          omega arith,
          passed valid id ok,
          sym (parsed-injective e) ∙ (λ t. record { cur = sym next t; k_idx = c.k_idx }),
        ),
      )

  abbrev pub LoadTaken : RecordsView → ℕ → Cursors → Cursors → Bytes → Type 0
  LoadTaken v i c d load =
      (field v.rows 48 i 32 ≡ parsed c.cur)
      × (field v.rows 48 i 40 ≡ parsed (length load))
      × Piece v.blob c.cur load
      × (d ≡ record { cur = c.cur + length load; k_idx = c.k_idx })

  pub take_payload-LoadTaken :
      (v : RecordsView) (i : ℕ) (c d : Cursors)
      → c.cur ≤ length v.blob
      → take_payload valid v i c ≡ parsed d
      → (load : Bytes) × LoadTaken v i c d load
  unfolding take_payload
  take_payload-LoadTaken v i c d low h =
      let (off, f32, h1) = >>=-eq-parsed (field v.rows 48 i 32) _ h in
      let (n, f40, h2) = >>=-eq-parsed (field v.rows 48 i 40) _ h1 in
      let (cur, took, h3) = >>=-eq-parsed (take_str valid false v.blob c.cur off n) _ h2 in
      finish off n cur f32 f40 h3 (take_str-Taken valid false v.blob c.cur off n cur low took)
    where
      finish :
          (off n cur : ℕ)
          → field v.rows 48 i 32 ≡ parsed off
          → field v.rows 48 i 40 ≡ parsed n
          → parsed (record { cur = cur; k_idx = c.k_idx }) ≡ parsed d
          → (s : Bytes) × Taken valid false v.blob c.cur off n cur s
          → (load : Bytes) × LoadTaken v i c d load
      finish off n cur f32 f40 e (load, (at, long, piece, _, next)) = (
        load,
        (
          f32 ∙ ap parsed at,
          f40 ∙ ap parsed long,
          piece,
          sym (parsed-injective e) ∙ (λ t. record { cur = sym next t; k_idx = c.k_idx }),
        ),
      )

  abbrev pub RangeTaken : RecordsView → ℕ → Cursors → Cursors → Option (List Bytes) → Type 0
  RangeTaken v i c d keys =
      (field v.rows 48 i 16 ≡ parsed c.k_idx)
      × (field v.rows 48 i 24 ≡ parsed (key_word keys))
      × (length (key_list keys) < keys_null_flag)
      × KeysPacked v c.k_idx c.cur (key_list keys)
      × AllValid valid (key_list keys)
      × (d
          ≡ record { cur = c.cur + span (key_list keys); k_idx = c.k_idx + length (key_list keys) })
      × (d.cur ≤ length v.blob)

  pub take_keys-RangeTaken :
      (v : RecordsView) (i : ℕ) (c d : Cursors)
      → c.cur ≤ length v.blob
      → take_keys valid v i c ≡ parsed d
      → (keys : Option (List Bytes)) × RangeTaken v i c d keys
  unfolding take_keys
  take_keys-RangeTaken v i c d low h =
      let (ks, f16, h1) = >>=-eq-parsed (field v.rows 48 i 16) _ h in
      let (kc, f24, h2) = >>=-eq-parsed (field v.rows 48 i 24) _ h1 in
      let (nulls, h3) =
        refuse_if-then (leb keys_null_flag kc && not (kc == keys_null_flag)) malformed _ h2 in
      let (start, h4) = refuse_if-then (not (ks == c.k_idx)) malformed _ h3 in
      let (room, h5) =
        refuse_if-then (ltb (v.n_keys - c.k_idx) (kc % keys_null_flag)) malformed _ h4 in
      finish ks kc f16 f24 nulls (ground arith)
        (parse_keys-KeysTaken valid v (kc % keys_null_flag) c d low h5)
    where
      named :
          (ks kc : ℕ) (strs : List Bytes)
          → field v.rows 48 i 16 ≡ parsed ks
          → field v.rows 48 i 24 ≡ parsed kc
          → ks ≡ c.k_idx
          → KeysTaken valid v (kc % keys_null_flag) c d strs
          → (keys : Option (List Bytes)) × Worded kc strs keys
          → (keys : Option (List Bytes)) × RangeTaken v i c d keys
      named ks kc strs f16 f24 start (many, packed, valids, end, idx, inside)
            (keys, (word, listed, few)) =
          (
            keys,
            (
              f16 ∙ ap parsed start,
              f24 ∙ ap parsed word,
              subst (λ l. length l < keys_null_flag) listed few,
              subst (KeysPacked v c.k_idx c.cur) listed packed,
              subst (AllValid valid) listed valids,
              subst
                  (λ (l : List Bytes).
                    d ≡ record { cur = c.cur + span l; k_idx = c.k_idx + length l })
                  listed (λ t. record { cur = sym end t; k_idx = sym idx t }),
              inside,
            ),
          )

      finish :
          (ks kc : ℕ)
          → field v.rows 48 i 16 ≡ parsed ks
          → field v.rows 48 i 24 ≡ parsed kc
          → (leb keys_null_flag kc && not (kc == keys_null_flag)) ≡ false
          → ks ≡ c.k_idx
          → (strs : List Bytes) × KeysTaken valid v (kc % keys_null_flag) c d strs
          → (keys : Option (List Bytes)) × RangeTaken v i c d keys
      finish ks kc f16 f24 nulls start (strs, took) =
          named ks kc strs f16 f24 start took (worded kc strs nulls took.0)
