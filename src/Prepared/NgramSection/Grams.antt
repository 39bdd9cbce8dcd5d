-- ===== src/Prepared/NgramSection/Grams.antt =====
-- engine/prepared/view.go: a gram that is accepted has a text and a frozen bitmap.
use kurn.Prelude.{
  ◌≡◌, refl, subst, inl, inr, ℕ, zero, suc, ◌+◌, ◌-◌, ◌*◌, ◌%◌, ◌≤◌, ◌<◌, false, not, ◌&&◌, ◌||◌,
  ltb, leb, ◌==◌, if◌then◌else◌, length, take, drop, Bool-cases, arith,
}
use kurn.Prelude.Bytes.{Bytes, bytes_lt}
use kurn.Prepared.Words.{malformed, parsed, ◌>>=◌, align, max_uint64}
use kurn.Prepared.Format.{refuse_if}
use kurn.Prepared.Bounds.{align32-rounds}
use kurn.Prepared.Gives.{
  Gives, Gives-bind, Gives-check, Gives-read, Gives-map, Gives-known, Gives-then,
}
use kurn.Prepared.Records.{field}
use kurn.Prepared.Frozen.{FrozenInfo, check_frozen}
use kurn.Prepared.Frozen.Total.{IsFilled, check_frozen-IsFilled}
use kurn.Prepared.NgramSection.{
  slice, NgramView, frozen_bitmap, gram, aligned, has_nonzero, GramCursor, parse_gram, parse_grams,
}

pub slice-fits :
    (b : Bytes) (lo hi : ℕ)
    → lo ≤ hi
    → hi ≤ length b
    → slice b lo hi ≡ parsed (take (hi - lo) (drop lo b))
unfolding slice
slice-fits b lo hi low high =
    let up : ltb hi lo ≡ false = ground arith in
    let inside : ltb (length b) hi ≡ false = ground arith in rw (up, inside) refl

pub aligned-above : (n : ℕ) → n + 31 ≤ max_uint64 → n ≤ aligned n
aligned-above n h = rw (aligned, align32-rounds n h) (omega arith)

-- The gram `i` has a text, and a bitmap that is whole and names only ordinals below the count.
abbrev pub IsPosted : NgramView → ℕ → Type 0
IsPosted nv i =
    (text : Bytes) × (bm : Bytes) × (fi : FrozenInfo) × (gram nv i ≡ parsed text)
    × (frozen_bitmap nv i ≡ parsed bm)
    × (check_frozen bm ≡ parsed fi)
    × IsFilled fi
    × (fi.max < nv.num_ords)

text_fits :
    (goff cur glen size : ℕ)
    → (not (goff == cur) || (glen == 0 || ltb (size - cur) glen)) ≡ false
    → (goff ≡ cur) × (glen ≤ size - cur)
text_fits goff cur glen size h = ground arith

place_fits :
    (boff want size blen : ℕ)
    → (not (boff == want) || (ltb size want || ltb (size - want) blen)) ≡ false
    → (boff ≡ want) × (boff ≤ size) × (blen ≤ size - boff)
place_fits boff want size blen h = ground arith

same_as : (a b : ℕ) → not (a == b) ≡ false → a ≡ b
same_as a b h = ground arith

pub up_to : (a b : ℕ) → ltb a b ≡ false → b ≤ a
up_to a b h = ground arith

below : (a b : ℕ) → leb a b ≡ false → b < a
below a b h = ground arith

module _ (nv : NgramView) (rows_sized : length nv.rows ≡ 32 * nv.g)
    (small : length nv.bm_blob + 31 ≤ max_uint64) where
  abbrev Advanced : ℕ → GramCursor → Type 0
  Advanced i d = (d.g_cur ≤ length nv.gram_blob) × (d.b_cur ≤ length nv.bm_blob) × IsPosted nv i

  parse_gram-Advanced :
      (i : ℕ) (c : GramCursor)
      → i < nv.g
      → c.g_cur ≤ length nv.gram_blob
      → c.b_cur ≤ length nv.bm_blob
      → Gives (Advanced i) (parse_gram nv i c)
  unfolding parse_gram gram frozen_bitmap
  parse_gram-Advanced i c low g_in b_in =
      Gives-read _ 8 nv.rows (32 * i + 0) _ (omega arith) λ goff f0.
        Gives-read _ 8 nv.rows (32 * i + 8) _ (omega arith) λ glen f8.
          Gives-read _ 8 nv.rows (32 * i + 16) _ (omega arith) λ boff f16.
            Gives-read _ 8 nv.rows (32 * i + 24) _ (omega arith) λ blen f24.
              Gives-check _
                (not (goff == c.g_cur) || (glen == 0 || ltb (length nv.gram_blob - c.g_cur) glen)) _
                λ text.
                  let (g_at, g_room) = text_fits goff c.g_cur glen (length nv.gram_blob) text in
                  Gives-known _ (slice nv.gram_blob goff (goff + glen)) _
                    (take (goff + glen - goff) (drop goff nv.gram_blob))
                    (slice-fits nv.gram_blob goff (goff + glen) (omega arith) (omega arith))
                    (Gives-check _
                      (ltb 0 i
                        && not
                            (bytes_lt c.prev (take (goff + glen - goff) (drop goff nv.gram_blob))))
                      _
                      λ rise. Gives-check _ (not (boff % align == 0)) _ λ whole.
                        Gives-check _
                          (not (boff == aligned c.b_cur)
                            || (ltb (length nv.bm_blob) (aligned c.b_cur)
                                || ltb (length nv.bm_blob - aligned c.b_cur) blen))
                          _
                          λ place.
                            bitmap goff glen boff blen f0 f8 f16 f24 g_at g_room
                              (place_fits boff (aligned c.b_cur) (length nv.bm_blob) blen place))
    where
      bitmap :
          (goff glen boff blen : ℕ)
          → field nv.rows 32 i 0 ≡ parsed goff
          → field nv.rows 32 i 8 ≡ parsed glen
          → field nv.rows 32 i 16 ≡ parsed boff
          → field nv.rows 32 i 24 ≡ parsed blen
          → goff ≡ c.g_cur
          → glen ≤ length nv.gram_blob - c.g_cur
          → (boff ≡ aligned c.b_cur)
            × (boff ≤ length nv.bm_blob)
            × (blen ≤ length nv.bm_blob - boff)
          → Gives (Advanced i) (
              slice nv.bm_blob c.b_cur boff >>= λ padding.
              refuse_if (has_nonzero padding) malformed >>= λ _.
              slice nv.bm_blob boff (boff + blen) >>= λ bm. check_frozen bm >>= λ fi.
              refuse_if (leb nv.num_ords fi.max) malformed >>= λ _. parsed (record {
                g_cur = c.g_cur + glen;
                b_cur = boff + blen;
                prev = take (goff + glen - goff) (drop goff nv.gram_blob);
                max_ord = if ltb c.max_ord fi.max then fi.max else c.max_ord;
              }))
      bitmap goff glen boff blen f0 f8 f16 f24 g_at g_room (b_at, b_low, b_room) =
          let above : c.b_cur ≤ aligned c.b_cur = aligned-above c.b_cur (omega arith) in
          let there = slice-fits nv.bm_blob boff (boff + blen) (omega arith) (omega arith) in
          let text = slice-fits nv.gram_blob goff (goff + glen) (omega arith) (omega arith) in
          let bm : Bytes = take (boff + blen - boff) (drop boff nv.bm_blob) in
          Gives-known _ (slice nv.bm_blob c.b_cur boff) _
            (take (boff - c.b_cur) (drop c.b_cur nv.bm_blob))
            (slice-fits nv.bm_blob c.b_cur boff (omega arith) b_low)
            (Gives-check _ (has_nonzero (take (boff - c.b_cur) (drop c.b_cur nv.bm_blob))) _ λ zero.
              Gives-known _ (slice nv.bm_blob boff (boff + blen)) _ bm there (
                Gives-then IsFilled _ (check_frozen bm) _ (check_frozen-IsFilled bm)
                  λ fi passed filled. Gives-check _ (leb nv.num_ords fi.max) _ λ least. (
                    omega arith,
                    omega arith,
                    (
                      take (goff + glen - goff) (drop goff nv.gram_blob),
                      bm,
                      fi,
                      rw (f0, f8) text,
                      rw (f16, f24) there,
                      passed,
                      filled,
                      below nv.num_ords fi.max least,
                    ),
                  )))

  pub parse_grams-IsPosted :
      (rounds i : ℕ) (c : GramCursor)
      → i + rounds ≤ nv.g
      → c.g_cur ≤ length nv.gram_blob
      → c.b_cur ≤ length nv.bm_blob
      → Gives (λ d. (k : ℕ) → i ≤ k → k < i + rounds → IsPosted nv k) (parse_grams nv rounds i c)
  unfolding parse_grams
  parse_grams-IsPosted zero i c fit g_in b_in = λ k low high. absurd (omega arith)
  parse_grams-IsPosted (suc rounds) i c fit g_in b_in =
      Gives-bind (Advanced i) _ (parse_gram nv i c) _
        (parse_gram-Advanced i c (omega arith) g_in b_in)
        λ d (g_in', b_in', here).
          Gives-map _ _ (parse_grams nv rounds (i + 1) d)
            (parse_grams-IsPosted rounds (i + 1) d (omega arith) g_in' b_in')
            λ e later. λ k low high. elim (Bool-cases (k == i)) [
              | inl same ↦ let one : i ≡ k = ground arith in subst (IsPosted nv) one here
              | inr other ↦ later k (ground arith) (omega arith)
            ]
