-- ===== src/Prepared/NgramSection.antt =====
-- engine/prepared/view.go: the n-gram section, its parser, and the frozen bitmaps it holds.
pub mod Grams
pub mod Accepted
use kurn.Prelude.{
  ℕ, zero, suc, ◌+◌, ◌-◌, ◌*◌, ◌%◌, Bool, true, false, not, ◌&&◌, ◌||◌, none, some, List, [], ◌∷◌,
  ltb, leb, ◌==◌, if◌then◌else◌, length, take, drop,
}
use kurn.Prelude.Bytes.{Bytes, bytes_lt}
use kurn.Prepared.Words.{malformed, Parsed, parsed, panicked, ◌>>=◌, le, align, align32}
use kurn.Prepared.Format.{refuse_if}
use kurn.Prepared.Records.{field, count}
use kurn.Prepared.Frozen.{FrozenInfo, check_frozen}

-- `b[lo:hi]`
unfoldable pub slice : Bytes → ℕ → ℕ → Parsed Bytes
slice b lo hi =
    if ltb hi lo || ltb (length b) hi then panicked else parsed (take (hi - lo) (drop lo b))

-- `ngramView`
pub record NgramView : Type 0 where
  pub num_ords : ℕ
  pub g : ℕ
  pub rows : Bytes
  pub gram_blob : Bytes
  pub bm_blob : Bytes

-- `FrozenBitmap`
unfoldable pub frozen_bitmap : NgramView → ℕ → Parsed Bytes
unfolding slice
frozen_bitmap nv i =
    field nv.rows 32 i 16 >>= λ off. field nv.rows 32 i 24 >>= λ n. slice nv.bm_blob off (off + n)

-- `Gram`; its length is not 0 in a view.
unfoldable pub gram : NgramView → ℕ → Parsed Bytes
unfolding slice
gram nv i =
    field nv.rows 32 i 0 >>= λ off. field nv.rows 32 i 8 >>= λ n. slice nv.gram_blob off (off + n)

-- The first result of `align32`
abbrev pub aligned : ℕ → ℕ
aligned n = elim (align32 n) [ none ↦ 0 | some a ↦ a ]

-- A loop over padding: some byte is not 0.
unfoldable pub has_nonzero : Bytes → Bool
has_nonzero [] = false
has_nonzero (c ∷ b) = not (c == 0) || has_nonzero b

-- Where the loop of `parseNgram` stands: in the two blobs, at the gram before, and at the greatest
-- ordinal so far.
pub record GramCursor : Type 0 where
  pub g_cur : ℕ
  pub b_cur : ℕ
  pub prev : Bytes
  pub max_ord : ℕ

unfoldable pub parse_gram : NgramView → ℕ → GramCursor → Parsed GramCursor
unfolding slice has_nonzero
parse_gram nv i c = field nv.rows 32 i 0 >>= λ goff. field nv.rows 32 i 8 >>= λ glen.
    field nv.rows 32 i 16 >>= λ boff. field nv.rows 32 i 24 >>= λ blen.
    refuse_if (not (goff == c.g_cur) || (glen == 0 || ltb (length nv.gram_blob - c.g_cur) glen))
      malformed
    >>= λ _. slice nv.gram_blob goff (goff + glen) >>= λ gram.
        refuse_if (ltb 0 i && not (bytes_lt c.prev gram)) malformed >>= λ _.
        refuse_if (not (boff % align == 0)) malformed >>= λ _.
        refuse_if
          (not (boff == aligned c.b_cur)
            || (ltb (length nv.bm_blob) (aligned c.b_cur)
                || ltb (length nv.bm_blob - aligned c.b_cur) blen))
          malformed
        >>= λ _. slice nv.bm_blob c.b_cur boff >>= λ padding.
            refuse_if (has_nonzero padding) malformed >>= λ _.
            slice nv.bm_blob boff (boff + blen) >>= λ bm. check_frozen bm >>= λ fi.
            refuse_if (leb nv.num_ords fi.max) malformed >>= λ _. parsed (record {
              g_cur = c.g_cur + glen;
              b_cur = boff + blen;
              prev = gram;
              max_ord = if ltb c.max_ord fi.max then fi.max else c.max_ord;
            })

-- The loop of `parseNgram`, with `rounds` grams to go from the `i`th.
unfoldable pub parse_grams : NgramView → ℕ → ℕ → GramCursor → Parsed GramCursor
unfolding parse_gram
parse_grams nv zero i c = parsed c
parse_grams nv (suc rounds) i c = parse_gram nv i c >>= λ d. parse_grams nv rounds (i + 1) d

-- The parts of a section with `g` grams whose texts have `gram_len` bytes.
abbrev pub ngram_view_of : Bytes → ℕ → ℕ → ℕ → NgramView
ngram_view_of b g num_ords gram_len = record {
  num_ords = num_ords;
  g = g;
  rows = take (32 * g) (drop 8 b);
  gram_blob = take gram_len (drop (24 + 32 * g) b);
  bm_blob = drop (aligned (24 + 32 * g + gram_len)) b;
}

-- `parseNgram`, for a view of `n` records, where the host has the frozen format
unfoldable pub parse_ngram : ℕ → Bytes → Parsed NgramView
unfolding parse_grams
parse_ngram n b = count b 0 32 16 >>= λ g. le 8 b (8 + 32 * g) >>= λ num_ords.
    le 8 b (8 + 32 * g + 8) >>= λ gram_len.
    refuse_if (ltb (length b - (24 + 32 * g)) gram_len) malformed >>= λ _.
    refuse_if (ltb (length b) (aligned (24 + 32 * g + gram_len))) malformed >>= λ _.
    slice b (24 + 32 * g + gram_len) (aligned (24 + 32 * g + gram_len)) >>= λ padding.
    refuse_if (has_nonzero padding) malformed >>= λ _. refuse_if (ltb n num_ords) malformed >>= λ _.
    let nv = ngram_view_of b g num_ords gram_len in
    parse_grams nv g 0 (record { g_cur = 0; b_cur = 0; prev = []; max_ord = 0 }) >>= λ c.
    refuse_if (not (c.g_cur == gram_len)) malformed >>= λ _.
    refuse_if (not (c.b_cur == length nv.bm_blob)) malformed >>= λ _.
    refuse_if (not (num_ords == (if ltb 0 g then c.max_ord + 1 else 0))) malformed >>= λ _.
    parsed nv
