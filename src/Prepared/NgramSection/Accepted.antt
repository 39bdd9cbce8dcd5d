-- ===== src/Prepared/NgramSection/Accepted.antt =====
-- engine/prepared/view.go: an n-gram section that is accepted holds a frozen bitmap for each gram.
use kurn.Prelude.{
  ◌≡◌, ℕ, ◌+◌, ◌-◌, ◌*◌, ◌/◌, ◌≤◌, ◌<◌, false, not, ◌&&◌, [], ltb, ◌==◌, if◌then◌else◌, length,
  take, drop, length-take-fits, length-drop, arith,
}
use native.Mathlib.Nat.{le-div_iff_mul-le}
use kurn.Prelude.Bytes.{Bytes}
use kurn.Prepared.Words.{malformed, parsed, ◌>>=◌, max_uint64}
use kurn.Prepared.Format.{refuse_if}
use kurn.Prepared.Gives.{Gives, Gives-bind, Gives-check, Gives-read, Gives-known}
use kurn.Prepared.Records.{count, max_uint32}
use kurn.Prepared.NgramSection.{
  slice, NgramView, aligned, has_nonzero, GramCursor, parse_grams, ngram_view_of, parse_ngram,
}
use kurn.Prepared.NgramSection.Grams.{
  slice-fits, aligned-above, IsPosted, up_to, parse_grams-IsPosted,
}

-- What an accepted section promises to a view of `n` records.
abbrev pub IsUsable : ℕ → NgramView → Type 0
IsUsable n nv = (nv.num_ords ≤ n) × ((k : ℕ) → k < nv.g → IsPosted nv k)

-- The counts of a section that passes `count`.
count-Gives :
    (b : Bytes) (off elem reserve : ℕ)
    → 0 < elem
    → Gives (λ n. off + 8 + n * elem + reserve ≤ length b) (count b off elem reserve)
unfolding count
count-Gives b off elem reserve pos = Gives-check _ (ltb (length b) (off + 8)) _ λ long.
    let room : off + 8 ≤ length b = up_to _ _ long in
    Gives-read _ 8 b off _ room λ n at. Gives-check _ (ltb (length b - off - 8) reserve) _ λ spare.
      Gives-check _ (ltb 0 elem && ltb ((length b - off - 8 - reserve) / elem) n) _ λ fit.
        Gives-check _ (ltb max_uint32 n) _ λ few.
          let kept : reserve ≤ length b - off - 8 = up_to _ _ spare in
          let held : n * elem ≤ length b - off - 8 - reserve =
            (le-div_iff_mul-le pos).0 (quotient ((length b - off - 8 - reserve) / elem) n fit) in
          omega arith
  where
    quotient : (q n : ℕ) → (ltb 0 elem && ltb q n) ≡ false → n ≤ q
    quotient q n h = ground arith

-- Whatever its bytes, no more than 2^64 - 32 of them, an n-gram section is read without an index out
-- of range, and what is refused is said to be malformed. If it is accepted for a view of `n` records,
-- its ordinal count is at most `n`, and each of its grams has a text and a frozen bitmap that passes
-- the check and whose greatest ordinal is below that count.
pub parse_ngram-IsUsable :
    (n : ℕ) (b : Bytes) → length b + 31 ≤ max_uint64 → Gives (IsUsable n) (parse_ngram n b)
unfolding parse_ngram
parse_ngram-IsUsable n b small =
    Gives-bind (λ g. 0 + 8 + g * 32 + 16 ≤ length b) _ (count b 0 32 16) _
      (count-Gives b 0 32 16 (omega arith))
      λ g room. Gives-read _ 8 b (8 + 32 * g) _ (omega arith) λ num_ords at.
        Gives-read _ 8 b (8 + 32 * g + 8) _ (omega arith) λ gram_len at'.
          Gives-check _ (ltb (length b - (24 + 32 * g)) gram_len) _ λ texts.
            Gives-check _ (ltb (length b) (aligned (24 + 32 * g + gram_len))) _
              λ start. tables g num_ords gram_len room (up_to _ _ texts) (up_to _ _ start)
  where
    tables :
        (g num_ords gram_len : ℕ)
        → 0 + 8 + g * 32 + 16 ≤ length b
        → gram_len ≤ length b - (24 + 32 * g)
        → aligned (24 + 32 * g + gram_len) ≤ length b
        → Gives (IsUsable n) (
            slice b (24 + 32 * g + gram_len) (aligned (24 + 32 * g + gram_len)) >>= λ padding.
            refuse_if (has_nonzero padding) malformed >>= λ _.
            refuse_if (ltb n num_ords) malformed >>= λ _.
            let nv = ngram_view_of b g num_ords gram_len in
            parse_grams nv g 0 (record { g_cur = 0; b_cur = 0; prev = []; max_ord = 0 }) >>= λ c.
            refuse_if (not (c.g_cur == gram_len)) malformed >>= λ _.
            refuse_if (not (c.b_cur == length nv.bm_blob)) malformed >>= λ _.
            refuse_if (not (num_ords == (if ltb 0 g then c.max_ord + 1 else 0))) malformed >>= λ _.
            parsed nv)
    tables g num_ords gram_len room texts start =
        let nv = ngram_view_of b g num_ords gram_len in
        let first : GramCursor = record { g_cur = 0; b_cur = 0; prev = []; max_ord = 0 } in
        let sized : length nv.rows ≡ 32 * g =
          length-take-fits (32 * g) (drop 8 b) (omega (arith, length-drop 8 b)) in
        let from = aligned (24 + 32 * g + gram_len) in
        let above : 24 + 32 * g + gram_len ≤ from =
          aligned-above (24 + 32 * g + gram_len) (omega arith) in
        let blob : length nv.bm_blob + 31 ≤ max_uint64 = omega (arith, length-drop from b) in
        let padding : Bytes =
          take (from - (24 + 32 * g + gram_len)) (drop (24 + 32 * g + gram_len) b) in
        Gives-known (IsUsable n) (slice b (24 + 32 * g + gram_len) from) _ padding
          (slice-fits b (24 + 32 * g + gram_len) from above start)
          (Gives-check (IsUsable n) (has_nonzero padding) _ λ zero.
            Gives-check (IsUsable n) (ltb n num_ords) _ λ few.
              Gives-bind _ (IsUsable n) (parse_grams nv g 0 first) _
                (parse_grams-IsPosted nv sized blob g 0 first (omega arith) (omega arith)
                  (omega arith))
                λ c posted. Gives-check (IsUsable n) (not (c.g_cur == gram_len)) _ λ g_end.
                  Gives-check (IsUsable n) (not (c.b_cur == length nv.bm_blob)) _ λ b_end.
                    Gives-check (IsUsable n)
                      (not (num_ords == (if ltb 0 g then c.max_ord + 1 else 0))) _
                      λ counted.
                        (up_to n num_ords few, λ k low. posted k (omega arith) (omega arith)))
