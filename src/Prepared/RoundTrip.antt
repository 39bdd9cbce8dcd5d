-- ===== src/Prepared/RoundTrip.antt =====
-- engine/prepared/format.go: a header and table that are written are read back.
use kurn.Prelude.{
  ◌≡◌, refl, sym, ap, ◌∙◌, ℕ, ◌+◌, ◌-◌, ◌*◌, ◌^◌, ◌≤◌, ◌<◌, false, List, [], ◌∷◌, ◌++◌, ◌||◌,
  append-nil, append_assoc, ltb, ◌==◌, length, take, drop, arith, length-drop, length-append,
  drop-past, take-past, drop-drop,
}
use kurn.Prelude.Bytes.{Bytes}
use kurn.Prepared.Words.{Parsed, parsed, ◌>>=◌, >>=-eq-parsed, parsed-injective, le, put_le, le-at}
use kurn.Prepared.Format.{
  Section, Table, head_len, Walked, check_section, read_section, section_at, read_sections,
  walk_past, walk_start, first_off, check_sections, parse_table, put_section, put_sections,
  put_table, encode_head,
}

-- A section that fits its table entry.
pub record Fits (s : Section) : Type 0 where
  pub kind_fits : s.kind < 256 ^ 4
  pub flags_fit : s.flags < 256 ^ 4
  pub off_fits : s.off < 256 ^ 8
  pub length_fits : s.length < 256 ^ 8
  pub sum_fits : length s.sum ≡ 32

abbrev pub AllFit : List Section → Type 0
AllFit [] = Unit
AllFit (s ∷ secs) = Fits s × AllFit secs

-- The checks of the loop of `parseTable`, over sections that are already decoded.
unfoldable pub check_each : ℕ → ℕ → List Section → Walked → Parsed Walked
check_each file_size first [] w = parsed w
check_each file_size first (s ∷ secs) w =
    check_section file_size first w s >>= λ _. check_each file_size first secs (walk_past w s)

-- A section list that may be written: its entries fit, and the checks of the reader pass.
pub record IsWritable (secs : List Section) (file_size : ℕ) : Type 0 where
  pub fits : AllFit secs
  pub some_section : 1 ≤ length secs
  pub few : length secs ≤ 64
  pub room : 24 + length secs * 64 + 32 ≤ file_size
  pub walked : Walked
  pub placed :
      check_each file_size (first_off (24 + length secs * 64 + 32)) secs walk_start ≡ parsed walked
  pub complete : check_sections file_size secs walked ≡ parsed tt

length-put_section : (s : Section) → Fits s → length (put_section s) ≡ 64
unfolding put_section put_le
length-put_section s fit = omega (arith, length-append s.sum (put_le 8 0), fit.sum_fits)

read_section-put_section :
    (s : Section) (rest : Bytes) → Fits s → read_section (put_section s ++ rest) ≡ parsed s
unfolding read_section put_section put_le
read_section-put_section s rest fit =
    let e = put_section s ++ rest in
    let long : 64 ≤ length e =
      omega (arith, length-append (put_section s) rest, length-put_section s fit) in
    let behind = (s.sum ++ put_le 8 0) ++ rest in
    let tail : drop 32 behind ≡ put_le 8 0 ++ rest =
      ap (drop 32) (append_assoc s.sum (put_le 8 0) rest)
      ∙ drop-past 32 s.sum (put_le 8 0 ++ rest) fit.sum_fits in
    let digest : take 32 behind ≡ s.sum =
      ap (take 32) (append_assoc s.sum (put_le 8 0) rest)
      ∙ take-past 32 s.sum (put_le 8 0 ++ rest) fit.sum_fits in
    rw
      (
        le-at 4 s.kind 0 e _ (omega arith) fit.kind_fits refl,
        le-at 4 s.flags 4 e _ (omega arith) fit.flags_fit refl,
        le-at 8 s.off 8 e _ (omega arith) fit.off_fits refl,
        le-at 8 s.length 16 e _ (omega arith) fit.length_fits refl,
        le-at 8 0 56 e rest (omega arith) (omega arith) tail,
        digest,
      )
      refl

section_at-put_section :
    (head : Bytes) (i : ℕ) (s : Section) (rest : Bytes)
    → Fits s
    → drop (24 + i * 64) head ≡ put_section s ++ rest
    → section_at head i ≡ parsed s
unfolding section_at
section_at-put_section head i s rest fit at =
    let long : 64 ≤ length (drop (24 + i * 64) head) =
      rw at (omega (arith, length-append (put_section s) rest, length-put_section s fit)) in
    let inside : ltb (length head) (24 + i * 64) ≡ false =
      let k = length-drop (24 + i * 64) head in ground arith in
    rw (inside, at) (read_section-put_section s rest fit)

read_sections-put_sections :
    (head : Bytes) (file_size first i : ℕ) (secs : List Section) (d : Bytes) (w z : Walked)
    → AllFit secs
    → check_each file_size first secs w ≡ parsed z
    → drop (24 + i * 64) head ≡ put_sections secs ++ d
    → read_sections head file_size first (length secs) i w ≡ parsed (secs, z)
unfolding read_sections check_each put_sections
read_sections-put_sections head file_size first i [] d w z fit placed at =
    ap (λ x. parsed ([], x)) (parsed-injective placed)
read_sections-put_sections head file_size first i (s ∷ secs) d w z (fit, fits) placed at =
    let whole : drop (24 + i * 64) head ≡ put_section s ++ (put_sections secs ++ d) =
      at ∙ append_assoc (put_section s) (put_sections secs) d in
    let (u, ok, more) = >>=-eq-parsed (check_section file_size first w s) _ placed in
    let next : 24 + i * 64 + 64 ≡ 24 + (i + 1) * 64 = omega arith in
    let behind : drop (24 + (i + 1) * 64) head ≡ put_sections secs ++ d =
      sym (ap (λ k. drop k head) next)
      ∙ sym (drop-drop 64 (24 + i * 64) head)
      ∙ ap (drop 64) whole
      ∙ drop-past 64 (put_section s) (put_sections secs ++ d) (length-put_section s fit) in
    rw
      (
        section_at-put_section head i s (put_sections secs ++ d) fit whole,
        ok,
        read_sections-put_sections head file_size first (i + 1) secs d (walk_past w s) z fits more
            behind,
      )
      refl

length-put_sections :
    (secs : List Section) → AllFit secs → length (put_sections secs) ≡ length secs * 64
unfolding put_sections
length-put_sections [] fits = refl
length-put_sections (s ∷ secs) (fit, fits) = omega (
  arith,
  length-append (put_section s) (put_sections secs),
  length-put_section s fit,
  length-put_sections secs fits,
)

-- The table that `parse_table` gives for what `encode_head` wrote.
unfoldable pub written : (Bytes → Bytes) → List Section → Table
written sha256 secs = record {
  major = 1;
  minor = 1;
  sections = secs;
  head_end = 24 + length secs * 64 + 32;
  digest = sha256 (put_table secs);
}

module _ (sha256 : Bytes → Bytes) (secs : List Section) (file_size : ℕ)
    (sized : length (sha256 (put_table secs)) ≡ 32) (ok : IsWritable secs file_size) where
  length-put_table : length (put_table secs) ≡ 24 + length secs * 64
  unfolding put_table put_le
  length-put_table = omega (arith, length-put_sections secs ok.fits)

  length-encode_head : length (encode_head sha256 secs) ≡ 24 + length secs * 64 + 32
  unfolding encode_head
  length-encode_head =
      omega
        (arith, length-append (put_table secs) (sha256 (put_table secs)), length-put_table, sized)

  head_words :
      (le 2 (encode_head sha256 secs) 8 ≡ parsed 1)
      × (le 2 (encode_head sha256 secs) 10 ≡ parsed 1)
      × (le 4 (encode_head sha256 secs) 16 ≡ parsed (length secs))
  unfolding encode_head put_table put_le
  head_words =
      let b = encode_head sha256 secs in
      let n = length-encode_head in
      (
        le-at 2 1 8 b _ (omega arith) (omega arith) refl,
        le-at 2 1 10 b _ (omega arith) (omega arith) refl,
        le-at 4 (length secs) 16 b _ (omega arith) (omega (arith, ok.few)) refl,
      )

  head_len-encode_head : head_len (encode_head sha256 secs) ≡ parsed (24 + length secs * 64 + 32)
  unfolding head_len encode_head put_table put_le
  head_len-encode_head =
      let b = encode_head sha256 secs in
      let n = length-encode_head in
      let long : ltb (length b) 24 ≡ false = ground arith in
      let (major, minor, count) = head_words in
      let none_left : (length secs == 0) ≡ false = let k = ok.some_section in ground arith in
      let not_many : ltb 64 (length secs) ≡ false = let k = ok.few in ground arith in
      rw
        (
          long,
          major,
          minor,
          le-at 4 0 12 b _ (omega arith) (omega arith) refl,
          count,
          none_left,
          not_many,
          le-at 4 0 20 b _ (omega arith) (omega arith) refl,
        )
        refl

  sections-encode_head :
      read_sections
        (encode_head sha256 secs)
        file_size
        (first_off (24 + length secs * 64 + 32))
        (length secs)
        0
        walk_start
      ≡ parsed (secs, ok.walked)
  unfolding encode_head put_table put_le
  sections-encode_head =
      read_sections-put_sections (encode_head sha256 secs) file_size
        (first_off (24 + length secs * 64 + 32)) 0 secs (sha256 (put_table secs)) walk_start
        ok.walked ok.fits ok.placed refl

  digest-encode_head :
      take 32 (drop (24 + length secs * 64) (encode_head sha256 secs)) ≡ sha256 (put_table secs)
  unfolding encode_head
  digest-encode_head =
      let whole = take-past 32 (sha256 (put_table secs)) [] sized in
      ap (take 32) (
        drop-past (24 + length secs * 64) (put_table secs) (sha256 (put_table secs))
          length-put_table)
      ∙ ap (take 32) (sym (append-nil (sha256 (put_table secs))))
      ∙ whole

  parse_table-written :
      parse_table (encode_head sha256 secs) file_size ≡ parsed (written sha256 secs)
  unfolding parse_table written
  parse_table-written =
      let b = encode_head sha256 secs in
      let hl = 24 + length secs * 64 + 32 in
      let n = length-encode_head in
      let inside : (ltb file_size hl || ltb (length b) hl) ≡ false =
        let k = ok.room in ground arith in
      let start : hl - 32 ≡ 24 + length secs * 64 = omega arith in
      let (major, minor, count) = head_words in
      rw
        (
          head_len-encode_head, inside, major, minor, count, sections-encode_head, ok.complete,
          start, digest-encode_head,
        )
        refl

-- A header and table written for a section list that may be written, over a digest of 32 bytes, are
-- read back: the reader gives the section list, the version written, and the digest.
pub parse_table-encode_head :
    (sha256 : Bytes → Bytes) (secs : List Section) (file_size : ℕ)
    → length (sha256 (put_table secs)) ≡ 32
    → IsWritable secs file_size
    → parse_table (encode_head sha256 secs) file_size ≡ parsed (written sha256 secs)
parse_table-encode_head = parse_table-written
