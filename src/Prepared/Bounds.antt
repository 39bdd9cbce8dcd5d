-- ===== src/Prepared/Bounds.antt =====
-- engine/prepared/format.go: where the sections of a table that is accepted lie.
use kurn.Prelude.{
  ◌≡◌, ◌≢◌, refl, sym, ap, ◌⊎◌, inl, inr, ℕ, zero, suc, ◌+◌, ◌-◌, ◌*◌, ◌/◌, ◌%◌, ◌^◌, ◌≤◌, ◌<◌,
  Bool, true, false, not, ◌||◌, Option, none, some, List, [], ◌∷◌, ltb, ◌==◌, length, take,
  Bool-cases, arith,
}
use kurn.Prelude.Bits.{bit_and_mask}
use kurn.Prelude.Bytes.{Bytes, bytes_eq}
use kurn.Prepared.Words.{
  FormatError, malformed, incompatible, Parsed, parsed, ◌>>=◌, >>=-eq-parsed, parsed-injective, le,
  max_uint64, align, and_not, align32,
}
use kurn.Prepared.Format.{
  Section, end_of, Table, find, refuse_if, has_seen, flag_required, section_at, head_len, Walked,
  misplaced, check_section, read_sections, walk_past, walk_start, first_off, check_sections,
  parse_table, header_size, table_entry_size, digest_size, magic, max_sections, major_version,
}

pub align32-rounds : (n : ℕ) → n + 31 ≤ max_uint64 → align32 n ≡ some ((n + 31) / 32 * 32)
unfolding align32
align32-rounds n h =
    let fits : ltb (max_uint64 - (align - 1)) n ≡ false = ground arith in
    let parts : n + align - 1 ≡ (n + 31) / 32 * 2 ^ 5 + (n + 31) % 32 = omega arith in
    rw (fits, parts, bit_and_mask 5 ((n + 31) / 32) ((n + 31) % 32) (omega arith))
      (ap some (omega arith))

-- What a check lets pass goes on.
pub refuse_if-then {ℓ} :
    {A : Type ℓ} (b : Bool) (e : FormatError) (next : Unit {0} → Parsed A) {v : A}
    → (refuse_if b e >>= next) ≡ parsed v
    → (b ≡ false) × (next tt ≡ parsed v)
refuse_if-then true e next h = cc
refuse_if-then false e next h = (refl, h)

refuse_if-passed :
    (b : Bool) (e : FormatError) (u : Unit {0}) → refuse_if b e ≡ parsed u → b ≡ false
refuse_if-passed true e u h = cc
refuse_if-passed false e u h = refl

-- One section behind another, from `lo` on and past `below`, aligned and inside the file.
pub Spans : ℕ → ℕ → ℕ → List Section → Type 0
Spans file_size lo below [] = Unit
Spans file_size lo below (s ∷ sections) =
    (lo ≤ s.off)
    × (below < s.off)
    × (s.off % 32 ≡ 0)
    × (end_of s ≤ file_size)
    × Spans file_size (end_of s) s.off sections

floor_of : ℕ → Walked → ℕ
floor_of first w = elim w.prev [ none ↦ first | some p ↦ w.prev_end ]

below_of : Walked → ℕ
below_of w = elim w.prev [ none ↦ 0 | some p ↦ p.off ]

placed :
    (first : ℕ) (prev : Option Section) (prev_end : ℕ) (seen : List ℕ) (s : Section)
    → 0 < first
    → misplaced first (record { prev = prev; prev_end = prev_end; seen = seen }) s ≡ false
    → (floor_of first (record { prev = prev; prev_end = prev_end; seen = seen }) ≤ s.off)
      × (below_of (record { prev = prev; prev_end = prev_end; seen = seen }) < s.off)
unfolding misplaced floor_of below_of
placed first none prev_end seen s pos h = let at : first ≤ s.off = ground arith in (at, omega arith)
placed first (some p) prev_end seen s pos h = (ground arith, ground arith)

check_section-placed :
    (file_size first : ℕ) (w : Walked) (s : Section) (u : Unit {0})
    → 0 < first
    → check_section file_size first w s ≡ parsed u
    → (floor_of first w ≤ s.off) × (below_of w < s.off) × (s.off % 32 ≡ 0) × (end_of s ≤ file_size)
unfolding check_section
check_section-placed file_size first w s u pos h =
    let (_, h1) = refuse_if-then (not (and_not s.flags flag_required == 0)) malformed _ h in
    let (_, h2) = refuse_if-then (has_seen s.kind w.seen) malformed _ h1 in
    let (whole, h3) = refuse_if-then (not (s.off % align == 0)) malformed _ h2 in
    let (_, h4) = refuse_if-then (ltb (max_uint64 - s.off) s.length) malformed _ h3 in
    let (inside, h5) = refuse_if-then (ltb file_size (end_of s)) malformed _ h4 in
    let (above, past) =
      placed first w.prev w.prev_end w.seen s pos (refuse_if-passed _ malformed u h5) in
    (above, past, ground arith, ground arith)

read_sections-Spans :
    (head : Bytes) (file_size first n i : ℕ) (w : Walked) (r : List Section × Walked)
    → 0 < first
    → read_sections head file_size first n i w ≡ parsed r
    → Spans file_size (floor_of first w) (below_of w) r.0
unfolding read_sections Spans floor_of below_of
read_sections-Spans head file_size first zero i w r pos h = rw (sym (parsed-injective h)) tt
read_sections-Spans head file_size first (suc n) i w r pos h =
    let (s, _, h1) = >>=-eq-parsed (section_at head i) _ h in
    let (u, checked, h2) = >>=-eq-parsed (check_section file_size first w s) _ h1 in
    let (rest, read, h3) =
      >>=-eq-parsed (read_sections head file_size first n (i + 1) (walk_past w s)) _ h2 in
    let (above, past, aligned, inside) = check_section-placed file_size first w s u pos checked in
    let behind : Spans file_size (end_of s) s.off rest.0 =
      read_sections-Spans head file_size first n (i + 1) (walk_past w s) rest pos read in
    rw (sym (parsed-injective h3)) (above, past, aligned, inside, behind)

-- The length that the header tells, by the count of sections that it holds.
pub head_len-counted :
    (b : Bytes) (hl : ℕ)
    → head_len b ≡ parsed hl
    → (n : ℕ) × (le 4 b 16 ≡ parsed n) × (24 + n * 64 + 32 ≡ hl) × (n ≤ 64)
unfolding head_len
head_len-counted b hl h = elim (Bool-cases (ltb (length b) header_size)) [
  | inl short ↦ cc (rw short at h)
  | inr long ↦ elim (Bool-cases (bytes_eq (take 8 b) magic)) [
    | inr other ↦ cc (rw (long, other) at h)
    | inl m ↦
        let (major, _, h1) = >>=-eq-parsed (le 2 b 8) _ (rw (long, m) at h) in
        let (minor, _, h2) = >>=-eq-parsed (le 2 b 10) _ h1 in
        let (_, h3) = refuse_if-then (not (major == major_version)) incompatible _ h2 in
        let (flags, _, h4) = >>=-eq-parsed (le 4 b 12) _ h3 in
        let (_, h5) = refuse_if-then (not (flags == 0)) incompatible _ h4 in
        let (n, at, h6) = >>=-eq-parsed (le 4 b 16) _ h5 in
        let (few, h7) = refuse_if-then (n == 0 || ltb max_sections n) malformed _ h6 in
        let (r, _, h8) = >>=-eq-parsed (le 4 b 20) _ h7 in
        let (_, h9) = refuse_if-then (not (r == 0)) malformed _ h8 in
        let counted : header_size + n * table_entry_size + digest_size ≡ hl = parsed-injective h9 in
        let bound : n ≤ 64 = ground arith in (n, at, counted, bound)
  ]
]

first_off-above : (hl : ℕ) → 24 ≤ hl → hl ≤ 5000 → (hl ≤ first_off hl) × (0 < first_off hl)
first_off-above hl low high =
    rw (first_off, align32-rounds hl (omega arith)) (omega arith, omega arith)

Spans-lower :
    (file_size lo lower below : ℕ) (sections : List Section)
    → lower ≤ lo
    → Spans file_size lo below sections
    → Spans file_size lower below sections
unfolding Spans
Spans-lower file_size lo lower below [] h laid = tt
Spans-lower file_size lo lower below (s ∷ sections) h (above, p, a, i, more) =
    (omega arith, p, a, i, more)

-- What an accepted table tells of the head and of its sections.
parse_table-Spans :
    (head : Bytes) (file_size : ℕ) (t : Table)
    → parse_table head file_size ≡ parsed t
    → (head_len head ≡ parsed t.head_end) × Spans file_size t.head_end 0 t.sections
unfolding parse_table floor_of below_of
parse_table-Spans head file_size t h =
    let (hl, measured, h1) = >>=-eq-parsed (head_len head) _ h in
    let (_, h2) = refuse_if-then (ltb file_size hl || ltb (length head) hl) malformed _ h1 in
    let (major, _, h3) = >>=-eq-parsed (le 2 head 8) _ h2 in
    let (minor, _, h4) = >>=-eq-parsed (le 2 head 10) _ h3 in
    let (n, _, h5) = >>=-eq-parsed (le 4 head 16) _ h4 in
    let (walked, read, h6) =
      >>=-eq-parsed (read_sections head file_size (first_off hl) n 0 walk_start) _ h5 in
    let (u, _, h7) = >>=-eq-parsed (check_sections file_size walked.0 walked.1) _ h6 in
    let (count, _, counted, few) = head_len-counted head hl measured in
    let (above, positive) = first_off-above hl (omega arith) (omega arith) in
    let laid : Spans file_size (first_off hl) 0 walked.0 =
      read_sections-Spans head file_size (first_off hl) n 0 walk_start walked positive read in
    rw (sym (parsed-injective h7))
      (measured, Spans-lower file_size (first_off hl) hl 0 walked.0 above laid)

Found-inside :
    (file_size lo below kind : ℕ) (sections : List Section) (s : Section)
    → Spans file_size lo below sections
    → find sections kind ≡ some s
    → (lo ≤ s.off) × (end_of s ≤ file_size) × (s.off % 32 ≡ 0)
unfolding Spans find
Found-inside file_size lo below kind [] s laid h = cc
Found-inside file_size lo below kind (x ∷ sections) s (above, past, aligned, inside, laid) h =
    elim (Bool-cases (x.kind == kind)) [
      | inl e ↦ let same : x ≡ s = cc (rw e at h) in rw (sym same) (above, inside, aligned)
      | inr e ↦
          let (a, b, c) =
            Found-inside file_size (end_of x) x.off kind sections s laid (rw e at h) in
          (omega arith, b, c)
    ]

-- A section that is found in an accepted table begins 32-byte aligned behind the header, the table
-- and their digest, and ends inside the file.
pub find-parse_table :
    (head : Bytes) (file_size : ℕ) (t : Table) (kind : ℕ) (s : Section)
    → parse_table head file_size ≡ parsed t
    → find t.sections kind ≡ some s
    → (t.head_end ≤ s.off) × (end_of s ≤ file_size) × (s.off % 32 ≡ 0)
find-parse_table head file_size t kind s h found =
    Found-inside file_size t.head_end 0 kind t.sections s (parse_table-Spans head file_size t h).1
      found

apart :
    (file_size lo below k j : ℕ) (sections : List Section) (s r : Section)
    → Spans file_size lo below sections
    → k ≢ j
    → find sections k ≡ some s
    → find sections j ≡ some r
    → (end_of s ≤ r.off) ⊎ (end_of r ≤ s.off)
unfolding Spans find
apart file_size lo below k j [] s r laid ne h g = cc
apart file_size lo below k j (x ∷ sections) s r (_, _, _, _, laid) ne h g =
    elim (Bool-cases (x.kind == k)) [
      | inl e ↦
          let other : (x.kind == j) ≡ false = ground arith in
          let same : x ≡ s = cc (rw e at h) in
          inl (
            rw (sym same)
              (Found-inside file_size (end_of x) x.off j sections r laid (rw other at g)).0)
      | inr e ↦ elim (Bool-cases (x.kind == j)) [
        | inl e' ↦
            let same : x ≡ r = cc (rw e' at g) in
            inr (
              rw (sym same)
                (Found-inside file_size (end_of x) x.off k sections s laid (rw e at h)).0)
        | inr e' ↦
            apart file_size (end_of x) x.off k j sections s r laid ne (rw e at h) (rw e' at g)
      ]
    ]

-- Two sections of different kinds of an accepted table do not overlap.
find-apart :
    (head : Bytes) (file_size : ℕ) (t : Table) (k j : ℕ) (s r : Section)
    → parse_table head file_size ≡ parsed t
    → k ≢ j
    → find t.sections k ≡ some s
    → find t.sections j ≡ some r
    → (end_of s ≤ r.off) ⊎ (end_of r ≤ s.off)
find-apart head file_size t k j s r h ne =
    apart file_size t.head_end 0 k j t.sections s r (parse_table-Spans head file_size t h).1 ne
