-- ===== src/Prepared/Total.antt =====
-- engine/prepared/format.go: the reader of the table does not index out of range.
use kurn.Prelude.{
  ◌≡◌, refl, ℕ, zero, suc, ◌+◌, ◌-◌, ◌*◌, ◌%◌, ◌≤◌, Bool, true, false, not, ◌||◌, List, ltb, ◌==◌,
  if◌then◌else◌, length, take, drop, Bool-cases, inl, inr, arith, length-drop,
}
use kurn.Prelude.Bytes.{Bytes, bytes_eq}
use kurn.Prepared.Words.{
  FormatError, malformed, incompatible, unaligned, Parsed, parsed, refused, panicked, ◌>>=◌, le,
  le-in_range, max_uint64, align, and_not,
}
use kurn.Prepared.Format.{
  Section, end_of, refuse_if, has_seen, flag_required, section_at, head_len, Walked, check_section,
  read_section, read_sections, walk_past, walk_start, first_off, check_sections, any_unreadable,
  parse_table, header_size, magic, major_version, max_sections, kind_config, kind_build,
  kind_records, kind_ids, kind_ngram, kind_exact,
}
use kurn.Prepared.Bounds.{head_len-counted}

-- A table, or an error that `parseTable` documents.
abbrev pub Tells {ℓ} : {A : Type ℓ} → Parsed A → Type 0
Tells (parsed a) = Unit
Tells (refused malformed) = Unit
Tells (refused incompatible) = Unit
Tells (refused unaligned) = ⊥
Tells panicked = ⊥

>>=-Tells {ℓ κ} :
    {A : Type ℓ} {B : Type κ} (first : Parsed A) (next : A → Parsed B)
    → Tells first
    → ((a : A) → first ≡ parsed a → Tells (next a))
    → Tells (first >>= next)
>>=-Tells (parsed a) next h g = g a refl
>>=-Tells (refused malformed) next h g = tt
>>=-Tells (refused incompatible) next h g = tt
>>=-Tells (refused unaligned) next h g = absurd h
>>=-Tells panicked next h g = absurd h

-- A check and what follows it.
check-Tells {ℓ} :
    {A : Type ℓ} (b : Bool) (e : FormatError) (next : Unit {0} → Parsed A)
    → Tells {A = A} (refused e)
    → Tells (next tt)
    → Tells (refuse_if b e >>= next)
check-Tells true malformed next s h = tt
check-Tells true incompatible next s h = tt
check-Tells true unaligned next s h = absurd s
check-Tells false e next s h = h

refuse_if-Tells : (b : Bool) → Tells (refuse_if b malformed)
refuse_if-Tells true = tt
refuse_if-Tells false = tt

-- A read in range and what follows it.
read-Tells {ℓ} :
    {A : Type ℓ} (w : ℕ) (b : Bytes) (off : ℕ) (next : ℕ → Parsed A)
    → off + w ≤ length b
    → ((v : ℕ) → Tells (next v))
    → Tells (le w b off >>= next)
read-Tells w b off next fits h = let (v, e) = le-in_range w b off fits in rw e (h v)

head_len-Tells : (b : Bytes) → Tells (head_len b)
unfolding head_len
head_len-Tells b = elim (Bool-cases (ltb (length b) header_size)) [
  | inl short ↦ rw short tt
  | inr long ↦
      let room : 24 ≤ length b = ground arith in
      elim (Bool-cases (bytes_eq (take 8 b) magic)) [
        | inr other ↦ rw (long, other) tt
        | inl m ↦
            rw (long, m)
              (read-Tells 2 b 8 _ (omega arith) λ major. read-Tells 2 b 10 _ (omega arith) λ minor.
                check-Tells (not (major == major_version)) incompatible _ tt (
                  read-Tells 4 b 12 _ (omega arith) λ flags.
                    check-Tells (not (flags == 0)) incompatible _ tt (
                      read-Tells 4 b 16 _ (omega arith) λ n.
                        check-Tells (n == 0 || ltb max_sections n) malformed _ tt (
                          read-Tells 4 b 20 _ (omega arith)
                            λ r. check-Tells (not (r == 0)) malformed _ tt tt))))
      ]
]

read_section-Tells : (e : Bytes) → 64 ≤ length e → Tells (read_section e)
unfolding read_section
read_section-Tells e room = read-Tells 4 e 0 _ (omega arith) λ kind.
    read-Tells 4 e 4 _ (omega arith) λ flags. read-Tells 8 e 8 _ (omega arith) λ off.
      read-Tells 8 e 16 _ (omega arith)
        λ len. read-Tells 8 e 56 _ (omega arith) λ r. check-Tells (not (r == 0)) malformed _ tt tt

section_at-Tells :
    (head : Bytes) (i : ℕ) → 24 + (i + 1) * 64 ≤ length head → Tells (section_at head i)
unfolding section_at
section_at-Tells head i room =
    let inside : ltb (length head) (24 + i * 64) ≡ false = ground arith in
    rw inside
      (read_section-Tells (drop (24 + i * 64) head) (omega (arith, length-drop (24 + i * 64) head)))

check_section-Tells :
    (file_size first : ℕ) (w : Walked) (s : Section) → Tells (check_section file_size first w s)
unfolding check_section
check_section-Tells file_size first w s =
    check-Tells (not (and_not s.flags flag_required == 0)) malformed _ tt (
      check-Tells (has_seen s.kind w.seen) malformed _ tt (
        check-Tells (not (s.off % align == 0)) malformed _ tt (
          check-Tells (ltb (max_uint64 - s.off) s.length) malformed _ tt
            (check-Tells (ltb file_size (end_of s)) malformed _ tt (refuse_if-Tells _)))))

read_sections-Tells :
    (head : Bytes) (file_size first n i : ℕ) (w : Walked)
    → 24 + (i + n) * 64 ≤ length head
    → Tells (read_sections head file_size first n i w)
unfolding read_sections
read_sections-Tells head file_size first zero i w room = tt
read_sections-Tells head file_size first (suc n) i w room =
    >>=-Tells (section_at head i) _ (section_at-Tells head i (omega arith)) λ s _.
      >>=-Tells (check_section file_size first w s) _ (check_section-Tells file_size first w s)
        λ _ _.
          >>=-Tells (read_sections head file_size first n (i + 1) (walk_past w s)) _
            (read_sections-Tells head file_size first n (i + 1) (walk_past w s) (omega arith))
            λ rest _. tt

check_sections-Tells :
    (file_size : ℕ) (sections : List Section) (w : Walked)
    → Tells (check_sections file_size sections w)
unfolding check_sections
check_sections-Tells file_size sections w =
    check-Tells (not (w.prev_end == file_size)) malformed _ tt (
      check-Tells (any_unreadable sections) incompatible _ tt (
        check-Tells (not (has_seen kind_config w.seen)) malformed _ tt (
          check-Tells (not (has_seen kind_build w.seen)) malformed _ tt (
            check-Tells (not (has_seen kind_records w.seen)) malformed _ tt (
              check-Tells (not (has_seen kind_ids w.seen)) malformed _ tt (
                check-Tells
                  (if has_seen kind_ngram w.seen
                    then has_seen kind_exact w.seen
                    else not (has_seen kind_exact w.seen))
                  malformed _ tt (refuse_if-Tells _)))))))

-- Whatever the bytes of the head and the size told for the file, reading the table never indexes
-- out of range and never says unaligned: it gives a table, or says malformed or incompatible.
pub parse_table-total : (head : Bytes) (file_size : ℕ) → Tells (parse_table head file_size)
unfolding parse_table
parse_table-total head file_size = >>=-Tells (head_len head) _ (head_len-Tells head) λ hl measured.
    elim (Bool-cases (ltb file_size hl || ltb (length head) hl)) [
      | inl short ↦ rw short tt
      | inr long ↦
          let (count, at, counted, few) = head_len-counted head hl measured in
          let room : hl ≤ length head = ground arith in
          rw long (
            read-Tells 2 head 8 _ (omega arith) λ major.
              read-Tells 2 head 10 _ (omega arith) λ minor. rw at (
                >>=-Tells (read_sections head file_size (first_off hl) count 0 walk_start) _
                  (read_sections-Tells head file_size (first_off hl) count 0 walk_start
                    (omega arith))
                  λ walked _.
                    >>=-Tells (check_sections file_size walked.0 walked.1) _
                      (check_sections-Tells file_size walked.0 walked.1) λ _ _. tt))
    ]
