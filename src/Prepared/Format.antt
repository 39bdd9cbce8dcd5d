-- ===== src/Prepared/Format.antt =====
-- engine/prepared/format.go: the header, the section table, their reader and their writer.
use Prim.Native.Nat.{bit_and}
use kurn.Prelude.{
  ℕ, zero, suc, ◌+◌, ◌-◌, ◌*◌, ◌%◌, Bool, true, false, not, ◌&&◌, ◌||◌, Option, none, some, List,
  [], ◌∷◌, ◌++◌, ltb, leb, ◌==◌, if◌then◌else◌, length, take, drop,
}
use kurn.Prelude.Bytes.{Bytes, codes, bytes_eq}
use kurn.Prepared.Words.{
  FormatError, malformed, incompatible, Parsed, parsed, refused, panicked, ◌>>=◌, le, put_le,
  max_uint64, align, and_not, align32,
}

abbrev pub magic : Bytes
magic = codes "KURNART1"

abbrev pub major_version : ℕ
major_version = 1

abbrev pub minor_version : ℕ
minor_version = 1

abbrev pub max_sections : ℕ
max_sections = 64

abbrev pub header_size : ℕ
header_size = 24

abbrev pub table_entry_size : ℕ
table_entry_size = 64

-- `sha256.Size`
abbrev pub digest_size : ℕ
digest_size = 32

abbrev pub flag_required : ℕ
flag_required = 1

abbrev pub kind_config : ℕ
kind_config = 1

abbrev pub kind_build : ℕ
kind_build = 2

abbrev pub kind_records : ℕ
kind_records = 3

abbrev pub kind_ids : ℕ
kind_ids = 4

abbrev pub kind_ngram : ℕ
kind_ngram = 5

abbrev pub kind_exact : ℕ
kind_exact = 6

abbrev pub kind_exact_companion : ℕ
kind_exact_companion = 7

pub record Section : Type 0 where
  pub kind : ℕ
  pub flags : ℕ
  pub off : ℕ
  pub length : ℕ
  pub sum : Bytes

-- `end`; `parseTable` has checked that it does not overflow.
abbrev pub end_of : Section → ℕ
end_of s = s.off + s.length

pub record Table : Type 0 where
  pub major : ℕ
  pub minor : ℕ
  pub sections : List Section
  pub head_end : ℕ
  pub digest : Bytes

-- `find`
unfoldable pub find : List Section → ℕ → Option Section
find [] kind = none
find (s ∷ sections) kind = let rest = find sections kind in if s.kind == kind then some s else rest

-- A refusal where the condition holds.
abbrev pub refuse_if : Bool → FormatError → Parsed (Unit {0})
refuse_if true e = refused e
refuse_if false e = parsed tt

unfoldable pub head_len : Bytes → Parsed ℕ
head_len b =
    if ltb (length b) header_size
    then refused malformed
    else if not (bytes_eq (take 8 b) magic)
    then refused malformed
    else (le 2 b 8 >>= λ major. le 2 b 10 >>= λ minor.
        refuse_if (not (major == major_version)) incompatible >>= λ _. le 4 b 12 >>= λ flags.
        refuse_if (not (flags == 0)) incompatible >>= λ _. le 4 b 16 >>= λ n.
        refuse_if (n == 0 || ltb max_sections n) malformed >>= λ _. le 4 b 20 >>= λ r.
        refuse_if (not (r == 0)) malformed >>= λ _.
        parsed (header_size + n * table_entry_size + digest_size))

-- Where the loop of `parseTable` stands: the section before, its end, and the kinds seen.
pub record Walked : Type 0 where
  pub prev : Option Section
  pub prev_end : ℕ
  pub seen : List ℕ

unfoldable pub has_seen : ℕ → List ℕ → Bool
has_seen k [] = false
has_seen k (j ∷ seen) = k == j || has_seen k seen

-- How a section must stand to those before it; `first` is where the first may begin.
unfoldable pub misplaced : ℕ → Walked → Section → Bool
misplaced first w s = elim w.prev [
  | none ↦ ltb s.off first
  | some p ↦ leb s.off p.off || ltb s.off w.prev_end
]

-- What the loop of `parseTable` checks of one entry.
unfoldable pub check_section : ℕ → ℕ → Walked → Section → Parsed (Unit {0})
unfolding has_seen misplaced
check_section file_size first w s =
    refuse_if (not (and_not s.flags flag_required == 0)) malformed >>= λ _.
    refuse_if (has_seen s.kind w.seen) malformed >>= λ _.
    refuse_if (not (s.off % align == 0)) malformed >>= λ _.
    refuse_if (ltb (max_uint64 - s.off) s.length) malformed >>= λ _.
    refuse_if (ltb file_size (end_of s)) malformed >>= λ _.
    refuse_if (misplaced first w s) malformed

-- One table entry; `e[24:56]` is in range where `le64(e, 56)` is.
unfoldable pub read_section : Bytes → Parsed Section
read_section e = le 4 e 0 >>= λ kind. le 4 e 4 >>= λ flags. le 8 e 8 >>= λ off.
    le 8 e 16 >>= λ length. le 8 e 56 >>= λ r. refuse_if (not (r == 0)) malformed >>= λ _.
    parsed (record {
      kind = kind;
      flags = flags;
      off = off;
      length = length;
      sum = take digest_size (drop 24 e);
    })

-- `e := head[headerSize+i*tableEntrySize:]` and what is read from it
unfoldable pub section_at : Bytes → ℕ → Parsed Section
unfolding read_section
section_at head i =
    if ltb (length head) (header_size + i * table_entry_size)
    then panicked
    else read_section (drop (header_size + i * table_entry_size) head)

abbrev pub walk_past : Walked → Section → Walked
walk_past w s = record { prev = some s; prev_end = end_of s; seen = s.kind ∷ w.seen }

-- The loop of `parseTable`, with `n` entries to go from the `i`th: the sections read, and where it
-- stands behind them.
unfoldable pub read_sections : Bytes → ℕ → ℕ → ℕ → ℕ → Walked → Parsed (List Section × Walked)
unfolding section_at check_section
read_sections head file_size first zero i w = parsed ([], w)
read_sections head file_size first (suc n) i w = section_at head i >>= λ s.
    check_section file_size first w s >>= λ _.
    read_sections head file_size first n (i + 1) (walk_past w s) >>= λ rest.
    parsed (s ∷ rest.0, rest.1)

abbrev pub known_kind : ℕ → Bool
known_kind k = leb kind_config k && leb k kind_exact_companion

-- A section that this build does not know and must.
unfoldable pub any_unreadable : List Section → Bool
any_unreadable [] = false
any_unreadable (s ∷ sections) =
    (not (known_kind s.kind) && not (bit_and s.flags flag_required == 0)) || any_unreadable sections

-- What `parseTable` checks behind its loop.
unfoldable pub check_sections : ℕ → List Section → Walked → Parsed (Unit {0})
unfolding any_unreadable has_seen
check_sections file_size sections w = refuse_if (not (w.prev_end == file_size)) malformed >>= λ _.
    refuse_if (any_unreadable sections) incompatible >>= λ _.
    refuse_if (not (has_seen kind_config w.seen)) malformed >>= λ _.
    refuse_if (not (has_seen kind_build w.seen)) malformed >>= λ _.
    refuse_if (not (has_seen kind_records w.seen)) malformed >>= λ _.
    refuse_if (not (has_seen kind_ids w.seen)) malformed >>= λ _.
    refuse_if
      (if has_seen kind_ngram w.seen
        then has_seen kind_exact w.seen
        else not (has_seen kind_exact w.seen))
      malformed
    >>= λ _.
        refuse_if (has_seen kind_exact_companion w.seen && not (has_seen kind_ngram w.seen))
          malformed

abbrev pub walk_start : Walked
walk_start = record { prev = none; prev_end = 0; seen = [] }

-- `first, _ := align32(hl)`
abbrev pub first_off : ℕ → ℕ
first_off hl = elim (align32 hl) [ none ↦ 0 | some n ↦ n ]

unfoldable pub parse_table : Bytes → ℕ → Parsed Table
unfolding head_len read_sections check_sections
parse_table head file_size = head_len head >>= λ hl.
    refuse_if (ltb file_size hl || ltb (length head) hl) malformed >>= λ _. le 2 head 8 >>= λ major.
    le 2 head 10 >>= λ minor. le 4 head 16 >>= λ n.
    read_sections head file_size (first_off hl) n 0 walk_start >>= λ walked.
    check_sections file_size walked.0 walked.1 >>= λ _. parsed (record {
      major = major;
      minor = minor;
      sections = walked.0;
      head_end = hl;
      digest = take digest_size (drop (hl - digest_size) head);
    })

-- A table entry as it is written; its last word stays zero.
unfoldable pub put_section : Section → Bytes
unfolding put_le
put_section s =
    put_le 4 s.kind
    ++ put_le 4 s.flags
    ++ put_le 8 s.off
    ++ put_le 8 s.length
    ++ s.sum
    ++ put_le 8 0

unfoldable pub put_sections : List Section → Bytes
unfolding put_section
put_sections [] = []
put_sections (s ∷ secs) = put_section s ++ put_sections secs

-- The header and the table; the flags and the reserved word stay zero.
unfoldable pub put_table : List Section → Bytes
unfolding put_sections put_le
put_table secs =
    magic
    ++ put_le 2 major_version
    ++ put_le 2 minor_version
    ++ put_le 4 0
    ++ put_le 4 (length secs)
    ++ put_le 4 0
    ++ put_sections secs

-- `encodeHead`, over `sha256.Sum256`
unfoldable pub encode_head : (Bytes → Bytes) → List Section → Bytes
unfolding put_table
encode_head sha256 secs = put_table secs ++ sha256 (put_table secs)
