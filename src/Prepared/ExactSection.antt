-- ===== src/Prepared/ExactSection.antt =====
-- engine/prepared/view.go: the exact section, its parser, and the index over it. `unsafe.String` and
-- `unsafe.Slice` are the bytes and the words that they view.
pub mod Held
pub mod Restored
pub mod Accepted
use kurn.Prelude.{
  ℕ, zero, suc, ◌+◌, ◌-◌, ◌*◌, ◌/◌, ◌%◌, Bool, true, false, not, ◌&&◌, ◌||◌, List, [], ◌∷◌, ltb,
  leb, ◌==◌, length, take, drop,
}
use kurn.Prelude.Bytes.{Bytes, bytes_lt}
use kurn.Exact.Index.{Index, Result, max_run, max_uint32, restore}
use kurn.Prepared.Words.{malformed, unaligned, Parsed, parsed, ◌>>=◌, le}
use kurn.Prepared.Format.{refuse_if}

-- `exactView`
pub record ExactView : Type 0 where
  pub k : ℕ
  pub p : ℕ
  pub key_lens : Bytes
  pub run_lens : Bytes
  pub postings : Bytes
  pub arena : Bytes

-- `le32(table, 4*i)`
abbrev pub word : Bytes → ℕ → Parsed ℕ
word table i = le 4 table (4 * i)

-- The inner loop of `parseExactSection`: a run of `rounds` postings from the `j`th on, for `n`
-- records; `first` until one has been read.
unfoldable pub check_run : ℕ → Bytes → ℕ → ℕ → Bool → ℕ → Parsed (Unit {0})
check_run n postings zero j first last = parsed tt
check_run n postings (suc rounds) j first last = word postings j >>= λ o.
    refuse_if (leb n o) malformed >>= λ _. refuse_if (not first && leb o last) malformed >>= λ _.
    check_run n postings rounds (j + 1) false o

-- Where the outer loop stands: in the arena and in the postings.
pub record Offsets : Type 0 where
  pub a_off : ℕ
  pub p_off : ℕ

-- The outer loop, with `rounds` keys to go from the `i`th and the key before it.
unfoldable pub check_exact_keys : ℕ → ExactView → ℕ → ℕ → Offsets → Bytes → Parsed Offsets
unfolding check_run
check_exact_keys n ev zero i at prev = parsed at
check_exact_keys n ev (suc rounds) i at prev = word ev.key_lens i >>= λ kl.
    word ev.run_lens i >>= λ rl.
    refuse_if (kl == 0 || ltb (length ev.arena - at.a_off) kl) malformed >>= λ _.
    refuse_if (rl == 0 || (ltb max_run rl || ltb (ev.p - at.p_off) rl)) malformed >>= λ _.
    refuse_if (ltb 0 i && not (bytes_lt prev (take kl (drop at.a_off ev.arena)))) malformed >>= λ _.
    check_run n ev.postings rl at.p_off true 0 >>= λ _.
    check_exact_keys n ev rounds (i + 1) (record { a_off = at.a_off + kl; p_off = at.p_off + rl })
      (take kl (drop at.a_off ev.arena))

abbrev pub exact_view_of : Bytes → ℕ → ℕ → ExactView
exact_view_of b k p = record {
  k = k;
  p = p;
  key_lens = take (4 * k) (drop 24 b);
  run_lens = take (4 * k) (drop (24 + 4 * k) b);
  postings = take (4 * p) (drop (24 + 8 * k) b);
  arena = drop (24 + 8 * k + 4 * p) b;
}

-- `parseExactSection`, for a view of `n` records
unfoldable pub parse_exact_section : ℕ → Bytes → Parsed ExactView
unfolding check_exact_keys
parse_exact_section n b = refuse_if (ltb (length b) 24) malformed >>= λ _. le 8 b 0 >>= λ k.
    le 8 b 8 >>= λ p. le 8 b 16 >>= λ arena_len.
    refuse_if (ltb ((length b - 24) / 8) k) malformed >>= λ _.
    refuse_if (ltb ((length b - 24 - 8 * k) / 4) p) malformed >>= λ _.
    refuse_if (not (arena_len == length b - 24 - 8 * k - 4 * p)) malformed >>= λ _.
    refuse_if (ltb max_uint32 p) malformed >>= λ _.
    check_exact_keys n (exact_view_of b k p) k 0 (record { a_off = 0; p_off = 0 }) [] >>= λ at.
    refuse_if (not (at.a_off == arena_len) || not (at.p_off == p)) malformed >>= λ _.
    parsed (exact_view_of b k p)

-- Some words of a table, from the `i`th on.
unfoldable pub words : Bytes → ℕ → ℕ → Parsed (List ℕ)
words table zero i = parsed []
words table (suc count) i =
    word table i >>= λ x. words table count (i + 1) >>= λ more. parsed (x ∷ more)

-- What `exact.Restore` takes.
pub record ExactParts : Type 0 where
  pub arena : Bytes
  pub key_lens : List ℕ
  pub run_lens : List ℕ
  pub postings : List ℕ

-- `exactParts`; the postings begin at the address.
unfoldable pub exact_parts : ℕ → ExactView → Parsed ExactParts
unfolding words
exact_parts address ev = words ev.key_lens ev.k 0 >>= λ kl. words ev.run_lens ev.k 0 >>= λ rl.
    refuse_if (ltb 0 ev.p && not (address % 4 == 0)) unaligned >>= λ _.
    words ev.postings ev.p 0 >>= λ post.
    parsed (record { arena = ev.arena; key_lens = kl; run_lens = rl; postings = post })

-- `ExactIndex` and `ExactCompanionIndex`
unfoldable pub exact_index : ℕ → ExactView → Parsed (Result Index)
unfolding exact_parts
exact_index address ev =
    exact_parts address ev >>= λ x. parsed (restore x.arena x.key_lens x.run_lens x.postings)
