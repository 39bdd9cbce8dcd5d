-- ===== src/Prepared/Frozen.antt =====
-- engine/prepared/frozen.go: the check of a frozen bitmap before it reaches the bitmap library.
use Prim.Native.Nat.{bit_or}
pub mod Tally
pub mod Trailer
pub mod Total
use kurn.Prelude.{
  ℕ, zero, suc, ◌+◌, ◌-◌, ◌*◌, ◌/◌, ◌%◌, ◌^◌, Bool, true, false, not, ◌&&◌, ◌||◌, List, [], ◌∷◌,
  ltb, leb, ◌==◌, if◌then◌else◌, length, drop,
}
use kurn.Prelude.Bytes.{Bytes}
use kurn.Prepared.Words.{malformed, Parsed, parsed, refused, panicked, ◌>>=◌, le}
use kurn.Prepared.Format.{refuse_if}

abbrev pub frozen_cookie : ℕ
frozen_cookie = 13766

abbrev pub frozen_max_conts : ℕ
frozen_max_conts = 2 ^ 16

abbrev pub frozen_bitset_bytes : ℕ
frozen_bitset_bytes = 2 ^ 13

abbrev pub frozen_array_max_card : ℕ
frozen_array_max_card = 4096

-- `frozenInfo`
pub record FrozenInfo : Type 0 where
  pub containers : ℕ
  pub cardinality : ℕ
  pub max : ℕ

-- `frozenLayout`
pub record FrozenLayout : Type 0 where
  pub n : ℕ
  pub key_words_at : ℕ
  pub counts_at : ℕ
  pub types_at : ℕ
  pub n_bitset : ℕ
  pub n_run_el : ℕ
  pub n_array_el : ℕ

-- A word whose high byte comes first.
unfoldable pub read_be : ℕ → ℕ → Bytes → Parsed ℕ
read_be zero high b = parsed high
read_be (suc w) high [] = panicked
read_be (suc w) high (c ∷ b) = read_be w (high * 256 + c) b

-- What one container of a type adds to the tally, `c` its count.
unfoldable pub tally : ℕ → ℕ → FrozenLayout → Parsed FrozenLayout
tally t c l =
    if t == 1
    then parsed (record l { n_bitset = l.n_bitset + 1 })
    else if t == 2
    then parsed (record l { n_array_el = l.n_array_el + (c + 1) })
    else if t == 3
    then parsed (record l { n_run_el = l.n_run_el + c })
    else refused malformed

-- The loop of `checkFrozenTrailer` over the typecodes, with `rounds` to go from the `i`th.
unfoldable pub tally_types : Bytes → ℕ → ℕ → FrozenLayout → Parsed FrozenLayout
unfolding tally
tally_types b zero i l = parsed l
tally_types b (suc rounds) i l = le 1 b (l.types_at + i) >>= λ t.
    le 2 b (l.counts_at + 2 * i) >>= λ c. tally t c l >>= λ m. tally_types b rounds (i + 1) m

unfoldable pub check_frozen_trailer : Bytes → Parsed FrozenLayout
unfolding read_be tally_types
check_frozen_trailer b = refuse_if (ltb (length b) 4) malformed >>= λ _.
    read_be 4 0 (drop (length b - 4) b) >>= λ be.
    refuse_if (be % 2 ^ 15 == frozen_cookie) malformed >>= λ _. le 4 b (length b - 4) >>= λ header.
    refuse_if (not (header % 2 ^ 15 == frozen_cookie)) malformed >>= λ _.
    let n = header / 2 ^ 15 in
    refuse_if (ltb n 1 || ltb frozen_max_conts n) malformed >>= λ _.
    refuse_if (ltb (length b - 4) (5 * n)) malformed >>= λ _.
    let types_at = length b - 4 - n in
    tally_types b n 0 (record {
      n = n;
      key_words_at = types_at - 2 * n - 2 * n;
      counts_at = types_at - 2 * n;
      types_at = types_at;
      n_bitset = 0;
      n_run_el = 0;
      n_array_el = 0;
    })
    >>= λ l.
        refuse_if
          (not (
            l.n_bitset * frozen_bitset_bytes + 4 * l.n_run_el + 2 * l.n_array_el == l.key_words_at))
          malformed
        >>= λ _. parsed l

-- `bits.OnesCount64`, over `k` bits
unfoldable pub ones_count : ℕ → ℕ → ℕ
ones_count zero v = 0
ones_count (suc k) v = v % 2 + ones_count k (v / 2)

-- 64 less `bits.LeadingZeros64`, over `k` bits
unfoldable pub bit_len : ℕ → ℕ → ℕ
bit_len zero v = 0
bit_len (suc k) v = let rest = bit_len k (v / 2) in if v == 0 then 0 else suc rest

-- What a container's loop has found: how many values, and one past the last of them (0 while there
-- is none, where the code has -1).
pub record Content : Type 0 where
  pub card : ℕ
  pub past : ℕ

-- The words of a bitset, with `rounds` to go from the `w`th.
unfoldable pub bitset_words : Bytes → ℕ → ℕ → ℕ → Content → Parsed Content
unfolding ones_count bit_len
bitset_words b at zero w f = parsed f
bitset_words b at (suc rounds) w f = le 8 b (at + 8 * w) >>= λ v.
    bitset_words b at rounds (w + 1) (
      if v == 0
      then f
      else record { card = f.card + ones_count 64 v; past = 64 * w + bit_len 64 v })

-- The elements of an array, with `rounds` to go from the `j`th and the one before it.
unfoldable pub array_values : Bytes → ℕ → ℕ → ℕ → ℕ → Parsed ℕ
array_values b at zero j prev = parsed prev
array_values b at (suc rounds) j prev = le 2 b (at + 2 * j) >>= λ v.
    refuse_if (ltb 0 j && leb v prev) malformed >>= λ _. array_values b at rounds (j + 1) v

-- The runs, with `rounds` to go from the `j`th.
unfoldable pub run_values : Bytes → ℕ → ℕ → ℕ → Content → Parsed Content
run_values b at zero j f = parsed f
run_values b at (suc rounds) j f = le 2 b (at + 4 * j) >>= λ first.
    le 2 b (at + 4 * j + 2) >>= λ len. refuse_if (ltb (2 ^ 16 - 1) (first + len)) malformed >>= λ _.
    refuse_if (ltb first f.past) malformed >>= λ _.
    run_values b at rounds (j + 1) (record { card = f.card + (len + 1); past = first + len + 1 })

-- Where the second pass stands: in the three data regions, and what it has found.
pub record Pass : Type 0 where
  pub bitset_at : ℕ
  pub runs_at : ℕ
  pub array_at : ℕ
  pub info : FrozenInfo

-- One container of each type, `c` its count: what it holds, and the pass behind it.
unfoldable pub bitset_container : Bytes → ℕ → Pass → Parsed (Content × Pass)
unfolding bitset_words
bitset_container b c p = bitset_words b p.bitset_at 1024 0 (record { card = 0; past = 0 }) >>= λ f.
    refuse_if (not (f.card == c + 1)) malformed >>= λ _.
    parsed (f, record p { bitset_at = p.bitset_at + frozen_bitset_bytes })

unfoldable pub array_container : Bytes → ℕ → Pass → Parsed (Content × Pass)
unfolding array_values
array_container b c p = refuse_if (ltb frozen_array_max_card (c + 1)) malformed >>= λ _.
    array_values b p.array_at (c + 1) 0 0 >>= λ last.
    parsed
      (record { card = c + 1; past = last + 1 }, record p { array_at = p.array_at + 2 * (c + 1) })

unfoldable pub run_container : Bytes → ℕ → Pass → Parsed (Content × Pass)
unfolding run_values
run_container b c p = refuse_if (ltb c 1) malformed >>= λ _.
    run_values b p.runs_at c 0 (record { card = 0; past = 0 }) >>= λ f.
    parsed (f, record p { runs_at = p.runs_at + 4 * c })

unfoldable pub container : Bytes → ℕ → ℕ → Pass → Parsed (Content × Pass)
unfolding bitset_container array_container run_container
container b t c p =
    if t == 1
    then bitset_container b c p
    else if t == 2
    then array_container b c p
    else run_container b c p

-- The second pass, with `rounds` containers to go from the `i`th and the key before it. The last
-- value of a container has 16 bits.
unfoldable pub check_containers : Bytes → FrozenLayout → ℕ → ℕ → ℕ → Pass → Parsed FrozenInfo
unfolding container
check_containers b l zero i prev_key p = parsed p.info
check_containers b l (suc rounds) i prev_key p = le 1 b (l.types_at + i) >>= λ t.
    le 2 b (l.key_words_at + 2 * i) >>= λ k.
    refuse_if (ltb 0 i && leb k prev_key) malformed >>= λ _. le 2 b (l.counts_at + 2 * i) >>= λ c.
    container b t c p >>= λ r. check_containers b l rounds (i + 1) k (record (r.1) {
      info = record {
        containers = l.n;
        cardinality = p.info.cardinality + r.0.card;
        max = bit_or (k * 2 ^ 16) ((r.0.past - 1) % 2 ^ 16);
      };
    })

unfoldable pub check_frozen : Bytes → Parsed FrozenInfo
unfolding check_frozen_trailer check_containers
check_frozen b = check_frozen_trailer b >>= λ l.
    let runs_at = l.n_bitset * frozen_bitset_bytes in
    check_containers b l l.n 0 0 (record {
      bitset_at = 0;
      runs_at = runs_at;
      array_at = runs_at + 4 * l.n_run_el;
      info = record { containers = l.n; cardinality = 0; max = 0 };
    })
