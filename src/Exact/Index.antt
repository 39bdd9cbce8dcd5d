-- ===== src/Exact/Index.antt =====
-- engine/exact/exact.go: the frozen index, its packed locators, its lookup and its restoring.
use Prim.Native.Nat.{bit_and, bit_or}
use kurn.Prelude.{
  ◌≡◌, refl, ℕ, ◌+◌, ◌-◌, ◌*◌, ◌/◌, ◌^◌, none, some, List, [], ◌∷◌, ltb, ◌==◌, if◌then◌else◌,
  length, take, drop,
}
use kurn.Prelude.Bytes.{Bytes}
use kurn.Prelude.Dict.{Dict, lookup, insert}

abbrev pub len_bits : ℕ
len_bits = 20

abbrev pub len_mask : ℕ
len_mask = 2 ^ 20 - 1

abbrev pub max_run : ℕ
max_run = 2 ^ 20 - 1

abbrev pub max_off : ℕ
max_off = 2 ^ 44 - 1

abbrev pub max_uint32 : ℕ
max_uint32 = 2 ^ 32 - 1

-- The errors of `Finish` and `Restore`; `panic` is an index out of range.
pub data ExactError : Type 0 where
  key_overflow : Bytes → ℕ → ExactError
  offset_overflow : ℕ → ExactError
  ordinal_without_successor : ℕ → ExactError
  section_mismatch key_out_of_bounds run_out_of_range run_past_postings : ExactError
  duplicate_key : Bytes → ExactError
  arena_left postings_left panic : ExactError

-- What an index operation returns.
pub data Result {ℓ} (T : Type ℓ) : Type ℓ where
  err : ExactError → Result T
  ok : T → Result T

-- An error ends the operation.
infixl 5 ◌>>=◌
abbrev pub ◌>>=◌ {ℓ κ} : {T : Type ℓ} {U : Type κ} → Result T → (T → Result U) → Result U
err problem >>= next = err problem
ok value >>= next = next value

pub >>=-eq-ok {ℓ κ} :
    {T : Type ℓ} {U : Type κ} (first : Result T) (next : T → Result U) {u : U}
    → (first >>= next) ≡ ok u
    → (t : T) × (first ≡ ok t) × (next t ≡ ok u)
>>=-eq-ok (err problem) next h = cc
>>=-eq-ok (ok t) next h = (t, refl, h)

pub ok-injective {ℓ} : {T : Type ℓ} {x y : T} → ok x ≡ ok y → x ≡ y
ok-injective h = cc

-- `packed(uint64(off)<<lenBits | uint64(n))`
unfoldable pub pack : ℕ → ℕ → ℕ
pack off n = bit_or (off * 2 ^ len_bits) n

-- A key of `m` stands for the view of its bytes in the arena.
pub record Index : Type 0 where
  pub m : Dict ℕ
  pub arena : Bytes
  pub postings : List ℕ
  pub num_ords : ℕ

abbrev pub empty_index : Index
empty_index = record { m = []; arena = []; postings = []; num_ords = 0 }

-- The run that a locator names.
unfoldable pub run_at : List ℕ → ℕ → List ℕ
run_at postings p = take (bit_and p len_mask) (drop (p / 2 ^ len_bits) postings)

-- `Lookup`; nil on a miss.
unfoldable pub lookup_ords : Index → Bytes → List ℕ
lookup_ords i analyzed = elim (lookup analyzed i.m) [ none ↦ [] | some p ↦ run_at i.postings p ]

abbrev pub bump_ords : ℕ → ℕ → ℕ
bump_ords n o = if ltb n (o + 1) then o + 1 else n

-- One key of `Restore`: the locator of its run, once its lengths fit.
unfoldable pub restore_key : Bytes → List ℕ → ℕ → ℕ → Dict ℕ → ℕ → ℕ → Result (Dict ℕ)
unfolding pack
restore_key arena postings a_off p_off m kl rl =
    if ltb kl 1
    then err key_out_of_bounds
    else if ltb (length arena - a_off) kl
    then err key_out_of_bounds
    else if ltb rl 1
    then err run_out_of_range
    else if ltb max_run rl
    then err run_out_of_range
    else if ltb (length postings - p_off) rl
    then err run_past_postings
    else if ltb max_off p_off
    then err (offset_overflow p_off)
    else (let k = take kl (drop a_off arena) in
        elim (lookup k m) [
          | some p ↦ err (duplicate_key k)
          | none ↦ ok (insert k (pack p_off rl) m)
        ])

-- Where the loop of `Restore` stands: the map, and its two offsets.
pub record Cursor : Type 0 where
  pub keys : Dict ℕ
  pub a_off : ℕ
  pub p_off : ℕ

unfoldable pub restore_loop : Bytes → List ℕ → Cursor → List ℕ → List ℕ → Result Cursor
unfolding restore_key
restore_loop arena postings c (kl ∷ key_lens) (rl ∷ run_lens) =
    restore_key arena postings c.a_off c.p_off c.keys kl rl >>= λ m.
    restore_loop arena postings (record { keys = m; a_off = c.a_off + kl; p_off = c.p_off + rl })
      key_lens run_lens
restore_loop arena postings c _ _ = ok c

unfoldable pub restore_ords : ℕ → List ℕ → Result ℕ
restore_ords n [] = ok n
restore_ords n (o ∷ postings) =
    let rest = restore_ords (bump_ords n o) postings in
    if o == max_uint32 then err (ordinal_without_successor o) else rest

-- What `Restore` checks behind its loop.
unfoldable pub restore_finish : Bytes → List ℕ → Cursor → Result Index
unfolding restore_ords
restore_finish arena postings c =
    if c.a_off == length arena
    then if c.p_off == length postings
      then (restore_ords 0 postings >>= λ n.
          ok (record { m = c.keys; arena = arena; postings = postings; num_ords = n }))
      else err postings_left
    else err arena_left

abbrev cursor_start : Cursor
cursor_start = record { keys = []; a_off = 0; p_off = 0 }

unfoldable pub restore : Bytes → List ℕ → List ℕ → List ℕ → Result Index
unfolding restore_loop restore_finish
restore arena key_lens run_lens postings =
    if length key_lens == length run_lens
    then (restore_loop arena postings cursor_start key_lens run_lens
        >>= restore_finish arena postings)
    else err section_mismatch
