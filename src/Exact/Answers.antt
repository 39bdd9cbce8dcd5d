-- ===== src/Exact/Answers.antt =====
-- engine/exact/exact.go: the builder and `Finish` together answer for the entries that were added,
-- and `Finish` succeeds on every builder that the encoding can hold.
use kurn.Prelude.{
  ℕ, suc, ◌+◌, ◌≤◌, ◌<◌, ◌≡◌, refl, ◌∙◌, false, some, List, [], ◌∷◌, ◌++◌, ltb, ◌==◌, length,
  Bool-cases, inl, inr, arith, length-append,
}
use kurn.Prelude.Bytes.{Bytes}
use kurn.Prelude.Dict.{IsMap, insert-IsMap}
use kurn.Exact.Index.{Index, empty_index, ok, lookup_ords, max_run, max_off, max_uint32}
use kurn.Exact.Build.{
  Builder, run_of, ends_with, last?, add_key, add, check_runs, compact_key, compact_keys, finish,
}
use kurn.Exact.Runs.{holders, add_all, run_of-add_all}
use kurn.Exact.Compaction.{grown, lookup_ords-finish}

add_key-IsMap : (ord : ℕ) (k : Bytes) (b : Builder) → IsMap b → IsMap (add_key ord k b)
unfolding add_key
add_key-IsMap ord [] b m = m
add_key-IsMap ord (c ∷ k) b m = elim (Bool-cases (ends_with ord (run_of (c ∷ k) b))) [
  | inl e ↦ rw (e, IsMap) m
  | inr e ↦ rw (e, IsMap) (insert-IsMap (c ∷ k) (run_of (c ∷ k) b ++ ord ∷ []) b m)
]

add-IsMap : (ord : ℕ) (keys : List Bytes) (b : Builder) → IsMap b → IsMap (add ord keys b)
unfolding add
add-IsMap ord [] b m = m
add-IsMap ord (k ∷ keys) b m = add-IsMap ord keys (add_key ord k b) (add_key-IsMap ord k b m)

pub add_all-IsMap :
    (n : ℕ) (entries : List (List Bytes)) (b : Builder) → IsMap b → IsMap (add_all n entries b)
unfolding add_all
add_all-IsMap n [] b m = m
add_all-IsMap n (keys ∷ entries) b m =
    add_all-IsMap (suc n) entries (add n keys b) (add-IsMap n keys b m)

-- An index built over entries answers a key with the ordinals of exactly the entries that hold it,
-- ascending and each once, and the empty key with none.
pub lookup_ords-add_all :
    (entries : List (List Bytes)) (i : Index) (q : Bytes)
    → finish (add_all 0 entries []) ≡ ok i
    → lookup_ords i q ≡ holders q 0 entries
lookup_ords-add_all entries i q h =
    lookup_ords-finish (add_all 0 entries []) i q (add_all-IsMap 0 entries [] tt) h
    ∙ run_of-add_all entries q

-- What the encoding can hold: each run is not empty, not too long, and ends below 2^32 - 1.
abbrev pub Packable : Builder → Type 0
Packable [] = Unit
Packable ((k, p) ∷ src) =
    ((last : ℕ) × (last? p ≡ some last) × (last < max_uint32)) × (length p ≤ max_run) × Packable src

abbrev pub total_ords : Builder → ℕ
total_ords [] = 0
total_ords ((k, p) ∷ src) = length p + total_ords src

check_runs_total : (src : Builder) → Packable src → check_runs src ≡ ok tt
unfolding check_runs
check_runs_total [] h = refl
check_runs_total ((k, p) ∷ src) (_, small, rest) =
    let e : ltb max_run (length p) ≡ false = ground arith in rw e (check_runs_total src rest)

compact_key_total :
    (i : Index) (k : Bytes) (p : List ℕ) (last : ℕ)
    → last? p ≡ some last
    → last < max_uint32
    → length i.postings ≤ max_off
    → compact_key i k p ≡ ok (grown i k p last)
unfolding compact_key
compact_key_total i k p last e lt room =
    let fits : ltb max_off (length i.postings) ≡ false = ground arith in
    let successor : (last == max_uint32) ≡ false = ground arith in
    rw (fits, e, compact_key) (rw successor refl)

compact_keys_total :
    (src : Builder) (i : Index)
    → Packable src
    → length i.postings + total_ords src ≤ max_off
    → (j : Index) × (compact_keys i src ≡ ok j)
unfolding compact_keys
compact_keys_total [] i h room = (i, refl)
compact_keys_total ((k, p) ∷ src) i ((last, e, lt), _, rest) room =
    let (j, done) =
      compact_keys_total src (grown i k p last) rest (omega (arith, length-append i.postings p)) in
    (j, rw (compact_key_total i k p last e lt (omega arith)) done)

-- `Finish` returns an index for every builder whose runs the encoding can hold, if all runs
-- together fit in front of the largest offset.
pub finish_total :
    (src : Builder) → Packable src → total_ords src ≤ max_off → (i : Index) × (finish src ≡ ok i)
unfolding finish
finish_total src h room =
    let (i, done) = compact_keys_total src empty_index h (omega arith) in
    (i, rw (check_runs_total src h) done)
