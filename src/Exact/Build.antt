-- ===== src/Exact/Build.antt =====
-- engine/exact/exact.go: the builder and its compaction into the frozen index.
use kurn.Prelude.{
  ℕ, Bool, false, Option, none, some, List, [], ◌∷◌, ◌++◌, ltb, ◌==◌, if◌then◌else◌, length,
}
use kurn.Prelude.Bytes.{Bytes}
use kurn.Prelude.Dict.{Dict, lookup, insert}
use kurn.Exact.Index.{
  Index, empty_index, Result, ok, err, ◌>>=◌, key_overflow, offset_overflow,
  ordinal_without_successor, panic, pack, max_run, max_off, max_uint32, bump_ords,
}

-- The postings of each key, so far.
abbrev pub Builder : Type 0
Builder = Dict (List ℕ)

unfoldable pub run_of : Bytes → Builder → List ℕ
run_of k b = elim (lookup k b) [ none ↦ [] | some p ↦ p ]

unfoldable pub last? : List ℕ → Option ℕ
last? [] = none
last? (x ∷ []) = some x
last? (x ∷ y ∷ l) = last? (y ∷ l)

-- The postings tail equals the ordinal: a key that this entry repeats.
unfoldable pub ends_with : ℕ → List ℕ → Bool
ends_with ord p = elim (last? p) [ none ↦ false | some l ↦ l == ord ]

unfoldable pub add_key : ℕ → Bytes → Builder → Builder
add_key ord [] b = b
add_key ord (c ∷ k) b =
    if ends_with ord (run_of (c ∷ k) b) then b else insert (c ∷ k) (run_of (c ∷ k) b ++ ord ∷ []) b

-- `Builder.Add`
unfoldable pub add : ℕ → List Bytes → Builder → Builder
add ord [] b = b
add ord (k ∷ keys) b = add ord keys (add_key ord k b)

-- The first loop of `Finish`: no key may be held by more entries than a locator can say.
unfoldable pub check_runs : Builder → Result (Unit {0})
check_runs [] = ok tt
check_runs ((k, p) ∷ src) =
    let rest = check_runs src in
    if ltb max_run (length p) then err (key_overflow k (length p)) else rest

-- The second loop: one key is copied behind those before it.
unfoldable pub compact_key : Index → Bytes → List ℕ → Result Index
unfolding pack last?
compact_key i k p =
    if ltb max_off (length i.postings)
    then err (offset_overflow (length i.postings))
    else (elim (last? p) [
      | none ↦ err panic
      | some last ↦
          if last == max_uint32
          then err (ordinal_without_successor last)
          else ok (record {
            m = insert k (pack (length i.postings) (length p)) i.m;
            arena = i.arena ++ k;
            postings = i.postings ++ p;
            num_ords = bump_ords i.num_ords last;
          })
    ])

unfoldable pub compact_keys : Index → Builder → Result Index
unfolding compact_key
compact_keys i [] = ok i
compact_keys i ((k, p) ∷ src) = compact_key i k p >>= λ j. compact_keys j src

-- `Builder.Finish`, over the bindings in whatever order Go ranges over them.
unfoldable pub finish : Builder → Result Index
unfolding check_runs compact_keys
finish src = check_runs src >>= λ _. compact_keys empty_index src
