-- ===== src/Samples/Exact.antt =====
-- engine/exact/exact.go on concrete keys.
use kurn.Prelude.{◌≡◌, refl, List, [], ◌∷◌, arith}
use kurn.Prelude.Bytes.{Bytes, codes}
use kurn.Prelude.Dict.{lookup, insert}
use kurn.Exact.Index.{Index, ok, lookup_ords, run_at, pack, restore}
use kurn.Exact.Build.{Builder, finish, add, add_key, run_of, ends_with, last?}
use kurn.Exact.Runs.{add_all, holders}
use kurn.Exact.Answers.{finish_total}

abbrev held : List (List Bytes)
held = (codes "x" ∷ codes "y" ∷ codes "x" ∷ []) ∷ (codes "" ∷ []) ∷ (codes "y" ∷ []) ∷ []

abbrev frozen : Index
frozen = record {
  m = (codes "x", 1) ∷ (codes "y", 1048578) ∷ [];
  arena = codes "xy";
  postings = 0 ∷ 0 ∷ 2 ∷ [];
  num_ords = 3;
}

-- Opens what building and looking up compute with.
exact_runs : Unit {0}
unfolding finish add add_all add_key run_of ends_with last? lookup insert lookup_ords run_at pack
    restore
exact_runs = tt

finish_run : finish (add_all 0 held []) ≡ ok frozen
unfolding exact_runs
finish_run = refl

restore_run : restore (codes "xy") (1 ∷ 1 ∷ []) (1 ∷ 2 ∷ []) (0 ∷ 0 ∷ 2 ∷ []) ≡ ok frozen
unfolding exact_runs
restore_run = refl

answers_run : lookup_ords frozen (codes "y") ≡ holders (codes "y") 0 held
unfolding exact_runs
answers_run = refl

abbrev runs : Builder
runs = (codes "x", 0 ∷ []) ∷ (codes "y", 0 ∷ 2 ∷ []) ∷ []

finish_total_example : (i : Index) × (finish runs ≡ ok i)
unfolding last?
finish_total_example =
    finish_total runs
      ((0, refl, omega arith), omega arith, ((2, refl, omega arith), omega arith, tt)) (omega arith)

finish-runs : finish runs ≡ ok frozen
unfolding exact_runs
finish-runs = refl
