-- ===== src/Samples/Filter.antt =====
-- The order of a filter's alternatives on concrete scalars.
use kurn.Prelude.{◌≡◌, refl, false}
use kurn.Prelude.Bytes.{Bytes, codes}
use kurn.Prelude.Int.{pos, negsuc}
use kurn.Filter.Value.{filter_number, FilterScalar}
use kurn.Filter.Compare.{neg, strings_compare, compare_canonical_numbers, compare_filter_scalar}
use kurn.Filter.Swap.{compare_filter_scalar_swap}

abbrev number : Bytes → FilterScalar
number s = record { kind = filter_number; value = s; clean = false }

compare_run :
    (compare_canonical_numbers (codes "-10") (codes "-9.5") ≡ negsuc 0)
    × (compare_canonical_numbers (codes "1.25") (codes "1.2") ≡ pos 5)
    × (compare_canonical_numbers (codes "3") (codes "-3") ≡ pos 1)
unfolding compare_canonical_numbers strings_compare
compare_run = (refl, refl, refl)

compare_filter_scalar_swap_example :
    compare_filter_scalar (number (codes "1.2")) (number (codes "1.25"))
    ≡ neg (compare_filter_scalar (number (codes "1.25")) (number (codes "1.2")))
compare_filter_scalar_swap_example =
    compare_filter_scalar_swap (number (codes "1.25")) (number (codes "1.2"))
