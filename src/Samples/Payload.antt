-- ===== src/Samples/Payload.antt =====
-- engine/payload.go on concrete payloads.
use kurn.Prelude.{◌≡◌, ◌≢◌, ◌↔◌, refl, Bool, true, false, [], ◌∷◌, ◌++◌, some, length, arith}
use kurn.Prelude.Bytes.{Bytes, codes}
use kurn.Filter.Value.{FilterValue, filter_string}
use kurn.Filter.Number.{canonical_number_token, canonical}
use kurn.Payload.Token.{ok, fail, out_of_fuel, trailing_data, ws, raw_string, is_space, quote}
use kurn.Payload.Scalar.{raw_scalar}
use kurn.Payload.Skip.{skip_value, skip_switch, member_key, object_separator, array_separator}
use kurn.Payload.Unquote.{decoded_string_eq}
use kurn.Payload.Walk.{
  FilterNode, node, leaf, branch, eval, walk_value, walk_switch, member_value, child, fire,
  matches_string, matches_scalar,
}
use kurn.Payload.Total.{Ends, Under, skip-Ends}
use kurn.Payload.Cut.{raw_string_cut}
use kurn.Payload.Verdict.{IsDocument, eval-answers_iff, eval-ne-out_of_fuel}

abbrev wanted : FilterValue
wanted = record {
  is_in = false;
  scalars = record { kind = filter_string; value = codes "SDN"; clean = true } ∷ [];
}

-- The trie of the one path `meta.program`.
abbrev root : FilterNode
root =
    node
      (branch (codes "meta") true
        (node
          (branch (codes "program") true (node leaf (record { bit = 1; value = wanted } ∷ [])) leaf)
          [])
        leaf)
      []

abbrev good : Bytes
good = codes "{\"meta\": [{\"x\":1}, {\"program\":\"S\\u0044N\"}]}"

abbrev torn : Bytes
torn = codes "{\"meta\":{\"program\":\"SDN\"}},"

payload_runs : Unit {0}
unfolding eval walk_value skip_value walk_switch skip_switch member_value member_key
    object_separator array_separator child fire matches_string matches_scalar decoded_string_eq
    raw_string raw_scalar ws is_space canonical_number_token
payload_runs = tt

-- An array descends, and an escaped spelling equals its decoded form.
eval_run : eval root 1 good ≡ ok true
unfolding payload_runs
eval_run = refl

-- A corrupt tail cannot hide behind a hit.
eval-torn : eval root 1 torn ≡ fail trailing_data
unfolding payload_runs
eval-torn = refl

canonical_run :
    (canonical_number_token true (codes "-1.50e2") ≡ canonical (codes "-150"))
    × (canonical_number_token true (codes "0.0125E1") ≡ canonical (codes "0.125"))
    × (canonical_number_token true (codes "-0e9") ≡ canonical (codes "0"))
unfolding payload_runs
canonical_run = (refl, refl, refl)

skip-Ends_example : Ends (Under (length good)) (skip_value 100 good)
skip-Ends_example = skip-Ends 100 good (omega arith)

eval-answers_iff_example : ((v : Bool) × (eval root 1 good ≡ ok v)) ↔ IsDocument good
eval-answers_iff_example = eval-answers_iff root 1 good

eval-ne-out_of_fuel_example : eval root 1 torn ≢ fail out_of_fuel
eval-ne-out_of_fuel_example = eval-ne-out_of_fuel root 1 torn

abbrev quoted : Bytes
quoted = codes "\"a\\\"b\",1"

abbrev inner : Bytes
inner = codes "a\\\"b"

raw_string_run : raw_string quoted ≡ some (inner, codes ",1")
unfolding payload_runs
raw_string_run = refl

raw_string_cut_example : quoted ≡ quote ∷ inner ++ quote ∷ codes ",1"
raw_string_cut_example = raw_string_cut quoted inner (codes ",1") raw_string_run
