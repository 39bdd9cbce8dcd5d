-- ===== src/Filter/Value.antt =====
-- engine/typed_filter.go: the scalars of a compiled filter, and how their kinds are ordered.
use kurn.Prelude.{Bool, List}
use kurn.Prelude.Bytes.{Bytes}

pub data ScalarKind : Type 0 where
  filter_false filter_true filter_number filter_string : ScalarKind

pub record FilterScalar : Type 0 where
  pub kind : ScalarKind
  pub value : Bytes
  pub clean : Bool

pub record FilterValue : Type 0 where
  pub is_in : Bool
  pub scalars : List FilterScalar
