-- ===== src/Live/Sound.antt =====
-- engine/list.go: what the overlay's sources and the tombstones say of a base, kept by the mutations.
use kurn.Prelude.{
  ◌≡◌, refl, sym, true, Option, none, some, List, [], ◌∷◌, Bool-cases, inl, inr, arith,
}
use kurn.Prelude.Bytes.{Bytes, bytes_eq, bytes_eq_iff}
use kurn.Prelude.Dict.{Dict, lookup, insert, remove, lookup-insert, lookup-remove}
use kurn.Live.Types.{Entry, Segment}
use kurn.Live.Mutate.{
  Sources, is_some, in_base, mask, put_all, take_out, JournalRec, upsert_rec, delete_rec,
  unknown_rec, fold_journal,
}
use kurn.Live.Fold.{Keyed}

-- Of a base, the overlay's sources and the tombstones: each entry is under its ID, a live ID of
-- the overlay masks the base's copy, and only IDs of the base are tombstoned.
pub record IsSound (base : Option Segment) (s : Sources) : Type 0 where
  pub keyed : Keyed s.src
  pub masks :
      (id : Bytes)
      → is_some (lookup id s.src) ≡ true
      → in_base base id ≡ true
      → is_some (lookup id s.tomb) ≡ true
  pub within : (id : Bytes) → is_some (lookup id s.tomb) ≡ true → in_base base id ≡ true

Keyed-insert : (e : Entry) (m : Dict Entry) → Keyed m → Keyed (insert e.id e m)
unfolding insert
Keyed-insert e [] h = (refl, tt)
Keyed-insert e ((k, x) ∷ m) h = elim (Bool-cases (bytes_eq k e.id)) [
  | inl same ↦ rw (same, Keyed) (sym ((bytes_eq_iff k e.id).0 same), h.1)
  | inr other ↦ rw (other, Keyed) (h.0, Keyed-insert e m h.1)
]

Keyed-remove : (k : Bytes) (m : Dict Entry) → Keyed m → Keyed (remove k m)
unfolding remove
Keyed-remove k [] h = tt
Keyed-remove k ((j, x) ∷ m) h = elim (Bool-cases (bytes_eq j k)) [
  | inl same ↦ rw (same, Keyed) (Keyed-remove k m h.1)
  | inr other ↦ rw (other, Keyed) (h.0, Keyed-remove k m h.1)
]

IsSound-put :
    (base : Option Segment) (e : Entry) (s : Sources)
    → IsSound base s
    → IsSound base (record { src = insert e.id e s.src; tomb = mask base e.id s.tomb })
IsSound-put base e s h = record {
  keyed = Keyed-insert e s.src h.keyed;
  masks = λ id p q. ground (
    arith,
    lookup-insert e.id id e s.src,
    lookup-insert e.id id tt s.tomb,
    bytes_eq_iff e.id id,
    h.masks id,
  );
  within =
      λ id p. ground (arith, lookup-insert e.id id tt s.tomb, bytes_eq_iff e.id id, h.within id);
}

pub IsSound-put_all :
    (base : Option Segment) (entries : List Entry) (s : Sources)
    → IsSound base s
    → IsSound base (put_all base entries s)
unfolding put_all
IsSound-put_all base [] s h = h
IsSound-put_all base (e ∷ entries) s h =
    IsSound-put_all base entries
      (record { src = insert e.id e s.src; tomb = mask base e.id s.tomb }) (IsSound-put base e s h)

pub IsSound-take_out :
    (base : Option Segment) (k : Bytes) (s : Sources)
    → IsSound base s
    → IsSound base (take_out base k s)
unfolding take_out
IsSound-take_out base k s h = record {
  keyed = Keyed-remove k s.src h.keyed;
  masks = λ id p q. ground (
    arith,
    lookup-remove k id s.src,
    lookup-insert k id tt s.tomb,
    bytes_eq_iff k id,
    h.masks id,
  );
  within = λ id p. ground (arith, lookup-insert k id tt s.tomb, bytes_eq_iff k id, h.within id);
}

pub IsSound-fold_journal :
    (base : Option Segment) (ops : List JournalRec) (s : Sources)
    → IsSound base s
    → IsSound base (fold_journal base ops s)
unfolding fold_journal
IsSound-fold_journal base [] s h = h
IsSound-fold_journal base (upsert_rec (some e) ∷ ops) s h =
    IsSound-fold_journal base ops (put_all base (e ∷ []) s) (IsSound-put_all base (e ∷ []) s h)
IsSound-fold_journal base (upsert_rec none ∷ ops) s h = IsSound-fold_journal base ops s h
IsSound-fold_journal base (delete_rec k ∷ ops) s h =
    IsSound-fold_journal base ops (take_out base k s) (IsSound-take_out base k s h)
IsSound-fold_journal base (unknown_rec ∷ ops) s h = IsSound-fold_journal base ops s h
