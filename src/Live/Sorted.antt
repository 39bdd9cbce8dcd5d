-- ===== src/Live/Sorted.antt =====
-- engine/list.go: the sorting of entries by ID, with what is kept of a sorted list.
use kurn.Prelude.{
  ◌≡◌, refl, ap, ◌∙◌, inl, inr, Bool, false, List, [], ◌∷◌, ◌++◌, if◌then◌else◌, Bool-cases, arith,
  keep,
}
use kurn.Prelude.Bytes.{bytes_lt}
use kurn.Prelude.Order.{bytes_lt_split, bytes_lt_asym}
use kurn.Live.Types.{Entry}
use kurn.Live.Segment.{insert_by_id, sort_by_id}

-- No entry of the list has an ID below this one's.
Above : Entry → List Entry → Type 0
Above e [] = Unit
Above e (x ∷ l) = (bytes_lt x.id e.id ≡ false) × Above e l

IsSorted : List Entry → Type 0
IsSorted [] = Unit
IsSorted (x ∷ l) = Above x l × IsSorted l

not_below :
    (x y e : Entry)
    → bytes_lt y.id x.id ≡ false
    → bytes_lt x.id e.id ≡ false
    → bytes_lt y.id e.id ≡ false
not_below x y e above under = elim (Bool-cases (bytes_lt y.id e.id)) [
  | inl below ↦ cc (bytes_lt_split y.id x.id e.id below above)
  | inr e ↦ e
]

Above-trans : (x e : Entry) (l : List Entry) → bytes_lt x.id e.id ≡ false → Above x l → Above e l
unfolding Above
Above-trans x e [] under h = tt
Above-trans x e (y ∷ l) under h = (not_below x y e h.0 under, Above-trans x e l under h.1)

insert_by_id-Above : (e : Entry) (l : List Entry) → Above e l → insert_by_id e l ≡ e ∷ l
unfolding insert_by_id Above
insert_by_id-Above e [] h = refl
insert_by_id-Above e (x ∷ l) h = rw h.0 refl

Above-insert_by_id :
    (x e : Entry) (l : List Entry)
    → bytes_lt e.id x.id ≡ false
    → Above x l
    → Above x (insert_by_id e l)
unfolding insert_by_id Above
Above-insert_by_id x e [] h g = (h, tt)
Above-insert_by_id x e (y ∷ l) h g = elim (Bool-cases (bytes_lt y.id e.id)) [
  | inl below ↦ rw below (g.0, Above-insert_by_id x e l h g.1)
  | inr above ↦ rw above (h, g)
]

insert_by_id-IsSorted : (e : Entry) (l : List Entry) → IsSorted l → IsSorted (insert_by_id e l)
unfolding insert_by_id IsSorted Above
insert_by_id-IsSorted e [] h = (tt, tt)
insert_by_id-IsSorted e (x ∷ l) h = elim (Bool-cases (bytes_lt x.id e.id)) [
  | inl below ↦
      rw below (
        Above-insert_by_id x e l (bytes_lt_asym x.id e.id below) h.0,
        insert_by_id-IsSorted e l h.1,
      )
  | inr above ↦ rw above ((above, Above-trans x e l above h.0), h)
]

sort_by_id-IsSorted : (l : List Entry) → IsSorted (sort_by_id l)
unfolding sort_by_id IsSorted
sort_by_id-IsSorted [] = tt
sort_by_id-IsSorted (e ∷ l) = insert_by_id-IsSorted e (sort_by_id l) (sort_by_id-IsSorted l)

sort_by_id-done : (l : List Entry) → IsSorted l → sort_by_id l ≡ l
unfolding sort_by_id IsSorted
sort_by_id-done [] h = refl
sort_by_id-done (e ∷ l) h = ap (insert_by_id e) (sort_by_id-done l h.1) ∙ insert_by_id-Above e l h.0

-- A tail that is sorted first changes nothing.
pub sort_by_id-append :
    (xs ys : List Entry) → sort_by_id (xs ++ sort_by_id ys) ≡ sort_by_id (xs ++ ys)
unfolding sort_by_id
sort_by_id-append [] ys = sort_by_id-done (sort_by_id ys) (sort_by_id-IsSorted ys)
sort_by_id-append (x ∷ xs) ys = ap (insert_by_id x) (sort_by_id-append xs ys)

Above-keep : (p : Entry → Bool) (e : Entry) (l : List Entry) → Above e l → Above e (keep p l)
unfolding Above
Above-keep p e [] h = tt
Above-keep p e (x ∷ l) h = elim (Bool-cases (p x)) [
  | inl kept ↦ rw kept (h.0, Above-keep p e l h.1)
  | inr gone ↦ rw gone (Above-keep p e l h.1)
]

keep-insert_by_id :
    (p : Entry → Bool) (e : Entry) (l : List Entry)
    → IsSorted l
    → keep p (insert_by_id e l) ≡ (if p e then insert_by_id e (keep p l) else keep p l)
unfolding insert_by_id IsSorted Above
keep-insert_by_id p e [] h = ground arith
keep-insert_by_id p e (x ∷ l) h = elim (Bool-cases (bytes_lt x.id e.id)) [
  | inl below ↦ ground (arith, keep-insert_by_id p e l h.1)
  | inr above ↦
      let front =
        insert_by_id-Above e (keep p (x ∷ l))
          (Above-keep p e (x ∷ l) (above, Above-trans x e l above h.0)) in
      ground (arith, front)
]

-- What is kept of a sorted list is what is kept, sorted.
pub keep-sort_by_id :
    (p : Entry → Bool) (l : List Entry) → keep p (sort_by_id l) ≡ sort_by_id (keep p l)
unfolding sort_by_id
keep-sort_by_id p [] = refl
keep-sort_by_id p (e ∷ l) =
    keep-insert_by_id p e (sort_by_id l) (sort_by_id-IsSorted l)
    ∙ ap (λ r. if p e then insert_by_id e r else r) (keep-sort_by_id p l)
    ∙ ground arith
