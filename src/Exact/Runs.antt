-- ===== src/Exact/Runs.antt =====
-- engine/exact/exact.go: what the builder has recorded, by key.
use kurn.Prelude.{
  ℕ, suc, ◌≡◌, refl, Bool, true, false, some, List, [], ◌∷◌, ◌++◌, if◌then◌else◌, Bool-cases, inl,
  inr, arith, ==_refl, sym, ◌∙◌, ap, append-nil, append_assoc, ◌<◌,
}
use kurn.Prelude.Bytes.{Bytes, bytes_eq, bytes_eq_iff}
use kurn.Prelude.Dict.{lookup, insert, lookup-insert}
use kurn.Exact.Build.{Builder, run_of, last?, ends_with, add_key, add}

-- Whether an entry holds `k` among its analyzed keys; the empty key is never one.
abbrev pub holds : Bytes → List Bytes → Bool
holds k [] = false
holds k ([] ∷ keys) = holds k keys
holds k ((c ∷ j) ∷ keys) = if bytes_eq (c ∷ j) k then true else holds k keys

last?-append : (p : List ℕ) (x : ℕ) → last? (p ++ x ∷ []) ≡ some x
unfolding last?
last?-append [] x = refl
last?-append (y ∷ []) x = refl
last?-append (y ∷ z ∷ p) x = last?-append (z ∷ p) x

ends_with-append : (ord : ℕ) (p : List ℕ) → ends_with ord (p ++ ord ∷ []) ≡ true
unfolding ends_with
ends_with-append ord p = rw (last?-append p ord, ends_with) (==_refl ord)

run_of-insert :
    (k j : Bytes) (p : List ℕ) (b : Builder)
    → run_of j (insert k p b) ≡ (if bytes_eq k j then p else run_of j b)
unfolding run_of
run_of-insert k j p b = ground (arith, lookup-insert k j p b)

-- One key of `Add`: the ordinal goes behind the key's run, unless it ends there already.
run_of-add_key :
    (ord c : ℕ) (k j : Bytes) (b : Builder)
    → run_of j (add_key ord (c ∷ k) b) ≡ (
        if bytes_eq (c ∷ k) j
        then (if ends_with ord (run_of j b) then run_of j b else run_of j b ++ ord ∷ [])
        else run_of j b)
unfolding add_key
run_of-add_key ord c k j b =
    ground (arith, run_of-insert (c ∷ k) j (run_of (c ∷ k) b ++ ord ∷ []) b, bytes_eq_iff (c ∷ k) j)

add_key-nil : (ord : ℕ) (b : Builder) → add_key ord [] b ≡ b
unfolding add_key
add_key-nil ord b = refl

-- A run that ends with the ordinal stays as it is.
run_of-add_twice :
    (ord : ℕ) (keys : List Bytes) (j : Bytes) (b : Builder)
    → ends_with ord (run_of j b) ≡ true
    → run_of j (add ord keys b) ≡ run_of j b
unfolding add
run_of-add_twice ord [] j b h = refl
run_of-add_twice ord ([] ∷ keys) j b h = rw (add_key-nil ord b) (run_of-add_twice ord keys j b h)
run_of-add_twice ord ((c ∷ k) ∷ keys) j b h =
    let e : run_of j (add_key ord (c ∷ k) b) ≡ run_of j b =
      ground (arith, run_of-add_key ord c k j b) in
    run_of-add_twice ord keys j (add_key ord (c ∷ k) b) (rw e h) ∙ e

-- An entry that comes in order is put behind the runs of exactly the keys that it holds, once.
pub run_of-add :
    (ord : ℕ) (keys : List Bytes) (j : Bytes) (b : Builder)
    → ends_with ord (run_of j b) ≡ false
    → run_of j (add ord keys b) ≡ run_of j b ++ (if holds j keys then ord ∷ [] else [])
unfolding add
run_of-add ord [] j b h = sym (append-nil (run_of j b))
run_of-add ord ([] ∷ keys) j b h = rw (add_key-nil ord b) (run_of-add ord keys j b h)
run_of-add ord ((c ∷ k) ∷ keys) j b h = elim (Bool-cases (bytes_eq (c ∷ k) j)) [
  | inl same ↦
      let e : run_of j (add_key ord (c ∷ k) b) ≡ run_of j b ++ ord ∷ [] =
        ground (arith, run_of-add_key ord c k j b) in
      rw same (
        run_of-add_twice ord keys j (add_key ord (c ∷ k) b)
          (rw e (ends_with-append ord (run_of j b)))
        ∙ e)
  | inr other ↦
      let e : run_of j (add_key ord (c ∷ k) b) ≡ run_of j b =
        ground (arith, run_of-add_key ord c k j b) in
      rw other (
        run_of-add ord keys j (add_key ord (c ∷ k) b) (rw e h)
        ∙ ap (λ r. r ++ (if holds j keys then ord ∷ [] else [])) e)
]

-- The entries' analyzed keys, added under the ordinals from `n` on.
unfoldable pub add_all : ℕ → List (List Bytes) → Builder → Builder
add_all n [] b = b
add_all n (keys ∷ entries) b = add_all (suc n) entries (add n keys b)

-- The ordinals, ascending, of the entries that hold `k`.
abbrev pub holders : Bytes → ℕ → List (List Bytes) → List ℕ
holders k n [] = []
holders k n (keys ∷ entries) = (if holds k keys then n ∷ [] else []) ++ holders k (suc n) entries

-- Every ordinal of the list is below `n`.
abbrev Below : ℕ → List ℕ → Type 0
Below n [] = Unit
Below n (x ∷ l) = (x < n) × Below n l

not-ends_with_of_Below : (n : ℕ) (p : List ℕ) → Below n p → ends_with n p ≡ false
unfolding ends_with last?
not-ends_with_of_Below n [] h = refl
not-ends_with_of_Below n (x ∷ []) h = ground arith
not-ends_with_of_Below n (x ∷ y ∷ p) h = not-ends_with_of_Below n (y ∷ p) h.1

Below-append :
    (n : ℕ) (p : List ℕ) (b : Bool) → Below n p → Below (suc n) (p ++ (if b then n ∷ [] else []))
Below-append n [] true h = (omega arith, tt)
Below-append n [] false h = tt
Below-append n (x ∷ p) b h = (omega arith, Below-append n p b h.1)

run_of-add_all_from :
    (n : ℕ) (entries : List (List Bytes)) (j : Bytes) (b : Builder)
    → Below n (run_of j b)
    → run_of j (add_all n entries b) ≡ run_of j b ++ holders j n entries
unfolding add_all
run_of-add_all_from n [] j b h = sym (append-nil (run_of j b))
run_of-add_all_from n (keys ∷ entries) j b h =
    let step = run_of-add n keys j b (not-ends_with_of_Below n (run_of j b) h) in
    run_of-add_all_from (suc n) entries j (add n keys b)
      (rw step (Below-append n (run_of j b) (holds j keys) h))
    ∙ ap (λ r. r ++ holders j (suc n) entries) step
    ∙ append_assoc (run_of j b) (if holds j keys then n ∷ [] else []) (holders j (suc n) entries)

-- The builder's run of a key is the ascending list of the entries that hold it.
pub run_of-add_all :
    (entries : List (List Bytes)) (j : Bytes)
    → run_of j (add_all 0 entries []) ≡ holders j 0 entries
unfolding run_of lookup
run_of-add_all entries j = run_of-add_all_from 0 entries j [] tt
