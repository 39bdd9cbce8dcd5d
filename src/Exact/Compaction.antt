-- ===== src/Exact/Compaction.antt =====
-- engine/exact/exact.go: `Finish` packs the builder's runs into one slice and loses nothing.
use Prim.Native.Nat.{bit_and}
use kurn.Prelude.{
  ℕ, zero, suc, ◌+◌, ◌/◌, ◌^◌, ◌≤◌, ◌≡◌, refl, sym, ap, ◌∙◌, true, false, Option, none, some, List,
  [], ◌∷◌, ◌++◌, ltb, if◌then◌else◌, length, take, drop, Bool-cases, Option-cases, inl, inr, arith,
  length-append,
}
use kurn.Prelude.Bits.{bit_or-shifted, bit_and_mask}
use kurn.Prelude.Bytes.{Bytes, bytes_eq, bytes_eq_iff}
use kurn.Prelude.Dict.{lookup, insert, lookup-insert, IsMap, Absent, lookup_of_Absent}
use kurn.Exact.Index.{
  Index, empty_index, >>=-eq-ok, ok-injective, ok, pack, run_at, lookup_ords, max_run, len_mask,
  len_bits, bump_ords,
}
use kurn.Exact.Build.{Builder, run_of, last?, check_runs, compact_key, compact_keys, finish}

-- The two fields of a locator.
pub pack_fields :
    (off n : ℕ)
    → n ≤ max_run
    → (pack off n / 2 ^ len_bits ≡ off) × (bit_and (pack off n) len_mask ≡ n)
unfolding pack
pack_fields off n h =
    let e = bit_or-shifted 20 off n (omega arith) in
    (omega (arith, e), rw e (bit_and_mask 20 off n (omega arith)))

pub run_at-pack :
    (postings : List ℕ) (off n : ℕ)
    → n ≤ max_run
    → run_at postings (pack off n) ≡ take n (drop off postings)
unfolding run_at
run_at-pack postings off n h = rw ((pack_fields off n h).0, (pack_fields off n h).1) refl

module _ {ℓ} {A : Type ℓ} where
  drop_past : (xs ys : List A) → drop (length xs) (xs ++ ys) ≡ ys
  drop_past [] ys = refl
  drop_past (x ∷ xs) ys = drop_past xs ys

  take_all : (xs : List A) → take (length xs) xs ≡ xs
  take_all [] = refl
  take_all (x ∷ xs) = ap (◌∷◌ x) (take_all xs)

  take-append_within : (n : ℕ) (xs ys : List A) → n ≤ length xs → take n (xs ++ ys) ≡ take n xs
  take-append_within zero xs ys h = refl
  take-append_within (suc n) [] ys h = absurd (omega arith)
  take-append_within (suc n) (x ∷ xs) ys h = ap (◌∷◌ x) (take-append_within n xs ys (omega arith))

  -- A run inside the slice is not moved by what is appended.
  slice-append :
      (n off : ℕ) (xs ys : List A)
      → off + n ≤ length xs
      → take n (drop off (xs ++ ys)) ≡ take n (drop off xs)
  slice-append n zero xs ys h = take-append_within n xs ys (omega arith)
  slice-append zero (suc off) [] ys h = absurd (omega arith)
  slice-append (suc n) (suc off) [] ys h = absurd (omega arith)
  slice-append n (suc off) (x ∷ xs) ys h = slice-append n off xs ys (omega arith)

-- Every locator names a run inside the slice.
abbrev pub InBounds : Index → Type 0
InBounds i =
    (k : Bytes) (p : ℕ)
    → lookup k i.m ≡ some p
    → p / 2 ^ len_bits + bit_and p len_mask ≤ length i.postings

-- The index with one more key behind the others.
abbrev pub grown : Index → Bytes → List ℕ → ℕ → Index
grown i k p last = record {
  m = insert k (pack (length i.postings) (length p)) i.m;
  arena = i.arena ++ k;
  postings = i.postings ++ p;
  num_ords = bump_ords i.num_ords last;
}

compact_key-ok :
    (i j : Index) (k : Bytes) (p : List ℕ)
    → compact_key i k p ≡ ok j
    → (last : ℕ) × (last? p ≡ some last) × (j ≡ grown i k p last)
unfolding compact_key
compact_key-ok i j k p h = elim (Option-cases (last? p)) [
  | inl e ↦ absurd (ground arith)
  | inr (last, e) ↦ (last, e, ground arith)
]

lookup_ords-some :
    (i : Index) (q : Bytes) (r : ℕ) → lookup q i.m ≡ some r → lookup_ords i q ≡ run_at i.postings r
unfolding lookup_ords
lookup_ords-some i q r h = rw (h, lookup_ords) refl

lookup_ords-none : (i : Index) (q : Bytes) → lookup q i.m ≡ none → lookup_ords i q ≡ []
unfolding lookup_ords
lookup_ords-none i q h = rw (h, lookup_ords) refl

-- What one more key changes: its own run, and no other.
module _ (i : Index) (k : Bytes) (p : List ℕ) (last : ℕ) (small : length p ≤ max_run)
    (bounds : InBounds i) where
  grown-InBounds : InBounds (grown i k p last)
  grown-InBounds q r h = elim (Bool-cases (bytes_eq k q)) [
    | inl same ↦
        let e : pack (length i.postings) (length p) ≡ r =
          ground (arith, lookup-insert k q (pack (length i.postings) (length p)) i.m) in
        let f = pack_fields (length i.postings) (length p) small in
        omega (arith, rw e at f, length-append i.postings p)
    | inr other ↦
        let e =
          sym (rw other at (lookup-insert k q (pack (length i.postings) (length p)) i.m)) ∙ h in
        omega (arith, bounds q r e, length-append i.postings p)
  ]

  lookup-grown_self :
      (q : Bytes)
      → bytes_eq k q ≡ true
      → lookup q (grown i k p last).m ≡ some (pack (length i.postings) (length p))
  lookup-grown_self q same =
      rw same at (lookup-insert k q (pack (length i.postings) (length p)) i.m)

  lookup-grown_ne :
      (q : Bytes) → bytes_eq k q ≡ false → lookup q (grown i k p last).m ≡ lookup q i.m
  lookup-grown_ne q other =
      rw other at (lookup-insert k q (pack (length i.postings) (length p)) i.m)

  lookup_ords-grown_self : (q : Bytes) → bytes_eq k q ≡ true → lookup_ords (grown i k p last) q ≡ p
  lookup_ords-grown_self q same =
      lookup_ords-some (grown i k p last) q _ (lookup-grown_self q same)
      ∙ run_at-pack (i.postings ++ p) (length i.postings) (length p) small
      ∙ ap (take (length p)) (drop_past i.postings p)
      ∙ take_all p

  lookup_ords-grown_ne :
      (q : Bytes) → bytes_eq k q ≡ false → lookup_ords (grown i k p last) q ≡ lookup_ords i q
  unfolding run_at
  lookup_ords-grown_ne q other = elim (Option-cases (lookup q i.m)) [
    | inl e ↦
        lookup_ords-none (grown i k p last) q (lookup-grown_ne q other ∙ e)
        ∙ sym (lookup_ords-none i q e)
    | inr (r, e) ↦
        lookup_ords-some (grown i k p last) q r (lookup-grown_ne q other ∙ e)
        ∙ slice-append (bit_and r len_mask) (r / 2 ^ len_bits) i.postings p (bounds q r e)
        ∙ sym (lookup_ords-some i q r e)
  ]

  lookup_ords-grown :
      (q : Bytes) → lookup_ords (grown i k p last) q ≡ (if bytes_eq k q then p else lookup_ords i q)
  lookup_ords-grown q = elim (Bool-cases (bytes_eq k q)) [
    | inl same ↦ rw same (lookup_ords-grown_self q same)
    | inr other ↦ rw other (lookup_ords-grown_ne q other)
  ]

-- No run is longer than a locator can say.
abbrev pub Fits : Builder → Type 0
Fits [] = Unit
Fits ((k, p) ∷ src) = (length p ≤ max_run) × Fits src

check_runs-Fits : (src : Builder) → check_runs src ≡ ok tt → Fits src
unfolding check_runs
check_runs-Fits [] h = tt
check_runs-Fits ((k, p) ∷ src) h = elim (Bool-cases (ltb max_run (length p))) [
  | inl long ↦ absurd (ground arith)
  | inr short ↦ (ground arith, check_runs-Fits src (ground arith))
]

-- The runs of `src` where it has the key, those of `i` elsewhere.
abbrev over : Option (List ℕ) → List ℕ → List ℕ
over none old = old
over (some p) old = p

over-step :
    (k q : Bytes) (p old : List ℕ) (src : Builder)
    → Absent k src
    → over (lookup q src) (if bytes_eq k q then p else old) ≡ over (lookup q ((k, p) ∷ src)) old
unfolding lookup
over-step k q p old src a = elim (Bool-cases (bytes_eq k q)) [
  | inl same ↦
      let e : lookup q src ≡ none = rw ((bytes_eq_iff k q).0 same) at (lookup_of_Absent k src a) in
      rw (same, e) refl
  | inr other ↦ rw other refl
]

lookup_ords-compact_keys :
    (src : Builder) (i j : Index)
    → IsMap src
    → Fits src
    → InBounds i
    → compact_keys i src ≡ ok j
    → (q : Bytes) → lookup_ords j q ≡ over (lookup q src) (lookup_ords i q)
unfolding compact_keys lookup
lookup_ords-compact_keys [] i j m f b h q = ap (λ x. lookup_ords x q) (ok-injective (sym h))
lookup_ords-compact_keys ((k, p) ∷ src) i j m f b h q =
    let (j', first, rest) = >>=-eq-ok (compact_key i k p) (λ x. compact_keys x src) h in
    let (last, _, e) = compact_key-ok i j' k p first in
    lookup_ords-compact_keys src (grown i k p last) j m.1 f.1 (grown-InBounds i k p last f.0 b)
      (rw e at rest) q
    ∙ ap (over (lookup q src)) (lookup_ords-grown i k p last f.0 b q)
    ∙ over-step k q p (lookup_ords i q) src m.0

over-run_of : (q : Bytes) (src : Builder) → over (lookup q src) [] ≡ run_of q src
unfolding run_of
over-run_of q src = elim (Option-cases (lookup q src)) [
  | inl e ↦ rw (e, run_of) refl
  | inr (p, e) ↦ rw (e, run_of) refl
]

empty-InBounds : InBounds empty_index
unfolding lookup
empty-InBounds k p h = cc

-- An index that `Finish` returns for a builder that has each key once answers every key with the
-- builder's run.
pub lookup_ords-finish :
    (src : Builder) (i : Index) (q : Bytes)
    → IsMap src
    → finish src ≡ ok i
    → lookup_ords i q ≡ run_of q src
unfolding finish
lookup_ords-finish src i q m h =
    let (_, fits, compacted) = >>=-eq-ok (check_runs src) (λ _. compact_keys empty_index src) h in
    lookup_ords-compact_keys src empty_index i m (check_runs-Fits src fits) empty-InBounds compacted
      q
    ∙ ap (over (lookup q src)) (lookup_ords-none empty_index q (unfold lookup in refl))
    ∙ over-run_of q src
