-- ===== src/Query/Carriers.antt =====
-- engine/list.go and engine/exact/exact.go: what the index of a built segment answers.
use kurn.Prelude.{
  ℕ, suc, ◌≡◌, refl, ap, sym, ◌∙◌, Bool, false, ◌||◌, List, [], ◌∷◌, ◌++◌, map, if◌then◌else◌,
  arith,
}
use kurn.Prelude.Bytes.{Bytes, bytes_eq}
use kurn.Payload.Scalar.{is_empty}
use kurn.Exact.Index.{ok, >>=-eq-ok, ok-injective, lookup_ords}
use kurn.Exact.Build.{finish}
use kurn.Exact.Runs.{add_all, holders, holds}
use kurn.Exact.Answers.{lookup_ords-add_all}
use kurn.Live.Types.{Entry, Segment}
use kurn.Live.Segment.{Build, build_start, build_segment, build_loop, build_entry, analyzed}
use kurn.Query.Terms.{asked}

-- The ordinals, from `n` on and ascending, of the entries with a key that is analyzed to `q`.
abbrev pub carriers : (Bytes → Bytes) → Bytes → ℕ → List Entry → List ℕ
carriers an q n [] = []
carriers an q n (e ∷ entries) =
    (if asked an q e.keys then n ∷ [] else []) ++ carriers an q (suc n) entries

abbrev analyzed_keys : (Bytes → Bytes) → Entry → List Bytes
analyzed_keys an e = analyzed an e.keys

exb-build_loop :
    (an : Bytes → Bytes) (n : ℕ) (entries : List Entry) (b : Build)
    → (build_loop an n entries b).exb ≡ add_all n (map (analyzed_keys an) entries) b.exb
unfolding build_loop add_all build_entry
exb-build_loop an n [] b = refl
exb-build_loop an n (e ∷ entries) b = exb-build_loop an (suc n) entries (build_entry an n e b)

holds-kept :
    (a q : Bytes) (rest : List Bytes) (more : Bool)
    → is_empty q ≡ false
    → holds q rest ≡ more
    → holds q (if is_empty a then rest else a ∷ rest) ≡ (bytes_eq a q || more)
holds-kept [] [] rest more h e = cc
holds-kept [] (x ∷ q) rest more h e = e
holds-kept (c ∷ a) q rest more h e = ground (arith, e)

holds-analyzed :
    (an : Bytes → Bytes) (q : Bytes) (keys : List Bytes)
    → is_empty q ≡ false
    → holds q (analyzed an keys) ≡ asked an q keys
unfolding analyzed
holds-analyzed an q [] h = refl
holds-analyzed an q (k ∷ keys) h =
    holds-kept (an k) q (analyzed an keys) (asked an q keys) h (holds-analyzed an q keys h)

holds-nil : (keys : List Bytes) → holds [] keys ≡ false
holds-nil [] = refl
holds-nil ([] ∷ keys) = holds-nil keys
holds-nil ((c ∷ k) ∷ keys) = holds-nil keys

holders-nil : (n : ℕ) (entries : List (List Bytes)) → holders [] n entries ≡ []
holders-nil n [] = refl
holders-nil n (keys ∷ entries) = rw (holds-nil keys) (holders-nil (suc n) entries)

holders-analyzed :
    (an : Bytes → Bytes) (q : Bytes) (n : ℕ) (entries : List Entry)
    → is_empty q ≡ false
    → holders q n (map (analyzed_keys an) entries) ≡ carriers an q n entries
holders-analyzed an q n [] h = refl
holders-analyzed an q n (e ∷ entries) h =
    rw (holds-analyzed an q e.keys h) (
      ap (◌++◌ (if asked an q e.keys then n ∷ [] else []))
        (holders-analyzed an q (suc n) entries h))

carried :
    (an : Bytes → Bytes) (q : Bytes) (entries : List Entry)
    → holders q 0 (map (analyzed_keys an) entries)
      ≡ (if is_empty q then [] else carriers an q 0 entries)
carried an [] entries = holders-nil 0 (map (analyzed_keys an) entries)
carried an (x ∷ q) entries = holders-analyzed an (x ∷ q) 0 entries refl

-- The index of a built segment answers a key with the ordinals, ascending and each once, of the
-- entries that have a key which the analyzer makes into it; the empty key it answers with none.
pub lookup_ords-build_segment :
    (an : Bytes → Bytes) (entries : List Entry) (seg : Segment) (q : Bytes)
    → build_segment an entries ≡ ok seg
    → lookup_ords seg.ex q ≡ (if is_empty q then [] else carriers an q 0 entries)
unfolding build_segment
lookup_ords-build_segment an entries seg q h =
    let (ex, built, e) = >>=-eq-ok (finish (build_loop an 0 entries build_start).exb) _ h in
    ap (λ (s : Segment). lookup_ords s.ex q) (sym (ok-injective e))
    ∙ lookup_ords-add_all (map (analyzed_keys an) entries) ex q
        (ap finish (sym (exb-build_loop an 0 entries build_start)) ∙ built)
    ∙ carried an q entries
