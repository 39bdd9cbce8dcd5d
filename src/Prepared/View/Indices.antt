-- ===== src/Prepared/View/Indices.antt =====
-- engine/prepared/view.go: the indices that `NewView` reads, and what a view is to serve.
use kurn.Prelude.{
  ◌≡◌, ap, sym, ◌%◌, subst, inl, inr, ℕ, ◌+◌, ◌-◌, ◌*◌, ◌/◌, ◌≤◌, Bool, false, not, ◌&&◌, ◌||◌,
  Option, none, some, List, ltb, ◌==◌, length, take, drop, length-drop, length-take_le, Bool-cases,
  Option-cases, arith,
}
use kurn.Prelude.Bytes.{Bytes}
use kurn.Prelude.Dict.{Dict}
use kurn.Exact.Index.{Index}
use kurn.Prepared.Words.{malformed, parsed, >>=-eq-parsed, parsed-injective, le, max_uint64}
use kurn.Prepared.Bounds.{refuse_if-then}
use kurn.Prepared.Gives.{Gives}
use kurn.Prepared.Format.{Section, end_of, find, kind_ngram, kind_exact, kind_exact_companion}
use kurn.Prepared.Records.{
  Record, RecordsView, max_uint32, count, parse_rows, view_of, parse_records,
}
use kurn.Prepared.Records.Accepted.{Serves}
use kurn.Prepared.Ids.{lookup}
use kurn.Prepared.Ids.Lookup.{Finds}
use kurn.Prepared.ExactSection.{ExactView, parse_exact_section}
use kurn.Prepared.ExactSection.Accepted.{Indexed, exact_index-parse_exact_section}
use kurn.Prepared.NgramSection.{slice, parse_ngram}
use kurn.Prepared.NgramSection.Accepted.{IsUsable, parse_ngram-IsUsable}
use kurn.Prepared.Config.{Json}
use kurn.Prepared.View.{
  IndexView, over_ngrams, over_exact, View, body, has, parse_index, parse_companion,
}

-- The index over the exact section of a kind, restored from postings that lie behind the section's
-- header and rows, in a buffer at an address.
abbrev pub Restores : ℕ → List Section → ℕ → ℕ → ExactView → Type 0
Restores address sections kind n ev =
    (s : Section) × (find sections kind ≡ some s)
    × (es : Dict (List ℕ)) × (i : Index) × Indexed n ev (address + s.off + (24 + 8 * ev.k)) es i

abbrev pub IndexServes : ℕ → List Section → ℕ → IndexView → Type 0
IndexServes address sections n (over_ngrams nv) = IsUsable n nv
IndexServes address sections n (over_exact ev) = Restores address sections kind_exact n ev

abbrev pub CompanionServes : ℕ → List Section → ℕ → Option ExactView → Type 0
CompanionServes address sections n none = Unit
CompanionServes address sections n (some ev) = Restores address sections kind_exact_companion n ev

-- What a view of a buffer at an address promises: records, a lookup of each ID, and an index over the
-- records.
abbrev pub IsServed : Json → ℕ → View → Type 0
IsServed json address v =
    (recs : List Record) × Serves json.valid v.records recs
    × ((id : Bytes)
        → (found : Option ℕ) × (lookup v.records v.ids id ≡ parsed found)
          × Finds v.records id found)
    × IndexServes address v.tab.sections v.records.n v.index
    × CompanionServes address v.tab.sections v.records.n v.companion

small_count :
    (b : Bytes) (off elem reserve n : ℕ) → count b off elem reserve ≡ parsed n → n ≤ max_uint32
unfolding count
small_count b off elem reserve n h =
    let (_, h1) = refuse_if-then (ltb (length b) (off + 8)) malformed _ h in
    let (m, _, h2) = >>=-eq-parsed (le 8 b off) _ h1 in
    let (_, h3) = refuse_if-then (ltb (length b - off - 8) reserve) malformed _ h2 in
    let (_, h4) =
      refuse_if-then (ltb 0 elem && ltb ((length b - off - 8 - reserve) / elem) m) malformed _ h3 in
    let (few, h5) = refuse_if-then (ltb max_uint32 m) malformed _ h4 in
    bounded m few (parsed-injective h5)
  where
    bounded : (m : ℕ) → ltb max_uint32 m ≡ false → m ≡ n → n ≤ max_uint32
    bounded m few same = ground arith

pub parse_records-small :
    (valid : Bytes → Bool) (b : Bytes) (v : RecordsView)
    → parse_records valid b ≡ parsed v
    → v.n ≤ max_uint32
unfolding parse_records
parse_records-small valid b v h =
    let (n, counted, h1) = >>=-eq-parsed (count b 0 48 8) _ h in
    let (nk, _, h2) = >>=-eq-parsed (count b (8 + 48 * n) 16 0) _ h1 in
    let (c, _, h3) =
      >>=-eq-parsed (parse_rows valid (view_of b n nk) n 0 (record { cur = 0; k_idx = 0 })) _ h2 in
    let (_, h4) = refuse_if-then (not (c.k_idx == nk)) malformed _ h3 in
    let (_, h5) = refuse_if-then (not (c.cur == length (view_of b n nk).blob)) malformed _ h4 in
    let same : n ≡ v.n = ap (λ (x : RecordsView). x.n) (parsed-injective h5) in
    subst (λ m. m ≤ max_uint32) same (small_count b 0 48 8 n counted)

slice-short : (b part : Bytes) (lo hi : ℕ) → slice b lo hi ≡ parsed part → length part ≤ length b
unfolding slice
slice-short b part lo hi h = elim (Bool-cases (ltb hi lo || ltb (length b) hi)) [
  | inl e ↦ cc (rw e at h)
  | inr e ↦
      let same : take (hi - lo) (drop lo b) ≡ part = parsed-injective (rw e at h) in
      subst (λ x. length x ≤ length b) same
        (omega (arith, length-take_le (hi - lo) (drop lo b), length-drop lo b))
]

body-short :
    (buf b : Bytes) (sections : List Section) (kind : ℕ)
    → body buf sections kind ≡ parsed b
    → length b ≤ length buf
unfolding body
body-short buf b sections kind h = elim (Option-cases (find sections kind)) [
  | inl e ↦ slice-short buf b 0 0 (rw (body, e) at h)
  | inr (s, e) ↦ slice-short buf b s.off (end_of s) (rw (body, e) at h)
]

slice-empty : (b part : Bytes) → slice b 0 0 ≡ parsed part → length part ≡ 0
unfolding slice
slice-empty b part h = elim (Bool-cases (ltb 0 0 || ltb (length b) 0)) [
  | inl e ↦ cc (rw e at h)
  | inr e ↦ ap length (sym (parsed-injective (rw e at h)))
]

parse_exact_section-long :
    (n : ℕ) (b : Bytes) (ev : ExactView) → parse_exact_section n b ≡ parsed ev → 24 ≤ length b
unfolding parse_exact_section
parse_exact_section-long n b ev h =
    let (long, _) = refuse_if-then (ltb (length b) 24) malformed _ h in ground arith

-- An exact section that is accepted is in the table, and not the empty body of a missing one.
section-found :
    (buf b : Bytes) (sections : List Section) (kind n : ℕ) (ev : ExactView)
    → body buf sections kind ≡ parsed b
    → parse_exact_section n b ≡ parsed ev
    → (s : Section) × (find sections kind ≡ some s)
unfolding body
section-found buf b sections kind n ev cut read = elim (Option-cases (find sections kind)) [
  | inl e ↦
      let nothing = slice-empty buf b (rw (body, e) at cut) in
      let long = parse_exact_section-long n b ev read in absurd (omega arith)
  | inr found ↦ found
]

module _ (address : ℕ) (buf : Bytes) (sections : List Section)
    (placed : (kind : ℕ) (s : Section) → find sections kind ≡ some s → (address + s.off) % 32 ≡ 0)
    (n : ℕ) (small : n ≤ max_uint32) where
  restores :
      (kind : ℕ) (b : Bytes) (ev : ExactView)
      → body buf sections kind ≡ parsed b
      → parse_exact_section n b ≡ parsed ev
      → Restores address sections kind n ev
  restores kind b ev cut read =
      let (s, found) = section-found buf b sections kind n ev cut read in
      let at = placed kind s found in
      let (es, i, indexed) =
        exact_index-parse_exact_section n b ev (address + s.off + (24 + 8 * ev.k)) small
          (omega arith) read in
      (s, found, es, i, indexed)

  pub parse_index-IndexServes :
      (index : IndexView)
      → length buf + 31 ≤ max_uint64
      → parse_index buf sections n ≡ parsed index
      → IndexServes address sections n index
  unfolding parse_index
  parse_index-IndexServes index fits h = elim (Bool-cases (has sections kind_ngram)) [
    | inl e ↦
        let (b, cut, h1) = >>=-eq-parsed (body buf sections kind_ngram) _ (rw e at h) in
        let (nv, read, h2) = >>=-eq-parsed (parse_ngram n b) _ h1 in
        let short = body-short buf b sections kind_ngram cut in
        let usable : IsUsable n nv =
          subst (Gives (IsUsable n)) read (parse_ngram-IsUsable n b (omega arith)) in
        subst (IndexServes address sections n) (parsed-injective h2) usable
    | inr e ↦
        let (b, cut, h1) = >>=-eq-parsed (body buf sections kind_exact) _ (rw e at h) in
        let (ev, read, h2) = >>=-eq-parsed (parse_exact_section n b) _ h1 in
        subst (IndexServes address sections n) (parsed-injective h2)
          (restores kind_exact b ev cut read)
  ]

  pub parse_companion-CompanionServes :
      (c : Option ExactView)
      → parse_companion buf sections n ≡ parsed c
      → CompanionServes address sections n c
  unfolding parse_companion
  parse_companion-CompanionServes c h = elim (Bool-cases (has sections kind_exact_companion)) [
    | inl e ↦
        let (b, cut, h1) = >>=-eq-parsed (body buf sections kind_exact_companion) _ (rw e at h) in
        let (ev, read, h2) = >>=-eq-parsed (parse_exact_section n b) _ h1 in
        subst (CompanionServes address sections n) (parsed-injective h2)
          (restores kind_exact_companion b ev cut read)
    | inr e ↦
        let nothing : none ≡ c = parsed-injective (rw e at h) in
        subst (CompanionServes address sections n) nothing tt
  ]
