-- ===== src/Live/Dedupe.antt =====
-- engine/list.go, `Replace`: of the entries with one ID in a batch the last one is kept.
use kurn.Prelude.{
  ℕ, suc, ◌≤◌, ◌==◌, ◌≡◌, refl, ap, sym, ◌∙◌, Bool, true, false, Option, none, some, List, [], ◌∷◌,
  false≢true, if◌then◌else◌, Bool-cases, Option-cases, inl, inr, arith,
}
use kurn.Prelude.Bytes.{Bytes, bytes_eq, bytes_eq_iff}
use kurn.Prelude.Dict.{Dict, lookup, insert, lookup-insert}
use kurn.Exact.Index.{Result, ok, err}
use kurn.Live.Types.{Entry, Segment, LiveList}
use kurn.Live.Segment.{build_segment, last_positions, keep_last, dedupe_last_wins}
use kurn.Live.Mutate.{Outcome, is_some, replace, install_base, with_build}
use kurn.Live.View.{find_entry, view, last_match, guarded-done}
use kurn.Live.Fold.{entries-build_segment}

-- The last position of an ID in a batch that starts at position `i`, or what was known before.
abbrev last_index : Bytes → ℕ → List Entry → Option ℕ → Option ℕ
last_index id i [] old = old
last_index id i (e ∷ entries) old =
    last_index id (suc i) entries (if bytes_eq e.id id then some i else old)

abbrev occurs : Bytes → List Entry → Bool
occurs id entries = is_some (find_entry id entries)

lookup-last_positions :
    (id : Bytes) (i : ℕ) (entries : List Entry) (last : Dict ℕ) (dup : Bool)
    → lookup id (last_positions i entries last dup).0 ≡ last_index id i entries (lookup id last)
unfolding last_positions
lookup-last_positions id i [] last dup = refl
lookup-last_positions id i (e ∷ entries) last dup =
    lookup-last_positions id (suc i) entries (insert e.id i last) _
    ∙ ap (last_index id (suc i) entries) (lookup-insert e.id id i last)

last_match-absent :
    (id : Bytes) (i : ℕ) (entries : List Entry) (old : Option Entry) (seen : Option ℕ)
    → occurs id entries ≡ false
    → (last_match id entries old ≡ old) × (last_index id i entries seen ≡ seen)
unfolding find_entry
last_match-absent id i [] old seen h = (refl, refl)
last_match-absent id i (e ∷ entries) old seen h = elim (Bool-cases (bytes_eq e.id id)) [
  | inl same ↦ absurd (false≢true (sym (rw same at h)))
  | inr other ↦ rw other (last_match-absent id (suc i) entries old seen (rw other at h))
]

last_match-present :
    (id : Bytes) (i : ℕ) (entries : List Entry) (old old' : Option Entry) (seen : Option ℕ)
    → occurs id entries ≡ true
    → (last_match id entries old ≡ last_match id entries old')
      × (j : ℕ) × (i ≤ j)
      × (last_index id i entries seen ≡ some j)
unfolding find_entry
last_match-present id i [] old old' seen h = absurd (false≢true h)
last_match-present id i (e ∷ entries) old old' seen h = elim (Bool-cases (occurs id entries)) [
  | inl later ↦
      let (same, j, le, at) =
        last_match-present id (suc i) entries (if bytes_eq e.id id then some e else old)
          (if bytes_eq e.id id then some e else old') (if bytes_eq e.id id then some i else seen)
          later in
      (same, j, omega arith, at)
  | inr gone ↦ elim (Bool-cases (bytes_eq e.id id)) [
    | inl same ↦
        rw same (refl, i, omega arith, (last_match-absent id (suc i) entries old (some i) gone).1)
    | inr other ↦ absurd (false≢true (sym gone ∙ rw other at h))
  ]
]

find_entry-keep_last :
    (id : Bytes) (i : ℕ) (entries : List Entry) (last : Dict ℕ) (seen : Option ℕ)
    → lookup id last ≡ last_index id i entries seen
    → find_entry id (keep_last i last entries) ≡ last_match id entries none
unfolding find_entry keep_last
find_entry-keep_last id i [] last seen h = refl
find_entry-keep_last id i (e ∷ entries) last seen h = elim (Bool-cases (bytes_eq e.id id)) [
  | inl same ↦
      rw same (kept same (rw same at h) (find_entry-keep_last id (suc i) entries last (some i)))
  | inr other ↦
      rw other (skipped other (find_entry-keep_last id (suc i) entries last seen (rw other at h)))
]
  where
    rest : List Entry
    rest = keep_last (suc i) last entries

    skipped :
        bytes_eq e.id id ≡ false
        → find_entry id rest ≡ last_match id entries none
        → find_entry id (keep_last i last (e ∷ entries)) ≡ last_match id entries none
    skipped other ih = elim (Option-cases (lookup e.id last)) [
      | inl e' ↦ rw (e', find_entry, keep_last) ih
      | inr (p, e') ↦
          rw (e', find_entry, keep_last)
            (elim (Bool-cases (p == i)) [
              | inl now ↦ rw (now, other) ih
              | inr not_now ↦ rw not_now ih
            ])
    ]

    kept :
        bytes_eq e.id id ≡ true
        → lookup id last ≡ last_index id (suc i) entries (some i)
        → (lookup id last ≡ last_index id (suc i) entries (some i)
            → find_entry id rest ≡ last_match id entries none)
        → find_entry id (keep_last i last (e ∷ entries)) ≡ last_match id entries (some e)
    kept same at ih = elim (Bool-cases (occurs id entries)) [
      | inl later ↦
          let (agree, j, le, last_at) =
            last_match-present id (suc i) entries (some e) none (some i) later in
          let not_now : (j == i) ≡ false = ground arith in
          rw
            (
              ap (λ k. lookup k last) ((bytes_eq_iff e.id id).0 same) ∙ at ∙ last_at,
              not_now,
              find_entry,
              keep_last,
            )
            (ih at ∙ sym agree)
      | inr gone ↦
          let (first, last_at) = last_match-absent id (suc i) entries (some e) (some i) gone in
          let now : (i == i) ≡ true = ground arith in
          rw
            (
              ap (λ k. lookup k last) ((bytes_eq_iff e.id id).0 same) ∙ at ∙ last_at,
              now,
              find_entry,
              keep_last,
            )
            (rw same (sym first))
    ]

-- A duplicate that was seen is not forgotten.
last_positions-seen :
    (i : ℕ) (entries : List Entry) (last : Dict ℕ) → (last_positions i entries last true).1 ≡ true
unfolding last_positions
last_positions-seen i [] last = refl
last_positions-seen i (e ∷ entries) last = elim (Option-cases (lookup e.id last)) [
  | inl unseen ↦
      rw (unseen, last_positions) (last_positions-seen (suc i) entries (insert e.id i last))
  | inr (p, seen) ↦
      rw (seen, last_positions) (last_positions-seen (suc i) entries (insert e.id i last))
]

-- Without a duplicate, an ID that is known already does not come again.
fresh-last_positions :
    (id : Bytes) (i : ℕ) (entries : List Entry) (last : Dict ℕ) (dup : Bool)
    → (last_positions i entries last dup).1 ≡ false
    → is_some (lookup id last) ≡ true
    → occurs id entries ≡ false
unfolding last_positions find_entry
fresh-last_positions id i [] last dup h known = refl
fresh-last_positions id i (e ∷ entries) last dup h known = elim (Option-cases (lookup e.id last)) [
  | inl unseen ↦
      let other : bytes_eq e.id id ≡ false = elim (Bool-cases (bytes_eq e.id id)) [
        | inl same ↦ absurd (
            false≢true (
              ap is_some (sym unseen)
              ∙ ap (λ k. is_some (lookup k last)) ((bytes_eq_iff e.id id).0 same)
              ∙ known))
        | inr other ↦ other
      ] in
      rw other (
        fresh-last_positions id (suc i) entries (insert e.id i last) _ h
          (rw (lookup-insert e.id id i last, other) known))
  | inr (p, seen) ↦ absurd (
      false≢true (
        sym (rw (seen, last_positions) at h)
        ∙ last_positions-seen (suc i) entries (insert e.id i last)))
]

last_match-distinct :
    (id : Bytes) (i : ℕ) (entries : List Entry) (last : Dict ℕ) (dup : Bool)
    → (last_positions i entries last dup).1 ≡ false
    → find_entry id entries ≡ last_match id entries none
unfolding last_positions find_entry
last_match-distinct id i [] last dup h = refl
last_match-distinct id i (e ∷ entries) last dup h = elim (Bool-cases (bytes_eq e.id id)) [
  | inl same ↦
      let gone =
        fresh-last_positions id (suc i) entries (insert e.id i last) _ h
          (rw (lookup-insert e.id id i last, same) refl) in
      rw same (sym (last_match-absent id (suc i) entries (some e) none gone).0)
  | inr other ↦ rw other (last_match-distinct id (suc i) entries (insert e.id i last) _ h)
]

-- What is left of a batch has under each ID the last entry that the batch has under it.
pub find_entry-dedupe_last_wins :
    (id : Bytes) (entries : List Entry)
    → find_entry id (dedupe_last_wins entries) ≡ last_match id entries none
unfolding dedupe_last_wins lookup
find_entry-dedupe_last_wins id entries = elim (Bool-cases (last_positions 0 entries [] false).1) [
  | inl dup ↦ rw dup (
      find_entry-keep_last id 0 entries (last_positions 0 entries [] false).0 none
        (lookup-last_positions id 0 entries [] false))
  | inr distinct ↦ rw distinct (last_match-distinct id 0 entries [] false distinct)
]

-- A replacement that returns no error leaves under each ID the last entry of the batch with it, and
-- nothing under an ID that the batch does not have.
pub view-replace :
    (entries : List Entry) (l l' : LiveList) (id : Bytes)
    → replace entries l ≡ (l', none)
    → view l' id ≡ last_match id entries none
unfolding replace install_base lookup
view-replace entries l l' id h =
    go (build_segment l.an (dedupe_last_wins entries)) refl (guarded-done l l' _ h)
  where
    go :
        (r : Result Segment)
        → build_segment l.an (dedupe_last_wins entries) ≡ r
        → with_build l r (λ seg. install_base seg l) ≡ (l', none)
        → view l' id ≡ last_match id entries none
    go (ok seg) b e =
        ap (λ (o : Outcome). view o.0 id) (sym e)
        ∙ ap (find_entry id) (entries-build_segment l.an (dedupe_last_wins entries) seg b)
        ∙ find_entry-dedupe_last_wins id entries
    go (err x) b e = cc (ap (λ (o : Outcome). o.1) e)
