-- ===== src/Query/Shown.antt =====
-- engine/rank.go: the order and the keys of candidates that have one score.
use kurn.Prelude.{
  ℕ, ◌≡◌, refl, ap, ◌∙◌, Bool, true, false, ◌==◌, Option, none, some, List, [], ◌∷◌, ◌++◌, map,
  Bool-cases, inl, inr, arith, keep,
}
use kurn.Prelude.Bytes.{Bytes, bytes_lt}
use kurn.Prelude.Dict.{Dict, lookup}
use kurn.Live.Types.{Entry, Segment}
use kurn.Live.Segment.{insert_by_id, sort_by_id}
use kurn.Live.Mutate.{is_some, in_base, live_base}
use kurn.Query.Search.{
  Hit, Candidate, less, insert_hit, sort_candidates, key_of, shown_entry, attribute_keys,
}
use kurn.Query.Collect.{hit}

-- Hits with one score, each of which takes its key from its own entry.
unfoldable pub IsShown : Option Segment → ℕ → List Hit → Type 0
IsShown ov score [] = Unit
IsShown ov score (h ∷ hits) =
    (h.score ≡ score) × (shown_entry ov h ≡ some h.entry) × IsShown ov score hits

abbrev pub entries_of : List Hit → List Entry
entries_of [] = []
entries_of (h ∷ hits) = h.entry ∷ entries_of hits

insert_hit-IsShown :
    (ov : Option Segment) (score : ℕ) (h : Hit) (hits : List Hit)
    → IsShown ov score (h ∷ hits)
    → IsShown ov score (insert_hit h hits)
unfolding insert_hit IsShown
insert_hit-IsShown ov score h [] ok = ok
insert_hit-IsShown ov score h (x ∷ hits) (a, b, (c, d, e)) = elim (Bool-cases (less x h)) [
  | inl before ↦ rw before (c, d, insert_hit-IsShown ov score h hits (a, b, e))
  | inr behind ↦ rw behind (a, b, (c, d, e))
]

sort_candidates-IsShown :
    (ov : Option Segment) (score : ℕ) (hits : List Hit)
    → IsShown ov score hits
    → IsShown ov score (sort_candidates hits)
unfolding sort_candidates IsShown
sort_candidates-IsShown ov score [] ok = tt
sort_candidates-IsShown ov score (h ∷ hits) (a, b, c) =
    insert_hit-IsShown ov score h (sort_candidates hits)
      (a, b, sort_candidates-IsShown ov score hits c)

entries_of-insert_hit :
    (ov : Option Segment) (score : ℕ) (h : Hit) (hits : List Hit)
    → IsShown ov score (h ∷ hits)
    → entries_of (insert_hit h hits) ≡ insert_by_id h.entry (entries_of hits)
unfolding insert_hit insert_by_id IsShown
entries_of-insert_hit ov score h [] ok = refl
entries_of-insert_hit ov score h (x ∷ hits) (a, b, (c, d, e)) =
    let level : (x.score == h.score) ≡ true = ground arith in
    elim (Bool-cases (bytes_lt x.entry.id h.entry.id)) [
      | inl before ↦
          rw (level, before) (ap (◌∷◌ x.entry) (entries_of-insert_hit ov score h hits (a, b, e)))
      | inr behind ↦ rw (level, behind) refl
    ]

-- Among hits with one score the order of the candidates is that of their IDs.
pub entries_of-sort_candidates :
    (ov : Option Segment) (score : ℕ) (hits : List Hit)
    → IsShown ov score hits
    → entries_of (sort_candidates hits) ≡ sort_by_id (entries_of hits)
unfolding sort_candidates sort_by_id IsShown
entries_of-sort_candidates ov score [] ok = refl
entries_of-sort_candidates ov score (h ∷ hits) (a, b, c) =
    entries_of-insert_hit ov score h (sort_candidates hits)
      (a, b, sort_candidates-IsShown ov score hits c)
    ∙ ap (insert_by_id h.entry) (entries_of-sort_candidates ov score hits c)

-- The candidate of an entry whose key is its own.
abbrev pub listed : (Bytes → Bytes) → Bytes → ℕ → Entry → Candidate
listed an matched score e = record {
  entry_id = e.id;
  score = score;
  key = key_of an matched e.keys;
  payload = e.payload;
}

attribute_keys-shown :
    (an : Bytes → Bytes) (ov : Option Segment) (matched : Bytes) (score : ℕ) (hits : List Hit)
    → IsShown ov score hits
    → attribute_keys an ov matched hits ≡ some (map (listed an matched score) (entries_of hits))
unfolding attribute_keys IsShown
attribute_keys-shown an ov matched score [] ok = refl
attribute_keys-shown an ov matched score (h ∷ hits) (a, b, c) =
    rw (attribute_keys, b, attribute_keys-shown an ov matched score hits c, a) refl

-- Hits with one score become the candidates of their entries, by ID.
pub attribute_keys-sorted :
    (an : Bytes → Bytes) (ov : Option Segment) (matched : Bytes) (score : ℕ) (hits : List Hit)
    → IsShown ov score hits
    → attribute_keys an ov matched (sort_candidates hits)
      ≡ some (map (listed an matched score) (sort_by_id (entries_of hits)))
attribute_keys-sorted an ov matched score hits ok =
    attribute_keys-shown an ov matched score (sort_candidates hits)
      (sort_candidates-IsShown ov score hits ok)
    ∙ ap (λ entries. some (map (listed an matched score) entries))
        (entries_of-sort_candidates ov score hits ok)

shown_entry-overlay :
    (ov : Option Segment) (score : ℕ) (e : Entry) → shown_entry ov (hit true score e) ≡ some e
unfolding shown_entry
shown_entry-overlay none score e = refl
shown_entry-overlay (some seg) score e = refl

shown_entry-base :
    (ov : Option Segment) (score : ℕ) (e : Entry)
    → in_base ov e.id ≡ false
    → shown_entry ov (hit false score e) ≡ some e
unfolding shown_entry in_base
shown_entry-base none score e h = refl
shown_entry-base (some seg) score e h = ground (arith, h)

pub IsShown-overlay :
    (ov : Option Segment) (score : ℕ) (entries : List Entry)
    → IsShown ov score (map (hit true score) entries)
unfolding IsShown
IsShown-overlay ov score [] = tt
IsShown-overlay ov score (e ∷ entries) =
    (refl, shown_entry-overlay ov score e, IsShown-overlay ov score entries)

pub IsShown-base :
    (ov : Option Segment) (score : ℕ) (tomb : Dict (Unit {0})) (src : Dict Entry) (r : Entry → Bool)
    (entries : List Entry)
    → ((id : Bytes) → is_some (lookup id src) ≡ false → in_base ov id ≡ false)
    → IsShown ov score (map (hit false score) (keep r (live_base tomb src entries)))
unfolding IsShown live_base
IsShown-base ov score tomb src r [] absent = tt
IsShown-base ov score tomb src r (e ∷ entries) absent =
    let rest = IsShown-base ov score tomb src r entries absent in
    elim (Bool-cases (is_some (lookup e.id tomb))) [
      | inl dead ↦ rw dead rest
      | inr live ↦ elim (Bool-cases (is_some (lookup e.id src))) [
        | inl shadowed ↦ rw (live, shadowed) rest
        | inr own ↦ elim (Bool-cases (r e)) [
          | inl kept ↦
              rw (live, own, kept) (refl, shown_entry-base ov score e (absent e.id own), rest)
          | inr gone ↦ rw (live, own, gone) rest
        ]
      ]
    ]

pub IsShown-append :
    (ov : Option Segment) (score : ℕ) (hits more : List Hit)
    → IsShown ov score hits
    → IsShown ov score more
    → IsShown ov score (hits ++ more)
unfolding IsShown
IsShown-append ov score [] more ok next = next
IsShown-append ov score (h ∷ hits) more (a, b, c) next =
    (a, b, IsShown-append ov score hits more c next)

pub entries_of-append :
    (hits more : List Hit) → entries_of (hits ++ more) ≡ entries_of hits ++ entries_of more
entries_of-append [] more = refl
entries_of-append (h ∷ hits) more = ap (◌∷◌ h.entry) (entries_of-append hits more)

pub entries_of-map :
    (of_overlay : Bool) (score : ℕ) (entries : List Entry)
    → entries_of (map (hit of_overlay score) entries) ≡ entries
entries_of-map of_overlay score [] = refl
entries_of-map of_overlay score (e ∷ entries) = ap (◌∷◌ e) (entries_of-map of_overlay score entries)
