-- ===== src/Live/View.antt =====
-- engine/list.go: what a list holds under an ID, and what each mutation makes of it.
use kurn.Prelude.{
  ℕ, ◌≡◌, refl, ap, sym, ◌∙◌, Bool, true, false, Option, none, some, List, [], ◌∷◌, false≢true,
  if◌then◌else◌, Bool-cases, Option-cases, inl, inr, arith,
}
use kurn.Prelude.Bytes.{Bytes, bytes_eq, bytes_eq_iff}
use kurn.Prelude.Dict.{Dict, lookup, insert, lookup-insert, lookup-remove}
use kurn.Exact.Index.{Result, ok, err, ◌>>=◌}
use kurn.Live.Types.{Entry, Segment, LiveList}
use kurn.Live.Segment.{sort_by_id, values}
use kurn.Live.Mutate.{
  Sources, Outcome, is_some, in_base, mask, put_all, take_out, base_entries, JournalRec, upsert_rec,
  delete_rec, unknown_rec, fold_journal, guarded, with_build, prepare_overlay, commit_overlay,
  upsert, delete, apply_journal, build_overlay,
}

-- The first entry with the ID.
unfoldable pub find_entry : Bytes → List Entry → Option Entry
find_entry id [] = none
find_entry id (e ∷ l) = if bytes_eq e.id id then some e else find_entry id l

abbrev pub otherwise {ℓ} : {A : Type ℓ} → Option A → Option A → Option A
otherwise none d = d
otherwise (some a) d = some a

-- The overlay's entry, or the base's where no tombstone masks it.
abbrev pub view_of : Option Segment → Sources → Bytes → Option Entry
view_of base s id =
    otherwise (lookup id s.src)
      (if is_some (lookup id s.tomb) then none else find_entry id (base_entries base))

abbrev pub sources : LiveList → Sources
sources l = record { src = l.overlay_src; tomb = l.snap.tombstones }

abbrev pub view : LiveList → Bytes → Option Entry
view l id = view_of l.snap.base (sources l) id

-- The last entry of a batch with the ID, or what was there before.
abbrev pub last_match : Bytes → List Entry → Option Entry → Option Entry
last_match id [] old = old
last_match id (e ∷ entries) old = last_match id entries (if bytes_eq e.id id then some e else old)

-- The map of IDs of the base knows exactly the IDs of its entries.
abbrev pub KnowsIds : Option Segment → Type 0
KnowsIds base = (id : Bytes) → in_base base id ≡ is_some (find_entry id (base_entries base))

lookup-mask :
    (base : Option Segment) (k id : Bytes) (tomb : Dict (Unit {0}))
    → is_some (lookup id (mask base k tomb)) ≡ (
        if bytes_eq k id
        then (if in_base base k then true else is_some (lookup id tomb))
        else is_some (lookup id tomb))
lookup-mask base k id tomb = ground (arith, lookup-insert k id tt tomb)

view_of-put :
    (base : Option Segment) (e : Entry) (s : Sources) (id : Bytes)
    → view_of base (record { src = insert e.id e s.src; tomb = mask base e.id s.tomb }) id
      ≡ (if bytes_eq e.id id then some e else view_of base s id)
view_of-put base e s id = elim (Bool-cases (bytes_eq e.id id)) [
  | inl same ↦ rw (lookup-insert, same) refl
  | inr other ↦ rw (lookup-insert, other) (rw (lookup-mask, other) refl)
]

view_of-put_all :
    (base : Option Segment) (entries : List Entry) (s : Sources) (id : Bytes)
    → view_of base (put_all base entries s) id ≡ last_match id entries (view_of base s id)
unfolding put_all
view_of-put_all base [] s id = refl
view_of-put_all base (e ∷ entries) s id =
    view_of-put_all base entries
      (record { src = insert e.id e s.src; tomb = mask base e.id s.tomb }) id
    ∙ ap (last_match id entries) (view_of-put base e s id)

-- In a base that knows its IDs, one that it does not know has no entry.
unknown_id :
    (base : Option Segment) (id : Bytes)
    → KnowsIds base
    → in_base base id ≡ false
    → find_entry id (base_entries base) ≡ none
unknown_id base id knows h = elim (Option-cases (find_entry id (base_entries base))) [
  | inl e ↦ e
  | inr (x, e) ↦ absurd (false≢true (sym h ∙ knows id ∙ ap is_some e))
]

view_of-take_out :
    (base : Option Segment) (k : Bytes) (s : Sources) (id : Bytes)
    → KnowsIds base
    → view_of base (take_out base k s) id ≡ (if bytes_eq k id then none else view_of base s id)
unfolding take_out
view_of-take_out base k s id knows = elim (Bool-cases (bytes_eq k id)) [
  | inl same ↦
      rw (lookup-remove, same)
        (rw (lookup-mask, same)
          (elim (Bool-cases (in_base base k)) [
            | inl known ↦ rw known refl
            | inr unknown ↦
                let e : find_entry id (base_entries base) ≡ none =
                  rw ((bytes_eq_iff k id).0 same) at (unknown_id base k knows unknown) in
                rw (unknown, e) (none_either (is_some (lookup id s.tomb)))
          ]))
  | inr other ↦ rw (lookup-remove, other) (rw (lookup-mask, other) refl)
]
  where
    none_either : (b : Bool) → if◌then◌else◌ {A = Option Entry} b none none ≡ none
    none_either true = refl
    none_either false = refl

-- What a journal makes of the entry under an ID: its records one after the other.
abbrev pub replayed : Bytes → List JournalRec → Option Entry → Option Entry
replayed id [] old = old
replayed id (upsert_rec (some e) ∷ ops) old =
    replayed id ops (if bytes_eq e.id id then some e else old)
replayed id (upsert_rec none ∷ ops) old = replayed id ops old
replayed id (delete_rec k ∷ ops) old = replayed id ops (if bytes_eq k id then none else old)
replayed id (unknown_rec ∷ ops) old = replayed id ops old

view_of-fold_journal :
    (base : Option Segment) (ops : List JournalRec) (s : Sources) (id : Bytes)
    → KnowsIds base
    → view_of base (fold_journal base ops s) id ≡ replayed id ops (view_of base s id)
unfolding fold_journal
view_of-fold_journal base [] s id knows = refl
view_of-fold_journal base (upsert_rec (some e) ∷ ops) s id knows =
    view_of-fold_journal base ops (put_all base (e ∷ []) s) id knows
    ∙ ap (replayed id ops) (view_of-put_all base (e ∷ []) s id)
view_of-fold_journal base (upsert_rec none ∷ ops) s id knows =
    view_of-fold_journal base ops s id knows
view_of-fold_journal base (delete_rec k ∷ ops) s id knows =
    view_of-fold_journal base ops (take_out base k s) id knows
    ∙ ap (replayed id ops) (view_of-take_out base k s id knows)
view_of-fold_journal base (unknown_rec ∷ ops) s id knows = view_of-fold_journal base ops s id knows

-- A mutation of the overlay that returned no error has installed its sources over the old base.
pub view-commit :
    (l l' : LiveList) (jpos : Option ℕ) (mutate : Sources → Sources)
    → with_build l (prepare_overlay l mutate) (commit_overlay l jpos) ≡ (l', none)
    → (id : Bytes) → view l' id ≡ view_of l.snap.base (mutate (sources l)) id
unfolding prepare_overlay commit_overlay
view-commit l l' jpos mutate h id =
    go (build_overlay l.an (sort_by_id (values (mutate (sources l)).src))) h
  where
    go :
        (r : Result (Option Segment))
        → with_build l
            (r >>= λ ov. ok (record { sources = mutate (sources l); seg = ov }))
            (commit_overlay l jpos)
          ≡ (l', none)
        → view l' id ≡ view_of l.snap.base (mutate (sources l)) id
    go (ok ov) e = ap (λ (o : Outcome). view o.0 id) (sym e)
    go (err x) e = cc (ap (λ (o : Outcome). o.1) e)

-- No error was returned, so the list is not read-only.
pub guarded-done :
    (l l' : LiveList) (rest : Outcome) → guarded l rest ≡ (l', none) → rest ≡ (l', none)
unfolding guarded
guarded-done l l' rest h = elim (Bool-cases l.read_only) [
  | inl ro ↦ cc (ap (λ (o : Outcome). o.1) (rw (ro, guarded) at h))
  | inr rw_ ↦ rw (rw_, guarded) at h
]

-- An upsert that returns no error puts the last entry of the batch under each of its IDs, and
-- leaves every other ID as it was.
pub view-upsert :
    (entries : List Entry) (l l' : LiveList) (id : Bytes)
    → upsert entries l ≡ (l', none)
    → view l' id ≡ last_match id entries (view l id)
unfolding upsert
view-upsert entries l l' id h =
    view-commit l l' none (put_all l.snap.base entries) (guarded-done l l' _ h) id
    ∙ view_of-put_all l.snap.base entries (sources l) id

-- Where the base's map of IDs knows exactly its entries, a delete that returns no error leaves
-- nothing under its ID and every other ID as it was.
pub view-delete :
    (k : Bytes) (l l' : LiveList) (id : Bytes)
    → KnowsIds l.snap.base
    → delete k l ≡ (l', none)
    → view l' id ≡ (if bytes_eq k id then none else view l id)
unfolding delete
view-delete k l l' id knows h =
    view-commit l l' none (take_out l.snap.base k) (guarded-done l l' _ h) id
    ∙ view_of-take_out l.snap.base k (sources l) id knows

-- Where the base's map of IDs knows exactly its entries, replaying a journal in one batch without an
-- error puts under each ID what its records, one after the other, put there.
pub view-apply_journal :
    (ops : List JournalRec) (jpos : ℕ) (l l' : LiveList) (id : Bytes)
    → KnowsIds l.snap.base
    → apply_journal ops jpos l ≡ (l', none)
    → view l' id ≡ replayed id ops (view l id)
unfolding apply_journal
view-apply_journal [] jpos l l' id knows h = ap (λ (o : Outcome). view o.0 id) (sym h)
view-apply_journal (op ∷ ops) jpos l l' id knows h =
    view-commit l l' (some jpos) (fold_journal l.snap.base (op ∷ ops)) h id
    ∙ view_of-fold_journal l.snap.base (op ∷ ops) (sources l) id knows
