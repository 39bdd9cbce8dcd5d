-- ===== src/Live/Coherent.antt =====
-- engine/list.go: the invariants of a snapshot, and that every mutation keeps them.
use kurn.Prelude.{
  ℕ, suc, ◌≡◌, refl, ap, sym, ◌∙◌, subst, true, false, Option, none, some, List, [], ◌∷◌,
  if◌then◌else◌, Bool-cases, inl, inr, arith,
}
use kurn.Prelude.Bytes.{Bytes}
use kurn.Prelude.Dict.{lookup, lookup-insert}
use kurn.Exact.Index.{Result, ok, err, ◌>>=◌, >>=-eq-ok, ok-injective}
use kurn.Exact.Build.{finish}
use kurn.Live.Types.{Entry, Segment, LiveList, Version}
use kurn.Live.Segment.{
  sort_by_id, values, build_segment, build_loop, build_start, build_entry, Build, dedupe_last_wins,
}
use kurn.Live.Mutate.{
  protected, Sources, Outcome, is_some, live_entries, base_entries, guarded, with_build, compact,
  in_base, put_all, take_out, JournalRec, fold_journal, prepare_overlay, commit_overlay,
  build_overlay, upsert, delete, replace, install_base, apply_journal,
}
use kurn.Live.View.{find_entry, sources, KnowsIds}
use kurn.Live.Fold.{entries-build_segment}
use kurn.Live.Sound.{IsSound, IsSound-put_all, IsSound-take_out, IsSound-fold_journal}

-- A published segment is what its entries are built into.
abbrev pub IsBuilt : (Bytes → Bytes) → Option Segment → Type 0
IsBuilt an none = Unit
IsBuilt an (some seg) = build_segment an seg.entries ≡ ok seg

-- `overlay`: the published overlay holds the mutable overlay map, in the order of the IDs.
pub record IsCoherent (l : LiveList) : Type 0 where
  pub sound : IsSound l.snap.base (sources l)
  pub knows : KnowsIds l.snap.base
  pub overlay : base_entries l.snap.overlay ≡ sort_by_id (values l.overlay_src)
  pub base_built : IsBuilt l.an l.snap.base
  pub overlay_built : IsBuilt l.an l.snap.overlay
  pub overlay_made : build_overlay l.an (base_entries l.snap.overlay) ≡ ok l.snap.overlay

by_id-build_loop :
    (an : Bytes → Bytes) (n : ℕ) (entries : List Entry) (b : Build) (id : Bytes)
    → is_some (lookup id (build_loop an n entries b).by_id)
      ≡ (if is_some (find_entry id entries) then true else is_some (lookup id b.by_id))
unfolding build_loop find_entry
by_id-build_loop an n [] b id = refl
by_id-build_loop an n (e ∷ entries) b id =
    by_id-build_loop an (suc n) entries (build_entry an n e b) id
    ∙ unfold build_entry in ground (arith, lookup-insert e.id id n b.by_id)

-- A built segment knows the IDs of its entries.
pub KnowsIds-build_segment :
    (an : Bytes → Bytes) (entries : List Entry) (seg : Segment)
    → build_segment an entries ≡ ok seg
    → KnowsIds (some seg)
unfolding build_segment in_base lookup
KnowsIds-build_segment an entries seg h id =
    let (ex, _, e) = >>=-eq-ok (finish (build_loop an 0 entries build_start).exb) _ h in
    ap (λ (s : Segment). is_some (lookup id s.by_id)) (sym (ok-injective e))
    ∙ by_id-build_loop an 0 entries build_start id
    ∙ ground arith
    ∙ ap (λ x. is_some (find_entry id x)) (sym (entries-build_segment an entries seg h))

entries-build_overlay :
    (an : Bytes → Bytes) (entries : List Entry) (ov : Option Segment)
    → build_overlay an entries ≡ ok ov
    → base_entries ov ≡ entries
entries-build_overlay an [] ov h = ap base_entries (sym (ok-injective h))
entries-build_overlay an (e ∷ entries) ov h =
    let (seg, built, eq) = >>=-eq-ok (build_segment an (e ∷ entries)) _ h in
    ap base_entries (sym (ok-injective eq)) ∙ entries-build_segment an (e ∷ entries) seg built

IsBuilt-build_segment :
    (an : Bytes → Bytes) (entries : List Entry) (seg : Segment)
    → build_segment an entries ≡ ok seg
    → IsBuilt an (some seg)
IsBuilt-build_segment an entries seg h =
    ap (build_segment an) (entries-build_segment an entries seg h) ∙ h

IsBuilt-build_overlay :
    (an : Bytes → Bytes) (entries : List Entry) (ov : Option Segment)
    → build_overlay an entries ≡ ok ov
    → IsBuilt an ov
IsBuilt-build_overlay an [] ov h = subst (IsBuilt an) (ok-injective h) tt
IsBuilt-build_overlay an (e ∷ entries) ov h =
    let (seg, built, eq) = >>=-eq-ok (build_segment an (e ∷ entries)) _ h in
    subst (IsBuilt an) (ok-injective eq) (IsBuilt-build_segment an (e ∷ entries) seg built)

pub overlay-IsCoherent :
    (l : LiveList) (jpos : Option ℕ) (mutate : Sources → Sources)
    → IsCoherent l
    → IsSound l.snap.base (mutate (sources l))
    → IsCoherent (with_build l (prepare_overlay l mutate) (commit_overlay l jpos)).0
unfolding prepare_overlay commit_overlay
overlay-IsCoherent l jpos mutate h s =
    go (build_overlay l.an (sort_by_id (values (mutate (sources l)).src))) refl
  where
    go :
        (r : Result (Option Segment))
        → build_overlay l.an (sort_by_id (values (mutate (sources l)).src)) ≡ r
        → IsCoherent
            (with_build l
              (r >>= λ ov. ok (record { sources = mutate (sources l); seg = ov }))
              (commit_overlay l jpos)).0
    go (ok ov) b = record {
      sound = s;
      knows = h.knows;
      overlay = entries-build_overlay l.an (sort_by_id (values (mutate (sources l)).src)) ov b;
      base_built = h.base_built;
      overlay_built =
          IsBuilt-build_overlay l.an (sort_by_id (values (mutate (sources l)).src)) ov b;
      overlay_made =
          ap (build_overlay l.an)
            (entries-build_overlay l.an (sort_by_id (values (mutate (sources l)).src)) ov b)
          ∙ b;
    }
    go (err x) b = h

guarded-IsCoherent :
    (l : LiveList) (rest : Outcome)
    → IsCoherent l
    → IsCoherent rest.0
    → IsCoherent (guarded l rest).0
unfolding guarded
guarded-IsCoherent l rest h r = elim (Bool-cases l.read_only) [
  | inl ro ↦
      rw (ro, guarded)
        (record {
          sound = h.sound;
          knows = h.knows;
          overlay = h.overlay;
          base_built = h.base_built;
          overlay_built = h.overlay_built;
          overlay_made = h.overlay_made;
        })
  | inr writable ↦ rw (writable, guarded) r
]

-- A list that is a base alone, as `Replace` and `Compact` leave it.
IsSound-base : (base : Option Segment) → IsSound base (record { src = []; tomb = [] })
unfolding lookup
IsSound-base base = record { keyed = tt; masks = λ id p q. cc; within = λ id p. cc }

upsert-IsCoherent :
    (entries : List Entry) (l : LiveList) → IsCoherent l → IsCoherent (upsert entries l).0
unfolding upsert
upsert-IsCoherent entries l h = guarded-IsCoherent l _ h (
    overlay-IsCoherent l none (put_all l.snap.base entries) h
      (IsSound-put_all l.snap.base entries (sources l) h.sound))

delete-IsCoherent : (k : Bytes) (l : LiveList) → IsCoherent l → IsCoherent (delete k l).0
unfolding delete
delete-IsCoherent k l h = guarded-IsCoherent l _ h (
    overlay-IsCoherent l none (take_out l.snap.base k) h
      (IsSound-take_out l.snap.base k (sources l) h.sound))

apply_journal-IsCoherent :
    (ops : List JournalRec) (jpos : ℕ) (l : LiveList)
    → IsCoherent l
    → IsCoherent (apply_journal ops jpos l).0
unfolding apply_journal
apply_journal-IsCoherent [] jpos l h = h
apply_journal-IsCoherent (op ∷ ops) jpos l h =
    overlay-IsCoherent l (some jpos) (fold_journal l.snap.base (op ∷ ops)) h
      (IsSound-fold_journal l.snap.base (op ∷ ops) (sources l) h.sound)

base_only-IsCoherent :
    (l : LiveList) (entries : List Entry) (install : Segment → LiveList)
    → IsCoherent l
    → ((seg : Segment) → KnowsIds (some seg) → IsBuilt l.an (some seg) → IsCoherent (install seg))
    → IsCoherent (with_build l (build_segment l.an entries) install).0
base_only-IsCoherent l entries install h new = go (build_segment l.an entries) refl
  where
    go :
        (r : Result Segment)
        → build_segment l.an entries ≡ r
        → IsCoherent (with_build l r install).0
    go (ok seg) b =
        new seg (KnowsIds-build_segment l.an entries seg b)
          (IsBuilt-build_segment l.an entries seg b)
    go (err x) b = h

replace-IsCoherent :
    (entries : List Entry) (l : LiveList) → IsCoherent l → IsCoherent (replace entries l).0
unfolding replace install_base sort_by_id values
replace-IsCoherent entries l h = guarded-IsCoherent l _ h (
    base_only-IsCoherent l (dedupe_last_wins entries) _ h λ seg knows built. record {
      sound = IsSound-base (some seg);
      knows = knows;
      overlay = refl;
      base_built = built;
      overlay_built = tt;
      overlay_made = refl;
    })

compact-IsCoherent : (l : LiveList) → IsCoherent l → IsCoherent (compact l).0
unfolding compact sort_by_id values
compact-IsCoherent l h = guarded-IsCoherent l _ h (
    base_only-IsCoherent l (live_entries l) _ h λ seg knows built. record {
      sound = IsSound-base (some seg);
      knows = knows;
      overlay = refl;
      base_built = built;
      overlay_built = tt;
      overlay_made = refl;
    })

protected-IsCoherent :
    (refusals : Option ℕ) (l : LiveList) → IsCoherent l → IsCoherent (protected refusals l)
protected-IsCoherent refusals l h = record {
  sound = h.sound;
  knows = h.knows;
  overlay = h.overlay;
  base_built = h.base_built;
  overlay_built = h.overlay_built;
  overlay_made = h.overlay_made;
}

-- One exported mutation of a list, whatever it returns, or the list's being made read-only.
pub data Step (l : LiveList) : LiveList → Type 0 where
  upserts : (entries : List Entry) → Step l (upsert entries l).0
  deletes : (id : Bytes) → Step l (delete id l).0
  replaces : (entries : List Entry) → Step l (replace entries l).0
  compacts : Step l (compact l).0
  replays : (ops : List JournalRec) (jpos : ℕ) → Step l (apply_journal ops jpos l).0
  protects : (refusals : Option ℕ) → Step l (protected refusals l)

pub data Reach (l : LiveList) : LiveList → Type 0 where
  here : Reach l l
  next : {m n : LiveList} → Reach l m → Step m n → Reach l n

Step-IsCoherent : {l m : LiveList} → Step l m → IsCoherent l → IsCoherent m
Step-IsCoherent {l} (upserts entries) h = upsert-IsCoherent entries l h
Step-IsCoherent {l} (deletes id) h = delete-IsCoherent id l h
Step-IsCoherent {l} (replaces entries) h = replace-IsCoherent entries l h
Step-IsCoherent {l} compacts h = compact-IsCoherent l h
Step-IsCoherent {l} (replays ops jpos) h = apply_journal-IsCoherent ops jpos l h
Step-IsCoherent {l} (protects refusals) h = protected-IsCoherent refusals l h

-- `NewList`: no base, no overlay, no tombstones.
abbrev pub new_list : (Bytes → Bytes) → LiveList
new_list an = record {
  an = an;
  snap = record { base = none; overlay = none; tombstones = []; version = Version.fresh };
  gen = 0;
  base_id = [];
  jhash = none;
  overlay_src = [];
  read_only = false;
  refusals = none;
}

new_list-IsCoherent : (an : Bytes → Bytes) → IsCoherent (new_list an)
unfolding find_entry in_base sort_by_id values
new_list-IsCoherent an = record {
  sound = IsSound-base none;
  knows = λ id. refl;
  overlay = refl;
  base_built = tt;
  overlay_built = tt;
  overlay_made = refl;
}

-- Every list reached from a new one by upserts, deletes, replacements, compactions and journal
-- replays, failed ones and those refused after it was made read-only included, is coherent: the
-- overlay map is keyed by entry ID, each of its entries that the base also has is masked by a
-- tombstone, each tombstone names an entry of the base, the map of IDs of the base knows exactly the
-- entries of the base, the overlay segment holds the overlay map in ID order, and each segment is
-- what building its entries gives.
pub Reach-IsCoherent : (an : Bytes → Bytes) {l : LiveList} → Reach (new_list an) l → IsCoherent l
Reach-IsCoherent an here = new_list-IsCoherent an
Reach-IsCoherent an (next r s) = Step-IsCoherent s (Reach-IsCoherent an r)
