-- ===== src/Store/Reopened.antt =====
-- engine/store.go: a list that is opened again from its base and its journal.
use kurn.Prelude.{
  ℕ, ◌≡◌, refl, ap, sym, ◌∙◌, false, Option, none, some, List, [], ◌∷◌, ◌++◌, map, length, take,
}
use kurn.Prelude.Bytes.{Bytes}
use kurn.Exact.Index.{Result, ok, err}
use kurn.Live.Types.{Segment, LiveList}
use kurn.Live.Mutate.{
  with_build, JournalRec, OverlayBuild, Outcome, prepare_overlay, commit_overlay, fold_journal,
  apply_journal,
}
use kurn.Live.View.{view, view_of, sources, view-commit}
use kurn.Store.Journal.{read_journal, cut_at, no_damage, encode_lines, buffered, read_lines, repair}
use kurn.Store.Lines.{lines_of}
use kurn.Store.Replay.{read_journal-repair}
use kurn.Store.Codec.{IsLawful}
use kurn.Store.Append.{read_journal-torn}
use kurn.Store.Mutate.{StoreList, reopen, with_hash, replay_or_quarantine}
use kurn.Store.Durable.{no_sources, IsDurable, fold_journal-append, sources-prepare_overlay}

-- A list as it is before its journal is replayed.
pub record IsFresh (fresh : LiveList) (base : Option Segment) : Type 0 where
  pub same_base : fresh.snap.base ≡ base
  pub empty : sources fresh ≡ no_sources

view-replayed :
    (fresh l' : LiveList) (ops : List JournalRec) (jpos : ℕ) (id : Bytes)
    → apply_journal ops jpos fresh ≡ (l', none)
    → view l' id ≡ view_of fresh.snap.base (fold_journal fresh.snap.base ops (sources fresh)) id
unfolding apply_journal fold_journal
view-replayed fresh l' [] jpos id h = ap (λ (o : Outcome). view o.0 id) (sym h)
view-replayed fresh l' (op ∷ ops) jpos id h =
    view-commit fresh l' (some jpos) (fold_journal fresh.snap.base (op ∷ ops)) h id

-- What a reopened list shows whose journal was not put aside.
view-reopen :
    (digest : Bytes → Bytes) (decode : Bytes → Option JournalRec) (fresh : LiveList)
    (base : Option Segment) (b : Bytes) (id : Bytes)
    → IsFresh fresh base
    → (reopen digest decode fresh b).quarantined ≡ false
    → view (reopen digest decode fresh b).store.list id
      ≡ view_of base (fold_journal base (read_journal decode b).ops no_sources) id
unfolding reopen
view-reopen digest decode fresh base b id h kept =
    go (apply_journal (read_journal decode b).ops (length file) hashed) refl kept
  where
    file : Bytes
    file = cut_at (read_journal decode b) b

    hashed : LiveList
    hashed = with_hash digest (some file) fresh

    go :
        (o : Outcome)
        → apply_journal (read_journal decode b).ops (length file) hashed ≡ o
        → (replay_or_quarantine digest hashed file o).quarantined ≡ false
        → view (replay_or_quarantine digest hashed file o).store.list id
          ≡ view_of base (fold_journal base (read_journal decode b).ops no_sources) id
    go (l', none) e k =
        view-replayed hashed l' (read_journal decode b).ops (length file) id e
        ∙ ap (λ x. view_of x (fold_journal x (read_journal decode b).ops (sources fresh)) id)
            h.same_base
        ∙ ap (λ x. view_of base (fold_journal base (read_journal decode b).ops x) id) h.empty
    go (l', some x) e k = cc

apply_journal-done :
    (l l' : LiveList) (ops : List JournalRec) (jpos : ℕ)
    → apply_journal ops jpos l ≡ (l', none)
    → (l'.snap.base ≡ l.snap.base) × (sources l' ≡ fold_journal l.snap.base ops (sources l))
unfolding apply_journal fold_journal commit_overlay
apply_journal-done l l' [] jpos h =
    let same : l' ≡ l = sym (ap (λ (o : Outcome). o.0) h) in
    (ap (λ (x : LiveList). x.snap.base) same, ap sources same)
apply_journal-done l l' (op ∷ ops) jpos h =
    go (prepare_overlay l (fold_journal l.snap.base (op ∷ ops))) refl h
  where
    go :
        (r : Result OverlayBuild)
        → prepare_overlay l (fold_journal l.snap.base (op ∷ ops)) ≡ r
        → with_build l r (commit_overlay l (some jpos)) ≡ (l', none)
        → (l'.snap.base ≡ l.snap.base)
          × (sources l' ≡ fold_journal l.snap.base (op ∷ ops) (sources l))
    go (ok b) made e = (
      ap (λ (o : Outcome). o.0.snap.base) (sym e),
      ap (λ (o : Outcome). sources o.0) (sym e)
          ∙ sources-prepare_overlay l (fold_journal l.snap.base (op ∷ ops)) b made,
    )
    go (err x) made e = cc (ap (λ (o : Outcome). o.1) e)

-- Whatever bytes the journal has, opening a list that has nothing above its base leaves it durable,
-- the journal repaired or put aside: what is in the file then reads clean, and its records over the
-- base are what the list shows.
pub reopen-IsDurable :
    (digest : Bytes → Bytes) (decode : Bytes → Option JournalRec) (fresh : LiveList) (b : Bytes)
    → sources fresh ≡ no_sources
    → IsDurable decode (reopen digest decode fresh b).store
unfolding reopen repair
reopen-IsDurable digest decode fresh b empty = go (apply_journal ops (length file) hashed) refl
  where
    ops : List JournalRec
    ops = (read_journal decode b).ops

    file : Bytes
    file = cut_at (read_journal decode b) b

    hashed : LiveList
    hashed = with_hash digest (some file) fresh

    go :
        (o : Outcome)
        → apply_journal ops (length file) hashed ≡ o
        → IsDurable decode (replay_or_quarantine digest hashed file o).store
    go (l', none) e sound =
        let (base, shown) = apply_journal-done hashed l' ops (length file) e in
        (
          ops,
          unfold repair in read_journal-repair decode b,
          shown ∙ (λ i. fold_journal (sym base i) ops (empty i)),
        )
    go (l', some x) e sound = (
      [],
      unfold read_journal read_lines lines_of fold_journal in refl,
      unfold fold_journal in empty,
    )

-- Where the codec is lawful: if a crash lets only the first `n` bytes of an append's lines reach the journal of a durable,
-- undamaged list, and the list opened again does not put its journal aside, it shows what it showed
-- with the first few of the append's records applied, as they are read back: all or some or none.
pub reopen-torn :
    (digest : Bytes → Bytes) (encode : JournalRec → Option Bytes)
    (decode : Bytes → Option JournalRec) (normal : JournalRec → JournalRec) (s : StoreList)
    (fresh : LiveList) (recs : List JournalRec) (buf : Bytes) (n : ℕ)
    → IsLawful encode decode normal
    → IsDurable decode s
    → s.journal.damage ≡ no_damage
    → encode_lines encode recs ≡ buffered buf
    → IsFresh fresh s.list.snap.base
    → (reopen digest decode fresh (s.journal.file ++ take n buf)).quarantined ≡ false
    → (m : ℕ) × ((id : Bytes)
        → view (reopen digest decode fresh (s.journal.file ++ take n buf)).store.list id
          ≡ view_of s.list.snap.base
              (fold_journal s.list.snap.base (take m (map normal recs)) (sources s.list))
              id)
reopen-torn digest encode decode normal s fresh recs buf n lawful durable sound encoded h kept =
    let (ops, clean, shown) = durable sound in
    let (m, read) =
      read_journal-torn encode decode normal lawful s.journal.file ops clean recs buf encoded n in
    let base = s.list.snap.base in
    (
      m,
      λ id.
          view-reopen digest decode fresh base (s.journal.file ++ take n buf) id h kept
          ∙ ap (λ x. view_of base (fold_journal base x no_sources) id) read
          ∙ ap (λ x. view_of base x id)
              (fold_journal-append base ops (take m (map normal recs)) no_sources
                ∙ ap (fold_journal base (take m (map normal recs))) (sym shown)),
    )
