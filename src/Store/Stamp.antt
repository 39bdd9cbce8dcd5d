-- ===== src/Store/Stamp.antt =====
-- engine/store.go: the version stamp of a list with a journal, before and after it is opened again.
use mathlib.Core.Option
use kurn.Prelude.{
  ℕ, ◌+◌, ◌==◌, ◌≡◌, refl, ap, sym, ◌∙◌, false, Option, none, some, List, [], ◌∷◌, ◌++◌, map,
  length, if◌then◌else◌, Bool-cases, inl, inr,
}
use kurn.Prelude.Bytes.{Bytes}
use kurn.Payload.Scalar.{is_empty}
use kurn.Exact.Index.{Result, ok, err}
use kurn.Live.Types.{Entry, Segment, LiveList, Version}
use kurn.Live.Mutate.{
  JournalRec, OverlayBuild, Outcome, Sources, prepare_overlay, commit_overlay, overlay_stamp,
  put_all, fold_journal, apply_journal, base_size, with_build,
}
use kurn.Store.Journal.{
  JournalFile, Disk, FsyncMode, StoreError, Appended, appended_to, failed, append_journal,
  read_journal,
}
use kurn.Store.Codec.{IsLawful}
use kurn.Store.Append.{append_journal_done, read_journal-append}
use kurn.Store.Mutate.{
  StoreList, upsert_of, journalled, commit_at, upsert_locked, reopen, open_journal, with_hash,
  replay_or_quarantine,
}

-- The content stamp of a base with a journal file.
abbrev pub stamp_of : (Bytes → Bytes) → Bytes → Option Segment → Bytes → Version
stamp_of digest base_id base file =
    Version.content base_id (base_size base) (length file)
      (if length file == 0 then none else some (digest file))

overlay_stamp-content :
    (l : LiveList) (s : Sources) (p : ℕ) (dg : Bytes)
    → is_empty l.base_id ≡ false
    → l.jhash ≡ some dg
    → overlay_stamp l s (some p)
      ≡ Version.content l.base_id (base_size l.snap.base) p (if p == 0 then none else some dg)
unfolding overlay_stamp
overlay_stamp-content l s p dg named hash = elim (Bool-cases (p == 0)) [
  | inl z ↦ rw (named, z) refl
  | inr z ↦ rw (named, z, hash) refl
]

version-apply_journal :
    (digest : Bytes → Bytes) (fresh l' : LiveList) (ops : List JournalRec) (file : Bytes)
    → is_empty fresh.base_id ≡ false
    → is_empty ops ≡ false
    → apply_journal ops (length file) (with_hash digest (some file) fresh) ≡ (l', none)
    → l'.snap.version ≡ stamp_of digest fresh.base_id fresh.snap.base file
unfolding apply_journal commit_overlay
version-apply_journal digest fresh l' [] file named some_ops h = cc
version-apply_journal digest fresh l' (op ∷ ops) file named some_ops h =
    go (prepare_overlay hashed (fold_journal fresh.snap.base (op ∷ ops))) h
  where
    hashed : LiveList
    hashed = with_hash digest (some file) fresh

    go :
        (r : Result OverlayBuild)
        → with_build hashed r (commit_overlay hashed (some (length file))) ≡ (l', none)
        → l'.snap.version ≡ stamp_of digest fresh.base_id fresh.snap.base file
    go (ok b) e =
        ap (λ (o : Outcome). o.0.snap.version) (sym e)
        ∙ overlay_stamp-content
            (record hashed { overlay_src = b.sources.src; gen = hashed.gen + 1 }) b.sources
            (length file) (digest file) named refl
    go (err x) e = cc (ap (λ (o : Outcome). o.1) e)

-- What a successful upsert has done to the journal and to the stamp.
version-upsert_locked :
    (digest : Bytes → Bytes) (encode : JournalRec → Option Bytes) (mode : FsyncMode) (d : Disk)
    (entries : List Entry) (s s' : StoreList)
    → s.journal.hashed ≡ some s.journal.file
    → is_empty s.list.base_id ≡ false
    → upsert_locked digest encode mode d entries s ≡ (s', none)
    → (s'.list.snap.version ≡ stamp_of digest s.list.base_id s.list.snap.base s'.journal.file)
      × (p : ℕ) × (append_journal encode mode d (map upsert_of entries) s.journal
          ≡ (s'.journal, appended_to p))
unfolding upsert_locked commit_overlay
version-upsert_locked digest encode mode d entries s s' hash named h =
    go (prepare_overlay s.list (put_all s.list.snap.base entries)) h
  where
    recs : List JournalRec
    recs = map upsert_of entries

    committed :
        (b : OverlayBuild) (r : JournalFile × Appended)
        → append_journal encode mode d recs s.journal ≡ r
        → commit_at digest encode s b r ≡ (s', none)
        → (s'.list.snap.version ≡ stamp_of digest s.list.base_id s.list.snap.base s'.journal.file)
          × (p : ℕ) × (append_journal encode mode d recs s.journal ≡ (s'.journal, appended_to p))
    committed b (j, failed x) a e = cc (ap (λ (q : StoreList × Option StoreError). q.1) e)
    committed b (j, appended_to p) a e =
        let (buf, _, file, position, _, _, hashed) =
          append_journal_done encode mode d recs s.journal j p a in
        let given : j.hashed ≡ some j.file =
          hashed ∙ ap (Option.map (λ x. x ++ buf)) hash ∙ ap some (sym file) in
        let same : s'.journal ≡ j =
          ap (λ (q : StoreList × Option StoreError). q.0.journal) (sym e) in
        let version : s'.list.snap.version
            ≡ stamp_of digest s.list.base_id s.list.snap.base j.file =
          ap (λ (q : StoreList × Option StoreError). q.0.list.snap.version) (sym e)
          ∙ overlay_stamp-content
              (record (with_hash digest j.hashed s.list) {
                overlay_src = b.sources.src;
                gen = s.list.gen + 1;
              })
              b.sources p (digest j.file) named (ap (Option.map digest) given)
          ∙ ap
              (λ q.
                Version.content s.list.base_id (base_size s.list.snap.base) q
                  (if q == 0 then none else some (digest j.file)))
              position in
        (
          version
              ∙ ap (λ (x : JournalFile). stamp_of digest s.list.base_id s.list.snap.base x.file)
                  (sym same),
          p,
          a ∙ ap (λ (x : JournalFile). (x, appended_to p)) (sym same),
        )

    go :
        (r : Result OverlayBuild)
        → journalled digest encode mode d recs r s ≡ (s', none)
        → (s'.list.snap.version ≡ stamp_of digest s.list.base_id s.list.snap.base s'.journal.file)
          × (p : ℕ) × (append_journal encode mode d recs s.journal ≡ (s'.journal, appended_to p))
    go (err x) e = cc (ap (λ (q : StoreList × Option StoreError). q.1) e)
    go (ok b) e = committed b (append_journal encode mode d recs s.journal) refl e

version-reopen :
    (digest : Bytes → Bytes) (decode : Bytes → Option JournalRec) (fresh : LiveList) (b : Bytes)
    (ops : List JournalRec)
    → is_empty fresh.base_id ≡ false
    → is_empty ops ≡ false
    → read_journal decode b ≡ record { ops = ops; torn_at = none }
    → (reopen digest decode fresh b).quarantined ≡ false
    → (reopen digest decode fresh b).store.list.snap.version
      ≡ stamp_of digest fresh.base_id fresh.snap.base b
unfolding reopen
version-reopen digest decode fresh b ops named some_ops read kept =
    ap (λ j. (open_journal digest fresh b j).store.list.snap.version) read
    ∙ go (apply_journal ops (length b) (with_hash digest (some b) fresh)) refl
        (ap (λ j. (open_journal digest fresh b j).quarantined) (sym read) ∙ kept)
  where
    go :
        (o : Outcome)
        → apply_journal ops (length b) (with_hash digest (some b) fresh) ≡ o
        → (replay_or_quarantine digest (with_hash digest (some b) fresh) b o).quarantined ≡ false
        → (replay_or_quarantine digest
            (with_hash digest (some b) fresh)
            b
            o).store.list.snap.version
          ≡ stamp_of digest fresh.base_id fresh.snap.base b
    go (l', none) e k = version-apply_journal digest fresh l' ops b named some_ops e
    go (l', some x) e k = cc

is_empty-append :
    (ops more : List JournalRec) → is_empty more ≡ false → is_empty (ops ++ more) ≡ false
is_empty-append [] more h = h
is_empty-append (op ∷ ops) more h = refl

-- Where the codec is lawful: after a successful upsert of at least one entry to a list whose journal
-- reads clean, whose base has an identity and whose hash was given the journal's bytes, the list
-- opened again from that base and the journal carries the same version stamp, if its journal is not
-- put aside. The entries need not be read back as they were written.
pub reopen-version :
    (digest : Bytes → Bytes) (encode : JournalRec → Option Bytes)
    (decode : Bytes → Option JournalRec) (normal : JournalRec → JournalRec) (mode : FsyncMode)
    (d : Disk) (e : Entry) (entries : List Entry) (ops : List JournalRec) (s s' : StoreList)
    (fresh : LiveList)
    → IsLawful encode decode normal
    → read_journal decode s.journal.file ≡ record { ops = ops; torn_at = none }
    → s.journal.hashed ≡ some s.journal.file
    → is_empty s.list.base_id ≡ false
    → upsert_locked digest encode mode d (e ∷ entries) s ≡ (s', none)
    → fresh.base_id ≡ s.list.base_id
    → fresh.snap.base ≡ s.list.snap.base
    → (reopen digest decode fresh s'.journal.file).quarantined ≡ false
    → (reopen digest decode fresh s'.journal.file).store.list.snap.version ≡ s'.list.snap.version
reopen-version digest encode decode normal mode d e entries ops s s' fresh lawful clean hash named h
      same_id same_base kept =
    let recs = map upsert_of (e ∷ entries) in
    let (stamped, p, appended) =
      version-upsert_locked digest encode mode d (e ∷ entries) s s' hash named h in
    let (buf, encoded, file, _, _, _, _) =
      append_journal_done encode mode d recs s.journal s'.journal p appended in
    version-reopen digest decode fresh s'.journal.file (ops ++ map normal recs)
      (ap is_empty same_id ∙ named) (is_empty-append ops (map normal recs) refl)
      (ap (read_journal decode) file
        ∙ read_journal-append encode decode normal lawful s.journal.file ops clean recs buf encoded)
      kept
    ∙ ap (λ x. stamp_of digest x fresh.snap.base s'.journal.file) same_id
    ∙ ap (λ x. stamp_of digest s.list.base_id x s'.journal.file) same_base
    ∙ sym stamped
