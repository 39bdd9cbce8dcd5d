-- ===== src/Store/Append.antt =====
-- engine/store.go, `appendJournal`: what an append leaves in the file, whatever fails on the way.
use mathlib.Core.Bool.{◌&&◌, not}
use mathlib.Core.Option
use kurn.Prelude.{
  ℕ, ◌+◌, ◌≡◌, refl, ap, sym, ◌∙◌, true, Option, none, some, List, [], ◌++◌, Bool-cases, inl, inr,
  length, map, take, append-nil, length-append, subst,
}
use kurn.Prelude.Bytes.{Bytes}
use kurn.Live.Mutate.{JournalRec}
use kurn.Store.Lines.{concat}
use kurn.Store.Journal.{
  JournalFile, Disk, FsyncMode, DamageKind, no_damage, content_damage, create_damage, StoreError,
  damaged, Appended, appended_to, failed, Buffer, buffered, refused, encode_lines, rollback,
  append_buf, append_encoded, append_journal, undamaged, is_every, is_interval, read_journal,
}
use kurn.Store.Codec.{IsLawful, AllLines-of_Encoded, take-Encoded, encode_lines-Encoded}
use kurn.Store.Torn.{take-concat, read_behind, record_of_parts}

module _ (encode : JournalRec → Option Bytes) (decode : Bytes → Option JournalRec)
    (normal : JournalRec → JournalRec) (lawful : IsLawful encode decode normal) (b : Bytes)
    (ops : List JournalRec) (clean : read_journal decode b ≡ record { ops = ops; torn_at = none })
    (recs : List JournalRec) (buf : Bytes) (encoded : encode_lines encode recs ≡ buffered buf) where
  -- Where the codec is lawful, a clean journal with the lines of some records behind it reads clean,
  -- and gives its records and then, in order, what each of those is read back as.
  pub read_journal-append :
      read_journal decode (b ++ buf) ≡ record { ops = ops ++ map normal recs; torn_at = none }
  read_journal-append =
      let (lines, joined, good) =
        encode_lines-Encoded encode decode normal lawful recs buf encoded in
      let (read, no_tear) = read_behind decode b ops lines (map normal recs) [] clean good tt in
      let same : b ++ (concat lines ++ []) ≡ b ++ buf =
        ap (◌++◌ b) (append-nil (concat lines) ∙ joined) in
      record_of_parts (read_journal decode (b ++ buf)) (ops ++ map normal recs)
        (ap (λ x. (read_journal decode x).ops) (sym same) ∙ read)
        (ap (λ x. (read_journal decode x).torn_at) (sym same) ∙ no_tear refl)

  -- If only the first `n` bytes of the lines of some records reached a clean journal, it gives its
  -- records and then what the first few of those are read back as.
  pub read_journal-torn :
      (n : ℕ)
      → (m : ℕ) × ((read_journal decode (b ++ take n buf)).ops ≡ ops ++ take m (map normal recs))
  read_journal-torn n =
      let (lines, joined, good) =
        encode_lines-Encoded encode decode normal lawful recs buf encoded in
      let (m, t, cut, tail) =
        take-concat n lines (AllLines-of_Encoded decode lines (map normal recs) good) in
      let (read, _) =
        read_behind decode b ops (take m lines) (take m (map normal recs)) t clean
          (take-Encoded decode m lines (map normal recs) good) tail in
      (m, ap (λ x. (read_journal decode (b ++ x)).ops) (ap (take n) (sym joined) ∙ cut) ∙ read)

-- The bytes of the file are those that the running hash was given, unless the list is damaged.
abbrev pub IsInStep : JournalFile → Type 0
IsInStep j = j.damage ≡ no_damage → (h : Bytes) → j.hashed ≡ some h → h ≡ j.file

rollback-IsInStep :
    (d : Disk) (partial : Bytes) (e : StoreError) (j : JournalFile)
    → IsInStep j
    → IsInStep (rollback d partial e j).0
unfolding rollback
rollback-IsInStep d partial e j h = elim (Bool-cases d.truncates) [
  | inl cut ↦ rw cut h
  | inr not_cut ↦ rw not_cut (λ undamaged. cc)
]

abbrev extended : Bytes → JournalFile → JournalFile
extended buf j = record j { file = j.file ++ buf; hashed = Option.map (λ h. h ++ buf) j.hashed }

-- The three ways in which the writing ends.
append_buf_ends {ℓ} :
    (P : JournalFile × Appended → Type ℓ) (mode : FsyncMode) (d : Disk) (buf : Bytes)
    (j : JournalFile)
    → ((e : StoreError) → P (j, failed e))
    → ((partial : Bytes) (e : StoreError) → P (rollback d partial e j))
    → P (extended buf j, appended_to (length j.file + length buf))
    → P (append_buf mode d buf j)
unfolding append_buf
append_buf_ends P mode d buf j untouched undone done = elim (Bool-cases d.opens) [
  | inr o ↦ rw o (untouched _)
  | inl o ↦ elim (Bool-cases d.writes) [
    | inr w ↦ rw (o, w) (undone _ _)
    | inl w ↦ elim (Bool-cases (is_every mode && not d.syncs)) [
      | inl s ↦ rw (o, w, s) (undone _ _)
      | inr s ↦ elim (Bool-cases d.closes) [
        | inr c ↦ rw (o, w, s, c) (undone _ _)
        | inl c ↦ elim (Bool-cases (is_interval mode && not d.commits)) [
          | inl g ↦ rw (o, w, s, c, g) (undone _ _)
          | inr g ↦ rw (o, w, s, c, g) done
        ]
      ]
    ]
  ]
]

extended-IsInStep : (buf : Bytes) (j : JournalFile) → IsInStep j → IsInStep (extended buf j)
extended-IsInStep buf j h sound g e = go j.hashed refl e
  where
    go :
        (o : Option Bytes)
        → j.hashed ≡ o
        → Option.map (λ x. x ++ buf) o ≡ some g
        → g ≡ j.file ++ buf
    go none known e' = cc
    go (some x) known e' =
        let same : x ++ buf ≡ g = cc in sym same ∙ ap (λ y. y ++ buf) (h sound x known)

append_buf-IsInStep :
    (mode : FsyncMode) (d : Disk) (buf : Bytes) (j : JournalFile)
    → IsInStep j
    → IsInStep (append_buf mode d buf j).0
append_buf-IsInStep mode d buf j h =
    append_buf_ends (λ r. IsInStep r.0) mode d buf j (λ e. h)
      (λ partial e. rollback-IsInStep d partial e j h) (extended-IsInStep buf j h)

-- However an append ends, the running hash was given exactly the bytes of the file, or the list is
-- damaged, if that was so before.
pub append_journal-IsInStep :
    (encode : JournalRec → Option Bytes) (mode : FsyncMode) (d : Disk) (recs : List JournalRec)
    (j : JournalFile)
    → IsInStep j
    → IsInStep (append_journal encode mode d recs j).0
unfolding append_journal
append_journal-IsInStep encode mode d recs j h = elim (Bool-cases (undamaged j.damage)) [
  | inl sound ↦ rw sound (encoded (encode_lines encode recs))
  | inr bad ↦ rw bad h
]
  where
    encoded : (b : Buffer) → IsInStep (append_encoded mode d b j).0
    encoded (buffered buf) = append_buf-IsInStep mode d buf j h
    encoded (refused e) = h

-- What the result says of the journal: nothing happened, or the list is damaged, or the bytes are
-- appended.
abbrev Reported : Bytes → JournalFile → JournalFile × Appended → Type 0
Reported buf j (j', failed e) = j'.damage ≡ no_damage → j' ≡ j
Reported buf j (j', appended_to p) =
    (j'.file ≡ j.file ++ buf)
    × (p ≡ length j'.file)
    × (j'.damage ≡ j.damage)
    × (j'.hashed ≡ Option.map (λ h. h ++ buf) j.hashed)

append_buf-Reported :
    (mode : FsyncMode) (d : Disk) (buf : Bytes) (j : JournalFile)
    → Reported buf j (append_buf mode d buf j)
unfolding rollback
append_buf-Reported mode d buf j =
    append_buf_ends (Reported buf j) mode d buf j (λ e sound. refl) undone
      (refl, sym (length-append j.file buf), refl, refl)
  where
    undone : (partial : Bytes) (e : StoreError) → Reported buf j (rollback d partial e j)
    undone partial e = elim (Bool-cases d.truncates) [
      | inl cut ↦ rw (cut, rollback) (λ sound. refl)
      | inr not_cut ↦ rw (not_cut, rollback) (λ sound. cc)
    ]

-- An append that fails and leaves the list undamaged has changed nothing.
pub append_journal_failed :
    (encode : JournalRec → Option Bytes) (mode : FsyncMode) (d : Disk) (recs : List JournalRec)
    (j j' : JournalFile) (e : StoreError)
    → append_journal encode mode d recs j ≡ (j', failed e)
    → j'.damage ≡ no_damage
    → j' ≡ j
unfolding append_journal
append_journal_failed encode mode d recs j j' e h sound = elim (Bool-cases (undamaged j.damage)) [
  | inl fine ↦ go (encode_lines encode recs) (rw fine at h)
  | inr bad ↦
      let refused : ◌≡◌ {A = JournalFile × Appended} (j, failed (damaged j.damage)) (j', failed e) =
        rw bad at h in
      ap (λ (r : JournalFile × Appended). r.0) (sym refused)
]
  where
    go : (b : Buffer) → append_encoded mode d b j ≡ (j', failed e) → j' ≡ j
    go (buffered buf) r = subst (Reported buf j) r (append_buf-Reported mode d buf j) sound
    go (refused x) r = ap (λ (q : JournalFile × Appended). q.0) (sym r)

-- An append that succeeds has put the line of every record, in order, behind the file, and reports
-- the file's new length; the list was not damaged and is not, and the hash was given those bytes.
pub append_journal_done :
    (encode : JournalRec → Option Bytes) (mode : FsyncMode) (d : Disk) (recs : List JournalRec)
    (j j' : JournalFile) (p : ℕ)
    → append_journal encode mode d recs j ≡ (j', appended_to p)
    → (buf : Bytes) × (encode_lines encode recs ≡ buffered buf)
      × (j'.file ≡ j.file ++ buf)
      × (p ≡ length j'.file)
      × (j.damage ≡ no_damage)
      × (j'.damage ≡ no_damage)
      × (j'.hashed ≡ Option.map (λ h. h ++ buf) j.hashed)
unfolding append_journal
append_journal_done encode mode d recs j j' p h = elim (Bool-cases (undamaged j.damage)) [
  | inl fine ↦ go (encode_lines encode recs) refl (undamaged_kind j.damage fine) (rw fine at h)
  | inr bad ↦
      let refused : ◌≡◌ {A = JournalFile × Appended} (j, failed (damaged j.damage))
          (j', appended_to p) =
        rw bad at h in
      cc (ap (λ (r : JournalFile × Appended). r.1) refused)
]
  where
    undamaged_kind : (k : DamageKind) → undamaged k ≡ true → k ≡ no_damage
    undamaged_kind no_damage u = refl
    undamaged_kind content_damage u = cc
    undamaged_kind create_damage u = cc

    go :
        (b : Buffer)
        → encode_lines encode recs ≡ b
        → j.damage ≡ no_damage
        → append_encoded mode d b j ≡ (j', appended_to p)
        → (buf : Bytes) × (encode_lines encode recs ≡ buffered buf)
          × (j'.file ≡ j.file ++ buf)
          × (p ≡ length j'.file)
          × (j.damage ≡ no_damage)
          × (j'.damage ≡ no_damage)
          × (j'.hashed ≡ Option.map (λ h. h ++ buf) j.hashed)
    go (buffered buf) e fine r =
        let (file, position, kind, hash) =
          subst (Reported buf j) r (append_buf-Reported mode d buf j) in
        (buf, e, file, position, fine, kind ∙ fine, hash)
    go (refused x) e fine r = cc (ap (λ (q : JournalFile × Appended). q.1) r)
