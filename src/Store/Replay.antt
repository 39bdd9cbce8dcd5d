-- ===== src/Store/Replay.antt =====
-- engine/store.go: what a journal that is read, torn or repaired gives.
use mathlib.Core.Bool.{◌&&◌}
use kurn.Prelude.{
  ℕ, ◌+◌, ◌≡◌, refl, ap, sym, ◌∙◌, Bool, true, false, Option, none, some, List, [], ◌∷◌, ◌++◌,
  if◌then◌else◌, Bool-cases, Option-cases, inl, inr, arith, length, take, length-append, append-nil,
  append_assoc,
}
use kurn.Prelude.Bytes.{Bytes}
use kurn.Payload.Scalar.{is_empty}
use kurn.Live.Mutate.{JournalRec}
use kurn.Store.Lines.{lines_of, concat, AllLines, lines_of-append, lines_of-Split, concat-lines_of}
use kurn.Store.Journal.{Journal, records_of, read_lines, read_journal, repair, cut_at}

take-length-append : (xs ys : Bytes) → take (length xs) (xs ++ ys) ≡ xs
take-length-append [] ys = refl
take-length-append (x ∷ xs) ys = ap (◌∷◌ x) (take-length-append xs ys)

abbrev cleared : Journal → Journal
cleared j = record j { torn_at = none }

module _ (decode : Bytes → Option JournalRec) where
  -- The lines in front of the first one that gives no records.
  unfoldable pub keep : List Bytes → List Bytes
  keep [] = []
  keep (l ∷ lines) = elim (records_of decode l) [ none ↦ [] | some rs ↦ l ∷ keep lines ]

  -- Their records.
  unfoldable pub kept : List Bytes → List JournalRec
  kept [] = []
  kept (l ∷ lines) = elim (records_of decode l) [ none ↦ [] | some rs ↦ rs ++ kept lines ]

  -- Whether these are all.
  unfoldable pub all_kept : List Bytes → Bool
  all_kept [] = true
  all_kept (l ∷ lines) = elim (records_of decode l) [ none ↦ false | some rs ↦ all_kept lines ]

  abbrev pub outcome : List Bytes → Bytes → List JournalRec → ℕ → Journal
  outcome lines tail ops off = record {
    ops = ops ++ kept lines;
    torn_at =
        if all_kept lines && is_empty tail then none else some (off + length (concat (keep lines)));
  }

  pub read_lines-outcome :
      (lines : List Bytes) (tail : Bytes) (ops : List JournalRec) (off : ℕ)
      → read_lines decode lines tail ops off ≡ outcome lines tail ops off
  unfolding read_lines keep kept all_kept
  read_lines-outcome [] tail ops off =
      let same : off + 0 ≡ off = omega arith in rw (append-nil ops, same) refl
  read_lines-outcome (l ∷ lines) tail ops off = elim (Option-cases (records_of decode l)) [
    | inl e ↦
        rw (e, read_lines, keep, kept, all_kept)
          (let same : off + 0 ≡ off = omega arith in rw (append-nil ops, same) refl)
    | inr (rs, e) ↦
        rw (e, read_lines, keep, kept, all_kept)
          (read_lines-outcome lines tail (ops ++ rs) (off + length l)
            ∙ let moved : off + length l + length (concat (keep lines))
                  ≡ off + length (l ++ concat (keep lines)) =
                omega (arith, length-append l (concat (keep lines))) in
              rw (append_assoc ops rs (kept lines), moved) refl)
  ]

  kept-keep : (lines : List Bytes) → kept (keep lines) ≡ kept lines
  unfolding keep kept
  kept-keep [] = refl
  kept-keep (l ∷ lines) = elim (Option-cases (records_of decode l)) [
    | inl e ↦ rw (e, keep, kept) refl
    | inr (rs, e) ↦ rw (e, keep, kept) (rw (e, kept) (ap (◌++◌ rs) (kept-keep lines)))
  ]

  all_kept-keep : (lines : List Bytes) → all_kept (keep lines) ≡ true
  unfolding keep all_kept
  all_kept-keep [] = refl
  all_kept-keep (l ∷ lines) = elim (Option-cases (records_of decode l)) [
    | inl e ↦ rw (e, keep) refl
    | inr (rs, e) ↦ rw (e, keep) (rw (e, all_kept) (all_kept-keep lines))
  ]

  AllLines-keep : (lines : List Bytes) → AllLines lines → AllLines (keep lines)
  unfolding keep
  AllLines-keep [] h = tt
  AllLines-keep (l ∷ lines) h = elim (Option-cases (records_of decode l)) [
    | inl e ↦ rw (e, keep) tt
    | inr (rs, e) ↦ rw (e, keep) ((h.0, AllLines-keep lines h.1))
  ]

  concat-keep : (lines : List Bytes) → (rest : Bytes) × (concat lines ≡ concat (keep lines) ++ rest)
  unfolding keep
  concat-keep [] = ([], refl)
  concat-keep (l ∷ lines) = elim (Option-cases (records_of decode l)) [
    | inl e ↦ (concat (l ∷ lines), rw (e, keep) refl)
    | inr (rs, e) ↦
        let (rest, same) = concat-keep lines in
        (rest, rw (e, keep) (ap (◌++◌ l) same ∙ sym (append_assoc l (concat (keep lines)) rest)))
  ]

  pub read_journal-outcome :
      (b : Bytes) → read_journal decode b ≡ outcome (lines_of b).0 (lines_of b).1 [] 0
  unfolding read_journal
  read_journal-outcome b = read_lines-outcome (lines_of b).0 (lines_of b).1 [] 0

  torn_repair :
      (b : Bytes)
      → read_journal decode (take (length (concat (keep (lines_of b).0))) b)
        ≡ record { ops = kept (lines_of b).0; torn_at = none }
  unfolding lines_of
  torn_repair b =
      let front = keep (lines_of b).0 in
      let (rest, same) = concat-keep (lines_of b).0 in
      let cut : take (length (concat front)) b ≡ concat front ++ [] =
        ap (take (length (concat front))) (
          sym (concat-lines_of b)
          ∙ ap (λ x. x ++ (lines_of b).1) same
          ∙ append_assoc (concat front) rest (lines_of b).1)
        ∙ take-length-append (concat front) (rest ++ (lines_of b).1)
        ∙ sym (append-nil (concat front)) in
      ap (read_journal decode) cut
      ∙ read_journal-outcome (concat front ++ [])
      ∙ ap (λ (p : List Bytes × Bytes). outcome p.0 p.1 [] 0)
          (lines_of-append front [] (AllLines-keep (lines_of b).0 (lines_of-Split b).0)
            ∙ ap (λ x. (x, [])) (append-nil front))
      ∙ rw (all_kept-keep (lines_of b).0, kept-keep (lines_of b).0) refl

  -- Opening a journal repairs it: the repaired file reads clean, and gives the records that the
  -- damaged file gave.
  pub read_journal-repair :
      (b : Bytes)
      → read_journal decode (repair decode b)
        ≡ record { ops = (read_journal decode b).ops; torn_at = none }
  unfolding repair
  read_journal-repair b = elim (Bool-cases (all_kept (lines_of b).0 && is_empty (lines_of b).1)) [
    | inl clean ↦
        let read : read_journal decode b ≡ record { ops = kept (lines_of b).0; torn_at = none } =
          read_journal-outcome b ∙ rw clean refl in
        ap (λ j. read_journal decode (cut_at j b)) read ∙ read ∙ ap cleared (sym read)
    | inr torn ↦
        let read : read_journal decode b ≡ record {
          ops = kept (lines_of b).0;
          torn_at = some (length (concat (keep (lines_of b).0)));
        } =
          read_journal-outcome b
          ∙ (let same : 0 + length (concat (keep (lines_of b).0))
                  ≡ length (concat (keep (lines_of b).0)) =
                omega arith in
              rw (torn, same) refl) in
        ap (λ j. read_journal decode (cut_at j b)) read ∙ torn_repair b ∙ ap cleared (sym read)
  ]
