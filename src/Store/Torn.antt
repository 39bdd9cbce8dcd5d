-- ===== src/Store/Torn.antt =====
-- engine/store.go, `readJournal`: what is read of a clean journal with whole or cut lines behind it.
use mathlib.Core.Bool.{◌&&◌}
use kurn.Prelude.{
  ℕ, zero, suc, ◌-◌, ◌≤◌, ◌<◌, ◌≡◌, refl, ap, sym, ◌∙◌, true, Option, none, List, [], ◌∷◌, ◌++◌,
  Bool-cases, Option-cases, inl, inr, arith, ltb, length, take, append-nil, append_assoc,
}
use kurn.Prelude.Bytes.{Bytes}
use kurn.Payload.Scalar.{is_empty}
use kurn.Live.Mutate.{JournalRec}
use kurn.Store.Lines.{
  concat, AllLines, IsLine, IsTail, lines_of, lines_of-append, lines_of-tail, lines_of-Split,
  concat-lines_of,
}
use kurn.Store.Journal.{Journal, read_journal, records_of}
use kurn.Store.Replay.{kept, all_kept, outcome, read_journal-outcome}
use kurn.Store.Codec.{Encoded, AllLines-of_Encoded, kept_of_Encoded}

-- Where the file was cut in the middle of a line, the rest of that line has no newline.
take-line : (n : ℕ) (l rest : Bytes) → IsLine l → n < length l → IsTail (take n (l ++ rest))
take-line zero l rest h lt = tt
take-line (suc n) [] rest h lt = absurd h
take-line (suc n) (c ∷ []) rest h lt = absurd (omega arith)
take-line (suc n) (c ∷ d ∷ l) rest h lt = (h.0, take-line n (d ∷ l) rest h.1 (omega arith))

take-past :
    (n : ℕ) (l rest : Bytes) → length l ≤ n → take n (l ++ rest) ≡ l ++ take (n - length l) rest
take-past n [] rest h = let same : n - 0 ≡ n = omega arith in rw same refl
take-past zero (c ∷ l) rest h = absurd (omega arith)
take-past (suc n) (c ∷ l) rest h =
    let same : suc n - suc (length l) ≡ n - length l = omega arith in
    rw same (ap (◌∷◌ c) (take-past n l rest (omega arith)))

take-nil : (n : ℕ) → take {A = ℕ} n [] ≡ []
take-nil zero = refl
take-nil (suc n) = refl

-- A part of whole lines is some of the lines, and a tail.
pub take-concat :
    (n : ℕ) (lines : List Bytes)
    → AllLines lines
    → (m : ℕ) × (t : Bytes) × (take n (concat lines) ≡ concat (take m lines) ++ t) × IsTail t
take-concat n [] h = (0, [], take-nil n, tt)
take-concat n (l ∷ lines) h = elim (Bool-cases (ltb n (length l))) [
  | inl inside ↦
      (0, take n (l ++ concat lines), refl, take-line n l (concat lines) h.0 (ground arith))
  | inr past ↦
      let (m, t, same, tail) = take-concat (n - length l) lines h.1 in
      (
        suc m,
        t,
        take-past n l (concat lines) (ground arith)
            ∙ ap (◌++◌ l) same
            ∙ sym (append_assoc l (concat (take m lines)) t),
        tail,
      )
]

nil_of_is_empty : (b : Bytes) → is_empty b ≡ true → b ≡ []
nil_of_is_empty [] h = refl
nil_of_is_empty (c ∷ b) h = cc

module _ (decode : Bytes → Option JournalRec) where
  -- A journal that reads clean is whole lines, all of which give records.
  whole :
      (b : Bytes) (ops : List JournalRec)
      → read_journal decode b ≡ record { ops = ops; torn_at = none }
      → (b ≡ concat (lines_of b).0)
        × (all_kept decode (lines_of b).0 ≡ true)
        × (kept decode (lines_of b).0 ≡ ops)
  whole b ops h = elim (Bool-cases (all_kept decode (lines_of b).0 && is_empty (lines_of b).1)) [
    | inl clean ↦
        let all : all_kept decode (lines_of b).0 ≡ true = ground arith in
        let no_tail : is_empty (lines_of b).1 ≡ true = ground arith in
        (
          sym (concat-lines_of b)
              ∙ ap (◌++◌ (concat (lines_of b).0)) (nil_of_is_empty (lines_of b).1 no_tail)
              ∙ append-nil (concat (lines_of b).0),
          all,
          ap (λ (j : Journal). j.ops) (sym (read_journal-outcome decode b) ∙ h),
        )
    | inr torn ↦
        cc (rw torn at (ap (λ (j : Journal). j.torn_at) (sym (read_journal-outcome decode b) ∙ h)))
  ]

  kept-append :
      (lines more : List Bytes)
      → all_kept decode lines ≡ true
      → (kept decode (lines ++ more) ≡ kept decode lines ++ kept decode more)
        × (all_kept decode (lines ++ more) ≡ all_kept decode more)
  unfolding kept all_kept
  kept-append [] more h = (refl, refl)
  kept-append (l ∷ lines) more h = elim (Option-cases (records_of decode l)) [
    | inl e ↦ cc (rw (e, all_kept) at h)
    | inr (rs, e) ↦
        let (same, all) = kept-append lines more (rw (e, all_kept) at h) in
        rw (e, kept, all_kept)
          ((ap (◌++◌ rs) same ∙ sym (append_assoc rs (kept decode lines) (kept decode more)), all))
  ]

  -- What is read of a clean journal with some lines and a tail behind it.
  pub read_behind :
      (b : Bytes) (ops : List JournalRec) (lines : List Bytes) (recs : List JournalRec) (t : Bytes)
      → read_journal decode b ≡ record { ops = ops; torn_at = none }
      → Encoded decode lines recs
      → IsTail t
      → ((read_journal decode (b ++ (concat lines ++ t))).ops ≡ ops ++ recs)
        × (is_empty t ≡ true → (read_journal decode (b ++ (concat lines ++ t))).torn_at ≡ none)
  read_behind b ops lines recs t clean enc tail =
      let (joined, all, same) = whole b ops clean in
      let ls = (lines_of b).0 in
      let (recs_same, recs_all) = kept_of_Encoded decode lines recs enc in
      let behind : lines_of (concat lines ++ t) ≡ (lines, t) =
        lines_of-append lines t (AllLines-of_Encoded decode lines recs enc)
        ∙ ap (λ (q : List Bytes × Bytes). (lines ++ q.0, q.1)) (lines_of-tail t tail)
        ∙ ap (λ x. (x, t)) (append-nil lines) in
      let split : lines_of (b ++ (concat lines ++ t)) ≡ (ls ++ lines, t) =
        ap (λ x. lines_of (x ++ (concat lines ++ t))) joined
        ∙ lines_of-append ls (concat lines ++ t) (lines_of-Split b).0
        ∙ ap (λ (q : List Bytes × Bytes). (ls ++ q.0, q.1)) behind in
      let read : read_journal decode (b ++ (concat lines ++ t))
          ≡ outcome decode (ls ++ lines) t [] 0 =
        read_journal-outcome decode (b ++ (concat lines ++ t))
        ∙ ap (λ (q : List Bytes × Bytes). outcome decode q.0 q.1 [] 0) split in
      let (kept_same, kept_all) = kept-append ls lines all in
      (
        ap (λ (j : Journal). j.ops) read
            ∙ kept_same
            ∙ ap (λ x. x ++ kept decode lines) same
            ∙ ap (◌++◌ ops) recs_same,
        λ empty. ap (λ (j : Journal). j.torn_at) read ∙ rw (kept_all, recs_all, empty) refl,
      )

pub record_of_parts :
    (j : Journal) (ops : List JournalRec)
    → j.ops ≡ ops
    → j.torn_at ≡ none
    → j ≡ record { ops = ops; torn_at = none }
record_of_parts j ops e f = λ i. record { ops = e i; torn_at = f i }
