-- ===== src/Store/Codec.antt =====
-- engine/store.go: the lines that an append writes, read back.
use kurn.Prelude.{
  ℕ, zero, suc, ◌≡◌, refl, ap, ◌∙◌, true, false, Option, some, List, [], ◌∷◌, ◌++◌, Bool-cases,
  Option-cases, inl, inr, ltb, length, take, append_assoc, map,
}
use kurn.Prelude.Bytes.{Bytes}
use kurn.Payload.Scalar.{is_empty}
use kurn.Live.Mutate.{JournalRec}
use kurn.Store.Lines.{newline, concat, AllLines, IsLine, IsTail}
use kurn.Store.Journal.{
  records_of, before_newline, Buffer, buffered, refused, add_line, encode_lines, max_line,
}
use kurn.Store.Replay.{kept, all_kept}

-- What the journal relies on in `json.Marshal` and `json.Unmarshal`: a marshalled record is not
-- empty, has no newline byte, and unmarshals to `normal` of the record. That is not always the
-- record: the two compact and escape a payload, and replace bytes that are not UTF-8.
pub record IsLawful (encode : JournalRec → Option Bytes) (decode : Bytes → Option JournalRec)
    (normal : JournalRec → JournalRec) : Type 0 where
  pub no_newline : (r : JournalRec) (line : Bytes) → encode r ≡ some line → IsTail line
  pub not_empty : (r : JournalRec) (line : Bytes) → encode r ≡ some line → is_empty line ≡ false
  pub inverse :
      (r : JournalRec) (line : Bytes) → encode r ≡ some line → decode line ≡ some (normal r)

module _ (decode : Bytes → Option JournalRec) where
  -- Each line gives the record at its place.
  abbrev pub Encoded : List Bytes → List JournalRec → Type 0
  Encoded [] [] = Unit
  Encoded [] (r ∷ recs) = ⊥
  Encoded (l ∷ lines) [] = ⊥
  Encoded (l ∷ lines) (r ∷ recs) =
      IsLine l × (records_of decode l ≡ some (r ∷ [])) × Encoded lines recs

  pub AllLines-of_Encoded :
      (lines : List Bytes) (recs : List JournalRec) → Encoded lines recs → AllLines lines
  AllLines-of_Encoded [] recs h = tt
  AllLines-of_Encoded (l ∷ lines) [] h = absurd h
  AllLines-of_Encoded (l ∷ lines) (r ∷ recs) (line, _, rest) =
      (line, AllLines-of_Encoded lines recs rest)

  pub kept_of_Encoded :
      (lines : List Bytes) (recs : List JournalRec)
      → Encoded lines recs
      → (kept decode lines ≡ recs) × (all_kept decode lines ≡ true)
  unfolding kept all_kept
  kept_of_Encoded [] [] h = (refl, refl)
  kept_of_Encoded [] (r ∷ recs) h = absurd h
  kept_of_Encoded (l ∷ lines) [] h = absurd h
  kept_of_Encoded (l ∷ lines) (r ∷ recs) (_, e, rest) =
      let (same, all) = kept_of_Encoded lines recs rest in
      rw (e, kept, all_kept) ((ap (◌∷◌ r) same, all))

  pub take-Encoded :
      (n : ℕ) (lines : List Bytes) (recs : List JournalRec)
      → Encoded lines recs
      → Encoded (take n lines) (take n recs)
  take-Encoded zero lines recs h = tt
  take-Encoded (suc n) [] [] h = tt
  take-Encoded (suc n) [] (r ∷ recs) h = absurd h
  take-Encoded (suc n) (l ∷ lines) [] h = absurd h
  take-Encoded (suc n) (l ∷ lines) (r ∷ recs) (line, e, rest) =
      (line, e, take-Encoded n lines recs rest)

before_newline-append : (line : Bytes) → before_newline (line ++ newline ∷ []) ≡ line
before_newline-append [] = refl
before_newline-append (c ∷ []) = refl
before_newline-append (c ∷ d ∷ line) = ap (◌∷◌ c) (before_newline-append (d ∷ line))

append-IsLine : (line : Bytes) → IsTail line → IsLine (line ++ newline ∷ [])
append-IsLine [] h = refl
append-IsLine (c ∷ []) h = (h.0, refl)
append-IsLine (c ∷ d ∷ line) h = (h.0, append-IsLine (d ∷ line) h.1)

length-line : (line : Bytes) → length (line ++ newline ∷ []) ≡ suc (length line)
length-line [] = refl
length-line (c ∷ line) = ap suc (length-line line)

buffered-injective : {a b : Bytes} → buffered a ≡ buffered b → a ≡ b
buffered-injective h = cc

add_line-buffered :
    (line : Bytes) (rest : Buffer) (buf : Bytes)
    → add_line line rest ≡ buffered buf
    → (more : Bytes) × (rest ≡ buffered more) × (line ++ newline ∷ more ≡ buf)
add_line-buffered line (buffered more) buf h = (more, refl, buffered-injective h)
add_line-buffered line (refused e) buf h = cc

module _ (encode : JournalRec → Option Bytes) (decode : Bytes → Option JournalRec)
    (normal : JournalRec → JournalRec) (lawful : IsLawful encode decode normal) where
  records_of-line :
      (r : JournalRec) (line : Bytes)
      → encode r ≡ some line
      → ltb max_line (suc (length line)) ≡ false
      → records_of decode (line ++ newline ∷ []) ≡ some (normal r ∷ [])
  unfolding records_of
  records_of-line r line e fits =
      rw
        (
          length-line line,
          fits,
          before_newline-append line,
          lawful.not_empty r line e,
          lawful.inverse r line e,
        )
        refl

  -- What is buffered is one line for each record, which reads as what is normal of it.
  pub encode_lines-Encoded :
      (recs : List JournalRec) (buf : Bytes)
      → encode_lines encode recs ≡ buffered buf
      → (lines : List Bytes) × (concat lines ≡ buf) × Encoded decode lines (map normal recs)
  unfolding encode_lines
  encode_lines-Encoded [] buf h = ([], buffered-injective h, tt)
  encode_lines-Encoded (r ∷ recs) buf h = elim (Option-cases (encode r)) [
    | inl e ↦ cc (rw (e, encode_lines) at h)
    | inr (line, e) ↦ elim (Bool-cases (ltb max_line (suc (length line)))) [
      | inl big ↦ cc (rw (e, big, encode_lines) at h)
      | inr fits ↦
          let (more, rest, same) =
            add_line-buffered line (encode_lines encode recs) buf
              (rw (e, fits, encode_lines) at h) in
          let (lines, joined, good) = encode_lines-Encoded recs more rest in
          (
            (line ++ newline ∷ []) ∷ lines,
            append_assoc line (newline ∷ []) (concat lines)
                ∙ ap (λ m. line ++ newline ∷ m) joined
                ∙ same,
            (append-IsLine line (lawful.no_newline r line e), records_of-line r line e fits, good),
          )
    ]
  ]
