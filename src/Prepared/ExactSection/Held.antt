-- ===== src/Prepared/ExactSection/Held.antt =====
-- engine/prepared/view.go: what `parseExactSection` accepts are keys with their runs.
use kurn.Prelude.{
  ◌≡◌, refl, sym, ap, ◌∙◌, subst, ℕ, zero, suc, ◌+◌, ◌-◌, ◌≤◌, ◌<◌, Bool, true, false, not, ◌&&◌,
  ◌||◌, List, [], ◌∷◌, ◌++◌, ltb, leb, ◌==◌, length, take, drop, length-take-fits, length-drop,
  arith,
}
use kurn.Prelude.Bytes.{Bytes, bytes_lt}
use kurn.Prelude.Dict.{Dict}
use kurn.Prelude.Pigeon.{all_below}
use kurn.Exact.Index.{max_run}
use kurn.Prepared.Words.{malformed, parsed, >>=-eq-parsed, parsed-injective}
use kurn.Prepared.Bounds.{refuse_if-then}
use kurn.Prepared.ExactSection.{ExactView, word, check_run, Offsets, check_exact_keys, words}

-- The table holds the words, from the `i`th on.
abbrev pub WordsAt : Bytes → ℕ → List ℕ → Type 0
WordsAt table i [] = Unit
WordsAt table i (x ∷ xs) = (word table i ≡ parsed x) × WordsAt table (i + 1) xs

pub words-WordsAt :
    (table : Bytes) (i : ℕ) (xs : List ℕ)
    → WordsAt table i xs
    → words table (length xs) i ≡ parsed xs
unfolding words
words-WordsAt table i [] h = refl
words-WordsAt table i (x ∷ xs) (at, h) = rw (at, words-WordsAt table (i + 1) xs h) refl

pub append-WordsAt :
    (table : Bytes) (i : ℕ) (xs ys : List ℕ)
    → WordsAt table i xs
    → WordsAt table (i + length xs) ys
    → WordsAt table i (xs ++ ys)
append-WordsAt table i [] ys h g = let same : i + 0 ≡ i = omega arith in rw same at g
append-WordsAt table i (x ∷ xs) ys (at, h) g =
    let next : i + suc (length xs) ≡ i + 1 + length xs = omega arith in
    (at, append-WordsAt table (i + 1) xs ys h (rw next at g))

-- Every posting is above the one before it.
abbrev pub ascends : Bool → ℕ → List ℕ → Bool
ascends first last [] = true
ascends first last (o ∷ run) = (first || ltb last o) && ascends false o run

check_run-WordsAt :
    (n : ℕ) (postings : Bytes) (rounds j : ℕ) (first : Bool) (last : ℕ) (u : Unit {0})
    → check_run n postings rounds j first last ≡ parsed u
    → (run : List ℕ) × (length run ≡ rounds)
      × WordsAt postings j run
      × (all_below n run ≡ true)
      × (ascends first last run ≡ true)
unfolding check_run
check_run-WordsAt n postings zero j first last u h = ([], refl, tt, refl, refl)
check_run-WordsAt n postings (suc rounds) j first last u h =
    let (o, at, h1) = >>=-eq-parsed (word postings j) _ h in
    let (low, h2) = refuse_if-then (leb n o) malformed _ h1 in
    let (above, h3) = refuse_if-then (not first && leb o last) malformed _ h2 in
    let (run, many, held, below, up) = check_run-WordsAt n postings rounds (j + 1) false o u h3 in
    (o ∷ run, ap suc many, (at, held), ground arith, ground arith)

-- A key with its run, as the section holds them from the `i`th key on.
pub record KeyHeld (n : ℕ) (ev : ExactView) (i : ℕ) (at : Offsets) (key : Bytes) (run : List ℕ)
    : Type 0 where
  pub key_len : word ev.key_lens i ≡ parsed (length key)
  pub run_len : word ev.run_lens i ≡ parsed (length run)
  pub some_key : 0 < length key
  pub key_room : length key ≤ length ev.arena - at.a_off
  pub key_there : take (length key) (drop at.a_off ev.arena) ≡ key
  pub some_run : 0 < length run
  pub run_small : length run ≤ max_run
  pub run_room : length run ≤ ev.p - at.p_off
  pub run_there : WordsAt ev.postings at.p_off run
  pub run_below : all_below n run ≡ true
  pub run_ascends : ascends true 0 run ≡ true

abbrev pub past_key : Offsets → Bytes → List ℕ → Offsets
past_key at key run = record { a_off = at.a_off + length key; p_off = at.p_off + length run }

-- The keys rise; the first is compared if `b` tells so.
abbrev pub Held : ℕ → ExactView → ℕ → Offsets → Bool → Bytes → Dict (List ℕ) → Type 0
Held n ev i at b prev [] = Unit
Held n ev i at b prev ((key, run) ∷ es) =
    KeyHeld n ev i at key run
    × ((b && not (bytes_lt prev key)) ≡ false)
    × Held n ev (i + 1) (past_key at key run) true key es

abbrev pub keys_end : Offsets → Dict (List ℕ) → Offsets
keys_end at [] = at
keys_end at ((key, run) ∷ es) = keys_end (past_key at key run) es

module _ (n : ℕ) (ev : ExactView) where
  abbrev KeysTaken : ℕ → ℕ → Offsets → Bytes → Offsets → Dict (List ℕ) → Type 0
  KeysTaken rounds i at prev stop es =
      (length es ≡ rounds) × Held n ev i at (ltb 0 i) prev es × (keys_end at es ≡ stop)

  pub check_exact_keys-Held :
      (rounds i : ℕ) (at : Offsets) (prev : Bytes) (stop : Offsets)
      → check_exact_keys n ev rounds i at prev ≡ parsed stop
      → (es : Dict (List ℕ)) × KeysTaken rounds i at prev stop es
  unfolding check_exact_keys
  check_exact_keys-Held zero i at prev stop h = ([], (refl, tt, parsed-injective h))
  check_exact_keys-Held (suc rounds) i at prev stop h =
      let (kl, kat, h1) = >>=-eq-parsed (word ev.key_lens i) _ h in
      let (rl, rat, h2) = >>=-eq-parsed (word ev.run_lens i) _ h1 in
      let (kfit, h3) =
        refuse_if-then (kl == 0 || ltb (length ev.arena - at.a_off) kl) malformed _ h2 in
      let (rfit, h4) =
        refuse_if-then (rl == 0 || (ltb max_run rl || ltb (ev.p - at.p_off) rl)) malformed _ h3 in
      let (rise, h5) =
        refuse_if-then (ltb 0 i && not (bytes_lt prev (take kl (drop at.a_off ev.arena)))) malformed
          _ h4 in
      let (u, checked, h6) = >>=-eq-parsed (check_run n ev.postings rl at.p_off true 0) _ h5 in
      one_key kl rl kat rat (ground arith) (ground arith) (ground arith) (ground arith)
        (ground arith) rise (check_run-WordsAt n ev.postings rl at.p_off true 0 u checked)
        (check_exact_keys-Held rounds (i + 1)
          (record { a_off = at.a_off + kl; p_off = at.p_off + rl })
          (take kl (drop at.a_off ev.arena)) stop h6)
    where
      one_key :
          (kl rl : ℕ)
          → word ev.key_lens i ≡ parsed kl
          → word ev.run_lens i ≡ parsed rl
          → 0 < kl
          → kl ≤ length ev.arena - at.a_off
          → 0 < rl
          → rl ≤ max_run
          → rl ≤ ev.p - at.p_off
          → (ltb 0 i && not (bytes_lt prev (take kl (drop at.a_off ev.arena)))) ≡ false
          → (run : List ℕ) × (length run ≡ rl)
            × WordsAt ev.postings at.p_off run
            × (all_below n run ≡ true)
            × (ascends true 0 run ≡ true)
          → (es : Dict (List ℕ)) × KeysTaken rounds
              (i + 1)
              (record { a_off = at.a_off + kl; p_off = at.p_off + rl })
              (take kl (drop at.a_off ev.arena))
              stop
              es
          → (es : Dict (List ℕ)) × KeysTaken (suc rounds) i at prev stop es
      one_key kl rl kat rat kpos kroom rpos rsmall rroom rise (run, rlen, held, below, up)
            (es, (many, more, end)) =
          let key : Bytes = take kl (drop at.a_off ev.arena) in
          let klen : length key ≡ kl =
            length-take-fits kl (drop at.a_off ev.arena)
              (omega (arith, length-drop at.a_off ev.arena)) in
          let later : ltb 0 (i + 1) ≡ true = ground arith in
          let next : record { a_off = at.a_off + kl; p_off = at.p_off + rl } ≡ past_key at key run =
            λ t. record { a_off = at.a_off + sym klen t; p_off = at.p_off + sym rlen t } in
          (
            (key, run) ∷ es,
            (
              ap suc many,
              (
                record {
                  key_len = kat ∙ ap parsed (sym klen);
                  run_len = rat ∙ ap parsed (sym rlen);
                  some_key = omega arith;
                  key_room = omega arith;
                  key_there = ap (λ m. take m (drop at.a_off ev.arena)) klen;
                  some_run = omega arith;
                  run_small = omega arith;
                  run_room = omega arith;
                  run_there = held;
                  run_below = below;
                  run_ascends = up;
                },
                rise,
                subst (λ b. Held n ev (i + 1) (past_key at key run) b key es) later
                    (subst (λ a. Held n ev (i + 1) a (ltb 0 (i + 1)) key es) next more),
              ),
              ap (λ a. keys_end a es) (sym next) ∙ end,
            ),
          )
