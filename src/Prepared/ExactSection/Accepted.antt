-- ===== src/Prepared/ExactSection/Accepted.antt =====
-- engine/prepared/view.go: an exact section that is accepted gives an index over the view's records.
use kurn.Prelude.{
  ◌≡◌, refl, sym, ap, ◌∙◌, subst, inl, inr, ℕ, suc, ◌+◌, ◌-◌, ◌*◌, ◌/◌, ◌%◌, ◌≤◌, ◌<◌, Bool, true,
  false, not, ◌&&◌, ◌||◌, List, [], ◌∷◌, ◌++◌, ltb, ◌==◌, length, drop, length-append, length-drop,
  Bool-cases, arith,
}
use kurn.Prelude.Bytes.{Bytes, bytes_eq}
use kurn.Prelude.Dict.{Dict, lookup}
use kurn.Prelude.Pigeon.{all_below}
use kurn.Exact.Index.{
  Index, ok, max_uint32, lookup_ords, bump_ords, restore_ords, restore_finish, restore,
}
use kurn.Prepared.Words.{malformed, parsed, >>=-eq-parsed, parsed-injective, le}
use kurn.Prepared.Bounds.{refuse_if-then}
use kurn.Prepared.ExactSection.{
  ExactView, Offsets, check_exact_keys, exact_view_of, parse_exact_section, words, exact_parts,
  exact_index,
}
use kurn.Prepared.ExactSection.Held.{
  WordsAt, words-WordsAt, append-WordsAt, past_key, Held, keys_end, check_exact_keys-Held,
}
use kurn.Prepared.ExactSection.Restored.{
  run_of, key_lens_of, run_lens_of, runs_of, restore_loop-LoopDone,
}

abbrev pub first_key : Offsets
first_key = record { a_off = 0; p_off = 0 }

append-all_below :
    (n : ℕ) (xs ys : List ℕ)
    → all_below n xs ≡ true
    → all_below n ys ≡ true
    → all_below n (xs ++ ys) ≡ true
append-all_below n [] ys h g = g
append-all_below n (x ∷ xs) ys h g = ground (arith, append-all_below n xs ys)

restore_ords-ok :
    (n m : ℕ) (xs : List ℕ)
    → n ≤ max_uint32
    → m ≤ n
    → all_below n xs ≡ true
    → (r : ℕ) × (restore_ords m xs ≡ ok r) × (r ≤ n)
unfolding restore_ords
restore_ords-ok n m [] small low h = (m, refl, low)
restore_ords-ok n m (x ∷ xs) small low h =
    let below : x < n = ground arith in
    let fits : (x == max_uint32) ≡ false = ground arith in
    let (r, run, high) = restore_ords-ok n (bump_ords m x) xs small (ground arith) (ground arith) in
    (r, rw fits run, high)

module _ (n : ℕ) (ev : ExactView) where
  Held-tables :
      (i : ℕ) (at : Offsets) (b : Bool) (prev : Bytes) (es : Dict (List ℕ))
      → Held n ev i at b prev es
      → WordsAt ev.key_lens i (key_lens_of es)
        × WordsAt ev.run_lens i (run_lens_of es)
        × WordsAt ev.postings at.p_off (runs_of es)
        × (all_below n (runs_of es) ≡ true)
        × ((keys_end at es).p_off ≡ at.p_off + length (runs_of es))
  Held-tables i at b prev [] h = (tt, tt, tt, refl, omega arith)
  Held-tables i at b prev ((key, run) ∷ es) (kh, rise, h) =
      let (keys, runs, posts, below, end) =
        Held-tables (i + 1) (past_key at key run) true key es h in
      (
        (kh.key_len, keys),
        (kh.run_len, runs),
        append-WordsAt ev.postings at.p_off run (runs_of es) kh.run_there posts,
        append-all_below n run (runs_of es) kh.run_below below,
        omega (arith, end, length-append run (runs_of es)),
      )

  run_of-below :
      (i : ℕ) (at : Offsets) (b : Bool) (prev q : Bytes) (es : Dict (List ℕ))
      → Held n ev i at b prev es
      → all_below n (run_of es q) ≡ true
  unfolding lookup
  run_of-below i at b prev q [] h = refl
  run_of-below i at b prev q ((key, run) ∷ es) (kh, rise, h) = elim (Bool-cases (bytes_eq key q)) [
    | inl e ↦ rw (run_of, lookup, e) kh.run_below
    | inr e ↦ rw (run_of, lookup, e) (run_of-below (i + 1) (past_key at key run) true key q es h)
  ]

  -- What the index over a section promises: it is restored, it answers the section's keys with their
  -- runs and nothing else, and its ordinals are those of records.
  abbrev pub Indexed : ℕ → Dict (List ℕ) → Index → Type 0
  Indexed address es i =
      Held n ev 0 first_key false [] es
      × (length es ≡ ev.k)
      × (exact_index address ev ≡ parsed (ok i))
      × ((q : Bytes) → lookup_ords i q ≡ run_of es q)
      × ((q : Bytes) → all_below n (lookup_ords i q) ≡ true)
      × (i.num_ords ≤ n)

  Held-Indexed :
      (address : ℕ) (es : Dict (List ℕ))
      → n ≤ max_uint32
      → ev.p ≤ max_uint32
      → address % 4 ≡ 0
      → length es ≡ ev.k
      → Held n ev 0 first_key false [] es
      → (keys_end first_key es).a_off ≡ length ev.arena
      → (keys_end first_key es).p_off ≡ ev.p
      → (i : Index) × Indexed address es i
  unfolding exact_index exact_parts restore restore_finish lookup_ords lookup
  Held-Indexed address es small few aligned many held spent used =
      let (keys, runs, posts, below, end) = Held-tables 0 first_key false [] es held in
      let size : length (runs_of es) ≡ ev.p = omega arith in
      let (c, done, (a_end, p_end, answers)) =
        restore_loop-LoopDone n ev (runs_of es) 0 first_key false [] es [] size (omega arith) held
          (λ k h. refl) refl in
      let (r, ords, low) = restore_ords-ok n 0 (runs_of es) small (omega arith) below in
      let i : Index = record {
        m = c.keys;
        arena = ev.arena;
        postings = runs_of es;
        num_ords = r;
      } in
      let same_len : length (key_lens_of es) ≡ length (run_lens_of es) = lens es in
      let keys_read : words ev.key_lens ev.k 0 ≡ parsed (key_lens_of es) =
        subst (λ k. words ev.key_lens k 0 ≡ parsed (key_lens_of es)) (key_count es ∙ many)
          (words-WordsAt ev.key_lens 0 (key_lens_of es) keys) in
      let runs_read : words ev.run_lens ev.k 0 ≡ parsed (run_lens_of es) =
        subst (λ k. words ev.run_lens k 0 ≡ parsed (run_lens_of es))
          (sym same_len ∙ key_count es ∙ many)
          (words-WordsAt ev.run_lens 0 (run_lens_of es) runs) in
      let posts_read : words ev.postings ev.p 0 ≡ parsed (runs_of es) =
        subst (λ k. words ev.postings k 0 ≡ parsed (runs_of es)) size
          (words-WordsAt ev.postings 0 (runs_of es) posts) in
      let at_four : (ltb 0 ev.p && not (address % 4 == 0)) ≡ false = ground arith in
      let lens_ok : (length (key_lens_of es) == length (run_lens_of es)) ≡ true = ground arith in
      let a_ok : (c.a_off == length ev.arena) ≡ true = ground arith in
      let p_ok : (c.p_off == length (runs_of es)) ≡ true = ground arith in
      let answered : (q : Bytes) → lookup_ords i q ≡ run_of es q = answers in
      let restored : restore ev.arena (key_lens_of es) (run_lens_of es) (runs_of es) ≡ ok i =
        rw (lens_ok, done, a_ok, p_ok, ords) refl in
      let indexed : exact_index address ev ≡ parsed (ok i) =
        rw (keys_read, runs_read, at_four, posts_read) (ap parsed restored) in
      let in_range : (q : Bytes) → all_below n (lookup_ords i q) ≡ true =
        λ q. ap (all_below n) (answered q) ∙ run_of-below 0 first_key false [] q es held in
      (i, (held, many, indexed, answered, in_range, low))
    where
      lens : (es : Dict (List ℕ)) → length (key_lens_of es) ≡ length (run_lens_of es)
      lens [] = refl
      lens (e ∷ es) = ap suc (lens es)

      key_count : (es : Dict (List ℕ)) → length (key_lens_of es) ≡ length es
      key_count [] = refl
      key_count (e ∷ es) = ap suc (key_count es)

same_number : (a b : ℕ) → not (a == b) ≡ false → a ≡ b
same_number a b h = ground arith

no_more : (a b : ℕ) → ltb a b ≡ false → b ≤ a
no_more a b h = ground arith

both : (a b : Bool) → (a || b) ≡ false → (a ≡ false) × (b ≡ false)
both false b h = (refl, h)
both true b h = cc

-- An exact section that is accepted for a view of at most 2^32 - 1 records, its postings at an
-- address that 4 divides, always gives an index, whose ordinal count is at most the number of the
-- records. The index answers the section's keys with the section's runs, any other key with nothing,
-- and every ordinal that it answers is that of a record.
pub exact_index-parse_exact_section :
    (n : ℕ) (b : Bytes) (ev : ExactView) (address : ℕ)
    → n ≤ max_uint32
    → address % 4 ≡ 0
    → parse_exact_section n b ≡ parsed ev
    → (es : Dict (List ℕ)) × (i : Index) × Indexed n ev address es i
unfolding parse_exact_section
exact_index-parse_exact_section n b ev address small aligned h =
    let (_, h1) = refuse_if-then (ltb (length b) 24) malformed _ h in
    let (k, _, h2) = >>=-eq-parsed (le 8 b 0) _ h1 in
    let (p, _, h3) = >>=-eq-parsed (le 8 b 8) _ h2 in
    let (al, _, h4) = >>=-eq-parsed (le 8 b 16) _ h3 in
    let (k_fits, h5) = refuse_if-then (ltb ((length b - 24) / 8) k) malformed _ h4 in
    let (p_fits, h6) = refuse_if-then (ltb ((length b - 24 - 8 * k) / 4) p) malformed _ h5 in
    let (rest, h7) = refuse_if-then (not (al == length b - 24 - 8 * k - 4 * p)) malformed _ h6 in
    let (few, h8) = refuse_if-then (ltb max_uint32 p) malformed _ h7 in
    let (at, walked, h9) =
      >>=-eq-parsed (check_exact_keys n (exact_view_of b k p) k 0 first_key []) _ h8 in
    let (used, h10) = refuse_if-then (not (at.a_off == al) || not (at.p_off == p)) malformed _ h9 in
    let (a_used, p_used) = both _ _ used in
    finish k p al at (same_number _ _ rest) (no_more _ _ few) (same_number _ _ a_used)
      (same_number _ _ p_used)
      (check_exact_keys-Held n (exact_view_of b k p) k 0 first_key [] at walked)
      (parsed-injective h10)
  where
    finish :
        (k p al : ℕ) (at : Offsets)
        → al ≡ length b - 24 - 8 * k - 4 * p
        → p ≤ max_uint32
        → at.a_off ≡ al
        → at.p_off ≡ p
        → (es : Dict (List ℕ)) × ((length es ≡ k)
            × Held n (exact_view_of b k p) 0 first_key (ltb 0 0) [] es
            × (keys_end first_key es ≡ at))
        → exact_view_of b k p ≡ ev
        → (es : Dict (List ℕ)) × (i : Index) × Indexed n ev address es i
    finish k p al at rest few a_used p_used (es, (many, held, end)) same =
        let v = exact_view_of b k p in
        let left : length (drop (24 + 8 * k + 4 * p) b) ≡ al =
          omega (arith, length-drop (24 + 8 * k + 4 * p) b) in
        let (i, done) =
          Held-Indexed n v address es small few aligned many held
            (ap (λ (x : Offsets). x.a_off) end ∙ a_used ∙ sym left)
            (ap (λ (x : Offsets). x.p_off) end ∙ p_used) in
        (es, i, subst (λ (x : ExactView). Indexed n x address es i) same done)
