-- ===== src/Prepared/ExactSection/Restored.antt =====
-- engine/prepared/view.go and engine/exact/exact.go: the index that `Restore` makes of keys with their
-- runs answers each key with its run.
use kurn.Prelude.{
  ◌≡◌, ◌≢◌, refl, sym, ap, ◌∙◌, subst, inl, inr, ℕ, ◌+◌, ◌-◌, ◌≤◌, ◌<◌, Bool, true, false, not,
  ◌&&◌, Option, none, some, List, [], ◌∷◌, ◌++◌, map, ltb, length, take, drop, drop-drop, drop-past,
  take-past, Bool-cases, arith,
}
use kurn.Prelude.Bytes.{Bytes, bytes_eq, bytes_eq_iff, bytes_lt}
use kurn.Prelude.Order.{bytes_lt_irrefl, bytes_lt_trans}
use kurn.Prelude.Dict.{Dict, lookup, insert, lookup-insert}
use kurn.Exact.Index.{
  ok, max_run, max_off, max_uint32, pack, run_at, restore_key, restore_loop, Cursor,
}
use kurn.Exact.Compaction.{run_at-pack}
use kurn.Prepared.ExactSection.{ExactView, Offsets}
use kurn.Prepared.ExactSection.Held.{KeyHeld, past_key, Held, keys_end}

abbrev pub run_of : Dict (List ℕ) → Bytes → List ℕ
run_of es q = elim (lookup q es) [ none ↦ [] | some run ↦ run ]

abbrev pub key_lens_of : Dict (List ℕ) → List ℕ
key_lens_of es = map (λ e. length e.0) es

abbrev pub run_lens_of : Dict (List ℕ) → List ℕ
run_lens_of es = map (λ e. length e.1) es

-- All the runs, one behind another.
abbrev pub runs_of : Dict (List ℕ) → List ℕ
runs_of [] = []
runs_of ((key, run) ∷ es) = run ++ runs_of es

abbrev pub named : List ℕ → Option ℕ → List ℕ
named postings o = elim o [ none ↦ [] | some p ↦ run_at postings p ]

-- The runs that the locators of a map name.
abbrev pub answer : List ℕ → Dict ℕ → Bytes → List ℕ
answer postings m q = named postings (lookup q m)

-- No key that may follow is in the map.
abbrev pub Fresh : Bool → Bytes → Dict ℕ → Type 0
Fresh b prev m = (k : Bytes) → (b && not (bytes_lt prev k)) ≡ false → lookup k m ≡ none

unequal : (a b : Bytes) → a ≢ b → bytes_eq a b ≡ false
unequal a b ne = elim (Bool-cases (bytes_eq a b)) [
  | inr e ↦ e
  | inl e ↦ absurd (ne ((bytes_eq_iff a b).0 e))
]

lt_ne : (a b : Bytes) → bytes_lt a b ≡ true → a ≢ b
lt_ne a b h same = let less : bytes_lt b b ≡ true = rw same at h in cc (bytes_lt_irrefl b)

module _ (n : ℕ) (ev : ExactView) where
  -- A string below the keys is none of them.
  below-absent :
      (i : ℕ) (at : Offsets) (prev x : Bytes) (es : Dict (List ℕ))
      → bytes_lt x prev ≡ true
      → Held n ev i at true prev es
      → lookup x es ≡ none
  unfolding lookup
  below-absent i at prev x [] low h = refl
  below-absent i at prev x ((key, run) ∷ es) low (kh, rise, h) =
      let above : bytes_lt prev key ≡ true = ground arith in
      let under = bytes_lt_trans x prev key low above in
      rw (unequal key x (λ e. lt_ne x key under (sym e)))
        (below-absent (i + 1) (past_key at key run) key x es under h)

  prev-absent :
      (i : ℕ) (at : Offsets) (prev : Bytes) (es : Dict (List ℕ))
      → Held n ev i at true prev es
      → lookup prev es ≡ none
  unfolding lookup
  prev-absent i at prev [] h = refl
  prev-absent i at prev ((key, run) ∷ es) (kh, rise, h) =
      let above : bytes_lt prev key ≡ true = ground arith in
      rw (unequal key prev (λ e. lt_ne prev key above (sym e)))
        (below-absent (i + 1) (past_key at key run) key prev es above h)

  Fresh-insert :
      (b : Bool) (prev key : Bytes) (v : ℕ) (m : Dict ℕ)
      → Fresh b prev m
      → (b && not (bytes_lt prev key)) ≡ false
      → Fresh true key (insert key v m)
  Fresh-insert b prev key v m fresh rise k above =
      let beyond : bytes_lt key k ≡ true = ground arith in
      let other : bytes_eq key k ≡ false = unequal key k (lt_ne key k beyond) in
      lookup-insert key k v m ∙ rw other (fresh k (still b (bytes_lt_trans prev key k) rise beyond))
    where
      still :
          (b : Bool)
          → (bytes_lt prev key ≡ true → bytes_lt key k ≡ true → bytes_lt prev k ≡ true)
          → (b && not (bytes_lt prev key)) ≡ false
          → bytes_lt key k ≡ true
          → (b && not (bytes_lt prev k)) ≡ false
      still false t rise beyond = refl
      still true t rise beyond = let up = t (ground arith) beyond in rw up refl

  -- One key of `Restore` is taken.
  restore_key-ok :
      (postings : List ℕ) (i : ℕ) (at : Offsets) (b : Bool) (prev key : Bytes) (run : List ℕ)
      (m : Dict ℕ)
      → length postings ≡ ev.p
      → length postings ≤ max_uint32
      → KeyHeld n ev i at key run
      → (b && not (bytes_lt prev key)) ≡ false
      → Fresh b prev m
      → restore_key ev.arena postings at.a_off at.p_off m (length key) (length run)
        ≡ ok (insert key (pack at.p_off (length run)) m)
  unfolding restore_key
  restore_key-ok postings i at b prev key run m size small h rise fresh =
      let k1 : ltb (length key) 1 ≡ false = ground (arith, h.some_key) in
      let k2 : ltb (length ev.arena - at.a_off) (length key) ≡ false = ground (arith, h.key_room) in
      let r1 : ltb (length run) 1 ≡ false = ground (arith, h.some_run) in
      let r2 : ltb max_run (length run) ≡ false = ground (arith, h.run_small) in
      let r3 : ltb (length postings - at.p_off) (length run) ≡ false = ground (arith, h.run_room) in
      let off : at.p_off < length postings = omega (arith, h.some_run, h.run_room) in
      let r4 : ltb max_off at.p_off ≡ false = ground arith in
      let gone : lookup (take (length key) (drop at.a_off ev.arena)) m ≡ none =
        ap (λ k. lookup k m) h.key_there ∙ fresh key rise in
      rw (k1, k2, r1, r2, r3, r4, gone)
        (ap (λ k. ok (insert k (pack at.p_off (length run)) m)) h.key_there)

  -- What the loop of `Restore` leaves, over postings that hold the runs.
  abbrev pub LoopDone : List ℕ → Offsets → Dict (List ℕ) → Dict ℕ → Cursor → Type 0
  LoopDone postings at es m c =
      (c.a_off ≡ (keys_end at es).a_off)
      × (c.p_off ≡ (keys_end at es).p_off)
      × ((q : Bytes)
          → answer postings c.keys q
            ≡ elim (lookup q es) [ none ↦ answer postings m q | some run ↦ run ])

  pub restore_loop-LoopDone :
      (postings : List ℕ) (i : ℕ) (at : Offsets) (b : Bool) (prev : Bytes) (es : Dict (List ℕ))
      (m : Dict ℕ)
      → length postings ≡ ev.p
      → length postings ≤ max_uint32
      → Held n ev i at b prev es
      → Fresh b prev m
      → drop at.p_off postings ≡ runs_of es
      → (c : Cursor) × (restore_loop ev.arena postings
            (record { keys = m; a_off = at.a_off; p_off = at.p_off })
            (key_lens_of es)
            (run_lens_of es)
          ≡ ok c)
        × LoopDone postings at es m c
  unfolding restore_loop lookup
  restore_loop-LoopDone postings i at b prev [] m size small h fresh laid =
      (record { keys = m; a_off = at.a_off; p_off = at.p_off }, refl, (refl, refl, λ q. refl))
  restore_loop-LoopDone postings i at b prev ((key, run) ∷ es) m size small (kh, rise, h) fresh
        laid =
      let m1 : Dict ℕ = insert key (pack at.p_off (length run)) m in
      let next : Offsets = past_key at key run in
      let laid' : drop next.p_off postings ≡ runs_of es =
        sym (drop-drop (length run) at.p_off postings)
        ∙ ap (drop (length run)) laid
        ∙ drop-past (length run) run (runs_of es) refl in
      let (c, done, (a_end, p_end, answers)) =
        restore_loop-LoopDone postings (i + 1) next true key es m1 size small h
          (Fresh-insert b prev key (pack at.p_off (length run)) m fresh rise) laid' in
      let here : run_at postings (pack at.p_off (length run)) ≡ run =
        run_at-pack postings at.p_off (length run) kh.run_small
        ∙ ap (take (length run)) laid
        ∙ take-past (length run) run (runs_of es) refl in
      (
        c,
        rw (restore_key-ok postings i at b prev key run m size small kh rise fresh) done,
        (
          a_end,
          p_end,
          λ q. answers q ∙ elim (Bool-cases (bytes_eq key q)) [
            | inl e ↦
                let same : key ≡ q = (bytes_eq_iff key q).0 e in
                let absent : lookup q es ≡ none =
                  subst (λ k. lookup k es ≡ none) same (prev-absent (i + 1) next key es h) in
                let mine : lookup q m1 ≡ some (pack at.p_off (length run)) =
                  lookup-insert key q (pack at.p_off (length run)) m ∙ rw e refl in
                rw (e, absent) (ap (named postings) mine ∙ here)
            | inr e ↦
                let other : lookup q m1 ≡ lookup q m =
                  lookup-insert key q (pack at.p_off (length run)) m ∙ rw e refl in
                rw e (ap (λ o. elim (lookup q es) [ none ↦ named postings o | some r ↦ r ]) other)
          ],
        ),
      )
