-- ===== src/Payload/Verdict.antt =====
-- engine/filter.go: what `eval` answers, whatever the filter.
use kurn.Prelude.{
  ℕ, ◌≡◌, ◌≢◌, ◌↔◌, refl, Bool, true, false, ◌==◌, arith, length, sym, ap, false≢true, ◌∙◌,
  if◌then◌else◌, subst,
}
use kurn.Prelude.Bytes.{Bytes}
use kurn.Payload.Token.{Scan, ScanError, ok, fail, ◌>>=◌, out_of_fuel, trailing_data, ws}
use kurn.Payload.Scalar.{is_empty}
use kurn.Payload.Skip.{skip_value}
use kurn.Payload.Walk.{FilterNode, Marked, walk_value, fuel_for, eval}
use kurn.Payload.Agree.{Agree, walk-Agree, is_fuel}
use kurn.Payload.Total.{Ends, Under, skip-Ends}

-- The payload is one JSON value, in white space: the strict skip takes all of it.
abbrev pub IsDocument : Bytes → Type 0
IsDocument b = (r : Bytes) × (skip_value (fuel_for b) b ≡ ok r) × (is_empty (ws r) ≡ true)

abbrev verdict : ℕ → Marked → Scan Bool
verdict full m = m >>= λ m. if is_empty (ws m.1) then ok (m.0 == full) else fail trailing_data

verdict_ok :
    (full : ℕ) (m : Marked) (s : Scan Bytes)
    → Agree m s
    → (v : Bool) → verdict full m ≡ ok v
    → (r : Bytes) × (s ≡ ok r) × (is_empty (ws r) ≡ true)
verdict_ok full (ok (bits, x)) (ok r) h v e = (r, refl, ground arith)
verdict_ok full (ok m) (fail e') h v e = absurd h
verdict_ok full (fail e') s h v e = cc

verdict_of_skip :
    (full : ℕ) (m : Marked) (r : Bytes)
    → Agree m (ok r)
    → is_empty (ws r) ≡ true
    → (v : Bool) × (verdict full m ≡ ok v)
verdict_of_skip full (ok (bits, x)) r h e = (bits == full, rw (h, e) refl)
verdict_of_skip full (fail e') r h e = absurd h

-- Whatever the trie and the mask, the evaluation answers without an error exactly on the payloads
-- that are one JSON value, as the strict skip takes it, with only white space behind it.
pub eval-answers_iff :
    (root : FilterNode) (full : ℕ) (payload : Bytes)
    → ((v : Bool) × (eval root full payload ≡ ok v)) ↔ IsDocument payload
unfolding eval
eval-answers_iff root full b =
    let agree = walk-Agree (fuel_for b) root 0 b in
    (
      λ h.
          verdict_ok full (walk_value (fuel_for b) root 0 b) (skip_value (fuel_for b) b) agree h.0
            h.1,
      λ d.
          verdict_of_skip full (walk_value (fuel_for b) root 0 b) d.0
            (subst (Agree (walk_value (fuel_for b) root 0 b)) d.1 agree) d.2,
    )

no_fuel_left {ℓ} : {A : Type ℓ} → Scan A → Bool
no_fuel_left (ok a) = false
no_fuel_left (fail e) = is_fuel e

Ends-fail : (n : ℕ) (e : ScanError) → Ends (Under n) (fail e) → is_fuel e ≡ false
Ends-fail n out_of_fuel h = absurd h
Ends-fail n _ h = refl

verdict_fuel :
    (full : ℕ) (m : Marked) (s : Scan Bytes) (n : ℕ)
    → Agree m s
    → Ends (Under n) s
    → no_fuel_left (verdict full m) ≡ false
unfolding no_fuel_left
verdict_fuel full (ok (bits, r)) s n h e = ends (is_empty (ws r))
  where
    ends : (b : Bool) → no_fuel_left (if b then ok (bits == full) else fail trailing_data) ≡ false
    ends true = refl
    ends false = refl
verdict_fuel full (fail e') (ok r) n h e = absurd h
verdict_fuel full (fail e') (fail e'') n h e = h ∙ Ends-fail n e'' e

-- The fuel of `eval` is enough for every filter and every payload.
pub eval-ne-out_of_fuel :
    (root : FilterNode) (full : ℕ) (payload : Bytes) → eval root full payload ≢ fail out_of_fuel
unfolding eval no_fuel_left
eval-ne-out_of_fuel root full b p =
    let ends =
      verdict_fuel full (walk_value (fuel_for b) root 0 b) (skip_value (fuel_for b) b) (length b)
        (walk-Agree (fuel_for b) root 0 b) (skip-Ends (fuel_for b) b (omega arith)) in
    false≢true (sym ends ∙ ap no_fuel_left p)
