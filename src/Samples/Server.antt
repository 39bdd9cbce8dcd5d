-- ===== src/Samples/Server.antt =====
-- Two queries at a gate of 10 bytes.
use kurn.Prelude.{
  ℕ, ◌+◌, ◌-◌, ◌≤◌, ◌≡◌, refl, false, Option, none, some, [], ◌∷◌, leb, if◌then◌else◌, Bool-cases,
  inl, inr, arith,
}
use kurn.Server.Admit.{
  Semaphore, Admitter, Thread, waiting, granted, acquire, proceed, new_admitter, comes, moves,
  at_rest, then_step,
}
use kurn.Server.Budget.{IsBalanced, Runs-IsBalanced}

abbrev take_weight : ℕ → ℕ → Option ℕ
take_weight n s = if leb (s + n) 10 then some (s + n) else none

take_weight-law : (n s s' : ℕ) → take_weight n s ≡ some s' → (s' ≡ s + n) × (s' ≤ 10)
take_weight-law n s s' h = elim (Bool-cases (leb (s + n) 10)) [
  | inl fits ↦ let same : s + n ≡ s' = cc (rw fits at h) in (omega arith, ground arith)
  | inr full ↦ cc (rw full at h)
]

abbrev ten : Semaphore ℕ
ten = record {
  size = 10;
  new_weighted = 0;
  held = λ s. s;
  try_acquire = take_weight;
  release = λ n s. s - n;
  new-law = refl;
  acquire-law = take_weight-law;
  release-law = λ n s h. refl;
}

abbrev idle : Admitter ℕ
idle = record { sem = 0; queued = 0; inflight = 0 }

abbrev one_queued : Admitter ℕ
one_queued = record { sem = 0; queued = 1; inflight = 0 }

abbrev one_granted : Admitter ℕ
one_granted = record { sem = 4; queued = 1; inflight = 0 }

abbrev query_at_gate : Thread
query_at_gate = record { cost = 4; point = waiting }

Runs-IsBalanced_example :
    IsBalanced ten
      (record { gate = one_granted; threads = record { cost = 4; point = granted } ∷ [] })
unfolding acquire proceed new_admitter
Runs-IsBalanced_example =
    Runs-IsBalanced ten idle
      (record { gate = one_granted; threads = record { cost = 4; point = granted } ∷ [] }) refl
      (then_step (then_step at_rest (comes 4 one_queued query_at_gate refl))
        (moves [] [] query_at_gate false (some granted) one_granted refl refl))
