-- ===== src/Server/Admit.antt =====
-- server/admit.go: the admission gate, one atomic step of one goroutine at a time. A cost or a
-- budget that is not positive is 0.
use kurn.Prelude.{
  ℕ, ◌+◌, ◌-◌, ◌≤◌, ◌≡◌, Bool, true, false, Option, none, some, List, [], ◌∷◌, ◌++◌, ltb, ◌==◌,
  if◌then◌else◌,
}

-- `golang.org/x/sync/semaphore`: a weighted semaphore of one size. `try_acquire` gives none where
-- `Acquire` goes on blocking. It never hands out more than its size.
pub record Semaphore (S : Type 0) : Type 0 where
  pub size : ℕ
  pub new_weighted : S
  pub held : S → ℕ
  pub try_acquire : ℕ → S → Option S
  pub release : ℕ → S → S
  pub new-law : held new_weighted ≡ 0
  pub acquire-law :
      (n : ℕ) (s s' : S) → try_acquire n s ≡ some s' → (held s' ≡ held s + n) × (held s' ≤ size)
  pub release-law : (n : ℕ) (s : S) → n ≤ held s → held (release n s) ≡ held s - n

-- The budget is the size of the semaphore.
pub record Admitter (S : Type 0) : Type 0 where
  pub sem : S
  pub queued : ℕ
  pub inflight : ℕ

-- Where a goroutine stands: in `Acquire`, behind it with or without the weight and still counted as
-- queued, no more queued, counted as in flight, and in the returned release.
pub data Point : Type 0 where
  waiting granted cancelled dequeued admitted leaving : Point

pub record Thread : Type 0 where
  pub cost : ℕ
  pub point : Point

module _ {S : Type 0} (sems : Semaphore S) where
  -- `newAdmitter`; none is the nil admitter, which admits everything.
  unfoldable pub new_admitter : Option (Admitter S)
  new_admitter =
      if sems.size == 0
      then none
      else some (record { sem = sems.new_weighted; queued = 0; inflight = 0 })

  -- What `acquire` does before it may block.
  pub data Entered : Type 0 where
    free : Entered
    budget_exceeded : ℕ → ℕ → Entered
    queues : Admitter S → Thread → Entered

  unfoldable pub acquire : ℕ → Admitter S → Entered
  acquire cost a =
      if cost == 0
      then free
      else if ltb sems.size cost
      then budget_exceeded cost sems.size
      else queues (record a { queued = a.queued + 1 }) (record { cost = cost; point = waiting })

  -- The next step of a goroutine: where it stands then, none for one that is done; nothing where it
  -- blocks. `ended` says whether its context has ended.
  unfoldable pub proceed : Bool → ℕ → Point → Admitter S → Option (Option Point × Admitter S)
  proceed true cost waiting a = some (some cancelled, a)
  proceed false cost waiting a = elim (sems.try_acquire cost a.sem) [
    | none ↦ none
    | some s ↦ some (some granted, record a { sem = s })
  ]
  proceed ended cost granted a = some (some dequeued, record a { queued = a.queued - 1 })
  proceed ended cost cancelled a = some (none, record a { queued = a.queued - 1 })
  proceed ended cost dequeued a = some (some admitted, record a { inflight = a.inflight + cost })
  proceed ended cost admitted a = some (some leaving, record a { inflight = a.inflight - cost })
  proceed ended cost leaving a = some (none, record a { sem = sems.release cost a.sem })

abbrev pub standing : ℕ → Option Point → List Thread
standing cost none = []
standing cost (some point) = record { cost = cost; point = point } ∷ []

-- The gate with the goroutines that are in it.
pub record World (S : Type 0) : Type 0 where
  pub gate : Admitter S
  pub threads : List Thread

-- A goroutine comes, or one of those that are there makes its next step.
pub data Step {S : Type 0} (sems : Semaphore S) (w : World S) : World S → Type 0 where
  comes :
      (cost : ℕ) (a : Admitter S) (t : Thread)
      → acquire sems cost w.gate ≡ queues a t
      → Step sems w (record { gate = a; threads = t ∷ w.threads })
  moves :
      (before after : List Thread) (t : Thread) (ended : Bool) (next : Option Point)
      (a : Admitter S)
      → w.threads ≡ before ++ (t ∷ after)
      → proceed sems ended t.cost t.point w.gate ≡ some (next, a)
      → Step sems w (record { gate = a; threads = before ++ (standing t.cost next ++ after) })

pub data Runs {S : Type 0} (sems : Semaphore S) (w : World S) : World S → Type 0 where
  at_rest : Runs sems w w
  then_step : {v u : World S} → Runs sems w v → Step sems v u → Runs sems w u
