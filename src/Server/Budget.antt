-- ===== src/Server/Budget.antt =====
-- server/admit.go: the gate holds its budget, however its goroutines interleave.
use kurn.Prelude.{
  ℕ, ◌+◌, ◌-◌, ◌≤◌, ◌≡◌, refl, sym, ◌∙◌, subst, Bool, true, false, Option, none, some, List, [],
  ◌∷◌, ◌++◌, ltb, ◌==◌, Bool-cases, Option-cases, inl, inr, arith,
}
use kurn.Server.Admit.{
  Semaphore, Admitter, Point, waiting, granted, cancelled, dequeued, admitted, leaving, Thread,
  queues, acquire, proceed, standing, World, Step, comes, moves, Runs, at_rest, then_step,
  new_admitter,
}

-- The weight that a goroutine has of the semaphore.
abbrev pub weight_of : ℕ → Point → ℕ
weight_of cost waiting = 0
weight_of cost cancelled = 0
weight_of cost granted = cost
weight_of cost dequeued = cost
weight_of cost admitted = cost
weight_of cost leaving = cost

-- What of it is counted as in flight.
abbrev pub flight_of : ℕ → Point → ℕ
flight_of cost admitted = cost
flight_of cost waiting = 0
flight_of cost cancelled = 0
flight_of cost granted = 0
flight_of cost dequeued = 0
flight_of cost leaving = 0

abbrev pub queue_of : ℕ → Point → ℕ
queue_of cost waiting = 1
queue_of cost granted = 1
queue_of cost cancelled = 1
queue_of cost dequeued = 0
queue_of cost admitted = 0
queue_of cost leaving = 0

abbrev pub total : (ℕ → Point → ℕ) → List Thread → ℕ
total f [] = 0
total f (t ∷ threads) = f t.cost t.point + total f threads

total-append :
    (f : ℕ → Point → ℕ) (xs ys : List Thread) → total f (xs ++ ys) ≡ total f xs + total f ys
total-append f [] ys = omega arith
total-append f (x ∷ xs) ys = omega (arith, total-append f xs ys)

abbrev of_next : (ℕ → Point → ℕ) → ℕ → Option Point → ℕ
of_next f cost next = total f (standing cost next)

-- The counters of the gate and the semaphore are those of its goroutines.
pub record IsBalanced {S : Type 0} (sems : Semaphore S) (w : World S) : Type 0 where
  pub weight : sems.held w.gate.sem ≡ total weight_of w.threads
  pub in_size : sems.held w.gate.sem ≤ sems.size
  pub flight : w.gate.inflight ≡ total flight_of w.threads
  pub queue : w.gate.queued ≡ total queue_of w.threads

-- What the other goroutines count stays: `w`, `f` and `q` are theirs.
record Shares {S : Type 0} (sems : Semaphore S) (w f q : ℕ) (cost : ℕ) (p : Option Point)
    (a : Admitter S) : Type 0 where
  weight : sems.held a.sem ≡ w + of_next weight_of cost p
  in_size : sems.held a.sem ≤ sems.size
  flight : a.inflight ≡ f + of_next flight_of cost p
  queue : a.queued ≡ q + of_next queue_of cost p

proceed-Shares :
    {S : Type 0} (sems : Semaphore S) (w f q : ℕ) (ended : Bool) (cost : ℕ) (p : Point)
    (a : Admitter S) (r : Option Point × Admitter S)
    → Shares sems w f q cost (some p) a
    → proceed sems ended cost p a ≡ some r
    → Shares sems w f q cost r.0 r.1
unfolding proceed
proceed-Shares sems w f q true cost waiting a r h e =
    let next : (some cancelled, a) ≡ r = cc in
    subst (λ x. Shares sems w f q cost x.0 x.1) next
      (record {
        weight = omega (arith, h.weight);
        in_size = h.in_size;
        flight = omega (arith, h.flight);
        queue = omega (arith, h.queue);
      })
proceed-Shares sems w f q false cost waiting a r h e =
    elim (Option-cases (sems.try_acquire cost a.sem)) [
      | inl none_eq ↦ cc (rw (proceed, none_eq) at e)
      | inr (s, got) ↦
          let done = rw (proceed, got) at e in
          let next : (some granted, record a { sem = s }) ≡ r = cc in
          let (held, room) = sems.acquire-law cost a.sem s got in
          subst (λ x. Shares sems w f q cost x.0 x.1) next
            (record {
              weight = omega (arith, h.weight, held);
              in_size = room;
              flight = omega (arith, h.flight);
              queue = omega (arith, h.queue);
            })
    ]
proceed-Shares sems w f q ended cost granted a r h e =
    let next : (some dequeued, record a { queued = a.queued - 1 }) ≡ r = cc in
    subst (λ x. Shares sems w f q cost x.0 x.1) next
      (record {
        weight = omega (arith, h.weight);
        in_size = h.in_size;
        flight = omega (arith, h.flight);
        queue = omega (arith, h.queue);
      })
proceed-Shares sems w f q ended cost cancelled a r h e =
    let next : (none, record a { queued = a.queued - 1 }) ≡ r = cc in
    subst (λ x. Shares sems w f q cost x.0 x.1) next
      (record {
        weight = omega (arith, h.weight);
        in_size = h.in_size;
        flight = omega (arith, h.flight);
        queue = omega (arith, h.queue);
      })
proceed-Shares sems w f q ended cost dequeued a r h e =
    let next : (some admitted, record a { inflight = a.inflight + cost }) ≡ r = cc in
    subst (λ x. Shares sems w f q cost x.0 x.1) next
      (record {
        weight = omega (arith, h.weight);
        in_size = h.in_size;
        flight = omega (arith, h.flight);
        queue = omega (arith, h.queue);
      })
proceed-Shares sems w f q ended cost admitted a r h e =
    let next : (some leaving, record a { inflight = a.inflight - cost }) ≡ r = cc in
    subst (λ x. Shares sems w f q cost x.0 x.1) next
      (record {
        weight = omega (arith, h.weight);
        in_size = h.in_size;
        flight = omega (arith, h.flight);
        queue = omega (arith, h.queue);
      })
proceed-Shares sems w f q ended cost leaving a r h e =
    let next : (none, record a { sem = sems.release cost a.sem }) ≡ r = cc in
    let back = sems.release-law cost a.sem (omega (arith, h.weight)) in
    subst (λ x. Shares sems w f q cost x.0 x.1) next
      (record {
        weight = omega (arith, h.weight, back);
        in_size = omega (arith, h.in_size, back);
        flight = omega (arith, h.flight);
        queue = omega (arith, h.queue);
      })

-- One goroutine among the others.
total-middle :
    (f : ℕ → Point → ℕ) (before middle after : List Thread)
    → total f (before ++ (middle ++ after)) ≡ total f before + total f after + total f middle
total-middle f before middle after =
    omega (arith, total-append f before (middle ++ after), total-append f middle after)

moves-IsBalanced :
    {S : Type 0} (sems : Semaphore S) (gate : Admitter S) (before after : List Thread) (t : Thread)
    (ended : Bool) (next : Option Point) (a : Admitter S)
    → IsBalanced sems (record { gate = gate; threads = before ++ (t ∷ after) })
    → proceed sems ended t.cost t.point gate ≡ some (next, a)
    → IsBalanced sems (record { gate = a; threads = before ++ (standing t.cost next ++ after) })
moves-IsBalanced sems gate before after t ended next a h e =
    let others = λ (f : ℕ → Point → ℕ). total f before + total f after in
    let mine = λ (f : ℕ → Point → ℕ). total-middle f before (t ∷ []) after in
    let then_mine = λ (f : ℕ → Point → ℕ). total-middle f before (standing t.cost next) after in
    let now =
      proceed-Shares sems (others weight_of) (others flight_of) (others queue_of) ended t.cost
        t.point gate (next, a)
        (record {
          weight = h.weight ∙ mine weight_of;
          in_size = h.in_size;
          flight = h.flight ∙ mine flight_of;
          queue = h.queue ∙ mine queue_of;
        })
        e in
    record {
      weight = now.weight ∙ sym (then_mine weight_of);
      in_size = now.in_size;
      flight = now.flight ∙ sym (then_mine flight_of);
      queue = now.queue ∙ sym (then_mine queue_of);
    }

comes-IsBalanced :
    {S : Type 0} (sems : Semaphore S) (w : World S) (cost : ℕ) (a : Admitter S) (t : Thread)
    → IsBalanced sems w
    → acquire sems cost w.gate ≡ queues a t
    → IsBalanced sems (record { gate = a; threads = t ∷ w.threads })
unfolding acquire
comes-IsBalanced sems w cost a t h e = elim (Bool-cases (cost == 0)) [
  | inl free_pass ↦ cc (rw free_pass at e)
  | inr paid ↦ elim (Bool-cases (ltb sems.size cost)) [
    | inl over ↦ cc (rw (paid, over) at e)
    | inr fits ↦
        let done = rw (paid, fits) at e in
        let gate : record {
          sem = w.gate.sem;
          queued = w.gate.queued + 1;
          inflight = w.gate.inflight;
        }
            ≡ a =
          cc in
        let mine : record { cost = cost; point = waiting } ≡ t = cc in
        rw (sym gate, sym mine)
          (record {
            weight = omega (arith, h.weight);
            in_size = h.in_size;
            flight = omega (arith, h.flight);
            queue = omega (arith, h.queue);
          })
  ]
]

Step-IsBalanced :
    {S : Type 0} (sems : Semaphore S) (w v : World S)
    → Step sems w v
    → IsBalanced sems w
    → IsBalanced sems v
Step-IsBalanced sems w v (comes cost a t e) h = comes-IsBalanced sems w cost a t h e
Step-IsBalanced sems w v (moves before after t ended next a at e) h =
    moves-IsBalanced sems w.gate before after t ended next a
      (subst (λ threads. IsBalanced sems (record { gate = w.gate; threads = threads })) at h) e

-- Whatever goroutines come to a new gate and however their steps interleave, over a semaphore that
-- keeps its laws: the weight that is handed out is what the goroutines have and never more than the
-- budget, and the counters are exact: the bytes in flight are those of the admitted goroutines, the
-- queue is the goroutines not yet counted as through.
pub Runs-IsBalanced :
    {S : Type 0} (sems : Semaphore S) (a : Admitter S) (w : World S)
    → new_admitter sems ≡ some a
    → Runs sems (record { gate = a; threads = [] }) w
    → IsBalanced sems w
unfolding new_admitter
Runs-IsBalanced sems a w h at_rest = elim (Bool-cases (sems.size == 0)) [
  | inl nil ↦ cc (rw nil at h)
  | inr gated ↦
      let done = rw gated at h in
      let gate : record { sem = sems.new_weighted; queued = 0; inflight = 0 } ≡ a = cc in
      rw (sym gate) (record {
        weight = sems.new-law;
        in_size = omega (arith, sems.new-law);
        flight = refl;
        queue = refl;
      })
]
Runs-IsBalanced sems a w h (then_step {v} runs step) =
    Step-IsBalanced sems v w step (Runs-IsBalanced sems a v h runs)
