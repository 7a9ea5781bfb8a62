-- ===== src/BoundedQueue/Histories.antt =====
-- Histories of calls, in the order in which they get the lock. A call that sleeps leaves the queue
-- as it was, and is a call again when it is woken.
use moban.BoundedQueue.Spec.{Fifo}
use moban.BoundedQueue.Spec
use moban.BoundedQueue.Refines.{
  Holds, Same, create-Holds, stop-Holds, push_refines, try_push_refines, pop_refines,
  try_pop_for_refines,
}
use moban.Prelude.{ℕ, ◌≡◌, ◌<◌, ◌^◌, refl, ap, ap₂, ◌∙◌, false, Option, List, [], ◌∷◌, arith}
use moban.BoundedQueue.{
  Queue, Outcome, waits, returns, create, stop, push, try_push, pop, try_pop_for, Call, pushes,
  try_pushes, pops, try_pops_for, stops, Reply, sleeping, done, accepted, value,
}

module _ {ℓ κ} {T : Type ℓ} {S : Type κ} where
  abbrev after : S → Outcome S → Reply T × S
  after s waits = (sleeping, s)
  after s (returns s') = (done, s')

  abbrev answer : S → Outcome (Option T × S) → Reply T × S
  answer s waits = (sleeping, s)
  answer s (returns (x, s')) = (value x, s')

module _ {ℓ} {T : Type ℓ} where
  pub step : Queue T → Call T → Reply T × Queue T
  step q (pushes x) = after q (push q x)
  step q (try_pushes x) = let (b, q') = try_push q x in (accepted b, q')
  step q pops = answer q (pop q)
  step q (try_pops_for expired) = answer q (try_pop_for q expired)
  step q stops = (done, stop q)

  pub run : Queue T → List (Call T) → List (Reply T)
  run q [] = []
  run q (c ∷ cs) = let (r, q') = step q c in r ∷ run q' cs

  pub spec_step : ℕ → Fifo T → Call T → Reply T × Fifo T
  spec_step cap f (pushes x) = after f (Spec.push cap f x)
  spec_step cap f (try_pushes x) = let (b, f') = Spec.try_push cap f x in (accepted b, f')
  spec_step cap f pops = answer f (Spec.pop f)
  spec_step cap f (try_pops_for expired) = answer f (Spec.try_pop_for f expired)
  spec_step cap f stops = (done, Spec.stop f)

  pub spec_run : ℕ → Fifo T → List (Call T) → List (Reply T)
  spec_run cap f [] = []
  spec_run cap f (c ∷ cs) = let (r, f') = spec_step cap f c in r ∷ spec_run cap f' cs

  after_refines :
      (q : Queue T) (f : Fifo T) (a : Outcome (Queue T)) (b : Outcome (Fifo T))
      → Holds q f
      → Same Holds a b
      → ((after {T = T} q a).0 ≡ (after f b).0) × Holds (after {T = T} q a).1 (after {T = T} f b).1
  after_refines q f waits waits h s = (refl, h)
  after_refines q f (returns a) (returns b) h s = (refl, s)
  after_refines q f waits (returns b) h s = absurd s.0
  after_refines q f (returns a) waits h s = absurd s.0

  answer_refines :
      (q : Queue T) (f : Fifo T) (a : Outcome (Option T × Queue T))
      (b : Outcome (Option T × Fifo T))
      → Holds q f
      → Same (λ a b. (a.0 ≡ b.0) × Holds a.1 b.1) a b
      → ((answer q a).0 ≡ (answer f b).0) × Holds (answer q a).1 (answer f b).1
  answer_refines q f waits waits h s = (refl, h)
  answer_refines q f (returns (x, a)) (returns (y, b)) h s = (ap value s.0, s.1)
  answer_refines q f waits (returns b) h s = absurd s.0
  answer_refines q f (returns a) waits h s = absurd s.0

  step_refines :
      (q : Queue T) (f : Fifo T) (c : Call T)
      → Holds q f
      → ((step q c).0 ≡ (spec_step q.max_size f c).0)
        × Holds (step q c).1 (spec_step q.max_size f c).1
  unfolding step spec_step
  step_refines q f (pushes x) h =
      after_refines q f (push q x) (Spec.push q.max_size f x) h (push_refines q f x h)
  step_refines q f (try_pushes x) h = let (e, h') = try_push_refines q f x h in (ap accepted e, h')
  step_refines q f pops h = answer_refines q f (pop q) (Spec.pop f) h (pop_refines q f h)
  step_refines q f (try_pops_for expired) h =
      answer_refines q f (try_pop_for q expired) (Spec.try_pop_for f expired) h
        (try_pop_for_refines q f expired h)
  step_refines q f stops h = (refl, stop-Holds q f h)

  max_size-step : (q : Queue T) (c : Call T) → (step q c).1.max_size ≡ q.max_size
  unfolding step push try_push pop try_pop_for stop
  max_size-step q (pushes x) = ground arith
  max_size-step q c = ground arith

  -- From a state that holds the values of a first-in first-out queue, no history of calls tells the
  -- ring from that queue: each call sleeps, is refused, accepted or answered as that queue does it.
  pub run_refines :
      (cs : List (Call T)) (q : Queue T) (f : Fifo T)
      → Holds q f
      → run q cs ≡ spec_run q.max_size f cs
  unfolding run spec_run
  run_refines [] q f h = refl
  run_refines (c ∷ cs) q f h =
      let (e, h') = step_refines q f c h in
      ap₂ ◌∷◌ e (
        run_refines cs (step q c).1 (spec_step q.max_size f c).1 h'
        ∙ ap (λ k. spec_run k (spec_step q.max_size f c).1 cs) (max_size-step q c))

  -- From the constructor of a queue of fewer than 2 ^ 63 places on, every history of calls is answered
  -- as by a first-in first-out queue of as many places: in order, and full and stopped as that is.
  pub run-create :
      (zero_value : T) (n : ℕ) (cs : List (Call T))
      → n < 2 ^ 63
      → run (create zero_value n) cs ≡ spec_run n (record { values = []; stopped = false }) cs
  unfolding create
  run-create zero_value n cs h =
      run_refines cs (create zero_value n) _ (create-Holds zero_value n h)
