-- ===== src/EventLoop/Wakeups.antt =====
-- EventLoop.antt: no wakeup is lost, and functors run in the order in which they were queued.
use moban.Prelude.{
  ℕ, ◌+◌, ◌<◌, ◌≡◌, refl, Bool, true, false, Option-cases, some, inl, inr, List, [], ◌∷◌, arith,
  subst, ◌&&◌,
}
use moban.EventLoop.{
  Phase, outside, polling, handling, running, EventLoop, create, enter_loop, queue_in_loop,
  queue_from_outside, quit_from_outside, wakeup, swap_functors, end_functors, Event, enters,
  queues_early, step_in, step, execute,
}

abbrev pub is_empty : List ℕ → Bool
is_empty [] = true
is_empty (f ∷ fs) = false

abbrev pub is_running : Phase → Bool
is_running (running fs) = true
is_running _ = false

-- Before it polls, the handlers of the loop may queue without a wakeup.
abbrev pub minds_functors : Phase → Bool
minds_functors handling = false
minds_functors _ = true

abbrev pub minds_quit : Phase → Bool
minds_quit polling = true
minds_quit _ = false

-- Functors taken by `doPendingFunctors` and not run.
abbrev pub left : Phase → List ℕ
left (running fs) = fs
left _ = []

pub record IsValid (l : EventLoop) : Type 0 where
  -- What waits while the loop polls has a wakeup, given or on its way.
  pub awake :
      minds_functors l.phase ≡ true
      → is_empty l.pending_functors ≡ false
      → 0 < l.wakeup_fd + l.wakers
  pub quitting : minds_quit l.phase ≡ true → l.quit ≡ true → 0 < l.wakeup_fd + l.wakers
  pub calling : l.calling_pending_functors ≡ is_running l.phase

-- The thread of the loop does not queue before it loops.
abbrev pub is_timely : Event → Bool
is_timely (queues_early cb) = false
is_timely _ = true

unfoldable pub all_timely : List Event → Bool
all_timely [] = true
all_timely (e ∷ es) = is_timely e && all_timely es

pub create-IsValid : IsValid create
unfolding create
create-IsValid = record {
  awake = λ _ h. absurd (ground arith);
  quitting = λ h _. absurd (ground arith);
  calling = refl;
}

step_in-IsValid :
    (p : Phase) (l m : EventLoop) (e : Event)
    → l.phase ≡ p
    → is_timely e ≡ true
    → IsValid l
    → step_in p l e ≡ some m
    → IsValid m
unfolding step_in enter_loop queue_in_loop queue_from_outside quit_from_outside wakeup swap_functors
    end_functors
step_in-IsValid outside l m e at t v h = record {
  awake = λ b k. ground (arith, v.awake, v.calling);
  quitting = λ b k. ground (arith, v.quitting);
  calling = ground (arith, v.calling);
}
step_in-IsValid polling l m e at t v h = record {
  awake = λ b k. ground (arith, v.awake, v.calling);
  quitting = λ b k. ground (arith, v.quitting);
  calling = ground (arith, v.calling);
}
step_in-IsValid handling l m e at t v h = record {
  awake = λ b k. ground (arith, v.awake, v.calling);
  quitting = λ b k. ground (arith, v.quitting);
  calling = ground (arith, v.calling);
}
step_in-IsValid (running []) l m e at t v h = record {
  awake = λ b k. ground (arith, v.awake, v.calling);
  quitting = λ b k. ground (arith, v.quitting);
  calling = ground (arith, v.calling);
}
step_in-IsValid (running (f ∷ fs)) l m e at t v h = record {
  awake = λ b k. ground (arith, v.awake, v.calling);
  quitting = λ b k. ground (arith, v.quitting);
  calling = ground (arith, v.calling);
}

-- Whatever the loop, its handlers and functors, and other threads do, and in whatever order: while
-- the loop polls, a functor that waits or a request to quit has its wakeup, which is given or on
-- its way, if the thread of the loop queues nothing before it loops.
pub wakeups-IsValid :
    (l m : EventLoop) (es : List Event)
    → all_timely es ≡ true
    → IsValid l
    → execute l es ≡ some m
    → IsValid m
unfolding execute step all_timely
wakeups-IsValid l m [] t v h = subst IsValid (ground arith) v
wakeups-IsValid l m (e ∷ es) t v h = elim (Option-cases (step_in l.phase l e)) [
  | inl bad ↦ absurd (ground (arith, bad))
  | inr (n, good) ↦
      wakeups-IsValid n m es (ground arith)
        (step_in-IsValid l.phase l n e refl (ground arith) v good) (ground (arith, good))
]

-- A functor that the thread of the loop queues before it calls `loop` waits in `poll` with no
-- wakeup.
pub early_functor :
    (cb : ℕ)
    → (l : EventLoop) × (execute create (queues_early cb ∷ enters ∷ []) ≡ some l)
      × (l.phase ≡ polling)
      × (l.pending_functors ≡ cb ∷ [])
      × (l.wakeup_fd + l.wakers ≡ 0)
unfolding execute create
early_functor cb = (_, refl, refl, refl, refl)
