-- ===== src/EventLoop/Thread/Alive.antt =====
-- The owner of a thread reaches its loop while it lives, but for the wakeup.
use moban.EventLoop.{
  EventLoop, Phase, outside, polling, handling, running, step_in, quits, quits_other, enter_loop,
  end_functors, swap_functors, queue_in_loop, queue_from_outside, wakeup,
}
use moban.EventLoop
use moban.EventLoop.Thread.{
  ThreadPhase, starting, looping, returned, OwnerPhase, owning, quitting, joining, joined,
  EventLoopThread, create, after_loop, Event, publishes, enters, moves, wakes, joins, step, execute,
}
use moban.Prelude.{
  ◌≡◌, ◌≢◌, ◌⊎◌, refl, ap, false, Option, Option-cases, Bool-cases, inl, inr, none, some, List, [],
  ◌∷◌, ◌++◌, arith,
}

-- Nobody but the owner calls `quit`.
abbrev pub IsOwn : EventLoop.Event → Type 0
IsOwn quits = ⊥
IsOwn quits_other = ⊥
IsOwn EventLoop.enters = Unit
IsOwn EventLoop.polled = Unit
IsOwn EventLoop.reads = Unit
IsOwn EventLoop.swaps = Unit
IsOwn EventLoop.runs = Unit
IsOwn EventLoop.ends = Unit
IsOwn (EventLoop.queues cb) = Unit
IsOwn (EventLoop.queues_early cb) = Unit
IsOwn (EventLoop.queues_other cb) = Unit
IsOwn EventLoop.wakes = Unit

abbrev pub Only : Event → Type 0
Only publishes = Unit
Only enters = Unit
Only (moves e) = IsOwn e
Only Event.quits = Unit
Only wakes = Unit
Only joins = Unit

-- A step of a loop that is not asked to quit, and goes on.
step_in-quit :
    (p : Phase) (l l' : EventLoop) (e : EventLoop.Event)
    → IsOwn e
    → l.quit ≡ false
    → after_loop p ≡ looping
    → l.phase ≡ p
    → step_in p l e ≡ some l'
    → (l'.quit ≡ false) × (after_loop l'.phase ≡ looping)
unfolding step_in after_loop end_functors swap_functors queue_in_loop queue_from_outside wakeup
step_in-quit p l l' quits g q a k s = absurd g
step_in-quit p l l' quits_other g q a k s = absurd g
step_in-quit outside l l' e g q a k s = absurd (cc)
step_in-quit polling l l' e g q a k s = ground arith
step_in-quit handling l l' e g q a k s = ground arith
step_in-quit (running []) l l' e g q a k s = ground arith
step_in-quit (running (f ∷ fs)) l l' e g q a k s = ground arith

-- While the owner has not called `quit`, the loop is not asked to, and the thread is before the loop
-- or in it.
abbrev Owned : ThreadPhase → EventLoopThread → Type 0
Owned starting t = (t.loop.quit ≡ false) × (t.loop.started ≡ false)
Owned looping t = (t.loop.quit ≡ false) × (after_loop t.loop.phase ≡ looping)
Owned returned t = ⊥

abbrev pub IsSafe : EventLoopThread → Type 0
IsSafe t = t.owner ≡ owning → Owned t.thread t

abbrev Runs : Option EventLoopThread → Type 0
Runs r = (t : EventLoopThread) × (r ≡ some t) × IsSafe t

-- The wakeup finds the loop destroyed.
abbrev pub Late : EventLoopThread → Event → Type 0
Late t e = (e ≡ wakes) × (t.owner ≡ quitting) × (t.thread ≡ returned) × (step t e ≡ none)

module _ (t : EventLoopThread) where
  abbrev at : ThreadPhase → OwnerPhase → EventLoopThread
  at th o = record t { thread = th; owner = o }

  stays : (th : ThreadPhase) (o : OwnerPhase) → IsSafe (at th o) → Runs (some (at th o))
  stays th o s = (at th o, refl, s)

  publishing :
      (th : ThreadPhase) (o : OwnerPhase) → IsSafe (at th o) → Runs (step (at th o) publishes)
  unfolding step
  publishing starting o s = (_, refl, s)
  publishing looping o s = (_, refl, s)
  publishing returned o s = (_, refl, s)

  entering : (th : ThreadPhase) (o : OwnerPhase) → IsSafe (at th o) → Runs (step (at th o) enters)
  unfolding step enter_loop after_loop
  entering looping o s = stays looping o s
  entering returned o s = stays returned o s
  entering starting o s = elim (Bool-cases t.published) [
    | inr p ↦ rw p (_, refl, s)
    | inl p ↦ rw p (_, refl, λ h. let (q, st) = s h in rw (st, q) (refl, refl))
  ]

  moving :
      (th : ThreadPhase) (o : OwnerPhase) (e : EventLoop.Event)
      → IsOwn e
      → IsSafe (at th o)
      → Runs (step (at th o) (moves e))
  unfolding step EventLoop.step
  moving starting o e g s = stays starting o s
  moving returned o e g s = stays returned o s
  moving looping o e g s = elim (Option-cases (EventLoop.step t.loop e)) [
    | inl n ↦ rw n (stays looping o s)
    | inr (l', st) ↦ rw st (
      _,
      refl,
      λ h.
          let (q, a) = s h in
          let (q', a') = step_in-quit t.loop.phase t.loop l' e g q a refl st in rw a' (q', a'),
    )
  ]

  quitting_now :
      (th : ThreadPhase) (o : OwnerPhase) → IsSafe (at th o) → Runs (step (at th o) Event.quits)
  unfolding step
  quitting_now th quitting s = stays th quitting s
  quitting_now th joining s = stays th joining s
  quitting_now th joined s = stays th joined s
  quitting_now returned owning s = absurd (s refl)
  quitting_now starting owning s = elim (Bool-cases t.published) [
    | inr p ↦ rw p (_, refl, s)
    | inl p ↦ rw p (_, refl, λ h. absurd (cc))
  ]
  quitting_now looping owning s = elim (Bool-cases t.published) [
    | inr p ↦ rw p (_, refl, s)
    | inl p ↦ rw p (_, refl, λ h. absurd (cc))
  ]

  waking :
      (th : ThreadPhase) (o : OwnerPhase)
      → IsSafe (at th o)
      → Runs (step (at th o) wakes) ⊎ Late (at th o) wakes
  unfolding step
  waking th owning s = inl (stays th owning s)
  waking th joining s = inl (stays th joining s)
  waking th joined s = inl (stays th joined s)
  waking starting quitting s = inl (_, refl, λ h. absurd (cc))
  waking looping quitting s = inl (_, refl, λ h. absurd (cc))
  waking returned quitting s = inr (refl, refl, refl, refl)

  ending : (th : ThreadPhase) (o : OwnerPhase) → IsSafe (at th o) → Runs (step (at th o) joins)
  unfolding step
  ending th owning s = stays th owning s
  ending th quitting s = stays th quitting s
  ending th joined s = stays th joined s
  ending starting joining s = stays starting joining s
  ending looping joining s = stays looping joining s
  ending returned joining s = (_, refl, λ h. absurd (cc))

step-IsSafe : (t : EventLoopThread) (e : Event) → Only e → IsSafe t → Runs (step t e) ⊎ Late t e
unfolding step
step-IsSafe t publishes g s = inl (publishing t t.thread t.owner s)
step-IsSafe t enters g s = inl (entering t t.thread t.owner s)
step-IsSafe t (moves e) g s = inl (moving t t.thread t.owner e g s)
step-IsSafe t Event.quits g s = inl (quitting_now t t.thread t.owner s)
step-IsSafe t wakes g s = waking t t.thread t.owner s
step-IsSafe t joins g s = inl (ending t t.thread t.owner s)

abbrev pub AllOnly : List Event → Type 0
AllOnly [] = Unit
AllOnly (e ∷ es) = Only e × AllOnly es

-- Events before a wakeup that finds the loop destroyed.
abbrev pub WokenLate : EventLoopThread → List Event → Type 0
WokenLate t es =
    (before : List Event) × (after : List Event) × (u : EventLoopThread) × (es
      ≡ before ++ wakes ∷ after)
    × (execute t before ≡ some u)
    × (u.owner ≡ quitting)
    × (u.thread ≡ returned)

execute-IsSafe :
    (t : EventLoopThread) (es : List Event)
    → AllOnly es
    → IsSafe t
    → Runs (execute t es) ⊎ ((execute t es ≡ none) × WokenLate t es)
unfolding execute
execute-IsSafe t [] g s = inl (t, refl, s)
execute-IsSafe t (e ∷ es) (g, gs) s = elim (step-IsSafe t e g s) [
  | inr (is, o, r, n) ↦ inr (rw n refl, ([], es, t, ap (λ x. x ∷ es) is, refl, o, r))
  | inl (u, st, su) ↦ elim (execute-IsSafe u es gs su) [
    | inl r ↦ inl (rw st r)
    | inr (n, (before, after, x, eq, ex, o, r)) ↦
        inr (rw st n, (e ∷ before, after, x, ap (λ y. e ∷ y) eq, rw st ex, o, r))
  ]
]

-- However the steps of the thread and of its owner come, if nobody else calls `quit`: the loop is
-- alive wherever the owner reaches it through `loop_`, unless the thread ends between the flag and
-- the wakeup of `quit`, and the wakeup finds the loop destroyed.
pub execute-Alive :
    (es : List Event)
    → AllOnly es
    → ((t : EventLoopThread) × (execute create es ≡ some t)
        × (t.owner ≡ owning → t.thread ≢ returned))
      ⊎ ((execute create es ≡ none) × WokenLate create es)
unfolding create
execute-Alive es g = elim (execute-IsSafe create es g (λ h. (refl, refl))) [
  | inl (t, e, s) ↦ inl (t, e, λ o r. not_returned t.thread t (s o) r)
  | inr late ↦ inr late
]
  where
    not_returned : (th : ThreadPhase) (t : EventLoopThread) → Owned th t → th ≢ returned
    not_returned starting t h r = cc
    not_returned looping t h r = cc
    not_returned returned t h r = h
