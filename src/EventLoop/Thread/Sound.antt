-- ===== src/EventLoop/Thread/Sound.antt =====
-- What holds of a thread and its loop, whatever has happened: once the owner has called `quit`, the
-- loop is asked to.
use moban.EventLoop.{
  EventLoop, Phase, outside, polling, handling, running, step_in, polled, swaps, runs, ends,
  enter_loop, end_functors, swap_functors, queue_in_loop, queue_from_outside, quit_from_outside,
  wakeup,
}
use moban.EventLoop
use moban.EventLoop.Thread.{
  ThreadPhase, starting, looping, returned, OwnerPhase, owning, quitting, joining, joined,
  EventLoopThread, after_loop, Event, publishes, enters, moves, wakes, joins, step, execute,
}
use moban.Prelude.{
  ◌≡◌, ◌⊎◌, subst, refl, ap, Bool, true, false, Option, Option-cases, Bool-cases, inl, inr, none,
  some, List, [], ◌∷◌, arith,
}

-- Once the owner has called `quit`.
abbrev pub Asked : OwnerPhase → EventLoop → Type 0
Asked owning l = Unit
Asked quitting l = l.quit ≡ true
Asked joining l = l.quit ≡ true
Asked joined l = l.quit ≡ true

abbrev pub Shown : OwnerPhase → Bool → Type 0
Shown owning b = Unit
Shown quitting b = b ≡ true
Shown joining b = b ≡ true
Shown joined b = b ≡ true

abbrev pub Sound : ThreadPhase → EventLoopThread → Type 0
Sound starting t = (t.loop.started ≡ false) × Asked t.owner t.loop × Shown t.owner t.published
Sound looping t = (after_loop t.loop.phase ≡ looping) × Asked t.owner t.loop
Sound returned t = Unit

step_in-asked :
    (p : Phase) (l l' : EventLoop) (e : EventLoop.Event)
    → after_loop p ≡ looping
    → l.quit ≡ true
    → step_in p l e ≡ some l'
    → l'.quit ≡ true
unfolding step_in after_loop end_functors swap_functors queue_in_loop queue_from_outside
    quit_from_outside wakeup
step_in-asked outside l l' e a q s = absurd (cc)
step_in-asked polling l l' EventLoop.enters a q s = ground arith
step_in-asked polling l l' e a q s = ground arith
step_in-asked handling l l' EventLoop.enters a q s = ground arith
step_in-asked handling l l' e a q s = ground arith
step_in-asked (running []) l l' EventLoop.enters a q s = ground arith
step_in-asked (running []) l l' e a q s = ground arith
step_in-asked (running (f ∷ fs)) l l' EventLoop.enters a q s = ground arith
step_in-asked (running (f ∷ fs)) l l' e a q s = ground arith

step_in-Asked :
    (o : OwnerPhase) (p : Phase) (l l' : EventLoop) (e : EventLoop.Event)
    → after_loop p ≡ looping
    → Asked o l
    → step_in p l e ≡ some l'
    → Asked o l'
step_in-Asked owning p l l' e a q s = tt
step_in-Asked quitting p l l' e a q s = step_in-asked p l l' e a q s
step_in-Asked joining p l l' e a q s = step_in-asked p l l' e a q s
step_in-Asked joined p l l' e a q s = step_in-asked p l l' e a q s

-- A thread with a loop in a phase.
Sound-after :
    (p : Phase) (t : EventLoopThread)
    → t.loop.phase ≡ p
    → Asked t.owner t.loop
    → Sound (after_loop p) t
unfolding after_loop
Sound-after outside t e q = tt
Sound-after polling t e q = (ap after_loop e, q)
Sound-after handling t e q = (ap after_loop e, q)
Sound-after (running fs) t e q = (ap after_loop e, q)

enter_loop-Asked :
    (o : OwnerPhase) (l : EventLoop) → l.started ≡ false → Asked o l → Asked o (enter_loop l)
unfolding enter_loop
enter_loop-Asked owning l st q = tt
enter_loop-Asked quitting l st q = rw st q
enter_loop-Asked joining l st q = rw st q
enter_loop-Asked joined l st q = rw st q

abbrev pub Soundly : Option EventLoopThread → Type 0
Soundly r = (u : EventLoopThread) × (r ≡ some u) × Sound u.thread u

module _ (t : EventLoopThread) where
  abbrev at : ThreadPhase → OwnerPhase → EventLoopThread
  at th o = record t { thread = th; owner = o }

  entering :
      (th : ThreadPhase) (o : OwnerPhase) → Sound th (at th o) → Soundly (step (at th o) enters)
  unfolding step enter_loop
  entering looping o s = (_, refl, s)
  entering returned o s = (_, refl, s)
  entering starting o (st, q, sh) = elim (Bool-cases t.published) [
    | inr p ↦ rw p (_, refl, (st, q, rw p at sh))
    | inl p ↦ rw p (_, refl, Sound-after _ _ refl (enter_loop-Asked o t.loop st q))
  ]

  moving :
      (th : ThreadPhase) (o : OwnerPhase) (e : EventLoop.Event)
      → Sound th (at th o)
      → Soundly (step (at th o) (moves e))
  unfolding step EventLoop.step
  moving starting o e s = (_, refl, s)
  moving returned o e s = (_, refl, s)
  moving looping o e (a, q) = elim (Option-cases (EventLoop.step t.loop e)) [
    | inl n ↦ rw n (_, refl, (a, q))
    | inr (l', st) ↦
        rw st (_, refl, Sound-after _ _ refl (step_in-Asked o t.loop.phase t.loop l' e a q st))
  ]

  publishing :
      (th : ThreadPhase) (o : OwnerPhase) → Sound th (at th o) → Soundly (step (at th o) publishes)
  unfolding step
  publishing looping o s = (_, refl, s)
  publishing returned o s = (_, refl, s)
  publishing starting owning s = (_, refl, s)
  publishing starting quitting (st, q, sh) = (_, refl, (st, q, refl))
  publishing starting joining (st, q, sh) = (_, refl, (st, q, refl))
  publishing starting joined (st, q, sh) = (_, refl, (st, q, refl))

  quitting_now :
      (th : ThreadPhase) (o : OwnerPhase)
      → Sound th (at th o)
      → (step (at th o) Event.quits ≡ none) ⊎ Soundly (step (at th o) Event.quits)
  unfolding step
  quitting_now th quitting s = inr (_, refl, s)
  quitting_now th joining s = inr (_, refl, s)
  quitting_now th joined s = inr (_, refl, s)
  quitting_now starting owning (st, q, sh) = elim (Bool-cases t.published) [
    | inr p ↦ rw p (inr (_, refl, (st, q, sh)))
    | inl p ↦ rw p (inr (_, refl, (st, refl, refl)))
  ]
  quitting_now looping owning (a, q) = elim (Bool-cases t.published) [
    | inr p ↦ rw p (inr (_, refl, (a, q)))
    | inl p ↦ rw p (inr (_, refl, (a, refl)))
  ]
  quitting_now returned owning s = elim (Bool-cases t.published) [
    | inr p ↦ rw p (inr (_, refl, s))
    | inl p ↦ rw p (inl refl)
  ]

  waking :
      (th : ThreadPhase) (o : OwnerPhase)
      → Sound th (at th o)
      → (step (at th o) wakes ≡ none) ⊎ Soundly (step (at th o) wakes)
  unfolding step
  waking th owning s = inr (_, refl, s)
  waking th joining s = inr (_, refl, s)
  waking th joined s = inr (_, refl, s)
  waking starting quitting s = inr (_, refl, s)
  waking looping quitting s = inr (_, refl, s)
  waking returned quitting s = inl refl

  ending : (th : ThreadPhase) (o : OwnerPhase) → Sound th (at th o) → Soundly (step (at th o) joins)
  unfolding step
  ending th owning s = (_, refl, s)
  ending th quitting s = (_, refl, s)
  ending th joined s = (_, refl, s)
  ending starting joining s = (_, refl, s)
  ending looping joining s = (_, refl, s)
  ending returned joining s = (_, refl, tt)

step-Sound :
    (t : EventLoopThread) (e : Event) → Sound t.thread t → (step t e ≡ none) ⊎ Soundly (step t e)
unfolding step
step-Sound t publishes s = inr (publishing t t.thread t.owner s)
step-Sound t enters s = inr (entering t t.thread t.owner s)
step-Sound t (moves e) s = inr (moving t t.thread t.owner e s)
step-Sound t Event.quits s = quitting_now t t.thread t.owner s
step-Sound t wakes s = waking t t.thread t.owner s
step-Sound t joins s = inr (ending t t.thread t.owner s)

pub execute-Sound :
    (t u : EventLoopThread) (es : List Event)
    → Sound t.thread t
    → execute t es ≡ some u
    → Sound u.thread u
unfolding execute
execute-Sound t u [] s h = subst (λ x. Sound x.thread x) (cc) s
execute-Sound t u (e ∷ es) s h = elim (step-Sound t e s) [
  | inl n ↦ absurd (ground (arith, n))
  | inr (v, st, sv) ↦ execute-Sound v u es sv (rw st at h)
]
