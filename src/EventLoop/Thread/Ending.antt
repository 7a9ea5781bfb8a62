-- ===== src/EventLoop/Thread/Ending.antt =====
-- A thread whose loop is asked to quit comes to its end.
use moban.EventLoop.Thread.Sound.{Asked, Shown, Sound, execute-Sound}
use moban.EventLoop.{
  EventLoop, Phase, outside, polling, handling, running, step_in, polled, swaps, runs, ends,
  enter_loop, end_functors, swap_functors, queue_in_loop, queue_from_outside, quit_from_outside,
  wakeup,
}
use moban.EventLoop
use moban.EventLoop.Thread.{
  ThreadPhase, starting, looping, returned, OwnerPhase, owning, quitting, joining, joined,
  EventLoopThread, create, after_loop, Event, enters, moves, execute,
}
use moban.Prelude.{ℕ, ◌≡◌, ◌≢◌, ◌++◌, subst, sym, refl, Bool, true, false, some, List, [], ◌∷◌}

-- The steps of the thread that are left in a turn of the loop, with the functors that wait.
run_all : List ℕ → List Event
run_all [] = moves ends ∷ []
run_all (f ∷ fs) = moves runs ∷ run_all fs

rest_of : Phase → List ℕ → List Event
unfolding run_all
rest_of outside fs = []
rest_of polling fs = moves polled ∷ moves swaps ∷ run_all fs
rest_of handling fs = moves swaps ∷ run_all fs
rest_of (running gs) fs = run_all gs

-- The steps of the thread: it calls `loop`, runs a functor, ends them, and so on.
abbrev pub IsOwn : List Event → Type 0
IsOwn [] = Unit
IsOwn (enters ∷ es) = IsOwn es
IsOwn (moves EventLoop.polled ∷ es) = IsOwn es
IsOwn (moves EventLoop.swaps ∷ es) = IsOwn es
IsOwn (moves EventLoop.runs ∷ es) = IsOwn es
IsOwn (moves EventLoop.ends ∷ es) = IsOwn es
IsOwn (e ∷ es) = ⊥

run_all-IsOwn : (fs : List ℕ) → IsOwn (run_all fs)
unfolding run_all
run_all-IsOwn [] = tt
run_all-IsOwn (f ∷ fs) = run_all-IsOwn fs

rest_of-IsOwn : (p : Phase) (fs : List ℕ) → IsOwn (rest_of p fs)
unfolding rest_of
rest_of-IsOwn outside fs = tt
rest_of-IsOwn polling fs = run_all-IsOwn fs
rest_of-IsOwn handling fs = run_all-IsOwn fs
rest_of-IsOwn (running gs) fs = run_all-IsOwn gs

-- The thread ends, and its owner is where it was.
abbrev pub Ends : EventLoopThread → List Event → Type 0
Ends t es =
    (u : EventLoopThread) × (execute t es ≡ some u) × (u.thread ≡ returned) × (u.owner ≡ t.owner)

module _ (t : EventLoopThread) where
  abbrev in_phase : EventLoop → Phase → EventLoopThread
  in_phase l p = record t { thread = looping; loop = record l { phase = p } }

  run_all-Ends :
      (l : EventLoop) (fs : List ℕ) → l.quit ≡ true → Ends (in_phase l (running fs)) (run_all fs)
  unfolding execute run_all EventLoop.step after_loop
  run_all-Ends l [] q = rw q (_, refl, refl, refl)
  run_all-Ends l (f ∷ fs) q = run_all-Ends (record l { executed = l.executed ++ f ∷ [] }) fs q

  rest_of-Ends :
      (l : EventLoop) (p : Phase)
      → l.quit ≡ true
      → after_loop p ≡ looping
      → Ends (in_phase l p) (rest_of p l.pending_functors)
  unfolding execute rest_of EventLoop.step after_loop swap_functors
  rest_of-Ends l outside q a = absurd (cc)
  rest_of-Ends l polling q a =
      run_all-Ends (record l { calling_pending_functors = true; pending_functors = [] })
        l.pending_functors q
  rest_of-Ends l handling q a =
      run_all-Ends (record l { calling_pending_functors = true; pending_functors = [] })
        l.pending_functors q
  rest_of-Ends l (running gs) q a = run_all-Ends l gs q

asked :
    (o : OwnerPhase) (l : EventLoop) (b : Bool)
    → o ≢ owning
    → (Asked o l → l.quit ≡ true) × (Shown o b → b ≡ true)
asked owning l b n = absurd (n refl)
asked quitting l b n = (λ h. h, λ h. h)
asked joining l b n = (λ h. h, λ h. h)
asked joined l b n = (λ h. h, λ h. h)

start-Ends :
    (t : EventLoopThread)
    → t.loop.started ≡ false
    → t.loop.quit ≡ true
    → t.published ≡ true
    → Ends (record t { thread = starting }) (enters ∷ [])
unfolding execute enter_loop after_loop
start-Ends t st q p = rw (p, st, q) (_, refl, refl, refl)

finishes :
    (th : ThreadPhase) (t : EventLoopThread)
    → t.thread ≡ th
    → t.owner ≢ owning
    → Sound th t
    → (es : List Event) × IsOwn es × Ends t es
unfolding execute
finishes returned t e n s = ([], tt, (t, refl, e, refl))
finishes looping t e n (a, q) =
    let quit = (asked t.owner t.loop t.published n).0 q in
    let whole = rest_of-Ends t t.loop t.loop.phase quit a in
    (
      rest_of t.loop.phase t.loop.pending_functors,
      rest_of-IsOwn t.loop.phase t.loop.pending_functors,
      subst (λ th. Ends (record t { thread = th }) (rest_of t.loop.phase t.loop.pending_functors))
          (sym e) whole,
    )
finishes starting t e n (st, q, sh) =
    let (quit, shown) = asked t.owner t.loop t.published n in
    (
      enters ∷ [],
      tt,
      subst (λ th. Ends (record t { thread = th }) (enters ∷ [])) (sym e)
          (start-Ends t st (quit q) (shown sh)),
    )

-- Once the owner has called `quit`, wherever the thread is then, and whatever else happened before:
-- the thread's own steps bring it to its end, where its owner can join it, and use no loop that has
-- been destroyed.
pub thread-Ends :
    (es : List Event) (t : EventLoopThread)
    → execute create es ≡ some t
    → t.owner ≢ owning
    → (rest : List Event) × IsOwn rest × Ends t rest
unfolding create
thread-Ends es t h n = finishes t.thread t refl n (execute-Sound create t es (refl, tt, tt) h)
