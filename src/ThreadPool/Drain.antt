-- ===== src/ThreadPool/Drain.antt =====
-- ThreadPool.antt: `stop` waits for all tasks, and its wait ends.
use moban.Prelude.{
  ℕ, suc, ◌+◌, ◌*◌, ◌≤◌, ◌<◌, ◌≡◌, refl, Bool, true, false, Option, Option-cases, inl, inr, ◌⊎◌,
  some, List, [], ◌∷◌, ◌++◌, ◌>>=◌, get_elem?, length, arith, ap, append-nil, ◌∙◌, total, total-set,
}
use moban.ThreadPool.{
  Worker, waiting, busy, exited, Pool, create, run_in_thread, Turn, sleeps, leaves, takes, turn,
  take_turn, all_exited, join, Event, steps, step, execute, asleep, crashed, crash, crashes,
}
use moban.ThreadPool.Invariant.{
  count, create-IsValid, execute-IsValid, all_exited-idle, turn-takes, IsValid, step-IsValid,
  turn-sleeps, is_asleep, has_exited,
}

-- Whenever the joins of `stop` return, in a pool of which a thread has left by itself and not by a task that
-- threw, every task that `run` ever took has returned or thrown, once for each submission.
pub joined :
    (es : List Event) (p q : Pool) (t : ℕ)
    → execute create es ≡ some p
    → 0 < total has_exited p.threads
    → join p ≡ some q
    → count t q.finished + count t q.thrown ≡ count t q.accepted
unfolding join
joined es p q t reached some_thread e =
    let v = execute-IsValid create p es create-IsValid reached in
    let gone : all_exited p.threads ≡ true = ground arith in
    let over = v.drained some_thread in
    let all_begun : p.accepted ≡ p.started =
      v.in_order ∙ ap (λ l. p.started ++ l) over.1 ∙ append-nil p.started in
    let done = all_exited-idle t p.threads gone in
    ground (arith, v.conserved t, done, ap (count t) all_begun)

-- The steps that a thread may still make: two for each task that waits, and at most two more.
unfoldable pub steps_of : Worker → ℕ
steps_of waiting = 1
steps_of asleep = 1
steps_of crashed = 0
steps_of (busy t) = 2
steps_of exited = 0

unfoldable pub steps_left : Pool → ℕ
steps_left p = length p.queue * 2 + total steps_of p.threads

-- A step of a thread, or the end of its task by an exception.
abbrev pub Move : Type 0
Move = ℕ × Bool

abbrev pub move : Move → Event
move (i, false) = steps i
move (i, true) = crashes i

unfoldable pub run_threads : Pool → List Move → Option Pool
run_threads p [] = some p
run_threads p (i ∷ is) = do q ← step p (move i); run_threads q is

take_turn-steps_left :
    (p q : Pool) (i : ℕ) (t : Turn)
    → get_elem? p.threads i ≡ some waiting
    → p.running ≡ false
    → turn p.running p.queue ≡ t
    → take_turn p i t ≡ some q
    → (steps_left q < steps_left p) × (q.running ≡ p.running)
unfolding take_turn steps_left steps_of
take_turn-steps_left p q i sleeps h off k e =
    let on = turn-sleeps p.running p.queue k in absurd (cc)
take_turn-steps_left p q i leaves h off k e =
    (ground (arith, total-set steps_of p.threads i waiting exited h), ground arith)
take_turn-steps_left p q i (takes task rest) h off k e =
    let more = turn-takes p.running p.queue task rest k in
    let less = ap length more in
    (ground (arith, less, total-set steps_of p.threads i waiting (busy task) h), ground arith)

run_in_thread-steps_left :
    (p q : Pool) (i : ℕ) (w : Worker)
    → p.running ≡ false
    → get_elem? p.threads i ≡ some w
    → run_in_thread p i w ≡ some q
    → (steps_left q < steps_left p) × (q.running ≡ p.running)
unfolding run_in_thread steps_left steps_of
run_in_thread-steps_left p q i waiting off h e =
    take_turn-steps_left p q i (turn p.running p.queue) h off refl e
run_in_thread-steps_left p q i (busy task) off h e =
    (ground (arith, total-set steps_of p.threads i (busy task) waiting h), ground arith)
run_in_thread-steps_left p q i asleep off h e = absurd (ground arith)
run_in_thread-steps_left p q i crashed off h e = absurd (ground arith)
run_in_thread-steps_left p q i exited off h e = absurd (ground arith)

crash-steps_left :
    (p q : Pool) (i : ℕ) (w : Worker)
    → get_elem? p.threads i ≡ some w
    → crash p i w ≡ some q
    → (steps_left q < steps_left p) × (q.running ≡ p.running)
unfolding crash steps_left steps_of
crash-steps_left p q i waiting h e = absurd (ground arith)
crash-steps_left p q i asleep h e = absurd (ground arith)
crash-steps_left p q i (busy task) h e =
    (ground (arith, total-set steps_of p.threads i (busy task) crashed h), ground arith)
crash-steps_left p q i crashed h e = absurd (ground arith)
crash-steps_left p q i exited h e = absurd (ground arith)

step-steps_left :
    (p q : Pool) (m : Move)
    → p.running ≡ false
    → step p (move m) ≡ some q
    → (steps_left q < steps_left p) × (q.running ≡ p.running)
unfolding step
step-steps_left p q (i, false) off e = elim (Option-cases (get_elem? p.threads i)) [
  | inl out ↦ absurd (ground (arith, out))
  | inr (w, at) ↦ run_in_thread-steps_left p q i w off at (ground (arith, at))
]
step-steps_left p q (i, true) off e = elim (Option-cases (get_elem? p.threads i)) [
  | inl out ↦ absurd (ground (arith, out))
  | inr (w, at) ↦ crash-steps_left p q i w at (ground (arith, at))
]

take_turn-enabled :
    (p : Pool) (i : ℕ) (b : Bool) (l : List ℕ)
    → b ≡ false
    → (q : Pool) × (take_turn p i (turn b l) ≡ some q)
unfolding take_turn turn
take_turn-enabled p i true l off = absurd (ground arith)
take_turn-enabled p i false [] off = (_, refl)
take_turn-enabled p i false (t ∷ l) off = (_, refl)

-- Nothing that the thread can do by itself.
abbrev at_rest : Worker → Bool
at_rest waiting = false
at_rest (busy t) = false
at_rest asleep = true
at_rest crashed = true
at_rest exited = true

run_in_thread-enabled :
    (p : Pool) (i : ℕ) (w : Worker)
    → p.running ≡ false
    → at_rest w ≡ false
    → (q : Pool) × (run_in_thread p i w ≡ some q)
unfolding run_in_thread
run_in_thread-enabled p i waiting off ne = take_turn-enabled p i p.running p.queue off
run_in_thread-enabled p i (busy t) off ne = (_, refl)
run_in_thread-enabled p i asleep off ne = absurd (cc)
run_in_thread-enabled p i crashed off ne = absurd (cc)
run_in_thread-enabled p i exited off ne = absurd (cc)

at_work :
    (ws : List Worker)
    → total is_asleep ws ≡ 0
    → (all_exited ws ≡ true)
      ⊎ ((i : ℕ) × (w : Worker) × (get_elem? ws i ≡ some w) × (at_rest w ≡ false))
unfolding all_exited total is_asleep
at_work [] h = inl refl
at_work (waiting ∷ ws) h = inr (0, waiting, refl, refl)
at_work (asleep ∷ ws) h = absurd (omega (arith, h))
at_work (busy t ∷ ws) h = inr (0, busy t, refl, refl)
at_work (crashed ∷ ws) h = elim (at_work ws (omega (arith, h))) [
  | inl all ↦ inl all
  | inr (i, w, at, ne) ↦ inr (suc i, w, at, ne)
]
at_work (exited ∷ ws) h = elim (at_work ws (omega (arith, h))) [
  | inl all ↦ inl all
  | inr (i, w, at, ne) ↦ inr (suc i, w, at, ne)
]

step-enabled :
    (p : Pool)
    → IsValid p
    → p.running ≡ false
    → (all_exited p.threads ≡ true) ⊎ ((i : ℕ) × (q : Pool) × (step p (steps i) ≡ some q))
unfolding step
step-enabled p v off = elim (at_work p.threads (v.awake off)) [
  | inl all ↦ inl all
  | inr (i, w, at, ne) ↦
      let next = run_in_thread-enabled p i w off ne in inr (i, next.0, rw at next.1)
]

ends :
    (p q : Pool) (is : List Move)
    → IsValid p
    → p.running ≡ false
    → run_threads p is ≡ some q
    → (length is + steps_left q ≤ steps_left p)
      × ((all_exited q.threads ≡ true) ⊎ ((i : ℕ) × (r : Pool) × (step q (steps i) ≡ some r)))
unfolding run_threads
ends p q [] v off e =
    let same : p ≡ q = ground arith in rw (← same) (omega arith, step-enabled p v off)
ends p q (i ∷ is) v off e = elim (Option-cases (step p (move i))) [
  | inl bad ↦ absurd (ground (arith, bad))
  | inr (r, ok) ↦
      let less = step-steps_left p r i off ok in
      let rest = ends r q is (step-IsValid p r (move i) v ok) (less.1 ∙ off) (ground (arith, ok)) in
      (omega (arith, less.0, rest.0), rest.1)
]

-- In a pool that does not run any more, the threads can make only `steps_left` steps, in whatever order they
-- come and whichever tasks throw; and while a thread is left, one is awake and can make a step, without a
-- wakeup that has no cause.
pub stop-ends :
    (es : List Event) (p q : Pool) (is : List Move)
    → execute create es ≡ some p
    → p.running ≡ false
    → run_threads p is ≡ some q
    → (length is + steps_left q ≤ steps_left p)
      × ((all_exited q.threads ≡ true) ⊎ ((i : ℕ) × (r : Pool) × (step q (steps i) ≡ some r)))
stop-ends es p q is reached off e =
    ends p q is (execute-IsValid create p es create-IsValid reached) off e
