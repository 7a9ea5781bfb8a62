-- ===== src/Timers/Handler.antt =====
-- Timers.antt: `reset`, and `handleRead` with the callbacks that it runs.
use moban.Prelude.{
  ℕ, ◌≤◌, ◌<◌, ◌≡◌, refl, true, false, Bool-cases, ==_iff, inl, inr, ◌&&◌, not, Option, none, some,
  List, [], ◌∷◌, ltb, ◌==◌, if◌then◌else◌, arith, ◌∙◌,
}
use moban.Pairs.{PairList, count, contains, before}
use moban.Timers.{
  Timer, Heap, TimerQueue, find_timer, delete, restart, rearm, last_address, arm_next, reset,
  Action, adds, cancels, act, run, run_expired, handle_read, reset_timerfd,
}
use moban.Timers.Invariant.{
  occurrences, Owned, Owned-frame, IsValid, IsWaiting-timers, IsFresh, placed, find_timer-delete,
  insert-IsValid, armed-IsValid, add_timer-IsValid, cancel_in_loop-IsValid,
}
use moban.Timers.Expired.{get_expired-IsValid}

-- A timer of the expired list is live, and in neither set.
pub record IsHeld (o : Option Timer) (timers active p : PairList) (a : ℕ) (t : Timer) : Type 0 where
  pub live : o ≡ some t
  pub untimed : (w : ℕ) → count w a timers ≡ 0
  pub unlisted : (n : ℕ) → count a n active ≡ 0
  pub once : occurrences a p ≡ 0

pub held :
    (timers active p : PairList) (a w : ℕ) (o : Option Timer)
    → Owned o timers active ((w, a) ∷ p) a
    → (t : Timer) × IsHeld o timers active p a t
unfolding Owned occurrences
held _ _ _ _ _ none v = absurd (ground (arith, v.2))
held _ _ _ _ _ (some t) v =
    let off : v.0 ≡ 0 = ground (arith, v.1) in
    (
      t,
      record {
        live = refl;
        untimed = λ w. ground (arith, v.2 w, off);
        unlisted = λ n. ground (arith, v.3 n, off);
        once = ground (arith, v.1);
      },
    )

-- The others do not notice that one leaves the list.
others-Owned :
    (o : Option Timer) (timers active p : PairList) (b a w : ℕ)
    → (b == a) ≡ false
    → Owned o timers active ((w, a) ∷ p) b
    → Owned o timers active p b
unfolding occurrences
others-Owned o _ _ _ b _ _ ne v =
    Owned-frame o _ _ _ _ _ _ b (λ x. refl) (λ n. refl) (ground (arith, ne)) v

pub rearm-IsValid :
    (q : TimerQueue) (now : ℕ) (p : PairList)
    → IsValid q p
    → (r : TimerQueue) × (rearm q now p ≡ some r) × IsValid r []
unfolding rearm find_timer Owned
rearm-IsValid q now [] v = (q, refl, v)
rearm-IsValid q now ((w, a) ∷ p) v =
    let found = held _ _ _ a w (find_timer a q.heap) (v.owned a) in
    let t = found.0 in
    elim (Bool-cases (t.repeat && not (contains a t.sequence q.canceling_timers))) [
      | inl e ↦
          let q' : TimerQueue = record q { heap = (a, restart now t) ∷ q.heap } in
          let done =
            insert-IsValid q' p a (restart now t) v.same
              (λ b ne. rw ne (others-Owned (find_timer b q.heap) _ _ _ b a w ne (v.owned b)))
              (ground arith) found.1.untimed found.1.unlisted found.1.once v.ordered in
          let rest = rearm-IsValid (placed q' a (restart now t)) now p done.1 in
          (rest.0, ground (arith, e, found.1.live, done.0, rest.1), rest.2)
      | inr e ↦
          let q' : TimerQueue = record q { heap = delete a q.heap } in
          let rest = rearm-IsValid q' now p record {
            same = v.same;
            ordered = v.ordered;
            owned = λ b. rw (find_timer-delete b a q.heap) (elim (Bool-cases (b == a)) [
              | inl f ↦ rw (f, (==_iff b a).0 f) (found.1.untimed, found.1.unlisted, found.1.once)
              | inr ne ↦ rw ne (others-Owned (find_timer b q.heap) _ _ _ b a w ne (v.owned b))
            ]);
          } in
          (rest.0, ground (arith, e, found.1.live, rest.1), rest.2)
    ]

pub arm_next-IsValid :
    (q : TimerQueue) (s : PairList)
    → s ≡ q.timers
    → IsValid q []
    → (r : TimerQueue) × (arm_next q s ≡ some r) × IsValid r []
unfolding arm_next count
arm_next-IsValid q [] e v = (q, refl, v)
arm_next-IsValid q ((w, a) ∷ s) e v =
    let some_time : 0 < count w a q.timers = rw (← e) (ground arith) in
    let found = IsWaiting-timers (find_timer a q.heap) w (v.owned a) some_time in
    let t = found.0 in
    (
      if ltb 0 t.expiration then reset_timerfd q t.expiration else q,
      ground (arith, found.1.live),
      armed-IsValid (ltb 0 t.expiration) t.expiration v,
    )

pub reset-IsValid :
    (q : TimerQueue) (now : ℕ) (p : PairList)
    → IsValid q p
    → (r : TimerQueue) × (reset q now p ≡ some r) × IsValid r []
unfolding reset
reset-IsValid q now p v =
    let done = rearm-IsValid q now p v in
    let last = arm_next-IsValid done.0 done.0.timers refl done.2 in
    (last.0, ground (arith, done.1, last.1), last.2)

first : (w a : ℕ) (s : PairList) → 0 < occurrences a ((w, a) ∷ s)
unfolding occurrences
first w a s = ground arith

tail_of : (b w a : ℕ) (s : PairList) → occurrences b s ≤ occurrences b ((w, a) ∷ s)
unfolding occurrences
tail_of b w a s = ground arith

live_while_held :
    (timers active p : PairList) (a : ℕ) (o : Option Timer)
    → Owned o timers active p a
    → 0 < occurrences a p
    → (t : Timer) × (o ≡ some t)
unfolding Owned
live_while_held _ _ _ _ none v h = absurd (omega (arith, v.2))
live_while_held _ _ _ _ (some t) v h = (t, refl)

module _ (malloc : Heap → ℕ) (fresh : IsFresh malloc) where
  run-IsValid :
      (q : TimerQueue) (p : PairList) (actions : List Action)
      → IsValid q p
      → (r : TimerQueue) × (run malloc q actions ≡ some r) × IsValid r p
  unfolding run act
  run-IsValid q p [] v = (q, refl, v)
  run-IsValid q p (adds when interval ∷ actions) v =
      let done = add_timer-IsValid malloc fresh q p when interval v in
      let rest = run-IsValid done.0 p actions done.2 in
      (rest.0, ground (arith, done.1, rest.1), rest.2)
  run-IsValid q p (cancels a s ∷ actions) v =
      let done = cancel_in_loop-IsValid q p a s v in
      let rest = run-IsValid done.0 p actions done.2 in
      (rest.0, ground (arith, done.1, rest.1), rest.2)

  run_expired-IsValid :
      (callback : ℕ → List Action) (q : TimerQueue) (s p : PairList)
      → ((a : ℕ) → occurrences a s ≤ occurrences a p)
      → IsValid q p
      → (r : TimerQueue) × (run_expired malloc callback q s ≡ some r) × IsValid r p
  unfolding run_expired
  run_expired-IsValid callback q [] p in_list v = (q, refl, v)
  run_expired-IsValid callback q ((w, a) ∷ s) p in_list v =
      let listed : 0 < occurrences a p = ground (arith, in_list a, first w a s) in
      let timer = live_while_held _ _ p a (find_timer a q.heap) (v.owned a) listed in
      let ran = run-IsValid q p (callback (timer.0).sequence) v in
      let rest =
        run_expired-IsValid callback ran.0 s p (λ b. ground (arith, in_list b, tail_of b w a s))
          ran.2 in
      (rest.0, ground (arith, timer.1, ran.1, rest.1), rest.2)

  -- `handleRead` comes to its `reset`, with the expired timers.
  pub handle_read-reset :
      (callback : ℕ → List Action) (q : TimerQueue) (now : ℕ)
      → IsValid q []
      → (q2 : TimerQueue) × (p : PairList) × IsValid q2 p
        × (handle_read malloc callback q now ≡ reset q2 now p)
  unfolding handle_read
  handle_read-reset callback q now v =
      let q0 : TimerQueue = record q { timerfd = none } in
      let taken =
        get_expired-IsValid q0 now record { same = v.same; ordered = v.ordered; owned = v.owned } in
      let p = before now last_address q.timers in
      let q1 : TimerQueue = record (taken.0) {
        calling_expired_timers = true;
        canceling_timers = [];
      } in
      let ran =
        run_expired-IsValid callback q1 p p (λ a. omega arith)
          record { same = taken.2.same; ordered = taken.2.ordered; owned = taken.2.owned } in
      (
        record (ran.0) { calling_expired_timers = false },
        p,
        record { same = ran.2.same; ordered = ran.2.ordered; owned = ran.2.owned },
        ground (arith, taken.1, ran.1),
      )

  -- In every state that the timer queue can be in, whatever the callbacks of the timers do to it,
  -- `handleRead` returns: no assertion fails and no deleted timer is used. Afterwards the two sets
  -- again hold the same timers, and every live one stands there once.
  pub handle_read-IsValid :
      (callback : ℕ → List Action) (q : TimerQueue) (now : ℕ)
      → IsValid q []
      → (r : TimerQueue) × (handle_read malloc callback q now ≡ some r) × IsValid r []
  handle_read-IsValid callback q now v =
      let last = handle_read-reset callback q now v in
      let done = reset-IsValid last.0 now last.1 last.2 in (done.0, last.3 ∙ done.1, done.2)
