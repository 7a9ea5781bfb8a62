-- ===== src/Timers/Renewal.antt =====
-- Timers.antt: what `reset` makes of each expired timer.
use moban.Timers.Handler.{rearm-IsValid, arm_next-IsValid}
use moban.Prelude.{
  ℕ, ◌+◌, ◌≡◌, refl, Bool, Bool-cases, ==_iff, inl, inr, ◌&&◌, not, Option, Option-cases, none,
  some, [], ◌∷◌, ◌==◌, if◌then◌else◌, arith, subst, true,
}
use moban.Pairs.{PairList, contains, count, place, count-place}
use moban.Timers.{
  Timer, TimerQueue, find_timer, delete, restart, rearm, arm_next, reset, insert, same_size,
}
use moban.Timers.Invariant.{occurrences, find_timer-delete, IsValid, Owned}

-- A timer after its callback: one that repeats and was not cancelled gets its next time, any
-- other is no more.
abbrev pub renewed : ℕ → ℕ → PairList → Timer → Option Timer
renewed now a canceled t =
    if t.repeat && not (contains a t.sequence canceled)
    then some record {
      expiration = now + (t.interval).micros;
      interval = t.interval;
      repeat = true;
      sequence = t.sequence;
    }
    else none

insert-heap :
    (q : TimerQueue) (a : ℕ) (t : Timer) {c : Bool} {r : TimerQueue}
    → insert q a t ≡ some (c, r)
    → (r.heap ≡ q.heap)
      × (r.canceling_timers ≡ q.canceling_timers)
      × (r.timers ≡ place t.expiration a q.timers)
unfolding insert same_size
insert-heap q a t e = (ground arith, ground arith, ground arith)

-- How often a timer stands in the set under a time, if it stands there under its own.
abbrev pub timed : ℕ → Option Timer → ℕ
timed x none = 0
timed x (some t) = if x == t.expiration then 1 else 0

-- One round of the loop, of a timer `t` at `b`, from `q` to `r`.
record Round (q : TimerQueue) (now b : ℕ) (t : Timer) (r : TimerQueue) : Type 0 where
  pub found :
      (a : ℕ)
      → find_timer a r.heap
        ≡ (if a == b then renewed now b q.canceling_timers t else find_timer a q.heap)
  pub times :
      (x a : ℕ)
      → count x a r.timers
        ≡ count x a q.timers + (if a == b then timed x (renewed now b q.canceling_timers t) else 0)
  pub canceled : r.canceling_timers ≡ q.canceling_timers

rearm-Round :
    (q : TimerQueue) (now w b : ℕ) (p : PairList) (r : TimerQueue)
    → rearm q now ((w, b) ∷ p) ≡ some r
    → (t : Timer) × (q2 : TimerQueue) × (find_timer b q.heap ≡ some t)
      × (rearm q2 now p ≡ some r)
      × Round q now b t q2
unfolding rearm find_timer
rearm-Round q now w b p r e = elim (Option-cases (find_timer b q.heap)) [
  | inl gone ↦ absurd (ground (arith, gone))
  | inr (t, there) ↦
      elim (Bool-cases (t.repeat && not (contains b t.sequence q.canceling_timers))) [
        | inl again ↦
            let q' : TimerQueue = record q { heap = (b, restart now t) ∷ q.heap } in
            elim (Option-cases (insert q' b (restart now t))) [
              | inl bad ↦ absurd (ground (arith, there, again, bad))
              | inr ((c, q2), good) ↦
                  let kept = insert-heap q' b (restart now t) good in
                  (
                    t,
                    q2,
                    there,
                    ground (arith, there, again, good),
                    record {
                      found = λ a. rw again (ground (arith, kept.0));
                      times = λ x a. rw again (
                          ground (
                            arith,
                            kept.2,
                            count-place x a ((restart now t).expiration) b q.timers,
                          ));
                      canceled = kept.1;
                    },
                  )
            ]
        | inr last ↦ (
          t,
          record q { heap = delete b q.heap },
          there,
          ground (arith, there, last),
          record {
            found = λ a. rw last (find_timer-delete a b q.heap);
            times = λ x a. rw last (ground arith);
            canceled = refl;
          },
        )
      ]
]

rearm-other :
    (q : TimerQueue) (now : ℕ) (p : PairList) (r : TimerQueue) (a : ℕ)
    → rearm q now p ≡ some r
    → occurrences a p ≡ 0
    → (find_timer a r.heap ≡ find_timer a q.heap)
      × ((x : ℕ) → count x a r.timers ≡ count x a q.timers)
unfolding rearm occurrences
rearm-other q now [] r a e h = (ground arith, λ x. ground arith)
rearm-other q now ((w, b) ∷ p) r a e h =
    let (t, q2, _, e2, round) = rearm-Round q now w b p r e in
    let rest = rearm-other q2 now p r a e2 (ground arith) in
    (ground (arith, round.found a, rest.0), λ x. ground (arith, round.times x a, rest.1 x))

rearm-renewed :
    (q : TimerQueue) (now : ℕ) (p : PairList) (r : TimerQueue) (a : ℕ) (t : Timer)
    → rearm q now p ≡ some r
    → occurrences a p ≡ 1
    → find_timer a q.heap ≡ some t
    → ((x : ℕ) → count x a q.timers ≡ 0)
    → (find_timer a r.heap ≡ renewed now a q.canceling_timers t)
      × ((x : ℕ) → count x a r.timers ≡ timed x (renewed now a q.canceling_timers t))
unfolding rearm occurrences
rearm-renewed q now [] r a t e h f z = absurd (omega (arith, h))
rearm-renewed q now ((w, b) ∷ p) r a t e h f z =
    let (u, q2, there, e2, round) = rearm-Round q now w b p r e in
    elim (Bool-cases (a == b)) [
      | inl same ↦
          let same_b = (==_iff a b).0 same in
          let same_t : u ≡ t = ground (arith, there, f, same_b) in
          let rest = rearm-other q2 now p r a e2 (ground arith) in
          (
            ground (arith, same_b, same_t, round.found a, rest.0),
            λ x. ground (arith, z x, same_b, same_t, round.times x a, rest.1 x),
          )
      | inr other ↦
          let rest =
            rearm-renewed q2 now p r a t e2 (ground arith) (ground (arith, round.found a))
              (λ x. ground (arith, z x, round.times x a)) in
          rw (← round.canceled) rest
    ]

arm_next-timers :
    (q : TimerQueue) (s : PairList) {r : TimerQueue}
    → arm_next q s ≡ some r
    → (r.heap ≡ q.heap) × (r.timers ≡ q.timers)
unfolding arm_next
arm_next-timers q [] e = (ground arith, ground arith)
arm_next-timers q ((w, a) ∷ s) e = (ground arith, ground arith)

-- `reset` treats every expired timer in one of two ways: one that repeats, and that no callback
-- cancelled, waits again for its interval after `now`; any other is deleted and waits no more.
pub reset-renewed :
    (q : TimerQueue) (now : ℕ) (p : PairList) (a : ℕ) (t : Timer)
    → IsValid q p
    → occurrences a p ≡ 1
    → find_timer a q.heap ≡ some t
    → (r : TimerQueue) × (reset q now p ≡ some r)
      × (find_timer a r.heap ≡ renewed now a q.canceling_timers t)
      × ((x : ℕ) → count x a r.timers ≡ timed x (renewed now a q.canceling_timers t))
unfolding reset Owned
reset-renewed q now p a t v h f =
    let done = rearm-IsValid q now p v in
    let last = arm_next-IsValid done.0 done.0.timers refl done.2 in
    let kept = arm_next-timers done.0 done.0.timers last.1 in
    let owned = subst (λ o. Owned o q.timers q.active_timers p a) f (v.owned a) in
    let off : owned.0 ≡ 0 = omega (arith, h, owned.1) in
    let new = rearm-renewed q now p done.0 a t done.1 h f (λ x. ground (arith, off, owned.2 x)) in
    (
      last.0,
      ground (arith, done.1, last.1),
      ground (arith, kept.0, new.0),
      λ x. ground (arith, kept.1, new.1 x),
    )
