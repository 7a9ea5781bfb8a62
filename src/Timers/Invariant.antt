-- ===== src/Timers/Invariant.antt =====
-- Timers.antt: the two sets hold the same timers, all of them live, in every operation.
use moban.Pairs.Order.{IsAscending, place-IsAscending, erase-IsAscending}
use moban.Prelude.{
  ℕ, suc, ◌+◌, ◌≡◌, refl, Bool, true, false, Option, none, some, [], ◌∷◌, ◌==◌, if◌then◌else◌,
  length, arith, Bool-cases, ==_iff, inl, inr, subst, ◌<◌,
}
use moban.Pairs.{
  PairList, count, place, erase, count-place, length-place, count-erase, length-erase, contains,
}
use moban.Timers.{
  Timer, Heap, TimerQueue, find_timer, delete, insert, same_size, add_timer_in_loop, create_timer,
  add_timer, cancel_in_loop, earliest_changed, Interval, create, reset_timerfd,
}

-- How often a timer stands in a list of entries.
unfoldable pub occurrences : ℕ → PairList → ℕ
occurrences a [] = 0
occurrences a ((w, b) ∷ p) = if a == b then suc (occurrences a p) else occurrences a p

-- Of an address: a live timer stands at most once in the expired list `p` that a handler holds and
-- in the two sets, there under its own expiration and sequence number; no other is mentioned.
unfoldable pub Owned : Option Timer → (timers active p : PairList) → ℕ → Type 0
Owned none timers active p a =
    ((w : ℕ) → count w a timers ≡ 0) × ((s : ℕ) → count a s active ≡ 0) × (occurrences a p ≡ 0)
Owned (some t) timers active p a =
    (on : ℕ) × (on + occurrences a p ≡ 1)
    × ((w : ℕ) → count w a timers ≡ (if w == t.expiration then on else 0))
    × ((s : ℕ) → count a s active ≡ (if s == t.sequence then on else 0))

pub record IsValid (q : TimerQueue) (p : PairList) : Type 0 where
  pub same : length q.timers ≡ length q.active_timers
  pub ordered : IsAscending q.timers
  pub owned : (a : ℕ) → Owned (find_timer a q.heap) q.timers q.active_timers p a

pub find_timer-delete :
    (a b : ℕ) (h : Heap) → find_timer a (delete b h) ≡ (if a == b then none else find_timer a h)
unfolding find_timer delete
find_timer-delete a b [] = ground arith
find_timer-delete a b ((c, t) ∷ h) = ground (arith, find_timer-delete a b h)

pub same_size-some :
    (q : TimerQueue) → length q.timers ≡ length q.active_timers → same_size q ≡ some q
unfolding same_size
same_size-some q h = ground arith

-- An update that says nothing of an address keeps what is known of it.
pub Owned-frame :
    (o : Option Timer) (timers active p timers' active' p' : PairList) (a : ℕ)
    → ((w : ℕ) → count w a timers' ≡ count w a timers)
    → ((n : ℕ) → count a n active' ≡ count a n active)
    → occurrences a p' ≡ occurrences a p
    → Owned o timers active p a
    → Owned o timers' active' p' a
unfolding Owned
Owned-frame none _ _ _ _ _ _ a ht ha hp v =
    (λ w. omega (arith, ht w, v.0 w), λ n. omega (arith, ha n, v.1 n), omega (arith, hp, v.2))
Owned-frame (some t) _ _ _ _ _ _ a ht ha hp v = (
  v.0,
  omega (arith, hp, v.1),
  λ w. ground (arith, ht w, v.2 w),
  λ n. ground (arith, ha n, v.3 n),
)

-- The queue that `insert` leaves.
abbrev pub placed : TimerQueue → ℕ → Timer → TimerQueue
placed q a t = record q {
  timers = place t.expiration a q.timers;
  active_timers = place a t.sequence q.active_timers;
}

-- A live timer that stands nowhere is inserted without a failed assertion.
pub insert-IsValid :
    (q : TimerQueue) (p : PairList) (a : ℕ) (t : Timer)
    → length q.timers ≡ length q.active_timers
    → ((b : ℕ) → (b == a) ≡ false → Owned (find_timer b q.heap) q.timers q.active_timers p b)
    → find_timer a q.heap ≡ some t
    → ((w : ℕ) → count w a q.timers ≡ 0)
    → ((s : ℕ) → count a s q.active_timers ≡ 0)
    → occurrences a p ≡ 0
    → IsAscending q.timers
    → (insert q a t ≡ some (earliest_changed t.expiration q.timers, placed q a t))
      × IsValid (placed q a t) p
unfolding insert same_size Owned
insert-IsValid q p a t same others here no_time no_active no_p ordered = (
  ground (
    arith,
    no_time t.expiration,
    no_active t.sequence,
    length-place t.expiration a q.timers,
    length-place a t.sequence q.active_timers,
  ),
  record {
    same = omega (
      arith,
      same,
      length-place t.expiration a q.timers,
      length-place a t.sequence q.active_timers,
    );
    ordered = place-IsAscending t.expiration a q.timers (no_time t.expiration) ordered;
    owned = λ b. elim (Bool-cases (b == a)) [
      | inl e ↦
          rw ((==_iff b a).0 e, here)
            (
              1,
              omega (arith, no_p),
              λ w. ground (arith, no_time w, count-place w a t.expiration a q.timers),
              λ n. ground (arith, no_active n, count-place a n a t.sequence q.active_timers),
            )
      | inr ne ↦
          Owned-frame (find_timer b q.heap) _ _ _ _ _ _ b
            (λ w. ground (arith, ne, count-place w b t.expiration a q.timers))
            (λ n. ground (arith, ne, count-place b n a t.sequence q.active_timers)) refl
            (others b ne)
    ];
  },
)

-- Memory that the allocator gives is not in use.
abbrev pub IsFresh : (Heap → ℕ) → Type 0
IsFresh malloc = (h : Heap) → find_timer (malloc h) h ≡ none

-- Whatever the timer descriptor is set to.
pub armed-IsValid :
    (b : Bool) (w : ℕ) {q : TimerQueue} {p : PairList}
    → IsValid q p
    → IsValid (if b then reset_timerfd q w else q) p
armed-IsValid true w v = record { same = v.same; ordered = v.ordered; owned = v.owned }
armed-IsValid false w v = v

pub add_timer-IsValid :
    (malloc : Heap → ℕ)
    → IsFresh malloc
    → (q : TimerQueue) (p : PairList) (when : ℕ) (interval : Interval) → IsValid q p
    → (r : TimerQueue) × (add_timer malloc q when interval
        ≡ some ((malloc q.heap, suc q.num_created), r))
      × IsValid r p
unfolding add_timer add_timer_in_loop create_timer find_timer Owned
add_timer-IsValid malloc fresh q p when interval v =
    let a = malloc q.heap in
    let t = create_timer when interval q.num_created in
    let q' : TimerQueue = record q { heap = (a, t) ∷ q.heap; num_created = suc q.num_created } in
    let free = subst (λ o. Owned o q.timers q.active_timers p a) (fresh q.heap) (v.owned a) in
    let done =
      insert-IsValid q' p a t v.same (λ b ne. rw ne (v.owned b)) (ground arith) free.0 free.1 free.2
        v.ordered in
    (
      if earliest_changed when q.timers then reset_timerfd (placed q' a t) when else placed q' a t,
      ground (arith, done.0),
      armed-IsValid (earliest_changed when q.timers) when done.1,
    )

-- A timer that is waiting: it is live, and stands once in both sets and not in the expired list.
pub record IsWaiting (o : Option Timer) (timers active p : PairList) (a : ℕ) (t : Timer)
    : Type 0 where
  pub live : o ≡ some t
  pub timed : (w : ℕ) → count w a timers ≡ (if w == t.expiration then 1 else 0)
  pub listed : (n : ℕ) → count a n active ≡ (if n == t.sequence then 1 else 0)
  pub held_back : occurrences a p ≡ 0

module _ {timers active p : PairList} {a : ℕ} where
  pub IsWaiting-active :
      (o : Option Timer) (s : ℕ)
      → Owned o timers active p a
      → 0 < count a s active
      → (t : Timer) × IsWaiting o timers active p a t × (t.sequence ≡ s)
  unfolding Owned
  IsWaiting-active none s v h = absurd (omega (arith, v.1 s))
  IsWaiting-active (some t) s v h =
      let on : v.0 ≡ 1 = ground (arith, v.3 s, v.1) in
      (
        t,
        record {
          live = refl;
          timed = λ w. ground (arith, on, v.2 w);
          listed = λ n. ground (arith, on, v.3 n);
          held_back = omega (arith, on, v.1);
        },
        ground (arith, v.3 s),
      )

  pub IsWaiting-timers :
      (o : Option Timer) (w : ℕ)
      → Owned o timers active p a
      → 0 < count w a timers
      → (t : Timer) × IsWaiting o timers active p a t × (t.expiration ≡ w)
  unfolding Owned
  IsWaiting-timers none w v h = absurd (omega (arith, v.0 w))
  IsWaiting-timers (some t) w v h =
      let on : v.0 ≡ 1 = ground (arith, v.2 w, v.1) in
      (
        t,
        record {
          live = refl;
          timed = λ w. ground (arith, on, v.2 w);
          listed = λ n. ground (arith, on, v.3 n);
          held_back = omega (arith, on, v.1);
        },
        ground (arith, v.2 w),
      )

-- The queue without a waiting timer.
abbrev pub dropped : TimerQueue → ℕ → Timer → TimerQueue
dropped q a t = record q {
  timers = erase t.expiration a q.timers;
  active_timers = erase a t.sequence q.active_timers;
  heap = delete a q.heap;
}

pub dropped-IsValid :
    {q : TimerQueue} {p : PairList} {a : ℕ} {t : Timer}
    → IsValid q p
    → IsWaiting (find_timer a q.heap) q.timers q.active_timers p a t
    → IsValid (dropped q a t) p
unfolding Owned
dropped-IsValid {q} {p} {a} {t} v h = record {
  same = ground (
    arith,
    v.same,
    h.timed t.expiration,
    h.listed t.sequence,
    length-erase t.expiration a q.timers,
    length-erase a t.sequence q.active_timers,
  );
  ordered = erase-IsAscending t.expiration a q.timers v.ordered;
  owned = λ b. rw (find_timer-delete b a q.heap) (elim (Bool-cases (b == a)) [
    | inl e ↦
        rw (e, (==_iff b a).0 e)
          (
            λ w. ground (arith, h.timed w, count-erase w a t.expiration a q.timers),
            λ n. ground (arith, h.listed n, count-erase a n a t.sequence q.active_timers),
            h.held_back,
          )
    | inr ne ↦ rw ne (
        Owned-frame (find_timer b q.heap) _ _ _ _ _ _ b
          (λ w. ground (arith, ne, count-erase w b t.expiration a q.timers))
          (λ n. ground (arith, ne, count-erase b n a t.sequence q.active_timers)) refl (v.owned b))
  ]);
}

-- Where a callback cancels a timer that has expired, only `cancelingTimers_` is changed.
canceled-IsValid :
    (b : Bool) (s : PairList) {q : TimerQueue} {p : PairList}
    → IsValid q p
    → IsValid (if b then record q { canceling_timers = s } else q) p
canceled-IsValid true s v = record { same = v.same; ordered = v.ordered; owned = v.owned }
canceled-IsValid false s v = v

pub cancel_in_loop-IsValid :
    (q : TimerQueue) (p : PairList) (a s : ℕ)
    → IsValid q p
    → (r : TimerQueue) × (cancel_in_loop q a s ≡ some r)
      × IsValid r p
      × (count a s r.active_timers ≡ 0)
unfolding cancel_in_loop same_size
cancel_in_loop-IsValid q p a s v = elim (Bool-cases (contains a s q.active_timers)) [
  | inl e ↦
      let found = IsWaiting-active (find_timer a q.heap) s (v.owned a) (ground arith) in
      let t = found.0 in
      let w = dropped-IsValid v found.1 in
      (
        dropped q a t,
        ground (arith, e, v.same, w.same, found.1.live, found.1.timed t.expiration, found.2),
        w,
        ground (arith, count-erase a s a t.sequence q.active_timers, found.2),
      )
  | inr e ↦ (
    if q.calling_expired_timers
        then record q {
          canceling_timers =
              if contains a s q.canceling_timers
              then q.canceling_timers
              else place a s q.canceling_timers;
        }
        else q,
    ground (arith, e, v.same),
    canceled-IsValid q.calling_expired_timers _ v,
    ground (arith, e),
  )
]

pub create-IsValid : (clock n : ℕ) → IsValid (create clock n) []
unfolding create find_timer Owned occurrences count IsAscending
create-IsValid clock n = record {
  same = refl;
  ordered = tt;
  owned = λ a. (λ w. refl, λ s. refl, refl);
}
