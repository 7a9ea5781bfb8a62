-- ===== src/Timers/Expired.antt =====
-- Timers.antt: `getExpired` keeps the invariant, with the timers that it takes out in the list.
use moban.Pairs.Order.{IsAscending, before_lem, from_lem, count-from-le}
use moban.Prelude.{
  ℕ, ◌+◌, ◌≤◌, ◌<◌, ◌≡◌, refl, Bool-cases, ==_iff, inl, inr, some, [], ◌∷◌, ◌++◌, ◌==◌, subst,
  arith, append-nil, Option-cases,
}
use moban.Pairs.{
  PairList, count, erase, before, from, count-erase, length-erase, before-append-from,
}
use moban.Timers.{Timer, TimerQueue, find_timer, same_size, retire, get_expired, last_address}
use moban.Timers.Invariant.{occurrences, Owned, Owned-frame, IsValid, IsWaiting, IsWaiting-timers}

occurrences-append :
    (a : ℕ) (p s : PairList) → occurrences a (p ++ s) ≡ occurrences a p + occurrences a s
unfolding occurrences
occurrences-append a [] s = omega arith
occurrences-append a ((w, b) ∷ p) s = ground (arith, occurrences-append a p s)

-- The order of the expired list does not matter.
regrouped-IsValid :
    {q : TimerQueue} (p s : PairList)
    → ((a : ℕ) → occurrences a s ≡ occurrences a p)
    → IsValid q p
    → IsValid q s
regrouped-IsValid {q} p s same v = record {
  same = v.same;
  ordered = v.ordered;
  owned = λ a.
      Owned-frame (find_timer a q.heap) _ _ _ _ _ _ a (λ w. refl) (λ n. refl) (same a) (v.owned a);
}

-- One expired timer leaves both sets for the list.
module _ (q : TimerQueue) (w a : ℕ) (rem p : PairList) (t : Timer) where
  retired-IsValid :
      IsValid (record q { timers = ((w, a) ∷ rem) ++ q.timers }) p
      → IsWaiting (find_timer a q.heap) (((w, a) ∷ rem) ++ q.timers) q.active_timers p a t
      → t.expiration ≡ w
      → IsValid
          record q { timers = rem ++ q.timers; active_timers = erase a t.sequence q.active_timers }
          ((w, a) ∷ p)
  unfolding Owned occurrences count IsAscending
  retired-IsValid v h e = record {
    same = ground (arith, v.same, h.listed t.sequence, length-erase a t.sequence q.active_timers);
    owned = λ b. elim (Bool-cases (b == a)) [
      | inl f ↦
          rw ((==_iff b a).0 f, h.live)
            (
              0,
              ground (arith, h.held_back),
              λ x. ground (arith, e, h.timed x),
              λ n. ground (arith, h.listed n, count-erase a n a t.sequence q.active_timers),
            )
      | inr ne ↦
          Owned-frame (find_timer b q.heap) _ _ _ _ _ _ b (λ x. ground (arith, ne))
            (λ n. ground (arith, ne, count-erase b n a t.sequence q.active_timers))
            (ground (arith, ne)) (v.owned b)
    ];
    ordered = v.ordered.1;
  }

split :
    {q : TimerQueue} (now : ℕ)
    → IsValid q []
    → IsValid
        record q { timers = before now last_address q.timers ++ from now last_address q.timers }
        []
split {q} now v =
    let e = before-append-from now last_address q.timers in
    record { same = rw e (v.same); ordered = rw e (v.ordered); owned = λ a. rw e (v.owned a) }

head_counts : (w a : ℕ) (s : PairList) → 0 < count w a ((w, a) ∷ s)
unfolding count
head_counts w a s = ground arith

moved :
    (b w a : ℕ) (rem p : PairList)
    → occurrences b ((w, a) ∷ rem ++ p) ≡ occurrences b (rem ++ (w, a) ∷ p)
unfolding occurrences
moved b w a rem p =
    ground (arith, occurrences-append b rem p, occurrences-append b rem ((w, a) ∷ p))

retire-IsValid :
    (q : TimerQueue) (rem p : PairList)
    → IsValid (record q { timers = rem ++ q.timers }) p
    → (r : TimerQueue) × (retire q rem ≡ some r) × IsValid r (rem ++ p)
unfolding retire
retire-IsValid q [] p v = (q, refl, record { same = v.same; ordered = v.ordered; owned = v.owned })
retire-IsValid q ((w, a) ∷ rem) p v =
    let found =
      IsWaiting-timers (find_timer a q.heap) w (v.owned a) (head_counts w a (rem ++ q.timers)) in
    let t = found.0 in
    let q' : TimerQueue = record q { active_timers = erase a t.sequence q.active_timers } in
    let rest =
      retire-IsValid q' rem ((w, a) ∷ p) (retired-IsValid q w a rem p t v found.1 found.2) in
    (
      rest.0,
      ground (arith, found.1.live, found.1.listed t.sequence, rest.1),
      regrouped-IsValid (rem ++ (w, a) ∷ p) ((w, a) ∷ rem ++ p) (λ b. moved b w a rem p) rest.2,
    )

pub get_expired-IsValid :
    (q : TimerQueue) (now : ℕ)
    → IsValid q []
    → (r : TimerQueue) × (get_expired q now ≡ some (before now last_address q.timers, r))
      × IsValid r (before now last_address q.timers)
unfolding get_expired same_size
get_expired-IsValid q now v =
    let expired = before now last_address q.timers in
    let rest = from now last_address q.timers in
    let done = retire-IsValid record q { timers = rest } expired [] (split now v) in
    let w = subst (IsValid done.0) (append-nil expired) done.2 in
    (done.0, ground (arith, v.same, done.1, w.same), w)

-- Retiring a timer touches the active timers only.
retire-timers :
    (q : TimerQueue) (p : PairList) {r : TimerQueue}
    → retire q p ≡ some r
    → (r.timers ≡ q.timers) × (r.heap ≡ q.heap)
unfolding retire
retire-timers q [] {r} e = (ground arith, ground arith)
retire-timers q ((w, a) ∷ p) {r} e = elim (Option-cases (find_timer a q.heap)) [
  | inl none_there ↦ ground (arith, none_there)
  | inr (t, there) ↦ ground (
    arith,
    there,
    retire-timers record q { active_timers = erase a t.sequence q.active_timers } p {r = r},
  )
]

-- Below UINTPTR_MAX, as every address of an object is.
abbrev pub IsAddressed : TimerQueue → Type 0
IsAddressed q = (w a : ℕ) → 0 < count w a q.timers → a < last_address

-- `getExpired` cuts the waiting timers in two, in their order: it returns those whose time has
-- come by `now`, all of them, and leaves those that are due later.
pub get_expired-Due :
    (q : TimerQueue) (now : ℕ)
    → IsValid q []
    → IsAddressed q
    → (expired : PairList) × (r : TimerQueue) × (get_expired q now ≡ some (expired, r))
      × (expired ++ r.timers ≡ q.timers)
      × ((w a : ℕ) → 0 < count w a expired → w ≤ now)
      × ((w a : ℕ) → 0 < count w a r.timers → now < w)
unfolding get_expired same_size
get_expired-Due q now v below =
    let expired = before now last_address q.timers in
    let rest = from now last_address q.timers in
    let done = retire-IsValid record q { timers = rest } expired [] (split now v) in
    let w = subst (IsValid done.0) (append-nil expired) done.2 in
    let kept = (retire-timers record q { timers = rest } expired done.1).0 in
    (
      expired,
      done.0,
      ground (arith, v.same, done.1, w.same),
      rw kept (before-append-from now last_address q.timers),
      λ x a h. ground (arith, before_lem now last_address q.timers x a h),
      λ x a h.
          let in_rest : 0 < count x a rest = rw (← kept) h in
          ground (
            arith,
            from_lem now last_address q.timers v.ordered x a in_rest,
            below x a,
            count-from-le x a now last_address q.timers,
          ),
    )
