-- ===== src/DiskPool/Laws.antt =====
-- DiskPool.antt: the bound on the tasks, and what a task that throws costs.
use moban.Prelude.{
  ℕ, suc, ◌+◌, ◌≤◌, ◌≡◌, refl, true, false, Option-cases, Bool-cases, inl, inr, some, List, [], ◌∷◌,
  leb, get_elem?, set, length, length-append, arith, subst, total, total-set, total-replicate, ap,
  sym, ◌∙◌, sub_size, ◌<◌, ◌^◌, ◌-◌,
}
use moban.BlockingQueue.{Queue, Outcome, waits, closed, returns, put, take, take_front, shutdown}
use moban.BlockingQueue as Blocking
use moban.DiskPool.{
  End, completes, throws, Worker, idle, working, gone, ThreadPool, max_pending, create, try_submit,
  submit_admitted, tests, taken, run, close, Event, submits, steps, closes, step, execute,
}

unfoldable pub is_working : Worker → ℕ
is_working idle = 0
is_working (working e) = 1
is_working gone = 0

unfoldable pub is_gone : Worker → ℕ
is_gone idle = 0
is_gone (working e) = 0
is_gone gone = 1

pub record IsValid (p : ThreadPool) : Type 0 where
  pub bounded : p.pending + p.admitted ≤ 255 + p.callers
  pub below : p.admitted ≤ p.callers
  pub few : p.callers < 2 ^ 62
  pub counted : length (p.queue).items + total is_working p.workers ≤ p.pending
  -- Before the end a thread that is gone still holds the place of the task that threw.
  pub leaked :
      (p.queue).done ≡ false
      → p.pending ≡ length (p.queue).items + total is_working p.workers + total is_gone p.workers

pub create-IsValid : (callers n : ℕ) → callers < 2 ^ 62 → IsValid (create callers n)
unfolding create Blocking.create is_working is_gone
create-IsValid callers n few = record {
  bounded = omega arith;
  below = omega arith;
  few = few;
  counted = omega (arith, total-replicate is_working n idle refl);
  leaked = λ _.
      omega (arith, total-replicate is_working n idle refl, total-replicate is_gone n idle refl);
}

try_submit-IsValid :
    (p : ThreadPool) → p.admitted < p.callers → IsValid p → IsValid (try_submit p).1
unfolding try_submit
try_submit-IsValid p free v = elim (Bool-cases (leb max_pending p.pending)) [
  | inl full ↦ subst IsValid (ground arith) v
  | inr fits ↦
      let valid : IsValid record p { admitted = suc p.admitted } = record {
        bounded = ground arith;
        below = free;
        few = v.few;
        counted = v.counted;
        leaked = v.leaked;
      } in
      subst IsValid (ground arith) valid
]

submit_admitted-IsValid :
    (p q : ThreadPool) (task : End) → IsValid p → submit_admitted p task ≡ some q → IsValid q
unfolding submit_admitted put
submit_admitted-IsValid p q task v h =
    let longer = length-append (p.queue).items (task ∷ []) in
    let some_one : 0 < p.admitted = ground arith in
    let valid : IsValid
        record p { admitted = p.admitted - 1; pending = suc p.pending; queue = put p.queue task } =
      record {
        bounded = omega (arith, v.bounded);
        below = omega (arith, v.below);
        few = v.few;
        counted = omega (arith, longer, v.counted);
        leaked = λ on. omega (arith, longer, v.leaked on);
      } in
    subst IsValid (ground arith) valid

take_front-returns :
    (q : Queue End) (l : List End) (task : End) (r : Queue End)
    → take_front q l ≡ returns (task, r)
    → (l ≡ task ∷ r.items) × (r.done ≡ q.done)
unfolding take_front
take_front-returns q [] task r h = absurd (ground arith)
take_front-returns q (t ∷ l) task r h = (ground arith, ground arith)

take_front-closed : (q : Queue End) (l : List End) → take_front q l ≡ closed → q.done ≡ true
unfolding take_front
take_front-closed q [] h = ground arith
take_front-closed q (t ∷ l) h = absurd (ground arith)

taken-IsValid :
    (p q : ThreadPool) (i : ℕ) (o : Outcome (End × Queue End))
    → IsValid p
    → get_elem? p.workers i ≡ some idle
    → take_front p.queue (p.queue).items ≡ o
    → taken p i o ≡ some q
    → IsValid q
unfolding taken is_working is_gone
taken-IsValid p q i waits v h k e = absurd (ground arith)
taken-IsValid p q i closed v h k e =
    let over = take_front-closed p.queue (p.queue).items k in
    let valid : IsValid record p { workers = set p.workers i gone } = record {
      bounded = v.bounded;
      below = v.below;
      few = v.few;
      counted = omega (arith, v.counted, total-set is_working p.workers i idle gone h);
      leaked = λ on. absurd (ground (arith, over));
    } in
    subst IsValid (ground arith) valid
taken-IsValid p q i (returns (task, r)) v h k e =
    let front = take_front-returns p.queue (p.queue).items task r k in
    let shorter = ap length front.0 in
    let work = total-set is_working p.workers i idle (working task) h in
    let valid : IsValid record p { queue = r; workers = set p.workers i (working task) } = record {
      bounded = v.bounded;
      below = v.below;
      few = v.few;
      counted = omega (arith, v.counted, shorter, work);
      leaked = λ on. omega (
        arith,
        v.leaked (sym front.1 ∙ on),
        shorter,
        work,
        total-set is_gone p.workers i idle (working task) h,
      );
    } in
    subst IsValid (ground arith) valid

run-IsValid :
    (p q : ThreadPool) (i : ℕ) (w : Worker)
    → IsValid p
    → get_elem? p.workers i ≡ some w
    → run p i w ≡ some q
    → IsValid q
unfolding run take is_working is_gone
run-IsValid p q i idle v h e = taken-IsValid p q i (take_front p.queue (p.queue).items) v h refl e
run-IsValid p q i (working completes) v h e =
    let work = total-set is_working p.workers i (working completes) idle h in
    let went = total-set is_gone p.workers i (working completes) idle h in
    let less : sub_size p.pending 1 + 1 ≡ p.pending =
      omega (arith, v.bounded, v.few, v.counted, work) in
    let valid : IsValid
        record p { workers = set p.workers i idle; pending = sub_size p.pending 1 } =
      record {
        bounded = omega (arith, v.bounded, less);
        below = v.below;
        few = v.few;
        counted = omega (arith, v.counted, less, work);
        leaked = λ on. omega (arith, v.leaked on, less, work, went);
      } in
    subst IsValid (ground arith) valid
run-IsValid p q i (working throws) v h e =
    let work = total-set is_working p.workers i (working throws) gone h in
    let went = total-set is_gone p.workers i (working throws) gone h in
    let valid : IsValid record p { workers = set p.workers i gone } = record {
      bounded = v.bounded;
      below = v.below;
      few = v.few;
      counted = omega (arith, v.counted, work);
      leaked = λ on. omega (arith, v.leaked on, work, went);
    } in
    subst IsValid (ground arith) valid
run-IsValid p q i gone v h e = absurd (ground arith)

step-IsValid : (p q : ThreadPool) (e : Event) → IsValid p → step p e ≡ some q → IsValid q
unfolding step close shutdown
step-IsValid p q tests v h =
    let free : p.admitted < p.callers = ground arith in
    subst IsValid (ground arith) (try_submit-IsValid p free v)
step-IsValid p q (submits task) v h = submit_admitted-IsValid p q task v h
step-IsValid p q (steps i) v h = elim (Option-cases (get_elem? p.workers i)) [
  | inl out ↦ absurd (ground (arith, out))
  | inr (w, at) ↦ run-IsValid p q i w v at (ground (arith, at))
]
step-IsValid p q closes v h =
    let valid : IsValid (close p) = record {
      bounded = v.bounded;
      below = v.below;
      few = v.few;
      counted = v.counted;
      leaked = λ on. absurd (ground arith);
    } in
    subst IsValid (ground arith) valid

pub submitted-IsValid :
    (p q : ThreadPool) (es : List Event) → IsValid p → execute p es ≡ some q → IsValid q
unfolding execute
submitted-IsValid p q [] v h = subst IsValid (ground arith) v
submitted-IsValid p q (e ∷ es) v h = elim (Option-cases (step p e)) [
  | inl bad ↦ absurd (ground (arith, bad))
  | inr (r, ok) ↦ submitted-IsValid r q es (step-IsValid p r e v ok) (ground (arith, ok))
]
