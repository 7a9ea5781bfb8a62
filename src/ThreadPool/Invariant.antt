-- ===== src/ThreadPool/Invariant.antt =====
-- ThreadPool.antt: tasks are begun in the order of their submission, and each one once.
use moban.Prelude.{
  ℕ, suc, ◌+◌, ◌<◌, ◌==◌, ◌≡◌, refl, Bool, true, false, Option-cases, Bool-cases, inl, inr, some,
  List, [], ◌∷◌, ◌++◌, if◌then◌else◌, get_elem?, set, replicate, arith, append_assoc, ap, ◌∙◌,
  subst, sym, total, total-set, total-replicate, zero,
}
use moban.ThreadPool.{
  Worker, waiting, asleep, busy, crashed, exited, wake_one, wake_all, crash, wakes, crashes, Pool,
  create, start, run, Turn, sleeps, leaves, takes, turn, take_turn, run_in_thread, stop, all_exited,
  join, Event, starts, runs, steps, stops, joins, step, execute,
}

unfoldable pub count : ℕ → List ℕ → ℕ
count t [] = 0
count t (u ∷ us) = if t == u then suc (count t us) else count t us

unfoldable pub is_busy_with : ℕ → Worker → ℕ
is_busy_with t waiting = 0
is_busy_with t asleep = 0
is_busy_with t crashed = 0
is_busy_with t (busy u) = if t == u then 1 else 0
is_busy_with t exited = 0

unfoldable pub has_exited : Worker → ℕ
has_exited waiting = 0
has_exited asleep = 0
has_exited crashed = 0
has_exited (busy u) = 0
has_exited exited = 1

unfoldable pub is_asleep : Worker → ℕ
is_asleep waiting = 0
is_asleep asleep = 1
is_asleep (busy u) = 0
is_asleep crashed = 0
is_asleep exited = 0

pub record IsValid (p : Pool) : Type 0 where
  -- First in, first out.
  pub in_order : p.accepted ≡ p.started ++ p.queue
  -- A task that was begun has returned, has thrown or is being run, once.
  pub conserved :
      (t : ℕ)
      → count t p.started ≡ count t p.finished + count t p.thrown + total (is_busy_with t) p.threads
  -- A thread leaves only after `stop`, and only when there is nothing left to do.
  pub drained : 0 < total has_exited p.threads → (p.running ≡ false) × (p.queue ≡ [])
  pub stopped : p.running ≡ false → p.joining ≡ false → p.threads ≡ []
  pub started_once : p.running ≡ true → p.joining ≡ false
  -- After `stop` no thread sleeps.
  pub awake : p.running ≡ false → total is_asleep p.threads ≡ 0

count-append : (t : ℕ) (us vs : List ℕ) → count t (us ++ vs) ≡ count t us + count t vs
unfolding count
count-append t [] vs = omega arith
count-append t (u ∷ us) vs = ground (arith, count-append t us vs)

-- A task alone, as it counts for the list and for its thread.
count-one : (t u : ℕ) → count t (u ∷ []) ≡ is_busy_with t (busy u)
unfolding count is_busy_with
count-one t u = refl

-- Where a thread stands there are threads.
no_thread : (ws : List Worker) (i : ℕ) {w : Worker} → get_elem? ws i ≡ some w → ws ≡ [] → ⊥
no_thread ws i h e = absurd (ground (arith, ap (λ l. get_elem? l i) e))

pub create-IsValid : IsValid create
unfolding create total count is_asleep
create-IsValid = record {
  in_order = refl;
  conserved = λ t. omega arith;
  drained = λ h. absurd (omega arith);
  stopped = λ _ _. refl;
  started_once = λ h. refl;
  awake = λ h. omega arith;
}

start-IsValid : (p q : Pool) (n : ℕ) → IsValid p → start p n ≡ some q → IsValid q
unfolding start is_busy_with has_exited is_asleep total
start-IsValid p q n v e = elim (Bool-cases p.running) [
  | inl r ↦ subst IsValid (ground arith) v
  | inr r ↦
      let idle : p.joining ≡ false = ground arith in
      let empty = v.stopped r idle in
      let started : Pool = record p {
        running = true;
        threads = p.threads ++ replicate n waiting;
      } in
      let valid : IsValid started = record {
        in_order = v.in_order;
        conserved = λ t. rw empty (
            omega (
              arith,
              subst
                  (λ l.
                    count t p.started
                    ≡ count t p.finished + count t p.thrown + total (is_busy_with t) l)
                  empty (v.conserved t),
              total-replicate (is_busy_with t) n waiting refl,
            ));
        drained = λ h. absurd (
            omega (
              arith,
              subst (λ l. 0 < total has_exited (l ++ replicate n waiting)) empty h,
              total-replicate has_exited n waiting refl,
            ));
        stopped = λ f _. absurd (ground arith);
        started_once = λ _. idle;
        awake = λ f. absurd (ground arith);
      } in
      subst IsValid (ground arith) valid
]

total-wake_one :
    (f : Worker → ℕ) (i : ℕ) (ws : List Worker)
    → f asleep ≡ f waiting
    → total f (wake_one i ws) ≡ total f ws
unfolding wake_one total
total-wake_one f i [] h = refl
total-wake_one f zero (waiting ∷ ws) h = refl
total-wake_one f zero (asleep ∷ ws) h = omega (arith, h)
total-wake_one f zero (busy t ∷ ws) h = refl
total-wake_one f zero (crashed ∷ ws) h = refl
total-wake_one f zero (exited ∷ ws) h = refl
total-wake_one f (suc i) (w ∷ ws) h = omega (arith, total-wake_one f i ws h)

total-wake_all :
    (f : Worker → ℕ) (ws : List Worker) → f asleep ≡ f waiting → total f (wake_all ws) ≡ total f ws
unfolding wake_all total
total-wake_all f [] h = refl
total-wake_all f (waiting ∷ ws) h = omega (arith, total-wake_all f ws h)
total-wake_all f (asleep ∷ ws) h = omega (arith, h, total-wake_all f ws h)
total-wake_all f (busy t ∷ ws) h = omega (arith, total-wake_all f ws h)
total-wake_all f (crashed ∷ ws) h = omega (arith, total-wake_all f ws h)
total-wake_all f (exited ∷ ws) h = omega (arith, total-wake_all f ws h)

wake_all-awake : (ws : List Worker) → total is_asleep (wake_all ws) ≡ 0
unfolding wake_all total is_asleep
wake_all-awake [] = refl
wake_all-awake (waiting ∷ ws) = omega (arith, wake_all-awake ws)
wake_all-awake (asleep ∷ ws) = omega (arith, wake_all-awake ws)
wake_all-awake (busy t ∷ ws) = omega (arith, wake_all-awake ws)
wake_all-awake (crashed ∷ ws) = omega (arith, wake_all-awake ws)
wake_all-awake (exited ∷ ws) = omega (arith, wake_all-awake ws)

wake_one-awake :
    (i : ℕ) (ws : List Worker) → total is_asleep ws ≡ 0 → total is_asleep (wake_one i ws) ≡ 0
unfolding wake_one total is_asleep
wake_one-awake i [] h = refl
wake_one-awake zero (waiting ∷ ws) h = omega (arith, h)
wake_one-awake zero (asleep ∷ ws) h = absurd (omega (arith, h))
wake_one-awake zero (busy t ∷ ws) h = omega (arith, h)
wake_one-awake zero (crashed ∷ ws) h = omega (arith, h)
wake_one-awake zero (exited ∷ ws) h = omega (arith, h)
wake_one-awake (suc i) (w ∷ ws) h = omega (arith, wake_one-awake i ws (omega (arith, h)))

woken-IsValid :
    (p : Pool) (i : ℕ) → IsValid p → IsValid (record p { threads = wake_one i p.threads })
unfolding is_busy_with has_exited
woken-IsValid p i v = record {
  in_order = v.in_order;
  conserved = λ t. omega (arith, v.conserved t, total-wake_one (is_busy_with t) i p.threads refl);
  drained = λ h. v.drained (omega (arith, h, total-wake_one has_exited i p.threads refl));
  stopped = λ f j. ap (wake_one i) (v.stopped f j) ∙ wake_one-none i;
  started_once = v.started_once;
  awake = λ f. wake_one-awake i p.threads (v.awake f);
}
  where
    wake_one-none : (i : ℕ) → wake_one i [] ≡ []
    wake_one-none i = unfold wake_one in refl

run-IsValid : (p q : Pool) (task woken : ℕ) → IsValid p → run p task woken ≡ some q → IsValid q
unfolding run
run-IsValid p q task woken v e =
    let on : p.running ≡ true = ground arith in
    let w = woken-IsValid p woken v in
    let valid : IsValid record p {
      queue = p.queue ++ task ∷ [];
      accepted = p.accepted ++ task ∷ [];
      threads = wake_one woken p.threads;
    } =
      record {
        in_order = ap (λ l. l ++ task ∷ []) v.in_order ∙ append_assoc p.started p.queue (task ∷ []);
        conserved = w.conserved;
        drained = λ h. ground (arith, w.drained h);
        stopped = λ f. ground arith;
        started_once = w.started_once;
        awake = w.awake;
      } in
    subst IsValid (ground arith) valid

stop-IsValid : (p : Pool) → IsValid p → IsValid (stop p)
unfolding stop is_busy_with has_exited
stop-IsValid p v = elim (Bool-cases p.running) [
  | inl r ↦ rw r record {
    in_order = v.in_order;
    conserved = λ t. omega (arith, v.conserved t, total-wake_all (is_busy_with t) p.threads refl);
    drained =
        λ h. (refl, (v.drained (omega (arith, h, total-wake_all has_exited p.threads refl))).1);
    stopped = λ _ j. absurd (ground arith);
    started_once = λ f. absurd (ground arith);
    awake = λ f. wake_all-awake p.threads;
  }
  | inr r ↦ let same : stop p ≡ p = ground arith in subst IsValid (sym same) v
]

pub all_exited-idle :
    (t : ℕ) (ws : List Worker) → all_exited ws ≡ true → total (is_busy_with t) ws ≡ 0
unfolding all_exited total is_busy_with
all_exited-idle t [] h = refl
all_exited-idle t (waiting ∷ ws) h = absurd (ground arith)
all_exited-idle t (asleep ∷ ws) h = absurd (ground arith)
all_exited-idle t (crashed ∷ ws) h = omega (arith, all_exited-idle t ws h)
all_exited-idle t (busy u ∷ ws) h = absurd (ground arith)
all_exited-idle t (exited ∷ ws) h = omega (arith, all_exited-idle t ws h)

join-IsValid : (p q : Pool) → IsValid p → join p ≡ some q → IsValid q
unfolding join total is_asleep
join-IsValid p q v e =
    let gone : all_exited p.threads ≡ true = ground arith in
    let valid : IsValid record p { threads = []; joining = false } = record {
      in_order = v.in_order;
      conserved = λ t. omega (arith, v.conserved t, all_exited-idle t p.threads gone);
      drained = λ h. absurd (omega arith);
      stopped = λ _ _. refl;
      started_once = λ _. refl;
      awake = λ _. refl;
    } in
    subst IsValid (ground arith) valid

pub turn-sleeps : (b : Bool) (l : List ℕ) → turn b l ≡ sleeps → b ≡ true
unfolding turn
turn-sleeps b [] h = ground arith
turn-sleeps b (t ∷ l) h = absurd (ground arith)

turn-leaves : (b : Bool) (l : List ℕ) → turn b l ≡ leaves → (b ≡ false) × (l ≡ [])
unfolding turn
turn-leaves b [] h = (ground arith, refl)
turn-leaves b (t ∷ l) h = absurd (ground arith)

pub turn-takes : (b : Bool) (l : List ℕ) (t : ℕ) (r : List ℕ) → turn b l ≡ takes t r → l ≡ t ∷ r
unfolding turn
turn-takes b [] t r h = absurd (ground arith)
turn-takes b (u ∷ l) t r h = ground arith

-- No thread has left while there is something to take.
not_drained :
    {p : Pool} {t : ℕ} {r : List ℕ} → IsValid p → p.queue ≡ t ∷ r → total has_exited p.threads ≡ 0
not_drained {p} v h = elim (Bool-cases (total has_exited p.threads == 0)) [
  | inl z ↦ ground arith
  | inr nz ↦
      let some_left : 0 < total has_exited p.threads = ground arith in
      absurd (ground (arith, v.drained some_left))
]

take_turn-IsValid :
    (p q : Pool) (i : ℕ) (t : Turn)
    → IsValid p
    → get_elem? p.threads i ≡ some waiting
    → turn p.running p.queue ≡ t
    → take_turn p i t ≡ some q
    → IsValid q
unfolding take_turn is_busy_with has_exited is_asleep
take_turn-IsValid p q i sleeps v h k e =
    let on = turn-sleeps p.running p.queue k in
    let valid : IsValid record p { threads = set p.threads i asleep } = record {
      in_order = v.in_order;
      conserved = λ t.
          omega (arith, v.conserved t, total-set (is_busy_with t) p.threads i waiting asleep h);
      drained =
          λ l. v.drained (omega (arith, l, total-set has_exited p.threads i waiting asleep h));
      stopped = λ f j. absurd (no_thread p.threads i h (v.stopped f j));
      started_once = v.started_once;
      awake = λ f. absurd (ground (arith, on));
    } in
    subst IsValid (ground arith) valid
take_turn-IsValid p q i leaves v h k e =
    let over = turn-leaves p.running p.queue k in
    let valid : IsValid record p { threads = set p.threads i exited } = record {
      in_order = v.in_order;
      conserved = λ t.
          omega (arith, v.conserved t, total-set (is_busy_with t) p.threads i waiting exited h);
      drained = λ _. over;
      stopped = λ f j. absurd (no_thread p.threads i h (v.stopped f j));
      started_once = v.started_once;
      awake = λ f. omega (arith, v.awake f, total-set is_asleep p.threads i waiting exited h);
    } in
    subst IsValid (ground arith) valid
take_turn-IsValid p q i (takes task rest) v h k e =
    let more = turn-takes p.running p.queue task rest k in
    let valid : IsValid record p {
      queue = rest;
      threads = set p.threads i (busy task);
      started = p.started ++ task ∷ [];
    } =
      record {
        in_order =
            v.in_order
            ∙ ap (λ l. p.started ++ l) more
            ∙ sym (append_assoc p.started (task ∷ []) rest);
        conserved = λ t. omega (
          arith,
          v.conserved t,
          count-append t p.started (task ∷ []),
          count-one t task,
          total-set (is_busy_with t) p.threads i waiting (busy task) h,
        );
        drained = λ l. absurd (
            omega (
              arith,
              l,
              not_drained v more,
              total-set has_exited p.threads i waiting (busy task) h,
            ));
        stopped = λ f j. absurd (no_thread p.threads i h (v.stopped f j));
        started_once = v.started_once;
        awake =
            λ f. omega (arith, v.awake f, total-set is_asleep p.threads i waiting (busy task) h);
      } in
    subst IsValid (ground arith) valid

run_in_thread-IsValid :
    (p q : Pool) (i : ℕ) (w : Worker)
    → IsValid p
    → get_elem? p.threads i ≡ some w
    → run_in_thread p i w ≡ some q
    → IsValid q
unfolding run_in_thread is_busy_with has_exited is_asleep
run_in_thread-IsValid p q i waiting v h e =
    take_turn-IsValid p q i (turn p.running p.queue) v h refl e
run_in_thread-IsValid p q i (busy task) v h e =
    let valid : IsValid
        record p { threads = set p.threads i waiting; finished = p.finished ++ task ∷ [] } =
      record {
        in_order = v.in_order;
        conserved = λ t. omega (
          arith,
          v.conserved t,
          count-append t p.finished (task ∷ []),
          count-one t task,
          total-set (is_busy_with t) p.threads i (busy task) waiting h,
        );
        drained = λ l.
            v.drained (omega (arith, l, total-set has_exited p.threads i (busy task) waiting h));
        stopped = λ f j. absurd (no_thread p.threads i h (v.stopped f j));
        started_once = v.started_once;
        awake =
            λ f. omega (arith, v.awake f, total-set is_asleep p.threads i (busy task) waiting h);
      } in
    subst IsValid (ground arith) valid
run_in_thread-IsValid p q i asleep v h e = absurd (ground arith)
run_in_thread-IsValid p q i crashed v h e = absurd (ground arith)
run_in_thread-IsValid p q i exited v h e = absurd (ground arith)

crash-IsValid :
    (p q : Pool) (i : ℕ) (w : Worker)
    → IsValid p
    → get_elem? p.threads i ≡ some w
    → crash p i w ≡ some q
    → IsValid q
unfolding crash is_busy_with has_exited is_asleep
crash-IsValid p q i waiting v h e = absurd (ground arith)
crash-IsValid p q i asleep v h e = absurd (ground arith)
crash-IsValid p q i (busy task) v h e =
    let valid : IsValid
        record p { threads = set p.threads i crashed; thrown = p.thrown ++ task ∷ [] } =
      record {
        in_order = v.in_order;
        conserved = λ t. omega (
          arith,
          v.conserved t,
          count-append t p.thrown (task ∷ []),
          count-one t task,
          total-set (is_busy_with t) p.threads i (busy task) crashed h,
        );
        drained = λ l.
            v.drained (omega (arith, l, total-set has_exited p.threads i (busy task) crashed h));
        stopped = λ f j. absurd (no_thread p.threads i h (v.stopped f j));
        started_once = v.started_once;
        awake =
            λ f. omega (arith, v.awake f, total-set is_asleep p.threads i (busy task) crashed h);
      } in
    subst IsValid (ground arith) valid
crash-IsValid p q i crashed v h e = absurd (ground arith)
crash-IsValid p q i exited v h e = absurd (ground arith)

-- Every call and every step of a thread keeps the order of the tasks, their number, and the rule
-- that a thread leaves only after `stop` and with the queue empty.
pub step-IsValid : (p q : Pool) (e : Event) → IsValid p → step p e ≡ some q → IsValid q
unfolding step
step-IsValid p q (starts n) v h = start-IsValid p q n v h
step-IsValid p q (runs task woken) v h = run-IsValid p q task woken v h
step-IsValid p q (wakes i) v h = subst IsValid (ground arith) (woken-IsValid p i v)
step-IsValid p q (steps i) v h = elim (Option-cases (get_elem? p.threads i)) [
  | inl out ↦ absurd (ground (arith, out))
  | inr (w, at) ↦ run_in_thread-IsValid p q i w v at (ground (arith, at))
]
step-IsValid p q (crashes i) v h = elim (Option-cases (get_elem? p.threads i)) [
  | inl out ↦ absurd (ground (arith, out))
  | inr (w, at) ↦ crash-IsValid p q i w v at (ground (arith, at))
]
step-IsValid p q stops v h = subst IsValid (ground arith) (stop-IsValid p v)
step-IsValid p q joins v h = join-IsValid p q v h

pub execute-IsValid : (p q : Pool) (es : List Event) → IsValid p → execute p es ≡ some q → IsValid q
unfolding execute
execute-IsValid p q [] v h = subst IsValid (ground arith) v
execute-IsValid p q (e ∷ es) v h = elim (Option-cases (step p e)) [
  | inl none_there ↦ absurd (ground (arith, none_there))
  | inr (r, ok) ↦ execute-IsValid r q es (step-IsValid p r e v ok) (ground (arith, ok))
]
