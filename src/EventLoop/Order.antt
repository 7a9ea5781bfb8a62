-- ===== src/EventLoop/Order.antt =====
-- EventLoop.antt: functors run in the order in which they were queued.
use moban.Prelude.{
  ℕ, ◌≡◌, refl, ap, ◌∙◌, Option-cases, some, inl, inr, List, [], ◌∷◌, ◌++◌, arith, subst,
  append_assoc, append-nil, sym,
}
use moban.EventLoop.{
  Phase, handling, running, EventLoop, create, enter_loop, queue_in_loop, queue_from_outside,
  quit_from_outside, wakeup, swap_functors, end_functors, Event, swaps, runs, queues, queues_early,
  queues_other, step_in, step, execute,
}
use moban.EventLoop.Wakeups.{left}

-- What was queued has been run, or is still to be run, in its order.
pub record IsOrdered (l : EventLoop) : Type 0 where
  pub ordered : l.queued ≡ l.executed ++ (left l.phase ++ l.pending_functors)

snoc : (q e a p x : List ℕ) → q ≡ e ++ (a ++ p) → q ++ x ≡ e ++ (a ++ (p ++ x))
snoc q e a p x h =
    ap (λ l. l ++ x) h ∙ append_assoc e (a ++ p) x ∙ ap (λ l. e ++ l) (append_assoc a p x)

step_in-IsOrdered :
    (p : Phase) (l m : EventLoop) (e : Event)
    → l.phase ≡ p
    → l.queued ≡ l.executed ++ (left p ++ l.pending_functors)
    → step_in p l e ≡ some m
    → m.queued ≡ m.executed ++ (left m.phase ++ m.pending_functors)
unfolding step_in enter_loop queue_in_loop queue_from_outside quit_from_outside wakeup swap_functors
    end_functors
step_in-IsOrdered p l m (queues cb) at v h =
    ground (arith, snoc l.queued l.executed (left p) l.pending_functors (cb ∷ []) v)
step_in-IsOrdered p l m (queues_early cb) at v h =
    ground (arith, snoc l.queued l.executed (left p) l.pending_functors (cb ∷ []) v)
step_in-IsOrdered p l m (queues_other cb) at v h =
    ground (arith, snoc l.queued l.executed (left p) l.pending_functors (cb ∷ []) v)
step_in-IsOrdered handling l m swaps at v h = ground (arith, append-nil l.pending_functors)
step_in-IsOrdered (running (f ∷ fs)) l m runs at v h =
    ground (arith, append_assoc l.executed (f ∷ []) (fs ++ l.pending_functors))
step_in-IsOrdered p l m e at v h = ground arith

pub create-IsOrdered : IsOrdered create
unfolding create
create-IsOrdered = record { ordered = refl }

-- The functors that the events queue, in their order.
abbrev pub asked : Event → List ℕ
asked (queues cb) = cb ∷ []
asked (queues_early cb) = cb ∷ []
asked (queues_other cb) = cb ∷ []
asked e = []

abbrev pub requested : List Event → List ℕ
requested [] = []
requested (e ∷ es) = asked e ++ requested es

step_in-queued :
    (p : Phase) (l m : EventLoop) (e : Event)
    → step_in p l e ≡ some m
    → m.queued ≡ l.queued ++ asked e
unfolding step_in enter_loop queue_in_loop queue_from_outside quit_from_outside wakeup swap_functors
    end_functors
step_in-queued p l m (queues cb) h = ground arith
step_in-queued p l m (queues_early cb) h = ground arith
step_in-queued p l m (queues_other cb) h = ground arith
step_in-queued p l m e h = ground (arith, append-nil l.queued)

execute-queued :
    (l m : EventLoop) (es : List Event)
    → execute l es ≡ some m
    → m.queued ≡ l.queued ++ requested es
unfolding execute step
execute-queued l m [] h = ground (arith, append-nil l.queued)
execute-queued l m (e ∷ es) h = elim (Option-cases (step_in l.phase l e)) [
  | inl bad ↦ absurd (ground (arith, bad))
  | inr (n, good) ↦
      execute-queued n m es (ground (arith, good))
      ∙ ap (λ q. q ++ requested es) (step_in-queued l.phase l n e good)
      ∙ append_assoc l.queued (asked e) (requested es)
]

keep-IsOrdered :
    (l m : EventLoop) (es : List Event) → IsOrdered l → execute l es ≡ some m → IsOrdered m
unfolding execute step
keep-IsOrdered l m [] v h = subst IsOrdered (ground arith) v
keep-IsOrdered l m (e ∷ es) v h = elim (Option-cases (step_in l.phase l e)) [
  | inl bad ↦ absurd (ground (arith, bad))
  | inr (n, good) ↦
      keep-IsOrdered n m es record { ordered = step_in-IsOrdered l.phase l n e refl v.ordered good }
        (ground (arith, good))
]

-- In every interleaving of the loop with other threads, the functors that the handlers, the functors and
-- the other threads queue are, in their order, those that have run and then those still to be run: none
-- is lost or run twice.
pub execute-IsOrdered :
    (m : EventLoop) (es : List Event)
    → execute create es ≡ some m
    → requested es ≡ m.executed ++ (left m.phase ++ m.pending_functors)
unfolding create
execute-IsOrdered m es h =
    sym (execute-queued create m es h) ∙ (keep-IsOrdered create m es create-IsOrdered h).ordered
