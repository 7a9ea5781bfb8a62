-- ===== src/EventLoop/Turn/Handler.antt =====
-- One handler in a turn of the loop: the other channels of the turn are still there behind it.
use moban.EventLoop.Turn.{
  Poller, contains, without, update_channel, remove_channel, Operation, updates, removes, operate,
  is_current,
}
use moban.Prelude.{
  ℕ, ◌==◌, ◌≡◌, ◌⊎◌, refl, ap, ◌∙◌, true, false, Bool-cases, ==_iff, inl, inr, Option, none, some,
  List, [], ◌∷◌, arith,
}

-- A handler takes a channel away.
abbrev pub Removes : ℕ → List Operation → Type 0
Removes d [] = ⊥
Removes d (updates e ∷ os) = Removes d os
Removes d (removes e ∷ os) = (d ≡ e) ⊎ Removes d os

contains-without :
    (e d : ℕ) (cs : List ℕ)
    → (d == e) ≡ false
    → contains d cs ≡ true
    → contains d (without e cs) ≡ true
unfolding contains without
contains-without e d [] n h = h
contains-without e d (c ∷ cs) n h = ground (arith, contains-without e d cs n)

contains-update :
    (p : Poller) (e d : ℕ)
    → contains d p.channels ≡ true
    → contains d (update_channel p e).channels ≡ true
unfolding contains update_channel
contains-update p e d h = ground arith

module _ (act : List ℕ) (c : ℕ) where
  -- The handler of `c` runs in a turn of the channels `act`.
  abbrev pub Running : Poller → Type 0
  Running p =
      (p.active_channels ≡ act) × (p.current_active_channel ≡ some c) × (p.event_handling ≡ true)

  abbrev pub Leaves : Poller → Poller → Type 0
  Leaves p q =
      Running q
      × ((d : ℕ)
          → contains d act ≡ true
          → (d == c) ≡ false
          → contains d p.channels ≡ true
          → contains d q.channels ≡ true)
      × (q.handled ≡ p.handled)
      × (q.events_size ≡ p.events_size)

  -- The handler takes another active channel away.
  abbrev pub Disturbs : List Operation → Type 0
  Disturbs os = (d : ℕ) × Removes d os × (contains d act ≡ true) × ((d == c) ≡ false)

  abbrev pub Works : Poller → Option Poller → List Operation → Type 0
  Works p r os = ((q : Poller) × (r ≡ some q) × Leaves p q) ⊎ ((r ≡ none) × Disturbs os)

  removing : (p : Poller) (e : ℕ) → Running p → Works p (remove_channel p e) (removes e ∷ [])
  unfolding remove_channel
  removing p e (a, k, h) =
      let kept : is_current p.current_active_channel e ≡ (c == e) = ap (λ o. is_current o e) k in
      elim (Bool-cases (c == e)) [
        | inl t ↦ inl (
          record p { channels = without e p.channels },
          ground (arith, kept, h),
          ((a, k, h), λ d i n m. contains-without e d p.channels (ground arith) m, refl, refl),
        )
        | inr t ↦ elim (Bool-cases (contains e act)) [
          | inl i ↦ inr (ground (arith, kept, h, ap (contains e) a), (e, inl refl, i, ground arith))
          | inr i ↦ inl (
            record p { channels = without e p.channels },
            ground (arith, kept, h, ap (contains e) a),
            ((a, k, h), λ d j n m. contains-without e d p.channels (differ d e j i) m, refl, refl),
          )
        ]
      ]
    where
      differ : (d e : ℕ) → contains d act ≡ true → contains e act ≡ false → (d == e) ≡ false
      differ d e j i = elim (Bool-cases (d == e)) [
        | inr n ↦ n
        | inl t ↦ absurd (ground (arith, ap (λ x. contains x act) ((==_iff d e).0 t)))
      ]

  updating : (p : Poller) (e : ℕ) → Running p → Leaves p (update_channel p e)
  unfolding update_channel
  updating p e (a, k, h) =
      let more = contains-update p e in
      elim (Bool-cases (contains e p.channels)) [
        | inl t ↦ rw t ((a, k, h), λ d i n m. m, refl, refl)
        | inr t ↦ rw t ((a, k, h), λ d i n m. rw t at (more d m), refl, refl)
      ]

  behind : (p q r : Poller) → Leaves p q → Leaves q r → Leaves p r
  behind p q r (u, m, h, s) (u', m', h', s') = (u', λ d i n k. m' d i n (m d i n k), h' ∙ h, s' ∙ s)

  pub operating : (p : Poller) (os : List Operation) → Running p → Works p (operate p os) os
  unfolding operate
  operating p [] u = inl (p, refl, (u, λ d i n m. m, refl, refl))
  operating p (updates e ∷ os) u =
      let first = updating p e u in
      elim (operating (update_channel p e) os first.0) [
        | inl (q, st, l) ↦ inl (q, st, behind p (update_channel p e) q first l)
        | inr (n, d) ↦ inr (n, d)
      ]
  operating p (removes e ∷ os) u = elim (removing p e u) [
    | inr (n, (d, inl r, i, m)) ↦ inr (rw n refl, (d, inl r, i, m))
    | inr (n, (d, inr r, i, m)) ↦ absurd r
    | inl (q, st, l) ↦ elim (operating q os l.0) [
      | inl (q', st', l') ↦ inl (q', rw st st', behind p q q' l l')
      | inr (n, (d, r, i, m)) ↦ inr (rw st n, (d, inr r, i, m))
    ]
  ]
