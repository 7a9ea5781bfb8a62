-- ===== src/EventLoop/Turn/Handled.antt =====
-- A turn of the loop handles no channel that has been taken away.
use moban.EventLoop.Turn.Handler.{Removes, Leaves, operating}
use moban.EventLoop.Turn.{Poller, contains, fill_active_channel, poll, Operation, handle_all, turn}
use moban.Prelude.{
  ℕ, ◌==◌, ◌≤◌, ◌<◌, ◌≡◌, ◌⊎◌, refl, ap, sym, ◌∙◌, subst, Bool, true, false, Bool-cases, inl, inr,
  Option, none, some, List, [], ◌∷◌, ◌++◌, leb, ltb, length, arith, append_assoc, append-nil,
}

abbrev pub Distinct : List ℕ → Type 0
Distinct [] = Unit
Distinct (c ∷ cs) = (contains c cs ≡ false) × Distinct cs

-- All of the channels are in a list.
abbrev pub Within : List ℕ → List ℕ → Type 0
Within ds [] = Unit
Within ds (c ∷ cs) = (contains c ds ≡ true) × Within ds cs

abbrev pub found : List ℕ → List (ℕ × Bool)
found [] = []
found (c ∷ cs) = (c, true) ∷ found cs

-- The handler of an active channel takes another one away.
abbrev pub Disturbed : List ℕ → List ℕ → (ℕ → List Operation) → Type 0
Disturbed act cs handler =
    (c : ℕ) × (d : ℕ) × (contains c cs ≡ true)
    × Removes d (handler c)
    × (contains d act ≡ true)
    × ((d == c) ≡ false)

module _ (act : List ℕ) (handler : ℕ → List Operation) where
  -- The other channels are still there.
  left :
      (c : ℕ) (p q : Poller) (cs : List ℕ)
      → Leaves act c p q
      → contains c cs ≡ false
      → Within act cs
      → Within p.channels cs
      → Within q.channels cs
  unfolding contains
  left c p q [] l f i w = tt
  left c p q (d ∷ ds) l f (i, is) (w, ws) =
      (l.1 d i (ground arith) w, left c p q ds l (ground arith) is ws)

  abbrev Handles : Poller → Option Poller → List ℕ → Type 0
  Handles p r cs =
      ((q : Poller) × (r ≡ some q)
        × (q.handled ≡ p.handled ++ found cs)
        × (q.events_size ≡ p.events_size))
      ⊎ ((r ≡ none) × Disturbed act cs handler)

  handling :
      (p : Poller) (cs : List ℕ)
      → p.active_channels ≡ act
      → p.event_handling ≡ true
      → Distinct cs
      → Within act cs
      → Within p.channels cs
      → Handles p (handle_all p cs handler) cs
  unfolding handle_all contains
  handling p [] a h f i w = inl (p, refl, sym (append-nil p.handled), refl)
  handling p (c ∷ cs) a h (f, fs) (i, is) (w, ws) =
      let at : Poller = record p {
        current_active_channel = some c;
        handled = p.handled ++ (c, contains c p.channels) ∷ [];
      } in
      elim (operating act c at (handler c) (a, refl, h)) [
        | inr (n, (d, r, j, m)) ↦ inr (rw n refl, (c, d, ground arith, r, j, m))
        | inl (q, st, l) ↦ elim (handling q cs l.0.0 l.0.2 fs is (left c at q cs l f is ws)) [
          | inr (n, (b, d, k, r, j, m)) ↦ inr (rw st n, (b, d, ground arith, r, j, m))
          | inl (q', st', e, s) ↦ inl (
            q',
            rw st st',
            e
                ∙ ap (λ t. t ++ found cs) (l.2 ∙ ap (λ b. p.handled ++ (c, b) ∷ []) w)
                ∙ append_assoc p.handled ((c, true) ∷ []) (found cs),
            s ∙ l.3,
          )
        ]
      ]

Within-cons : (d : ℕ) (ds cs : List ℕ) → Within ds cs → Within (d ∷ ds) cs
unfolding contains
Within-cons d ds [] w = tt
Within-cons d ds (c ∷ cs) (w, ws) = (ground arith, Within-cons d ds cs ws)

Within-self : (cs : List ℕ) → Within cs cs
unfolding contains
Within-self [] = tt
Within-self (c ∷ cs) = (ground arith, Within-cons c cs cs (Within-self cs))

-- A poll reports the channels, and has room for one more afterwards.
poll-ready :
    (p : Poller) (ready : List ℕ)
    → 0 < p.events_size
    → length ready ≤ p.events_size
    → (q : Poller) × (poll (record p { active_channels = [] }) (some ready) ≡ some q)
      × (q.active_channels ≡ ready)
      × (q.channels ≡ p.channels)
      × (q.handled ≡ p.handled)
      × (length ready < q.events_size)
unfolding poll fill_active_channel
poll-ready p [] z f = (_, refl, refl, refl, refl, z)
poll-ready p (c ∷ cs) z f =
    let fits : leb (length (c ∷ cs)) p.events_size ≡ true = ground arith in
    let some_ready : ltb 0 (length (c ∷ cs)) ≡ true = ground arith in
    elim (Bool-cases (length (c ∷ cs) == p.events_size)) [
      | inl t ↦ rw (some_ready, fits, t) (_, refl, refl, refl, refl, ground arith)
      | inr t ↦ rw (some_ready, fits, t) (_, refl, refl, refl, refl, ground arith)
    ]

-- A turn in which epoll reports distinct channels of the poller, no more than there is room for:
-- either every one of them is handled, once, in order and while the poller has it, and the next poll
-- has room for more than this one reported; or the assertion of `removeChannel` fails, and then
-- because the handler of one of them takes another one of them away.
pub turn-Handled :
    (p : Poller) (ready : List ℕ) (handler : ℕ → List Operation)
    → 0 < p.events_size
    → length ready ≤ p.events_size
    → Distinct ready
    → Within p.channels ready
    → ((q : Poller) × (turn p (some ready) handler ≡ some q)
        × (q.handled ≡ p.handled ++ found ready)
        × (length ready < q.events_size))
      ⊎ ((turn p (some ready) handler ≡ none) × Disturbed ready ready handler)
unfolding turn
turn-Handled p ready handler z f ds w =
    let (q, e, a, k, h, r) = poll-ready p ready z f in
    let start : Poller = record q { event_handling = true } in
    elim (handling ready handler start ready a refl ds (Within-self ready)
      (subst (λ cs. Within cs ready) (sym k) w)) [
        | inl (l, st, hs, es) ↦
            let all : handle_all start q.active_channels handler ≡ some l =
              ap (λ cs. handle_all start cs handler) a ∙ st in
            inl (
              record l { current_active_channel = none; event_handling = false },
              rw (e, all) refl,
              hs ∙ ap (λ t. t ++ found ready) h,
              omega (arith, es, r),
            )
        | inr (n, d) ↦
            let all : handle_all start q.active_channels handler ≡ none =
              ap (λ cs. handle_all start cs handler) a ∙ n in
            inr (rw (e, all) refl, d)
      ]
