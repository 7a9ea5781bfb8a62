-- ===== src/Connection/Life/Laws.antt =====
-- The life of a connection keeps to the protocol, and no assertion fails but one.
use moban.Connection.Life.Polled.{Plain, either-step}
use moban.Connection.Life.Invariant.{Lives, Stays}
use moban.Connection.{disconnecting, Connection, create, connect_established, is_open}
use moban.Connection.Life.{Event, destroys, execute, live}
use moban.Connection.Life.Channels.{created-reading}
use moban.Connection.Life.Protocol.{follow, heard}
use moban.Prelude.{◌≡◌, ◌⊎◌, refl, ap, false, inl, inr, none, some, List, [], ◌∷◌, ◌++◌}

established-Stays : Stays (connect_established create)
unfolding connect_established create is_open heard follow
established-Stays = rw created-reading (_, refl, inl (refl, (false, refl), refl))

-- No event is a hang-up with urgent data.
abbrev pub AllPlain : List Event → Type 0
AllPlain [] = Unit
AllPlain (e ∷ es) = Plain e × AllPlain es

-- Events before one that destroys a connection that is disconnecting.
abbrev Early : Connection → List Event → Type 0
Early c es =
    (before : List Event) × (after : List Event) × (d : Connection) × (es
      ≡ before ++ destroys ∷ after)
    × (execute c before ≡ some d)
    × (d.state ≡ disconnecting)

execute-Stays :
    (c : Connection) (es : List Event)
    → Lives c
    → AllPlain es
    → Stays (execute c es) ⊎ ((execute c es ≡ none) × Early c es)
unfolding execute
execute-Stays c [] l q = inl (c, refl, l)
execute-Stays c (e ∷ es) l (p, q) = elim (either-step c e l p) [
  | inr (is, s, n) ↦ inr (rw n refl, ([], es, c, ap (λ x. x ∷ es) is, refl, s))
  | inl (d, st, ld) ↦ elim (execute-Stays d es ld q) [
    | inl r ↦ inl (rw st r)
    | inr (n, (before, after, x, eq, ex, s)) ↦
        inr (rw st n, (e ∷ before, after, x, ap (λ t. e ∷ t) eq, rw st ex, s))
  ]
]

abbrev pub DestroyedEarly : List Event → Type 0
DestroyedEarly es =
    (before : List Event) × (after : List Event) × (d : Connection) × (es
      ≡ before ++ destroys ∷ after)
    × (live before ≡ some d)
    × (d.state ≡ disconnecting)

-- Whatever happens to a connection after `connectEstablished`, if no hang-up comes with urgent data
-- but without input, and `shutdown` and `forceClose` are called in the thread of the loop only: either no assertion fails, and the connection is open, watched for reading and
-- has told its user that it is up; or it has ended, is not watched, and has told its user that it is
-- up and later that it is down, each once, messages only in between, and its owner at most once, and
-- after that, to let it go. Or an assertion fails, and then because `connnectDestroyed` was called on
-- a connection that was disconnecting.
pub live-Lives :
    (es : List Event) → AllPlain es → Stays (live es) ⊎ ((live es ≡ none) × DestroyedEarly es)
unfolding live
live-Lives es q =
    let (c, e, l) = established-Stays in
    elim (execute-Stays c es l q) [
      | inl r ↦ inl (rw e r)
      | inr (n, (before, after, d, eq, ex, s)) ↦ inr (rw e n, (before, after, d, eq, rw e ex, s))
    ]
