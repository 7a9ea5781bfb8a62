-- ===== src/Connection/Life/Invariant.antt =====
-- What holds of a connection that is open, and of one that has ended.
use moban.Connection.{
  State, connecting, connected, disconnected, disconnecting, Connection, is_open, is_disconnected,
  is_connected,
}
use moban.Connection.Life.{Event, destroys, step}
use moban.Connection.Life.Channels.{Opened, Ended}
use moban.Connection.Life.Protocol.{silent, talking, gone, closed, heard}
use moban.Channel.{Channel}
use moban.Channel.{is_writing, create}
use moban.Prelude.{◌≡◌, ◌⊎◌, refl, ap, ◌∙◌, true, false, inl, inr, Option, none, some}

-- An open connection has said that it is up, and one that has ended that it is down.
abbrev pub Up : Connection → Type 0
Up c = (is_open c ≡ true) × Opened c.channel × (heard silent c.calls ≡ some talking)

abbrev pub Down : Connection → Type 0
Down c =
    (is_disconnected c ≡ true)
    × Ended c.channel
    × ((heard silent c.calls ≡ some gone) ⊎ (heard silent c.calls ≡ some closed))

abbrev pub Lives : Connection → Type 0
Lives c = Up c ⊎ Down c

abbrev pub Stays : Option Connection → Type 0
Stays r = (c : Connection) × (r ≡ some c) × Lives c

pub same-is_open : (c c' : Connection) → c'.state ≡ c.state → is_open c ≡ true → is_open c' ≡ true
unfolding is_open
same-is_open c c' e o = ap (λ s. is_open (record c { state = s })) e ∙ o

-- The tests of a connection in a state.
module _ (c : Connection) where
  pub not_connected :
      (s : State)
      → is_disconnected (record c { state = s }) ≡ true
      → (is_connected (record c { state = s }) ≡ false) × (is_open (record c { state = s }) ≡ false)
  unfolding is_disconnected is_connected is_open
  not_connected disconnected h = (refl, refl)
  not_connected connecting h = absurd (cc)
  not_connected connected h = absurd (cc)
  not_connected disconnecting h = absurd (cc)

  pub not_disconnecting :
      (s : State)
      → is_open (record c { state = s }) ≡ true
      → (is_connected (record c { state = s }) ≡ true)
        ⊎ ((is_connected (record c { state = s }) ≡ false) × (s ≡ disconnecting))
  unfolding is_connected is_open
  not_disconnecting disconnected h = absurd (cc)
  not_disconnecting connecting h = absurd (cc)
  not_disconnecting connected h = inl refl
  not_disconnecting disconnecting h = inr (refl, refl)

pub unwatched-Ended : (ch : Channel) → Ended ch → (ch.watched ≡ none) × (is_writing ch ≡ false)
unfolding create is_writing
unwatched-Ended ch (inl e) = (ap (λ x. x.watched) e, ap is_writing e)
unwatched-Ended ch (inr e) = (ap (λ x. x.watched) e, ap is_writing e)

-- The assertion of `Channel::remove` in `connectDestroyed` fails.
abbrev pub Fails : Connection → Event → Type 0
Fails c e = (e ≡ destroys) × (c.state ≡ disconnecting) × (step c e ≡ none)
