-- ===== src/Acceptor/Laws.antt =====
-- No descriptor of an acceptor is lost or closed twice.
use moban.Acceptor.{
  Answer, accepted, refused, is_expected, Acceptor, set_new_connection_callback, listen,
  handle_read,
}
use moban.Channel
use moban.Channel.Watching.{Kept}
use moban.Prelude.{ℕ, ◌+◌, ◌≡◌, true, Option, none, some, List, [], ◌∷◌, ◌==◌, if◌then◌else◌, ◌>>=◌}

-- How often a descriptor stands in a list.
unfoldable pub count : ℕ → List ℕ → ℕ
count x [] = 0
count x (y ∷ ys) = (if x == y then 1 else 0) + count x ys

abbrev pub held : ℕ → Option ℕ → ℕ
held x none = 0
held x (some y) = if x == y then 1 else 0

-- Each descriptor was opened as often as it was closed, given away, and is held.
abbrev pub Balanced : Acceptor → Type 0
Balanced a =
    (x : ℕ)
    → count x a.opened
      ≡ count x a.closed + count x a.handed + held x a.idlefd + held x a.accept_socket

-- What happens to an acceptor.
pub data Event : Type 0 where
  sets_callback : Event
  listens : Event
  reads : Answer → (taken reopened : Option ℕ) → Event

unfoldable pub step : Acceptor → Event → Option Acceptor
unfolding set_new_connection_callback listen handle_read
step a sets_callback = some (set_new_connection_callback a)
step a listens = listen a
step a (reads first taken reopened) = handle_read a first taken reopened

unfoldable pub execute : Acceptor → List Event → Option Acceptor
unfolding step
execute a [] = some a
execute a (e ∷ es) = do b ← step a e; execute b es

-- `accept` expects the answers.
abbrev pub Expected : Event → Type 0
Expected sets_callback = Unit
Expected listens = Unit
Expected (reads (accepted fd) taken reopened) = Unit
Expected (reads (refused e) taken reopened) = is_expected e ≡ true

abbrev pub AllExpected : List Event → Type 0
AllExpected [] = Unit
AllExpected (e ∷ es) = Expected e × AllExpected es

abbrev pub IsValid : Acceptor → Type 0
IsValid a = Balanced a × Kept a.accept_channel

abbrev Goes : Option Acceptor → Type 0
Goes r = (b : Acceptor) × (r ≡ some b) × IsValid b

-- The acceptor has been destroyed, and holds nothing.
abbrev pub Destroyed : Option Acceptor → Type 0
Destroyed r =
    (c : Acceptor) × (r ≡ some c)
    × ((x : ℕ) → count x c.opened ≡ count x c.closed + count x c.handed)
