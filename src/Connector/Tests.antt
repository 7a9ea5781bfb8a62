-- ===== src/Connector/Tests.antt =====
-- Connector.antt on short runs, and the theorems there.
use moban.Prelude.{◌≡◌, refl, true, false, some, none, List, [], ◌∷◌}
use moban.Connector.{Connector, connected, create}
use moban.Connector.Laws.{
  Event, starts, writable, fires, resets_channel, execute, IsValid, create-IsValid,
  execute-Conserved,
}

-- Refused, retried after the delay, connected.
abbrev second_time : List Event
second_time = starts 5 111 ∷ fires 6 115 ∷ writable 0 false ∷ resets_channel ∷ []

abbrev at_last : Connector
at_last = record {
  connect = true;
  state = connected;
  retry_delay_ms = 1000;
  channel = none;
  watched = false;
  timers = 0;
  resets = 0;
  created = 6 ∷ 5 ∷ [];
  closed = 5 ∷ [];
  handed = 6 ∷ [];
}

reached : execute create second_time ≡ some at_last
unfolding execute create
reached = refl

execute-Conserved_example : IsValid at_last
execute-Conserved_example = execute-Conserved create at_last second_time create-IsValid reached
