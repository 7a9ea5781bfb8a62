-- ===== src/Connection/Tests.antt =====
-- The theorems on connections, at a connection that sends over a kernel that takes two bytes.
use moban.Connection.{connected, would_block, Written, Connection, is_disconnected}
use moban.Connection.Transfer.{is_fault}
use moban.Connection.Stream.{Flows}
use moban.Connection.Histories.{
  Action, sending, writable, run, messages, Delivers, Smooth, run-Delivers,
}
use moban.Buffer.{new, readable_bytes, append}
use moban.Buffer.Layout.{Fits}
use moban.Buffer.Contents.{new-IsValid, new-Fits, append_lem}
use moban.Channel.{Events, added, is_writing}
use moban.Channel.Watching.{at_added}
use moban.Prelude.{◌≤◌, refl, true, false, some, List, [], ◌∷◌, codes, arith}

abbrev reading_only : Events
reading_only = record { reading = true; writing = false }

abbrev established : Connection
established = record {
  state = connected;
  input = new;
  output = new;
  high_water = 0;
  on_write_complete = false;
  on_high_water = false;
  pending = [];
  calls = [];
  wire = [];
  channel = record {
    events = reading_only;
    index = added;
    listed = true;
    watched = some reading_only;
  };
}

abbrev two_bytes : Written
two_bytes = record { count = 2; errno = would_block }

abbrev no_byte : Written
no_byte = record { count = 0; errno = would_block }

established-Flows : Flows established
unfolding new is_writing
established-Flows = record { valid = new-IsValid.0; kept = at_added reading_only; waits = refl }

five : Fits new 5
five = new-Fits 5 (omega arith)

abbrev hello : List Action
hello = sending (codes "hello") two_bytes ∷ writable no_byte ∷ []

hello-Smooth : Smooth established hello
unfolding is_fault
hello-Smooth = ((refl, five), λ c e. (omega arith, λ c' e'. tt))

run-Delivers_example : Delivers (run established hello) established (messages hello)
unfolding is_disconnected
run-Delivers_example = run-Delivers established hello established-Flows refl hello-Smooth

abbrev both : Events
both = record { reading = true; writing = true }

-- Five bytes wait.
abbrev waiting : Connection
waiting = record established {
  output = append new (codes "hello");
  channel = record { events = both; index = added; listed = true; watched = some both };
}

waiting-Flows : Flows waiting
unfolding new is_writing append
waiting-Flows = record {
  valid = (append_lem new (codes "hello") new-IsValid.0 five).0;
  kept = at_added both;
  waits = refl;
}

two_wait : 2 ≤ readable_bytes (append new (codes "hello"))
unfolding new append
two_wait = omega arith
