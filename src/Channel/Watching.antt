-- ===== src/Channel/Watching.antt =====
-- The kernel's entry for a channel is the one that the channel asks for.
use moban.Channel.{
  Events, Index, fresh, added, deleted, Channel, none_event, is_none_event, control, update,
  enable_reading, enable_writing, disable_writing, disable_all, remove, is_writing,
}
use moban.Prelude.{◌≡◌, refl, Bool, true, false, Option, none, some, ap, ◌≢◌}

-- The index says what `channels_` and the epoll set hold.
pub data Kept : Channel → Type 0 where
  at_fresh :
      (e : Events) → Kept (record { events = e; index = fresh; listed = false; watched = none })
  at_added :
      (e : Events) → Kept (record { events = e; index = added; listed = true; watched = some e })
  at_deleted :
      (e : Events) → Kept (record { events = e; index = deleted; listed = true; watched = none })

-- What the operations that change the mask may be.
pub data Change : Type 0 where
  start_reading : Change
  start_writing : Change
  stop_writing : Change
  stop_all : Change
  take_away : Change

unfoldable pub change : Change → Channel → Option Channel
unfolding enable_reading enable_writing disable_writing disable_all remove
change start_reading = enable_reading
change start_writing = enable_writing
change stop_writing = disable_writing
change stop_all = disable_all
change take_away = remove

-- The mask that the change leaves.
unfoldable pub wanted : Change → Events → Events
unfolding none_event
wanted start_reading e = record e { reading = true }
wanted start_writing e = record e { writing = true }
wanted stop_writing e = record e { writing = false }
wanted stop_all e = none_event
wanted take_away e = e

-- A channel of a mask, before the poller is told of it.
abbrev channel : Events → Index → Bool → Option Events → Channel
channel e i l w = record { events = e; index = i; listed = l; watched = w }

-- The run of an operation: it succeeds, keeps the channel and leaves the mask.
abbrev pub Runs : Option Channel → Events → Type 0
Runs r e = (c' : Channel) × (r ≡ some c') × Kept c' × (c'.events ≡ e)

update-fresh : (e : Events) → Runs (update (channel e fresh false none)) e
unfolding update control
update-fresh e = (channel e added true (some e), refl, at_added e, refl)

update-deleted : (e : Events) → Runs (update (channel e deleted true none)) e
unfolding update control
update-deleted e = (channel e added true (some e), refl, at_added e, refl)

abbrev mask : Bool → Bool → Events
mask r w = record { reading = r; writing = w }

update-added :
    (r w : Bool) (old : Events)
    → Runs (update (channel (mask r w) added true (some old))) (mask r w)
unfolding update control is_none_event
update-added true w old =
    (channel (mask true w) added true (some (mask true w)), refl, at_added _, refl)
update-added false true old =
    (channel (mask false true) added true (some (mask false true)), refl, at_added _, refl)
update-added false false old =
    (channel (mask false false) deleted true none, refl, at_deleted _, refl)

remove-Kept : (c : Channel) → Kept c → is_none_event c ≡ true → Runs (remove c) c.events
unfolding remove control
remove-Kept c (at_fresh e) h = rw h (channel e fresh false none, refl, at_fresh e, refl)
remove-Kept c (at_added e) h = rw h (channel e fresh false none, refl, at_fresh e, refl)
remove-Kept c (at_deleted e) h = rw h (channel e fresh false none, refl, at_fresh e, refl)

pub change-Kept :
    (x : Change) (c : Channel)
    → Kept c
    → (x ≡ take_away → is_none_event c ≡ true)
    → Runs (change x c) (wanted x c.events)
unfolding change wanted enable_reading enable_writing disable_writing disable_all none_event
change-Kept start_reading c (at_fresh e) h = update-fresh (record e { reading = true })
change-Kept start_reading c (at_added e) h = update-added true e.writing e
change-Kept start_reading c (at_deleted e) h = update-deleted (record e { reading = true })
change-Kept start_writing c (at_fresh e) h = update-fresh (record e { writing = true })
change-Kept start_writing c (at_added e) h = update-added e.reading true e
change-Kept start_writing c (at_deleted e) h = update-deleted (record e { writing = true })
change-Kept stop_writing c (at_fresh e) h = update-fresh (record e { writing = false })
change-Kept stop_writing c (at_added e) h = update-added e.reading false e
change-Kept stop_writing c (at_deleted e) h = update-deleted (record e { writing = false })
change-Kept stop_all c (at_fresh e) h = update-fresh none_event
change-Kept stop_all c (at_added e) h = update-added false false e
change-Kept stop_all c (at_deleted e) h = update-deleted none_event
change-Kept take_away c k h = remove-Kept c k (h refl)

-- What a connection does with its channel: it waits to write, and stops to.
pub enable_writing-Kept :
    (c : Channel)
    → Kept c
    → (c' : Channel) × (enable_writing c ≡ some c') × Kept c' × (is_writing c' ≡ true)
unfolding is_writing change wanted
enable_writing-Kept c k =
    let (c', e, k', w) = change-Kept start_writing c k (λ h. absurd (other h)) in
    (c', e, k', ap (λ m. m.writing) w)
  where
    other : start_writing ≢ take_away
    other h = cc

pub disable_writing-Kept :
    (c : Channel)
    → Kept c
    → (c' : Channel) × (disable_writing c ≡ some c') × Kept c' × (is_writing c' ≡ false)
unfolding is_writing change wanted
disable_writing-Kept c k =
    let (c', e, k', w) = change-Kept stop_writing c k (λ h. absurd (other h)) in
    (c', e, k', ap (λ m. m.writing) w)
  where
    other : stop_writing ≢ take_away
    other h = cc
