-- ===== src/Connection/Life/Channels.antt =====
-- The channel of a connection: watched for reading while it is open, and not at all afterwards.
use moban.Channel.{
  Events, Channel, added, deleted, create, enable_reading, enable_writing, disable_writing,
  disable_all, remove, is_writing,
}
use moban.Prelude.{◌≡◌, ◌⊎◌, inl, inr, refl, ap, ◌∙◌, Bool, true, false, none, some}

abbrev pub open_channel : Bool → Channel
open_channel w =
    let e : Events = record { reading = true; writing = w } in
    record { events = e; index = added; listed = true; watched = some e }

abbrev pub shut_channel : Channel
shut_channel = record {
  events = record { reading = false; writing = false };
  index = deleted;
  listed = true;
  watched = none;
}

abbrev pub Opened : Channel → Type 0
Opened ch = (w : Bool) × (ch ≡ open_channel w)

abbrev pub Ended : Channel → Type 0
Ended ch = (ch ≡ shut_channel) ⊎ (ch ≡ create)

pub created-reading : enable_reading create ≡ some (open_channel false)
unfolding enable_reading create
created-reading = refl

module _ (w : Bool) where
  pub open-writing : enable_writing (open_channel w) ≡ some (open_channel true)
  unfolding enable_writing
  open-writing = refl

  pub open-quiet : disable_writing (open_channel w) ≡ some (open_channel false)
  unfolding disable_writing
  open-quiet = refl

  pub open-shut : disable_all (open_channel w) ≡ some shut_channel
  unfolding disable_all
  open-shut = refl

  -- A channel that asks for something cannot be taken away.
  pub open-remove : remove (open_channel w) ≡ none
  unfolding remove
  open-remove = refl

  pub is_writing-open : is_writing (open_channel w) ≡ w
  unfolding is_writing
  is_writing-open = refl

shut-remove : remove shut_channel ≡ some create
unfolding remove create
shut-remove = refl

create-remove : remove create ≡ some create
unfolding remove create
create-remove = refl

pub remove-Ended : (ch : Channel) → Ended ch → remove ch ≡ some create
remove-Ended ch (inl e) = ap remove e ∙ shut-remove
remove-Ended ch (inr e) = ap remove e ∙ create-remove
