-- ===== src/Channel/Tests.antt =====
-- The theorem on channels, at a channel that is watched for reading.
use moban.Channel.{Events, added, Channel}
use moban.Prelude.{true, false, some}

abbrev reading_only : Events
reading_only = record { reading = true; writing = false }

abbrev watched_channel : Channel
watched_channel = record {
  events = reading_only;
  index = added;
  listed = true;
  watched = some reading_only;
}
