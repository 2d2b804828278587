-- ===== src/Ingest/Checkpoint.antt =====
-- `CheckpointStore` (src/events/checkpoint-store.js): the file's object, or none where it cannot be
-- read. The clock's answer is an argument.
use finalbuilds.Prelude.{String, Option, none, some}
use finalbuilds.Model.Value.{Value, null, str}

pub record Checkpoint : Type 0 where
  pub projection : String
  pub last_event_id : Value
  pub last_event_time : Value
  pub updated_at : Value

abbrev pub no_checkpoint : Checkpoint
no_checkpoint = record {
  projection = "hydra-main";
  last_event_id = null;
  last_event_time = null;
  updated_at = null;
}

-- `get()`
abbrev pub read_checkpoint : Option Checkpoint → Checkpoint
read_checkpoint none = no_checkpoint
read_checkpoint (some c) = c

-- `update(eventId, eventTime)`: what the file holds afterwards.
unfoldable pub update_checkpoint : Value → Value → String → Option Checkpoint → Option Checkpoint
update_checkpoint event_id event_time now file = some (record (read_checkpoint file) {
  last_event_id = event_id;
  last_event_time = event_time;
  updated_at = str now;
})

-- `reset()`
abbrev pub reset_checkpoint : Option Checkpoint → Option Checkpoint
reset_checkpoint file = some no_checkpoint
