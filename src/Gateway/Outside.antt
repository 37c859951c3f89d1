-- ===== src/Gateway/Outside.antt =====
-- What the gateway uses from outside its own code, besides the clock and random texts: `json.dumps`,
-- the parsing of times, the server's answer to a push, and the radio that wakes the tags. Every use that may answer
-- differently from one call to the next takes the number of the draw.
use smart_parcel_station.Prelude.{ℕ, String, Bool, Option}
use smart_parcel_station.Json.{Json, Fields}

-- the answer of `ble.tag_wake`, or the text of the exception that it raises
pub data BleReply : Type 0 where
  reply : Fields → BleReply
  failure : String → BleReply

pub record Outside : Type 0 where
  -- `json.dumps` with this `ensure_ascii`
  pub dumps : Bool → Json → String
  -- `json.dumps` with sorted keys and no spaces
  pub dumps_compact : Json → String
  -- `datetime.fromisoformat` of a text, in seconds; `none` is the ValueError
  pub fromisoformat : String → Option ℕ
  -- whether `json.loads` of the text and `client.sync_push` of the value return
  pub sync_push : ℕ → String → Bool
  -- of the tag, the colour and the pickup session
  pub tag_wake : ℕ → String → String → String → BleReply
