-- ===== src/Gateway/Ble.antt =====
-- The frames between the gateway and a tag: smartparcel-gateway/gateway/services/ble/protocol.py, and
-- what services/ble/real.py puts into and reads from them. A byte string is the list of its bytes.
pub mod Frames
pub mod Corrupted
pub mod Bytes
mod Tests
use Prim.Native.Nat.{bit_and, bit_or, bit_xor}
use smart_parcel_station.Prelude.{
  ℕ, zero, suc, ◌+◌, ◌*◌, ◌<◌, String, Bool, not, Option, none, some, List, [], ◌∷◌, ◌++◌, length,
  ltb, leb, ◌==◌, str_eq, if◌then◌else◌,
}
use smart_parcel_station.Prelude.Int.{ℤ, pos, negsuc}
use smart_parcel_station.Text.{upper}
use smart_parcel_station.Session.{Result, ok, err, crash}

abbrev pub clip_proto_frame_header : ℕ
clip_proto_frame_header = 0xA5

abbrev pub clip_proto_max_payload_len : ℕ
clip_proto_max_payload_len = 16

abbrev pub clip_cmd_wake_tag : ℕ
clip_cmd_wake_tag = 2

abbrev pub clip_cmd_stop_alert : ℕ
clip_cmd_stop_alert = 3

abbrev pub clip_cmd_read_status : ℕ
clip_cmd_read_status = 6

abbrev pub clip_evt_status_report : ℕ
clip_evt_status_report = 0x87

-- `xs[i]` where `i` is in range
unfoldable pub at : List ℕ → ℕ → ℕ
at [] i = 0
at (x ∷ xs) zero = x
at (x ∷ xs) (suc i) = at xs i

-- `xs[:n]` and `xs[n:]`
unfoldable pub take : ℕ → List ℕ → List ℕ
take zero xs = []
take (suc n) [] = []
take (suc n) (x ∷ xs) = x ∷ take n xs

unfoldable pub drop : ℕ → List ℕ → List ℕ
drop zero xs = xs
drop (suc n) [] = []
drop (suc n) (x ∷ xs) = drop n xs

-- the loop of `_xor_checksum`, from a value on
unfoldable pub xor_from : ℕ → List ℕ → ℕ
xor_from value [] = value
xor_from value (item ∷ rest) = xor_from (bit_xor value item) rest

-- `_xor_checksum`
abbrev pub xor_checksum : List ℕ → ℕ
xor_checksum items = xor_from 0 items

abbrev pub frame_body : ℕ → List ℕ → List ℕ
frame_body cmd payload = clip_proto_frame_header ∷ bit_and cmd 0xFF ∷ length payload ∷ payload

unfoldable pub build_command : ℕ → List ℕ → Result (List ℕ)
build_command cmd payload =
    let body = frame_body cmd payload in
    if ltb clip_proto_max_payload_len (length payload)
    then err (crash "payload too large")
    else ok (body ++ xor_checksum body ∷ [])

-- the dict that `parse_event` returns
pub record Event : Type 0 where
  pub event : ℕ
  pub payload_len : ℕ
  pub payload : List ℕ
  pub raw : List ℕ

unfoldable pub parse_event : List ℕ → Result Event
parse_event frame =
    let payload_len = at frame 2 in
    if ltb (length frame) 4
    then err (crash "frame too short")
    else if not (at frame 0 == clip_proto_frame_header)
    then err (crash "invalid frame header")
    else if not (length frame == 4 + payload_len)
    then err (crash "invalid frame length")
    else if ltb clip_proto_max_payload_len payload_len
    then err (crash "payload too large")
    else if not (xor_checksum (take (3 + payload_len) frame) == at frame (3 + payload_len))
    then err (crash "invalid checksum")
    else ok (record {
      event = at frame 1;
      payload_len = payload_len;
      payload = take payload_len (drop 3 frame);
      raw = frame;
    })

-- `_color_code`
unfoldable pub color_code : String → ℕ
color_code color =
    let name = upper color in
    if str_eq name "BLUE"
    then 1
    else if str_eq name "GREEN"
    then 2
    else if str_eq name "RED"
    then 3
    else if str_eq name "WHITE"
    then 4
    else 1

-- `max(0, min(duration_sec, 255))`
unfoldable pub clamp_duration : ℤ → ℕ
clamp_duration (pos n) = if ltb 255 n then 255 else n
clamp_duration (negsuc n) = 0

-- the frame that `wake_tag` writes
unfoldable pub wake_frame : String → ℤ → Result (List ℕ)
wake_frame color duration_sec =
    build_command clip_cmd_wake_tag (color_code color ∷ clamp_duration duration_sec ∷ [])

-- what `_merge_status_payload` adds to the answer
pub record Status : Type 0 where
  pub clip_state : ℕ
  pub battery_state : ℕ
  pub battery_mv : ℕ

unfoldable pub merge_status_payload : List ℕ → Option Status
merge_status_payload payload =
    if leb 6 (length payload)
    then some (record {
      clip_state = at payload 0;
      battery_state = at payload 1;
      battery_mv = bit_or (at payload 4) (at payload 5 * 256);
    })
    else none
