-- ===== src/Gateway/Ble/Tests.antt =====
-- Examples of frames: a tag is woken, and a reading of its status.
use smart_parcel_station.Prelude.{ℕ, List, [], ◌∷◌, ◌≡◌, ◌≢◌, refl, arith, ◌<◌, length}
use Prim.Native.Nat.{bit_and}
use smart_parcel_station.Session.{Error, ok, err}
use smart_parcel_station.Gateway.Ble.{build_command, parse_event, at, take, drop, xor_from}
use smart_parcel_station.Gateway.Ble.Frames.{
  event_of, parse_event-build_command, build_command-parse_event,
}
use smart_parcel_station.Gateway.Ble.Corrupted.{replace_at, parse_event-corrupted}
use smart_parcel_station.Gateway.Ble.Bytes.{IsBytes, build_command-IsBytes}

-- the wake of a tag in green for 30 seconds
abbrev wake : List ℕ
wake = 0xA5 ∷ 2 ∷ 2 ∷ 2 ∷ 30 ∷ 0xB9 ∷ []

wake-built : build_command 2 (2 ∷ 30 ∷ []) ≡ ok wake
unfolding build_command xor_from
wake-built = refl

wake-read : parse_event wake ≡ ok (event_of wake)
unfolding parse_event at take drop xor_from
wake-read = refl

parse_event-build_command_example :
    (frame : List ℕ) × (build_command 0x102 (2 ∷ 30 ∷ []) ≡ ok frame)
    × (parse_event frame
        ≡ ok (record {
          event = bit_and 0x102 0xFF;
          payload_len = length {A = ℕ} (2 ∷ 30 ∷ []);
          payload = 2 ∷ 30 ∷ [];
          raw = frame;
        }))
parse_event-build_command_example = parse_event-build_command 0x102 (2 ∷ 30 ∷ []) (omega arith)

two_byte : (event_of wake).event < 256
unfolding at
two_byte = omega arith

build_command-parse_event_example :
    build_command (event_of wake).event (event_of wake).payload ≡ ok wake
build_command-parse_event_example = build_command-parse_event wake wake-read two_byte

other_duration : 31 ≢ at wake 4
unfolding at
other_duration h = omega (arith, h)

parse_event-corrupted_example : (x : Error) × (parse_event (replace_at 4 31 wake) ≡ err x)
parse_event-corrupted_example =
    parse_event-corrupted wake 4 31 wake-read (omega arith) other_duration

build_command-IsBytes_example : IsBytes wake
build_command-IsBytes_example =
    build_command-IsBytes 2 (2 ∷ 30 ∷ []) (omega arith, (omega arith, tt)) wake-built
