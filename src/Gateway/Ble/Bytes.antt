-- ===== src/Gateway/Ble/Bytes.antt =====
-- The items of the frames that the gateway builds are bytes.
use Prim.Native.Nat.{bit_xor}
use smart_parcel_station.Prelude.{
  ℕ, ◌<◌, false, List, [], ◌∷◌, ◌++◌, ◌≡◌, subst, length, All, ltb, arith,
}
use smart_parcel_station.Prelude.Xor.{bit_xor_lt, bit_and-le}
use smart_parcel_station.Session.{ok}
use smart_parcel_station.Gateway.Ble.{
  clip_proto_max_payload_len, xor_from, xor_checksum, frame_body, build_command,
}

-- every item is a byte
abbrev pub IsBytes : List ℕ → Type 0
IsBytes = All (λ (b : ℕ). b < 256)

xor_from-lt : (v : ℕ) (xs : List ℕ) → v < 256 → IsBytes xs → xor_from v xs < 256
unfolding xor_from
xor_from-lt v [] h all = h
xor_from-lt v (x ∷ xs) h (here, rest) = xor_from-lt (bit_xor v x) xs (bit_xor_lt 8 v x h here) rest

All-append : (xs ys : List ℕ) → IsBytes xs → IsBytes ys → IsBytes (xs ++ ys)
All-append [] ys p q = q
All-append (x ∷ xs) ys (here, rest) q = (here, All-append xs ys rest q)

-- Every item of the frame of a command is a byte, where the items of the payload are, whatever the
-- number of the command: the conversions to `bytes` in `build_command` do not raise.
pub build_command-IsBytes :
    (cmd : ℕ) (payload : List ℕ) {frame : List ℕ}
    → IsBytes payload
    → build_command cmd payload ≡ ok frame
    → IsBytes frame
unfolding build_command
build_command-IsBytes cmd payload {frame} bytes built =
    let body : IsBytes (frame_body cmd payload) =
      (omega arith, (omega (arith, bit_and-le cmd 0xFF), (ground (arith, built), bytes))) in
    let sum = xor_from-lt 0 (frame_body cmd payload) (omega arith) body in
    let whole =
      All-append (frame_body cmd payload) (xor_checksum (frame_body cmd payload) ∷ []) body
        (sum, tt) in
    let fits : ltb clip_proto_max_payload_len (length payload) ≡ false = ground (arith, built) in
    subst IsBytes {x = frame_body cmd payload ++ xor_checksum (frame_body cmd payload) ∷ []}
      (ground (arith, built, fits)) whole
