-- ===== src/Gateway/Ble/Frames.antt =====
-- A frame that is built and read: `build_command` and `parse_event` undo each other.
use Prim.Native.Nat.{bit_and}
use smart_parcel_station.Prelude.{
  all_below, all_below_lem, ℕ, zero, suc, ◌+◌, ◌<◌, ◌≤◌, List, [], ◌∷◌, ◌++◌, ◌≡◌, refl, sym, ap,
  ◌∙◌, subst, ==→≡, length, ◌==◌, arith,
}
use smart_parcel_station.Session.{ok}
use smart_parcel_station.Gateway.Ble.{
  clip_proto_frame_header, clip_proto_max_payload_len, at, take, drop, xor_checksum, frame_body,
  build_command, Event, parse_event,
}

pub length-append : (xs ys : List ℕ) → length (xs ++ ys) ≡ length xs + length ys
length-append [] ys = omega arith
length-append (x ∷ xs) ys = omega (arith, length-append xs ys)

take-append : (xs ys : List ℕ) → take (length xs) (xs ++ ys) ≡ xs
unfolding take
take-append [] ys = refl
take-append (x ∷ xs) ys = ap (λ l. x ∷ l) (take-append xs ys)

at-append : (xs : List ℕ) (y : ℕ) → at (xs ++ y ∷ []) (length xs) ≡ y
unfolding at
at-append [] y = refl
at-append (x ∷ xs) y = at-append xs y

-- a list is what `take` takes of it and its last item
pub take_last : (n : ℕ) (xs : List ℕ) → length xs ≡ suc n → take n xs ++ at xs n ∷ [] ≡ xs
unfolding take at
take_last n [] e = absurd (omega arith)
take_last zero (x ∷ []) e = refl
take_last zero (x ∷ y ∷ xs) e = absurd (omega arith)
take_last (suc n) (x ∷ xs) e = ap (λ l. x ∷ l) (take_last n xs (omega arith))

-- the dict of a frame
abbrev pub event_of : List ℕ → Event
event_of frame = record {
  event = at frame 1;
  payload_len = at frame 2;
  payload = take (at frame 2) (drop 3 frame);
  raw = frame;
}

-- What `parse_event` tests.
pub record IsFrame (frame : List ℕ) : Type 0 where
  pub header : at frame 0 ≡ clip_proto_frame_header
  pub short : at frame 2 ≤ clip_proto_max_payload_len
  pub sized : length frame ≡ 4 + at frame 2
  pub checked : xor_checksum (take (3 + at frame 2) frame) ≡ at frame (3 + at frame 2)

IsFrame-parse_event : (frame : List ℕ) → IsFrame frame → parse_event frame ≡ ok (event_of frame)
unfolding parse_event
IsFrame-parse_event frame f = ground (arith, f.header, f.short, f.sized, f.checked)

pub parse_event-IsFrame :
    (frame : List ℕ) {e : Event} → parse_event frame ≡ ok e → IsFrame frame × (e ≡ event_of frame)
unfolding parse_event
parse_event-IsFrame frame {e} h = (
  record {
    header = ground (arith, h);
    short = ground (arith, h);
    sized = ground (arith, h);
    checked = ground (arith, h);
  },
  ground (arith, h),
)

-- What `build_command` builds, `parse_event` reads back: for every command and every payload of at most
-- 16 items there is a frame, and the parse of this frame returns the low byte of the command, the
-- length, the payload and the frame.
pub parse_event-build_command :
    (cmd : ℕ) (payload : List ℕ)
    → length payload ≤ clip_proto_max_payload_len
    → (frame : List ℕ) × (build_command cmd payload ≡ ok frame)
      × (parse_event frame
          ≡ ok (record {
            event = bit_and cmd 0xFF;
            payload_len = length payload;
            payload = payload;
            raw = frame;
          }))
unfolding build_command at drop
parse_event-build_command cmd payload short =
    let body = frame_body cmd payload in
    let frame = body ++ xor_checksum body ∷ [] in
    let three : length body ≡ 3 + length payload = omega arith in
    let valid : IsFrame frame = record {
      header = refl;
      short = short;
      sized = omega (arith, length-append payload (xor_checksum body ∷ []));
      checked =
          subst (λ (n : ℕ). xor_checksum (take n frame) ≡ at frame n) three
            (ap xor_checksum (take-append body (xor_checksum body ∷ []))
              ∙ sym (at-append body (xor_checksum body)));
    } in
    (
      frame,
      ground (arith, short),
      IsFrame-parse_event frame valid
          ∙ ap (λ (p : List ℕ). ok (record (event_of frame) { payload = p }))
              (take-append payload (xor_checksum body ∷ [])),
    )

length-take : (n : ℕ) (xs : List ℕ) → n ≤ length xs → length (take n xs) ≡ n
unfolding take
length-take zero xs h = refl
length-take (suc n) [] h = absurd (omega arith)
length-take (suc n) (x ∷ xs) h = ap suc (length-take n xs (omega arith))

low_byte : (x : ℕ) → x < 256 → bit_and x 0xFF ≡ x
unfolding all_below
low_byte x lt = ==→≡ (bit_and x 0xFF) x (all_below_lem 256 (λ x. bit_and x 0xFF == x) x refl lt)

-- a frame whose first three items are known
rebuilt :
    (b : ℕ) (rest : List ℕ) (n : ℕ)
    → b < 256
    → length rest ≡ suc n
    → n ≤ clip_proto_max_payload_len
    → xor_checksum (clip_proto_frame_header ∷ b ∷ n ∷ take n rest) ≡ at rest n
    → build_command b (take n rest) ≡ ok (clip_proto_frame_header ∷ b ∷ n ∷ rest)
unfolding build_command
rebuilt b rest n byte sized short checked =
    let same = length-take n rest (omega (arith, sized)) in
    rw (same, low_byte b byte, checked, take_last n rest sized) (ground (arith, short))

-- Every frame that `parse_event` accepts, of a command that is a byte, is the one that `build_command`
-- builds from the event and the payload that were read.
pub build_command-parse_event :
    (frame : List ℕ) {e : Event}
    → parse_event frame ≡ ok e
    → e.event < 256
    → build_command e.event e.payload ≡ ok frame
unfolding at drop take
build_command-parse_event [] h byte = absurd (omega (arith, (parse_event-IsFrame [] h).0.sized))
build_command-parse_event (a ∷ []) h byte =
    absurd (omega (arith, (parse_event-IsFrame (a ∷ []) h).0.sized))
build_command-parse_event (a ∷ b ∷ []) h byte =
    absurd (omega (arith, (parse_event-IsFrame (a ∷ b ∷ []) h).0.sized))
build_command-parse_event (a ∷ b ∷ c ∷ rest) {e} h byte =
    let (f, read) = parse_event-IsFrame (a ∷ b ∷ c ∷ rest) h in
    let three : 3 + c ≡ suc (suc (suc c)) = omega arith in
    let checked =
      subst (λ (k : ℕ). xor_checksum (take k (a ∷ b ∷ c ∷ rest)) ≡ at (a ∷ b ∷ c ∷ rest) k) three
        f.checked in
    let header : a ≡ clip_proto_frame_header = f.header in
    let sum =
      subst (λ (k : ℕ). xor_checksum (k ∷ b ∷ c ∷ take c rest) ≡ at rest c) header checked in
    let built =
      rebuilt b rest c (subst (λ (e : Event). e.event < 256) read byte) (omega (arith, f.sized))
        f.short sum in
    rw read
      (subst (λ (k : ℕ). build_command b (take c rest) ≡ ok (k ∷ b ∷ c ∷ rest)) (sym header) built)
