-- ===== src/Gateway/Ble/Corrupted.antt =====
-- A frame with one item changed.
use Prim.Native.Nat.{bit_xor}
use smart_parcel_station.Prelude.{
  ℕ, zero, suc, ◌+◌, ◌<◌, List, [], ◌∷◌, ◌++◌, ◌≡◌, ◌≢◌, refl, sym, ap, ◌∙◌, inl, inr, length,
  arith,
}
use smart_parcel_station.Prelude.Xor.{bit_xor_self, bit_xor_left, bit_xor_right}
use smart_parcel_station.Session.{Error, ok, err}
use smart_parcel_station.Session.Laws.{Result-cases}
use smart_parcel_station.Gateway.Ble.{at, take, xor_from, xor_checksum, Event, parse_event}
use smart_parcel_station.Gateway.Ble.Frames.{take_last, IsFrame, parse_event-IsFrame}

xor_from-append :
    (v : ℕ) (xs : List ℕ) (y : ℕ) → xor_from v (xs ++ y ∷ []) ≡ bit_xor (xor_from v xs) y
unfolding xor_from
xor_from-append v [] y = refl
xor_from-append v (x ∷ xs) y = xor_from-append (bit_xor v x) xs y

xor_from-injective : (xs : List ℕ) {v w : ℕ} → xor_from v xs ≡ xor_from w xs → v ≡ w
unfolding xor_from
xor_from-injective [] e = e
xor_from-injective (x ∷ xs) {v} {w} e = bit_xor_right v w x (xor_from-injective xs e)

-- `xs[i] = b`
abbrev pub replace_at : ℕ → ℕ → List ℕ → List ℕ
replace_at i b [] = []
replace_at zero b (x ∷ xs) = b ∷ xs
replace_at (suc i) b (x ∷ xs) = x ∷ replace_at i b xs

-- the checksum tells two lists apart that differ in one place
xor_from-replace_at :
    (v i b : ℕ) (xs : List ℕ)
    → i < length xs
    → xor_from v (replace_at i b xs) ≡ xor_from v xs
    → b ≡ at xs i
unfolding xor_from at
xor_from-replace_at v i b [] lt e = absurd (omega arith)
xor_from-replace_at v zero b (x ∷ xs) lt e = bit_xor_left v b x (xor_from-injective xs e)
xor_from-replace_at v (suc i) b (x ∷ xs) lt e =
    xor_from-replace_at (bit_xor v x) i b xs (omega arith) e

IsFrame-xor : (frame : List ℕ) → IsFrame frame → xor_checksum frame ≡ 0
IsFrame-xor frame f =
    let n = 3 + at frame 2 in
    ap xor_checksum (sym (take_last n frame (omega (arith, f.sized))))
    ∙ xor_from-append 0 (take n frame) (at frame n)
    ∙ ap (λ c. bit_xor c (at frame n)) f.checked
    ∙ bit_xor_self (at frame n)

-- A frame that `parse_event` accepts, with one of its bytes replaced by another number, is refused:
-- whatever the byte and the place, `parse_event` raises.
pub parse_event-corrupted :
    (frame : List ℕ) (i b : ℕ) {e : Event}
    → parse_event frame ≡ ok e
    → i < length frame
    → b ≢ at frame i
    → (x : Error) × (parse_event (replace_at i b frame) ≡ err x)
parse_event-corrupted frame i b accepted lt other =
    elim (Result-cases (parse_event (replace_at i b frame))) [
      | inr failed ↦ failed
      | inl (e, parsed) ↦
          let before = IsFrame-xor frame (parse_event-IsFrame frame accepted).0 in
          let after =
            IsFrame-xor (replace_at i b frame)
              (parse_event-IsFrame (replace_at i b frame) parsed).0 in
          absurd (other (xor_from-replace_at 0 i b frame lt (after ∙ sym before)))
    ]
