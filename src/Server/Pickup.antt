-- ===== src/Server/Pickup.antt =====
-- The confirmation of a pickup by a user, and the lists of a user:
-- smartparcel-server/app/services/services.py, `pickup_confirm` to `list_user_pickup_history`.
pub mod Confirmed
pub mod Repeated
mod Tests
use smart_parcel_station.Prelude.{
  ℕ, String, Bool, true, false, not, ◌&&◌, Option, none, some, List, [], ◌∷◌, ◌++◌, map, str_eq,
  opt_is, ◌==◌, leb, if◌then◌else◌, filter, find_first, update_where,
}
use smart_parcel_station.Text.{str_of}
use smart_parcel_station.Json.{Json, number, text, Fields, end, entry}
use smart_parcel_station.Prelude.Int.{pos}
use smart_parcel_station.Session.{
  http, Action, pure, gets, modify, commit, or_raise, raise_if, one_or_none, ◌>>=◌, ◌>>◌,
}
use smart_parcel_station.Runtime.{Runtime}
use smart_parcel_station.Server.Enums.{
  EventSource, GatewaySyncEventType, ParcelStatus, ParcelTagBindingStatus, PickupEventType,
}
use smart_parcel_station.Server.Models.{Db, Parcel, ParcelTagBinding, PickupEvent, Tag}
use smart_parcel_station.Server.Cards.{not_found}
use smart_parcel_station.Server.Events.{queue_station_event}

abbrev pub is_active_binding : ParcelTagBindingStatus → Bool
is_active_binding ParcelTagBindingStatus.active = true
is_active_binding _ = false

abbrev pub is_picked_up : ParcelStatus → Bool
is_picked_up ParcelStatus.picked_up = true
is_picked_up _ = false

abbrev pub is_waiting : ParcelStatus → Bool
is_waiting ParcelStatus.waiting_pickup = true
is_waiting _ = false

abbrev pub is_confirmed : PickupEventType → Bool
is_confirmed PickupEventType.pickup_confirmed = true
is_confirmed _ = false

-- `row and test(row)`
abbrev pub keep {ℓ} : {A : Type ℓ} → (A → Bool) → Option A → Option A
keep p none = none
keep p (some a) = if p a then some a else none

-- the answer of a confirmation: the parcel, the event, and whether it was done before
abbrev pub Confirmation : Type 0
Confirmation = Option Parcel × Option PickupEvent × Bool

abbrev pub picked_up : Parcel → Parcel
picked_up parcel = record parcel { status = ParcelStatus.picked_up }

abbrev pub released : ParcelTagBinding → ParcelTagBinding
released binding = record binding { status = ParcelTagBindingStatus.released }

-- the tests of a confirmation that is new
unfoldable pub check_pickup : ℕ → String → String → String → Action Db (ParcelTagBinding × Parcel)
check_pickup user_id tag_id encrypted_token pickup_binding_id = do
  bindings ←
      one_or_none
        (← gets
          (λ db. filter (λ b. str_eq b.pickup_binding_id pickup_binding_id) db.parcel_tag_bindings))
  binding ← or_raise (keep (λ b. is_active_binding b.status) bindings) (http 400 "Invalid binding")
  tags ← one_or_none (← gets (λ db. filter (λ t. t.id == binding.tag_id) db.tags))
  tag ←
      or_raise (keep (λ t. str_eq t.tag_id tag_id && str_eq t.encrypted_token encrypted_token) tags)
        (http 400 "Invalid tag credential")
  parcel ←
      or_raise (← gets (λ db. find_first (λ p. p.id == binding.parcel_id) db.parcels))
        (not_found "parcel")
  raise_if (not (opt_is parcel.receiver_user_id user_id))
      (http 403 "Users can only confirm their own parcels")
  pure (binding, parcel)

module _ (rt : Runtime) where
  -- the row of the event
  abbrev pub pickup_event : ℕ → String → String → String → Parcel → List PickupEvent → PickupEvent
  pickup_event user_id event_id tag_id pickup_binding_id parcel rows = record {
    id = rt.next_id (map (λ e. e.id) rows);
    event_id = event_id;
    parcel_id = parcel.id;
    user_id = some user_id;
    station_id = parcel.station_id;
    gateway_id = none;
    event_type = PickupEventType.pickup_confirmed;
    source = EventSource.miniprogram;
    payload_json =
        entry "tag_id" (text tag_id) (entry "pickup_binding_id" (text pickup_binding_id) end);
  }

  -- the writes of a confirmation
  unfoldable pub store_pickup :
      ℕ → String → String → String → ParcelTagBinding → Parcel → Action Db Confirmation
  store_pickup user_id event_id tag_id pickup_binding_id binding parcel = do
    rows ← gets (λ db. db.pickup_events)
    let event = pickup_event user_id event_id tag_id pickup_binding_id parcel rows
    modify (λ db. record db {
      parcels = update_where (λ p. p.id == parcel.id) picked_up db.parcels;
      parcel_tag_bindings = update_where (λ b. b.id == binding.id) released db.parcel_tag_bindings;
      pickup_events = db.pickup_events ++ event ∷ [];
    })
    queue_station_event rt parcel.station_id GatewaySyncEventType.parcel_pickup_confirmed (
        entry "parcel_id" (number (pos parcel.id))
          (entry "user_id" (text (str_of user_id)) (entry "status" (text "PICKED_UP") end)))
    commit
    pure (some (picked_up parcel), some event, false)

  -- by whether the parcel is picked up already
  unfoldable pub confirm_parcel :
      ℕ → String → String → String → ParcelTagBinding → Parcel → Bool → Action Db Confirmation
  confirm_parcel user_id event_id tag_id pickup_binding_id binding parcel true = do
    event ←
        one_or_none
          (← gets (λ db.
            filter (λ e. (e.parcel_id == parcel.id) && is_confirmed e.event_type) db.pickup_events))
    pure (some parcel, event, true)
  confirm_parcel user_id event_id tag_id pickup_binding_id binding parcel false =
      store_pickup user_id event_id tag_id pickup_binding_id binding parcel

  -- by the event that has this id
  unfoldable pub confirm_event :
      ℕ → String → String → String → String → Option PickupEvent → Action Db Confirmation
  confirm_event user_id event_id tag_id encrypted_token pickup_binding_id (some existed) = do
    parcel ← gets (λ db. find_first (λ p. p.id == existed.parcel_id) db.parcels)
    pure (parcel, some existed, true)
  confirm_event user_id event_id tag_id encrypted_token pickup_binding_id none = do
    (binding, parcel) ← check_pickup user_id tag_id encrypted_token pickup_binding_id
    confirm_parcel user_id event_id tag_id pickup_binding_id binding parcel
        (is_picked_up parcel.status)

  unfoldable pub pickup_confirm : ℕ → String → String → String → String → Action Db Confirmation
  pickup_confirm user_id event_id tag_id encrypted_token pickup_binding_id = do
    existed ← one_or_none (← gets (λ db. filter (λ e. str_eq e.event_id event_id) db.pickup_events))
    confirm_event user_id event_id tag_id encrypted_token pickup_binding_id existed

-- `order_by(id.desc())`
insert_desc : Parcel → List Parcel → List Parcel
insert_desc p [] = p ∷ []
insert_desc p (q ∷ rest) =
    let later = q ∷ insert_desc p rest in if leb q.id p.id then p ∷ q ∷ rest else later

unfoldable pub order_desc : List Parcel → List Parcel
unfolding insert_desc
order_desc [] = []
order_desc (p ∷ rest) = insert_desc p (order_desc rest)

unfoldable pub list_user_pickup_list : ℕ → Action Db (List Parcel)
list_user_pickup_list user_id = gets (λ db.
    order_desc (filter (λ p. opt_is p.receiver_user_id user_id && is_waiting p.status) db.parcels))

unfoldable pub list_user_pickup_history : ℕ → Action Db (List Parcel)
list_user_pickup_history user_id = gets (λ db.
    order_desc
      (filter (λ p. opt_is p.receiver_user_id user_id && is_picked_up p.status) db.parcels))
