-- ===== src/Server/Sync/Apply.antt =====
-- What an event of a gateway does to the server's tables: smartparcel-server/app/services/services.py,
-- `apply_gateway_business_event` to `apply_gateway_pickup_event`. A foreign key or a unique column that
-- a write would break raises before anything is committed.
use smart_parcel_station.Prelude.{
  ℕ, zero, suc, String, Bool, true, false, not, ◌&&◌, ◌||◌, Option, none, some, List, [], ◌∷◌, ◌++◌,
  map, str_eq, is_none, is_present, or_empty, or_text, opt_is, ◌==◌, if◌then◌else◌, filter, any,
  find_first, update_where,
}
use smart_parcel_station.Prelude.Int.{ℤ, pos, negsuc}
use smart_parcel_station.Text.{◌&◌, upper}
use smart_parcel_station.Json.{text, number, Fields, get, truthy}
use smart_parcel_station.Session.{
  http, crash, Action, pure, gets, draw, modify, raise_if, one_or_none, for_each, ◌>>=◌, ◌>>◌,
}
use smart_parcel_station.Runtime.{Runtime}
use smart_parcel_station.Server.Enums.{
  EventSource, NotificationStatus, NotificationType, ParcelOrigin, ParcelStatus, ParcelSyncStatus,
  PickupEventType, UserRole,
}
use smart_parcel_station.Server.Models.{Db, Parcel, User}
use smart_parcel_station.Server.Payload.{
  str_of_json, first_truthy, first_text, text_value, truthy_text, int_value, optional_int,
  key_value, opt_key, or_key, lift,
}
use smart_parcel_station.Server.Pickup.{picked_up}

-- a text column of a parcel: a value that is false keeps what a parcel that is there has
abbrev column : Option Parcel → String → Fields → Action Db (Option String)
column none k payload = lift (text_value (get k payload))
column (some parcel) k payload = lift (truthy_text (get k payload))

-- a text that is read by `if value`
abbrev text_at : String → Fields → Action Db (Option String)
text_at k payload = lift (truthy_text (get k payload))

-- `int(payload.get('station_id') or station_id)`
unfoldable pub station_of : ℕ → Fields → Action Db ℕ
station_of station_id payload = do
  z ← lift (int_value (first_truthy ("station_id" ∷ []) payload (number (pos station_id))))
  lift (key_value z)

-- the foreign keys of a parcel
unfoldable pub check_parcel : Option ℕ → ℕ → Action Db (Unit {0})
check_parcel receiver station_id = do
  users ← gets (λ db. db.users)
  raise_if (not (is_none receiver) && not (any (λ u. opt_is receiver u.id) users))
      (crash "IntegrityError")
  stations ← gets (λ db. db.stations)
  raise_if (not (any (λ s. s.id == station_id) stations)) (crash "IntegrityError")

-- the columns of a parcel that the payload gives
pub record Inbound : Type 0 where
  pub pickup_code : Option String
  pub receiver_user_id : Option ℤ
  pub receiver_phone : Option String
  pub receiver_name_masked : Option String
  pub shelf_code : Option String

abbrev pub is_notified : UserRole → Bool
is_notified UserRole.staff = true
is_notified UserRole.gateway_admin = true
is_notified _ = false

-- `key == z`
abbrev pub key_is : ℤ → ℕ → Bool
key_is (pos n) k = k == n
key_is (negsuc n) k = false

abbrev pub opt_key_is : ℤ → Option ℕ → Bool
opt_key_is z none = false
opt_key_is z (some k) = key_is z k

-- the staff whom an exception of a tag at this station concerns
abbrev pub is_concerned : ℤ → User → Bool
is_concerned station user =
    is_notified user.role && (is_none user.station_id || opt_key_is station user.station_id)

module _ (rt : Runtime) where
  -- `db.add(Notification(…))`
  unfoldable pub notify : ℕ → Option ℕ → String → String → Action Db (Unit {0})
  notify user_id parcel_id title content = modify (λ db. record db {
    notifications =
        db.notifications
        ++ record {
          id = rt.next_id (map (λ n. n.id) db.notifications);
          user_id = user_id;
          parcel_id = parcel_id;
          title = title;
          content = content;
          type = NotificationType.in_app;
          status = NotificationStatus.pending;
        }
          ∷ [];
  })

  -- the columns, in the order in which they are read
  unfoldable pub read_inbound : Option Parcel → Fields → Action Db Inbound
  read_inbound found payload = do
    pickup_code ← column found "pickup_code" payload
    receiver_user_id ← lift (optional_int (get "receiver_user_id" payload))
    receiver_phone ← column found "receiver_phone" payload
    receiver_name_masked ← column found "receiver_name_masked" payload
    pure (record {
      pickup_code = pickup_code;
      receiver_user_id = receiver_user_id;
      receiver_phone = receiver_phone;
      receiver_name_masked = receiver_name_masked;
      shelf_code = first_text rt ("shelf_code" ∷ "shelf" ∷ "location" ∷ "rack_code" ∷ []) payload;
    })

  -- the branch of a parcel that is there
  unfoldable pub merge_inbound : Inbound → ℕ → Parcel → Action Db Parcel
  merge_inbound inbound station parcel = do
    receiver ← lift (opt_key (or_key inbound.receiver_user_id parcel.receiver_user_id))
    let merge = λ (p : Parcel). record p {
      pickup_code = or_text inbound.pickup_code p.pickup_code;
      receiver_user_id = receiver;
      receiver_phone = or_text inbound.receiver_phone p.receiver_phone;
      receiver_name_masked = or_text inbound.receiver_name_masked p.receiver_name_masked;
      shelf_code = or_text inbound.shelf_code p.shelf_code;
      station_id = station;
      status = ParcelStatus.waiting_pickup;
      sync_status = ParcelSyncStatus.merged;
    }
    check_parcel receiver station
    modify (λ db. record db { parcels = update_where (λ p. p.id == parcel.id) merge db.parcels })
    pure (merge parcel)

  -- the branch of a new parcel
  unfoldable pub add_inbound : String → Inbound → ℕ → Action Db Parcel
  add_inbound parcel_code inbound station = do
    receiver ← lift (opt_key inbound.receiver_user_id)
    check_parcel receiver station
    rows ← gets (λ db. db.parcels)
    let parcel : Parcel = record {
      id = rt.next_id (map (λ p. p.id) rows);
      parcel_code = parcel_code;
      pickup_code = inbound.pickup_code;
      receiver_user_id = receiver;
      receiver_phone = inbound.receiver_phone;
      receiver_name_masked = inbound.receiver_name_masked;
      shelf_code = inbound.shelf_code;
      station_id = station;
      status = ParcelStatus.waiting_pickup;
      origin = ParcelOrigin.gateway_inbound;
      sync_status = ParcelSyncStatus.synced;
      created_by_admin_id = none;
    }
    modify (λ db. record db { parcels = db.parcels ++ parcel ∷ [] })
    pure parcel

  abbrev put_inbound : String → Inbound → ℕ → Option Parcel → Action Db Parcel
  put_inbound parcel_code inbound station none = add_inbound parcel_code inbound station
  put_inbound parcel_code inbound station (some parcel) = merge_inbound inbound station parcel

  -- `if parcel.receiver_user_id`
  unfoldable pub notify_receiver : Parcel → Option ℕ → Action Db (Unit {0})
  notify_receiver parcel none = pure tt
  notify_receiver parcel (some zero) = pure tt
  notify_receiver parcel (some (suc k)) =
      notify (suc k) (some parcel.id) "Parcel arrived at station"
        ("Parcel " & parcel.parcel_code & " is waiting for pickup.")

  unfoldable pub apply_gateway_inbound : ℕ → Fields → Action Db (Unit {0})
  apply_gateway_inbound station_id payload = do
    parcel_code ← text_at "parcel_code" payload
    raise_if (not (is_present parcel_code)) (http 400 "parcel_code is required for inbound event")
    found ←
        one_or_none
          (← gets (λ db. filter (λ p. str_eq p.parcel_code (or_empty parcel_code)) db.parcels))
    inbound ← read_inbound found payload
    station ← station_of station_id payload
    parcel ← put_inbound (or_empty parcel_code) inbound station found
    notify_receiver parcel parcel.receiver_user_id

  unfoldable pub apply_gateway_tag_exception_event : ℕ → Fields → Action Db (Unit {0})
  apply_gateway_tag_exception_event station_id payload = do
    let tag_ref =
        str_of_json rt (first_truthy ("tag_ref" ∷ "tag_id" ∷ []) payload (text "UNKNOWN_TAG"))
    let exception_type =
        str_of_json rt (first_truthy ("exception_type" ∷ []) payload (text "TAG_EXCEPTION"))
    let severity = str_of_json rt (first_truthy ("severity" ∷ []) payload (text "WARNING"))
    let message = str_of_json rt (
        first_truthy ("message" ∷ []) payload
          (text ("Smart tag " & tag_ref & " reported " & exception_type & ".")))
    given ← lift (optional_int (get "station_id" payload))
    let station : ℤ = elim (or_key given none) [ none ↦ pos station_id | some z ↦ z ]
    staff ← gets (λ db. filter (is_concerned station) db.users)
    for_each staff (λ user.
        notify user.id none ("智能寻物标签异常：" & severity)
          (message & "（标签：" & tag_ref & "，类型：" & exception_type & "）"))

  -- `db.get(Parcel, int(payload['server_parcel_id']))`, where no parcel has the code
  unfoldable pub find_picked : Option Parcel → Fields → Action Db (Option Parcel)
  find_picked (some parcel) payload = pure (some parcel)
  find_picked none payload = elim (get "server_parcel_id" payload) [
    | none ↦ pure none
    | some v ↦
        if truthy (some v)
        then (lift (int_value v) >>= λ z. gets (λ db. find_first (λ p. key_is z p.id) db.parcels))
        else pure none
  ]

  -- the id of the event of a pickup
  unfoldable pub pickup_event_id : Option String → Action Db String
  pickup_event_id given = if is_present given then pure (or_empty given) else draw rt.uuid_hex

  unfoldable pub store_gateway_pickup : ℕ → ℕ → Fields → Parcel → Action Db (Unit {0})
  store_gateway_pickup gateway_id station_id payload parcel = do
    event_id ← pickup_event_id (← text_at "pickup_event_id" payload)
    rows ← gets (λ db. db.pickup_events)
    raise_if (any (λ e. str_eq e.event_id event_id) rows) (crash "IntegrityError")
    modify (λ db. record db {
      parcels = update_where (λ p. p.id == parcel.id) picked_up db.parcels;
      pickup_events =
          db.pickup_events
          ++ record {
            id = rt.next_id (map (λ e. e.id) db.pickup_events);
            event_id = event_id;
            parcel_id = parcel.id;
            user_id = parcel.receiver_user_id;
            station_id = station_id;
            gateway_id = some gateway_id;
            event_type = PickupEventType.offline_pickup;
            source = EventSource.gateway;
            payload_json = payload;
          }
            ∷ [];
    })

  -- by the parcel that is found
  unfoldable pub pick_up : ℕ → ℕ → Fields → Option Parcel → Action Db (Unit {0})
  pick_up gateway_id station_id payload none = pure tt
  pick_up gateway_id station_id payload (some parcel) =
      store_gateway_pickup gateway_id station_id payload parcel

  unfoldable pub apply_gateway_pickup_event : ℕ → ℕ → Fields → Action Db (Unit {0})
  apply_gateway_pickup_event gateway_id station_id payload = do
    parcel_code ← text_at "parcel_code" payload
    coded ←
        one_or_none
          (← gets (λ db.
            if is_present parcel_code
            then filter (λ p. str_eq p.parcel_code (or_empty parcel_code)) db.parcels
            else []))
    found ← find_picked coded payload
    pick_up gateway_id station_id payload found

  -- `event_type in {…}`
  unfoldable pub is_among : List String → String → Bool
  is_among [] s = false
  is_among (x ∷ xs) s = str_eq s x || is_among xs s

  unfoldable pub apply_gateway_business_event : ℕ → ℕ → String → Fields → Action Db (Unit {0})
  apply_gateway_business_event gateway_id station_id event_type payload =
      let normalized = upper event_type in
      if is_among ("GATEWAY_INBOUND" ∷ "PARCEL_ARRIVED" ∷ "INBOUND_PARCEL" ∷ []) normalized
      then apply_gateway_inbound station_id payload
      else if str_eq normalized "TAG_EXCEPTION_REPORTED"
      then apply_gateway_tag_exception_event station_id payload
      else if is_among ("PICKUP_CONFIRMED" ∷ "OFFLINE_PICKUP" ∷ "NFC_FAST_PICKUP_CONFIRMED" ∷ [])
          normalized
      then apply_gateway_pickup_event gateway_id station_id payload
      else pure tt
