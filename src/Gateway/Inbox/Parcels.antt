-- ===== src/Gateway/Inbox/Parcels.antt =====
-- What the events of parcels do at the gateway: `apply_sync_event` of
-- smartparcel-gateway/gateway/services/sync_service.py, PARCEL_UPSERT to PARCEL_PICKUP_CONFIRMED. The
-- command that stops a tag goes to the radio, whose failures are caught, and is left out.
use smart_parcel_station.Prelude.{
  ℕ, String, Bool, true, false, Option, none, some, [], ◌∷◌, ◌++◌, map, str_eq, ◌==◌, find_first,
  filter, update_where, or_empty, if◌then◌else◌,
}
use smart_parcel_station.Text.{◌&◌}
use smart_parcel_station.Json.{Json, text, Fields, get, truthy, is_given}
use smart_parcel_station.Session.{
  Result, ok, err, Action, pure, gets, modify, for_each, draw, ◌>>=◌, ◌>>◌,
}
use smart_parcel_station.Runtime.{Runtime}
use smart_parcel_station.Server.Payload.{str_of_json, lift}
use smart_parcel_station.Gateway.Enums.{ParcelStatus, BindingStatus, TagStatus}
use smart_parcel_station.Gateway.Entities.{LocalDb, LocalParcel, LocalParcelTagBinding, LocalTag}
use smart_parcel_station.Gateway.Inbox.Read.{
  get_or, value_of, must, column_text, not_null, parcel_status, parcel_status_value, binding_status,
}

abbrev pub is_new : {A : Type 0} → Option A → Bool
is_new none = true
is_new (some row) = false

abbrev pub is_picked_up : ParcelStatus → Bool
is_picked_up ParcelStatus.picked_up = true
is_picked_up _ = false

abbrev pub set_parcel : ℕ → (LocalParcel → LocalParcel) → LocalDb → LocalDb
set_parcel id f db = record db { local_parcels = update_where (λ p. p.id == id) f db.local_parcels }

abbrev set_binding : ℕ → (LocalParcelTagBinding → LocalParcelTagBinding) → LocalDb → LocalDb
set_binding id f db = record db {
  local_parcel_tag_bindings = update_where (λ b. b.id == id) f db.local_parcel_tag_bindings;
}

module _ (rt : Runtime) (station_id : String) where
  -- `str(payload.get("server_parcel_id") or payload.get("parcel_id"))`
  unfoldable pub parcel_key : Fields → String
  parcel_key payload =
      let first = get "server_parcel_id" payload in
      str_of_json rt (if truthy first then value_of first else value_of (get "parcel_id" payload))

  abbrev station_of : Fields → String
  station_of payload = str_of_json rt (get_or "station_id" (text station_id) payload)

  -- `str(payload[key])` where it is not None
  abbrev given_text : String → Fields → Option String → Option String
  given_text key payload kept =
      if is_given (get key payload)
      then some (str_of_json rt (value_of (get key payload)))
      else kept

  -- `payload.get("shelf_code")`, or else `payload.get("shelf")`
  unfoldable pub incoming_shelf : Fields → Option String → Option String
  incoming_shelf payload kept =
      if is_given (get "shelf_code" payload)
      then given_text "shelf_code" payload kept
      else given_text "shelf" payload kept

  -- the row that is there, or a new one
  unfoldable pub find_or_add_parcel : Fields → ℕ → Option LocalParcel → Action LocalDb LocalParcel
  find_or_add_parcel payload now (some row) = pure row
  find_or_add_parcel payload now none = do
    given ← lift (must "parcel_code" payload)
    parcel_code ← lift (column_text (some given))
    code ← lift (not_null parcel_code)
    rows ← gets (λ db. db.local_parcels)
    let row : LocalParcel = record {
      id = rt.next_id (map (λ p. p.id) rows);
      server_parcel_id = parcel_key payload;
      parcel_code = code;
      pickup_code = none;
      receiver_user_id = none;
      receiver_phone = none;
      receiver_name_masked = none;
      shelf_code = none;
      origin = "LOCAL_ONLY";
      sync_status = "LOCAL_ONLY";
      station_id = station_of payload;
      status = ParcelStatus.created;
      server_updated_at = none;
      local_updated_at = now;
    }
    modify (λ db. record db { local_parcels = db.local_parcels ++ row ∷ [] })
    pure row

  -- the assignments of PARCEL_UPSERT, in their order
  abbrev pub upserted : Fields → ℕ → ParcelStatus → LocalParcel → LocalParcel
  upserted payload now status row = record row {
    pickup_code = given_text "pickup_code" payload row.pickup_code;
    receiver_user_id =
        given_text "user_id" payload (given_text "receiver_user_id" payload row.receiver_user_id);
    receiver_phone = given_text "receiver_phone" payload row.receiver_phone;
    receiver_name_masked = given_text "receiver_name_masked" payload row.receiver_name_masked;
    shelf_code = incoming_shelf payload row.shelf_code;
    status = status;
    local_updated_at = now;
  }

  unfoldable pub parcel_upsert : Fields → ℕ → Action LocalDb (Unit {0})
  parcel_upsert payload now = do
    found ←
        gets
          (λ db. find_first (λ p. str_eq p.server_parcel_id (parcel_key payload)) db.local_parcels)
    row ← find_or_add_parcel payload now found
    status ← lift (
        parcel_status (is_new found)
          (get_or "status" (text (parcel_status_value row.status)) payload))
    modify (set_parcel row.id (upserted payload now status))

  abbrev made_key : Fields → Result Json → Result Json
  made_key payload (ok tag) = ok (text ("sync-" & parcel_key payload & "-" & str_of_json rt tag))
  made_key payload (err x) = err x

  -- `payload.get("pickup_binding_id") or f"sync-{parcel_id}-{payload['tag_id']}"`
  unfoldable pub binding_key : Fields → Result Json
  binding_key payload =
      let given = get "pickup_binding_id" payload in
      if truthy given then ok (value_of given) else made_key payload (must "tag_id" payload)

  unfoldable pub find_or_add_binding :
      String → String → Fields → Option LocalParcelTagBinding → Action LocalDb LocalParcelTagBinding
  find_or_add_binding key tag_id payload (some row) = pure row
  find_or_add_binding key tag_id payload none = do
    rows ← gets (λ db. db.local_parcel_tag_bindings)
    let row : LocalParcelTagBinding = record {
      id = rt.next_id (map (λ b. b.id) rows);
      server_binding_id = none;
      pickup_binding_id = key;
      server_parcel_id = parcel_key payload;
      tag_id = tag_id;
      station_id = station_of payload;
      status = BindingStatus.active;
      released_at = none;
      release_reason = none;
      last_wake_session_id = none;
      last_wake_color = none;
      last_wake_at = none;
    }
    modify
        (λ db. record db { local_parcel_tag_bindings = db.local_parcel_tag_bindings ++ row ∷ [] })
    pure row

  -- the tag that is not there yet, or the token of the one that is
  unfoldable pub put_tag : String → Fields → Option LocalTag → Action LocalDb (Unit {0})
  put_tag tag_id payload none = do
    token ← lift (column_text (some (get_or "encrypted_token" (text "") payload)))
    modify (λ db. record db {
      local_tags =
          db.local_tags
          ++ record {
            id = rt.next_id (map (λ t. t.id) db.local_tags);
            server_tag_id = none;
            tag_id = tag_id;
            tag_uid = none;
            encrypted_token = or_empty token;
            hw_model = none;
            fw_version = none;
            local_no = none;
            display_name = none;
            ble_name = none;
            ble_address = none;
            station_id = station_of payload;
            status = TagStatus.idle;
            battery_level = none;
            battery_mv = none;
            registered_at = none;
            last_seen_at = none;
            last_connected_at = none;
            last_error_type = none;
            last_error_message = none;
            last_error_at = none;
          }
            ∷ [];
    })
  put_tag tag_id payload (some tag) =
      if is_given (get "encrypted_token" payload)
      then (lift (column_text (get "encrypted_token" payload)) >>= λ column.
          lift (not_null column) >>= λ token. modify (λ db. record db {
            local_tags =
                update_where (λ t. t.id == tag.id) (λ t. record t { encrypted_token = token })
                  db.local_tags;
          }))
      else pure tt

  -- from the row that is there or added on
  unfoldable pub bind_tag :
      String → String → Fields → Option LocalParcelTagBinding → Action LocalDb (Unit {0})
  bind_tag key tag_id payload found = do
    row ← find_or_add_binding key tag_id payload found
    status ← lift (binding_status (is_new found) (get_or "status" (text "ACTIVE") payload))
    modify (set_binding row.id (λ b. record b { status = status }))
    tag ← gets (λ db. find_first (λ t. str_eq t.tag_id tag_id) db.local_tags)
    put_tag tag_id payload tag

  unfoldable pub parcel_tag_binding_upsert : Fields → Action LocalDb (Unit {0})
  parcel_tag_binding_upsert payload = do
    key_json ← lift (binding_key payload)
    key_column ← lift (column_text (some key_json))
    key ← lift (not_null key_column)
    found ←
        gets (λ db. find_first (λ b. str_eq b.pickup_binding_id key) db.local_parcel_tag_bindings)
    tag_json ← lift (must "tag_id" payload)
    tag_column ← lift (column_text (some tag_json))
    tag_id ← lift (not_null tag_column)
    bind_tag key tag_id payload found

  abbrev pub released : ℕ → LocalParcelTagBinding → LocalParcelTagBinding
  released now b = record b {
    status = BindingStatus.released;
    released_at = some now;
    release_reason = some "SERVER_PICKUP_CONFIRMED";
  }

  -- `if tag: tag.status = IDLE`
  unfoldable pub idle_tag : Option LocalTag → Action LocalDb (Unit {0})
  idle_tag none = pure tt
  idle_tag (some tag) = modify (λ db. record db {
    local_tags =
        update_where (λ t. t.id == tag.id) (λ t. record t { status = TagStatus.idle })
          db.local_tags;
  })

  unfoldable pub release_binding : ℕ → LocalParcelTagBinding → Action LocalDb (Unit {0})
  release_binding now binding = do
    modify (set_binding binding.id (released now))
    tag ← gets (λ db. find_first (λ t. str_eq t.tag_id binding.tag_id) db.local_tags)
    idle_tag tag

  -- `if parcel: parcel.status = "PICKED_UP"`, which touches the row where it changes
  unfoldable pub mark_picked_up : Option LocalParcel → Action LocalDb (Unit {0})
  mark_picked_up none = pure tt
  mark_picked_up (some parcel) =
      if is_picked_up parcel.status
      then pure tt
      else (draw rt.clock >>= λ updated. modify (
          set_parcel parcel.id
            (λ p. record p { status = ParcelStatus.picked_up; local_updated_at = updated })))

  unfoldable pub parcel_pickup_confirmed : Fields → ℕ → Action LocalDb (Unit {0})
  parcel_pickup_confirmed payload now = do
    parcel ←
        gets
          (λ db. find_first (λ p. str_eq p.server_parcel_id (parcel_key payload)) db.local_parcels)
    mark_picked_up parcel
    bindings ← gets (λ db.
        filter (λ b. str_eq b.server_parcel_id (parcel_key payload)) db.local_parcel_tag_bindings)
    for_each bindings (release_binding now)
