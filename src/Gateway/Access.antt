-- ===== src/Gateway/Access.antt =====
-- `AccessControlService` of smartparcel-gateway/gateway/services/access_control_service.py, up to
-- `handle_gate_auth_by_user`. A selection of one row takes the first.
pub mod Wake
pub mod Card
pub mod Granted
pub mod Complete
pub mod ByUser
mod Tests
use smart_parcel_station.Prelude.{
  ℕ, zero, suc, ◌+◌, ◌%◌, String, Bool, true, false, not, ◌&&◌, ◌||◌, Option, none, some, List, [],
  ◌∷◌, ◌++◌, map, length, str_eq, opt_eq, opt_str_is, is_empty, is_present, or_empty, or_text, ◌==◌,
  filter, find_first, update_where, if◌then◌else◌,
}
use smart_parcel_station.Prelude.Int.{pos}
use smart_parcel_station.Text.{◌&◌, upper, str_of}
use smart_parcel_station.Json.{
  Json, null, flag, number, text, array, object, Items, nil, cons, Fields, end, entry, get, texts,
  opt_text,
}
use smart_parcel_station.Session.{
  crash, Action, pure, gets, draw, modify, commit, or_raise, when, ◌>>=◌, ◌>>◌,
}
use smart_parcel_station.Runtime.{Runtime}
use smart_parcel_station.Gateway.Enums.{
  ParcelStatus, BindingStatus, CredentialType, CredentialStatus, PickupEventType, EventSource,
  EventSyncStatus, TaskType, TaskTargetType, PickupSessionStatus,
}
use smart_parcel_station.Gateway.Entities.{
  LocalDb, LocalParcel, LocalParcelTagBinding, LocalNfcCredential, LocalPickupEvent,
  LocalPickupSession, GatewayTask,
}
use smart_parcel_station.Gateway.Outside.{Outside, BleReply, reply, failure}
use smart_parcel_station.Gateway.Tasks.{create_task, mark_running, mark_done, mark_failed}
use smart_parcel_station.Gateway.Sync.{enqueue_event_upload}

abbrev pub credential_type_value : CredentialType → String
credential_type_value CredentialType.card_uid = "CARD_UID"
credential_type_value CredentialType.phone_hce = "PHONE_HCE"
credential_type_value CredentialType.gate_nfc_tag = "GATE_NFC_TAG"
credential_type_value CredentialType.gate_qr = "GATE_QR"
credential_type_value CredentialType.token = "TOKEN"

-- `answer.get(key) == value`
abbrev pub opt_is_text : Option Json → String → Bool
opt_is_text (some (text s)) value = str_eq s value
opt_is_text _ value = false

-- the member of the enumeration with this value
type_of : List CredentialType → String → Option CredentialType
type_of [] value = none
type_of (t ∷ ts) value =
    let rest = type_of ts value in if str_eq (credential_type_value t) value then some t else rest

unfoldable pub normalize_credential_type : String → Option CredentialType
unfolding type_of
normalize_credential_type value =
    type_of
      (CredentialType.card_uid ∷ CredentialType.phone_hce ∷ CredentialType.gate_nfc_tag
        ∷ CredentialType.gate_qr ∷ CredentialType.token ∷ [])
      (upper value)

abbrev pub is_credential_active : CredentialStatus → Bool
is_credential_active CredentialStatus.active = true
is_credential_active _ = false

abbrev pub is_waiting : ParcelStatus → Bool
is_waiting ParcelStatus.waiting_pickup = true
is_waiting _ = false

abbrev pub is_binding_active : BindingStatus → Bool
is_binding_active BindingStatus.active = true
is_binding_active _ = false

abbrev pub is_session_active : PickupSessionStatus → Bool
is_session_active PickupSessionStatus.active = true
is_session_active _ = false

-- `COLOR_POOL` at an index, with its name of `COLOR_NAMES`
abbrev color_at : List (String × String) → ℕ → String × String
color_at [] n = ("WHITE", "白色")
color_at (c ∷ cs) zero = c
color_at (c ∷ cs) (suc n) = color_at cs n

abbrev color_pool : List (String × String)
color_pool =
    ("BLUE", "蓝色")
    ∷ ("GREEN", "绿色")
    ∷ ("YELLOW", "黄色")
    ∷ ("PURPLE", "紫色")
    ∷ ("RED", "红色")
    ∷ ("WHITE", "白色")
    ∷ []

-- `separator.join(texts)`
unfoldable pub join : String → List String → String
join separator [] = ""
join separator (s ∷ []) = s
join separator (s ∷ t ∷ rest) = s & separator & join separator (t ∷ rest)

-- one of `items`
pub record WakeItem : Type 0 where
  pub parcel_code : String
  pub shelf_code : Option String
  pub tag_id : Option String
  pub wake_result : String
  pub ble_result : Option Fields

-- the answers of `handle_access_card`
pub record Grant : Type 0 where
  pub user_id : Option String
  pub pickup_session_id : String
  pub pickup_count : ℕ
  pub session_color : String
  pub color_display_name : String
  pub shelves : List String
  pub display_text : String
  pub items : List WakeItem
  pub warnings : List String

pub data Access : Type 0 where
  granted : Grant → Access
  denied : String → String → Access

-- an item without its `ble_result`
item_fields : WakeItem → Json
item_fields item = object (
    entry "parcel_code" (text item.parcel_code) (
      entry "shelf_code" (opt_text item.shelf_code)
        (entry "tag_id" (opt_text item.tag_id) (entry "wake_result" (text item.wake_result) end))))

unfoldable pub items_json : List WakeItem → Items
unfolding item_fields
items_json [] = nil
items_json (i ∷ rest) = cons (item_fields i) (items_json rest)

-- `[item["tag_id"] for item in items if item.get("tag_id")]`
unfoldable pub tag_refs : List WakeItem → List String
tag_refs [] = []
tag_refs (i ∷ rest) =
    let later = tag_refs rest in if is_present i.tag_id then or_empty i.tag_id ∷ later else later

-- `column == value`, where `None` compares as IS NULL
abbrev pub same_user : Option String → Option String → Bool
same_user none none = true
same_user none (some b) = false
same_user (some a) none = false
same_user (some a) (some b) = str_eq a b

-- the assignments of a wake to a binding
abbrev pub woken : String → String → ℕ → LocalParcelTagBinding → LocalParcelTagBinding
woken session_id color now binding = record binding {
  last_wake_session_id = some session_id;
  last_wake_color = some color;
  last_wake_at = some now;
}

module _ (rt : Runtime) (out : Outside) (station_id : String) where
  -- the row that `handle_access_card` selects
  abbrev pub is_credential : CredentialType → String → LocalNfcCredential → Bool
  is_credential credential_type credential_value c =
      str_eq (credential_type_value c.credential_type) (credential_type_value credential_type)
      && str_eq c.credential_value credential_value
      && is_credential_active c.status
      && str_eq c.station_id station_id

  -- a parcel that waits for this user
  abbrev pub is_waiting_for : Option String → LocalParcel → Bool
  is_waiting_for user_id p =
      same_user p.receiver_user_id user_id && str_eq p.station_id station_id && is_waiting p.status

  unfoldable pub record_local_pickup_event :
      PickupEventType → Fields → Option String → Action LocalDb (Unit {0})
  record_local_pickup_event event_type payload user_id = do
    event_id ← draw rt.uuid_hex
    modify (λ db. record db {
      local_pickup_events =
          db.local_pickup_events
          ++ record {
            id = rt.next_id (map (λ e. e.id) db.local_pickup_events);
            event_id = event_id;
            server_parcel_id = none;
            user_id = user_id;
            station_id = station_id;
            event_type = event_type;
            source = EventSource.gateway;
            payload_json = out.dumps true (object payload);
            sync_status = EventSyncStatus.local_only;
          }
            ∷ [];
    })

  unfoldable pub enqueue_audit : String → Fields → Action LocalDb (Unit {0})
  enqueue_audit event_type payload = do
    event_id ← draw rt.uuid_hex
    enqueue_event_upload rt out event_id (
        entry "event_id" (text event_id) (
          entry "event_type" (text event_type)
            (entry "payload_json" (object (entry "station_id" (text station_id) payload)) end)))
    pure tt

  -- `_deny`
  unfoldable pub deny :
      String → String → String → String → String → Option String → Action LocalDb Access
  unfolding record_local_pickup_event enqueue_audit
  deny reader_id credential_type credential_value reason display_text user_id = do
    let payload = entry "allowed" (flag false) (
        entry "reader_id" (text reader_id) (
          entry "credential_type" (text credential_type) (
            entry "credential_hash" (text (rt.sha256 credential_value))
              (entry "reason" (text reason) (entry "display_text" (text display_text) end)))))
    record_local_pickup_event PickupEventType.nfc_access payload user_id
    enqueue_audit "NFC_ACCESS_DENIED" payload
    commit
    pure (denied reason display_text)

  unfoldable pub choose_session_color : Action LocalDb (String × String)
  choose_session_color = do
    active ← gets (λ db. length (filter (λ s. is_session_active s.status) db.local_pickup_sessions))
    pure (color_at color_pool (active % 6))
