-- ===== src/Gateway/Inbox/Credentials.antt =====
-- What the events of access cards do at the gateway: `apply_sync_event` of
-- smartparcel-gateway/gateway/services/sync_service.py, its first three branches.
use smart_parcel_station.Prelude.{
  ℕ, String, Bool, true, false, ◌&&◌, Option, none, some, [], ◌∷◌, ◌++◌, map, str_eq, ◌==◌,
  find_first, update_where, if◌then◌else◌,
}
use smart_parcel_station.Json.{Json, null, text, object, Fields, end, entry, get, put, truthy}
use smart_parcel_station.Session.{Action, pure, gets, draw, modify, when, ◌>>=◌, ◌>>◌}
use smart_parcel_station.Runtime.{Runtime}
use smart_parcel_station.Server.Payload.{str_of_json, lift}
use smart_parcel_station.Gateway.Enums.{CredentialStatus}
use smart_parcel_station.Gateway.Entities.{LocalDb, LocalNfcCredential}
use smart_parcel_station.Gateway.Outside.{Outside}
use smart_parcel_station.Gateway.Sync.{enqueue_new_event}
use smart_parcel_station.Gateway.Inbox.Read.{
  get_or, value_of, must, column_text, not_null, credential_status, credential_type, parse_datetime,
}

-- in `{LOST, REPLACED, DISABLED}`
abbrev pub is_terminal : CredentialStatus → Bool
is_terminal CredentialStatus.lost = true
is_terminal CredentialStatus.replaced = true
is_terminal CredentialStatus.disabled = true
is_terminal _ = false

abbrev pub is_on : CredentialStatus → Bool
is_on CredentialStatus.active = true
is_on _ = false

-- `credential_value == value`, where `None` compares as IS NULL
abbrev pub has_value : Option String → LocalNfcCredential → Bool
has_value none c = false
has_value (some value) c = str_eq c.credential_value value

abbrev pub find_credential : Option String → LocalDb → Option LocalNfcCredential
find_credential value db = find_first (has_value value) db.local_nfc_credentials

abbrev pub set_credential : ℕ → (LocalNfcCredential → LocalNfcCredential) → LocalDb → LocalDb
set_credential id f db = record db {
  local_nfc_credentials = update_where (λ c. c.id == id) f db.local_nfc_credentials;
}

-- the assignments of a DISABLED event
abbrev pub retired : CredentialStatus → Option String → ℕ → LocalNfcCredential → LocalNfcCredential
retired CredentialStatus.replaced reason now c = record c {
  status = CredentialStatus.replaced;
  reason = reason;
  last_synced_at = some now;
  replaced_at = some now;
}
retired CredentialStatus.lost reason now c = record c {
  status = CredentialStatus.lost;
  reason = reason;
  last_synced_at = some now;
  lost_reported_at = some now;
}
retired status reason now c = record c {
  status = status;
  reason = reason;
  last_synced_at = some now;
  disabled_at = some now;
}

-- by the row with this value
unfoldable pub retire_credential :
    Fields → ℕ → Option LocalNfcCredential → Action LocalDb (Unit {0})
retire_credential payload now none = pure tt
retire_credential payload now (some row) = do
  status ← lift (credential_status (get_or "status" (text "DISABLED") payload))
  reason ← lift (column_text (get "reason" payload))
  modify (set_credential row.id (retired status reason now))

-- USER_ACCESS_CREDENTIAL_DISABLED
unfoldable pub credential_disabled : Fields → ℕ → Action LocalDb (Unit {0})
credential_disabled payload now = do
  value ← lift (must "credential_value" payload)
  key ← lift (column_text (some value))
  row ← gets (find_credential key)
  retire_credential payload now row

-- `payload.get("old_credential_value") or payload.get("credential_value")`
unfoldable pub old_value : Fields → Option Json
old_value payload =
    let old = get "old_credential_value" payload in
    if truthy old then old else get "credential_value" payload

abbrev pub with_value : Json → String → Fields → Fields
with_value value status payload = put "status" (text status) (put "credential_value" value payload)

module _ (rt : Runtime) (out : Outside) (station_id : String) where
  abbrev id_text : Option Json → Option String
  id_text none = none
  id_text (some null) = none
  id_text (some v) = some (str_of_json rt v)

  -- the row of a card that is new
  unfoldable pub add_credential :
      Fields → ℕ → Option String → CredentialStatus → Action LocalDb (Unit {0})
  add_credential payload now key status = do
    kind ← lift (credential_type (get_or "credential_type" (text "CARD_UID") payload))
    user_id ← lift (must "user_id" payload)
    expires_at ← lift (parse_datetime rt out (get "expires_at" payload))
    value ← lift (not_null key)
    modify (λ db. record db {
      local_nfc_credentials =
          db.local_nfc_credentials
          ++ record {
            id = rt.next_id (map (λ c. c.id) db.local_nfc_credentials);
            credential_type = kind;
            credential_value = value;
            user_id = some (str_of_json rt user_id);
            station_id = str_of_json rt (get_or "station_id" (text station_id) payload);
            expires_at = expires_at;
            status = status;
            server_credential_id = id_text (get "id" payload);
            credential_hash = none;
            replaced_by_value = none;
            lost_reported_at = none;
            replaced_at = none;
            disabled_at = none;
            reason = none;
            last_synced_at = some now;
          }
            ∷ [];
    })

  -- the assignments of an UPSERT event to a row that is there
  unfoldable pub refresh_credential :
      Fields → ℕ → LocalNfcCredential → CredentialStatus → Action LocalDb (Unit {0})
  refresh_credential payload now row status = do
    user_id ← lift (must "user_id" payload)
    expires_at ← lift (parse_datetime rt out (get "expires_at" payload))
    modify (
        set_credential row.id (λ c. record c {
          user_id = some (str_of_json rt user_id);
          station_id = str_of_json rt (get_or "station_id" (text station_id) payload);
          status = status;
          expires_at = expires_at;
          last_synced_at = some now;
        }))

  -- by the row with this value: a card that is lost, replaced or disabled is not made active
  unfoldable pub put_credential :
      Fields
      → ℕ
      → Option String
      → CredentialStatus
      → Option LocalNfcCredential
      → Action LocalDb (Unit {0})
  put_credential payload now key status none = add_credential payload now key status
  put_credential payload now key status (some row) =
      if is_terminal row.status && is_on status
      then pure tt
      else refresh_credential payload now row status

  -- USER_ACCESS_CREDENTIAL_UPSERT
  unfoldable pub credential_upsert : Fields → ℕ → Action LocalDb (Unit {0})
  credential_upsert payload now = do
    value ← lift (must "credential_value" payload)
    key ← lift (column_text (some value))
    row ← gets (find_credential key)
    status ← lift (credential_status (get_or "status" (text "ACTIVE") payload))
    put_credential payload now key status row

  -- `_hash`
  abbrev hash_of : Option Json → String
  hash_of v = rt.sha256 (if truthy v then str_of_json rt (value_of v) else "")

  -- the event again as DISABLED of the old card, where there is one
  unfoldable pub retire_old : Fields → Action LocalDb (Unit {0})
  retire_old payload = when (truthy (old_value payload)) (
      draw rt.clock
      >>= credential_disabled (with_value (value_of (old_value payload)) "REPLACED" payload))

  -- the event again as UPSERT of the new card, where there is one
  unfoldable pub admit_new : Fields → Action LocalDb (Unit {0})
  admit_new payload = when (truthy (get "new_credential_value" payload)) (
      draw rt.clock
      >>= credential_upsert
          (with_value (value_of (get "new_credential_value" payload)) "ACTIVE" payload))

  -- USER_ACCESS_CREDENTIAL_REPLACED
  unfoldable pub credential_replaced : Fields → Action LocalDb (Unit {0})
  credential_replaced payload = do
    let old = old_value payload
    let new = get "new_credential_value" payload
    retire_old payload
    admit_new payload
    _ ← enqueue_new_event rt out (
        entry "event_type" (text "GATE_CARD_REPLACED_APPLIED") (
          entry "payload_json"
            (object (
              entry "old_credential_hash" (text (hash_of old)) (
                entry "new_credential_hash" (text (hash_of new))
                  (entry "station_id" (text station_id) end))))
            end))
    pure tt
