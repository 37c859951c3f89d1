-- ===== src/Gateway/Access/Tests.antt =====
-- An example of a card at a reader.
use smart_parcel_station.Prelude.{
  ℕ, String, none, some, [], ◌∷◌, ◌≡◌, refl, str_eq, find_first, filter, update_where,
}
use smart_parcel_station.Json.{text, end, entry, get}
use smart_parcel_station.Text.{upper, str_of}
use smart_parcel_station.Gateway.Tasks.{create_task, mark_running, mark_done}
use smart_parcel_station.Gateway.Sync.{enqueue_event_upload}
use smart_parcel_station.Gateway.Access.Wake.{wake_parcels}
use smart_parcel_station.Session.{Result, ok, Session, opened}
use smart_parcel_station.Server.Examples.{example_runtime}
use smart_parcel_station.Gateway.Enums.{
  ParcelStatus, BindingStatus, CredentialType, CredentialStatus,
}
use smart_parcel_station.Gateway.Entities.{
  LocalDb, LocalParcel, LocalParcelTagBinding, LocalNfcCredential,
}
use smart_parcel_station.Gateway.Access.{
  Access, granted, Grant, normalize_credential_type, choose_session_color,
  record_local_pickup_event, enqueue_audit, join,
}
use smart_parcel_station.Gateway.Access.Card.{
  admit_type, admit_card, admit, grant_access, handle_access_card,
}
use smart_parcel_station.Gateway.Access.Complete.{IsAnswered, handle_access_card-IsAnswered}
use smart_parcel_station.Gateway.Access.Granted.{IsAdmitted, handle_access_card-granted}
use smart_parcel_station.Gateway.Examples.{example_outside, empty_db}

abbrev parcel : ℕ → String → LocalParcel
parcel id code = record {
  id = id;
  server_parcel_id = code;
  parcel_code = code;
  pickup_code = none;
  receiver_user_id = some "U1";
  receiver_phone = none;
  receiver_name_masked = none;
  shelf_code = none;
  origin = "SERVER_MANUAL";
  sync_status = "SYNCED";
  station_id = "7";
  status = ParcelStatus.waiting_pickup;
  server_updated_at = none;
  local_updated_at = 0;
}

abbrev binding : LocalParcelTagBinding
binding = record {
  id = 1;
  server_binding_id = none;
  pickup_binding_id = "B1";
  server_parcel_id = "P1";
  tag_id = "T1";
  station_id = "7";
  status = BindingStatus.active;
  released_at = none;
  release_reason = none;
  last_wake_session_id = none;
  last_wake_color = none;
  last_wake_at = none;
}

abbrev card : LocalNfcCredential
card = record {
  id = 1;
  credential_type = CredentialType.card_uid;
  credential_value = "AA";
  user_id = some "U1";
  station_id = "7";
  expires_at = none;
  status = CredentialStatus.active;
  server_credential_id = none;
  credential_hash = none;
  replaced_by_value = none;
  lost_reported_at = none;
  replaced_at = none;
  disabled_at = none;
  reason = none;
  last_synced_at = none;
}

abbrev db : LocalDb
db = record empty_db {
  local_parcels = parcel 1 "P1" ∷ parcel 2 "P2" ∷ [];
  local_parcel_tag_bindings = binding ∷ [];
  local_nfc_credentials = card ∷ [];
}

abbrev answer : Result Access × Session LocalDb
answer =
    handle_access_card example_runtime example_outside "7" "R1" "card_uid" "AA" none (opened db 0)

abbrev grant : Grant
grant = record {
  user_id = some "U1";
  pickup_session_id = "sess_uuid0";
  pickup_count = 2;
  session_color = "BLUE";
  color_display_name = "蓝色";
  shelves = "未上架" ∷ "未上架" ∷ [];
  display_text = "待取2件｜蓝色闪烁｜未上架 未上架";
  items =
      record {
        parcel_code = "P1";
        shelf_code = none;
        tag_id = some "T1";
        wake_result = "OK";
        ble_result = some (entry "result" (text "OK") end);
      }
      ∷ record {
        parcel_code = "P2";
        shelf_code = none;
        tag_id = none;
        wake_result = "NO_ACTIVE_TAG_BINDING";
        ble_result = none;
      }
      ∷ [];
  warnings = "NO_ACTIVE_TAG_BINDING:P2" ∷ [];
}

answer-ok : answer ≡ (ok (granted grant), answer.1)
unfolding handle_access_card admit_type normalize_credential_type str_eq upper admit_card find_first
    admit filter grant_access choose_session_color wake_parcels create_task mark_running get
    mark_done update_where record_local_pickup_event enqueue_audit enqueue_event_upload join str_of
answer-ok = refl

handle_access_card-granted_example :
    (kind : CredentialType) × (card : LocalNfcCredential) × IsAdmitted example_runtime
      example_outside "7" "R1" "card_uid" "AA" db grant kind card
handle_access_card-granted_example =
    handle_access_card-granted example_runtime example_outside "7" "R1" "card_uid" "AA" db 0
      answer-ok

handle_access_card-IsAnswered_example :
    IsAnswered example_runtime example_outside "7" "R1" "card_uid" "AA" answer
handle_access_card-IsAnswered_example =
    handle_access_card-IsAnswered example_runtime example_outside "7" "R1" "card_uid" "AA"
      (opened db 0)
