-- ===== src/Gateway/Inbox/Tests.antt =====
-- Examples of what the server sends to a gateway.
use smart_parcel_station.Prelude.{
  true, false, none, some, List, [], ◌∷◌, ◌≡◌, refl, str_eq, ◌==◌, all, any, find_first, filter,
}
use smart_parcel_station.Text.{upper, str_of}
use smart_parcel_station.Json.{text, array, object, nil, cons, Fields, end, entry, get, put}
use smart_parcel_station.Prelude.Int.{pos}
use smart_parcel_station.Session.{Result, ok, Session, opened, pure, ◌>>=◌}
use smart_parcel_station.Server.Enums.{
  AccessCredentialStatus, GateAuthMethod, SyncDirection, SyncStatus, UserRole,
}
use smart_parcel_station.Server.Enums.Values.{
  access_credential_status_value, gate_auth_method_value,
}
use smart_parcel_station.Server.Models.{GatewaySyncEvent}
use smart_parcel_station.Server.Cards.{credential_payload}
use smart_parcel_station.Server.Sync.Answer.{event_items, pull_answer}
use smart_parcel_station.Server.Examples.{
  example_runtime, example_runtime-AssignsFresh, example_card, example_user,
}
use smart_parcel_station.Gateway.Config.{default_settings}
use smart_parcel_station.Gateway.Enums.{CredentialType, CredentialStatus}
use smart_parcel_station.Gateway.Entities.{LocalDb, LocalNfcCredential}
use smart_parcel_station.Gateway.Access.{granted, Grant}
use smart_parcel_station.Gateway.Access.Card.{handle_access_card}
use smart_parcel_station.Gateway.Examples.{example_outside, empty_db}
use smart_parcel_station.Gateway.Inbox.{
  event_type_of, payload_of, apply_kind, apply_sync_event, apply_item, apply_items, sync_pull_once,
}
use smart_parcel_station.Gateway.Inbox.Read.{
  get_or, must, column_text, iterated, credential_status, member, text_of, found_member,
}
use smart_parcel_station.Gateway.Inbox.Credentials.{credential_disabled, retire_credential}
use smart_parcel_station.Gateway.Inbox.Retired.{IsRetired}
use smart_parcel_station.Gateway.Inbox.GateRequests.{apply_sync_event-gate_payload}
use smart_parcel_station.Gateway.Access.ByUser.{handle_gate_auth_by_user}
use smart_parcel_station.Server.GateAuth.{GateRequest, gate_payload}
use smart_parcel_station.Gateway.Inbox.Kinds.{are_sane}
use smart_parcel_station.Gateway.Inbox.Safety.{
  pull, present, Step, is_sane_step, serve_steps, serve_steps-IsRetired,
}
use smart_parcel_station.Gateway.Inbox.Disabled.{withdrawal, withdrawn_never_admitted}

abbrev card : CredentialStatus → LocalNfcCredential
card status = record {
  id = 1;
  credential_type = CredentialType.card_uid;
  credential_value = "AA";
  user_id = some "1";
  station_id = "7";
  expires_at = none;
  status = status;
  server_credential_id = none;
  credential_hash = none;
  replaced_by_value = none;
  lost_reported_at = none;
  replaced_at = none;
  disabled_at = none;
  reason = none;
  last_synced_at = none;
}

abbrev db : CredentialStatus → LocalDb
db status = record empty_db { local_nfc_credentials = card status ∷ [] }

-- an answer that makes the card active, which comes too late
abbrev late_upsert : Fields
late_upsert =
    entry "events"
      (array (
        cons
          (object (
            entry "event_type" (text "user_access_credential_upsert") (
              entry "payload_json"
                (object (entry "credential_value" (text "AA") (entry "user_id" (text "1") end)))
                end)))
          nil))
      end

abbrev steps : List Step
steps = pull late_upsert ∷ present "R1" "card_uid" "AA" ∷ []

steps_are_sane : all is_sane_step steps ≡ true
unfolding all get_or get iterated event_type_of payload_of upper str_eq credential_status member
    text_of found_member
steps_are_sane = refl

lost-IsRetired : IsRetired "AA" (card CredentialStatus.lost ∷ [])
unfolding any all str_eq
lost-IsRetired = record { keyed = (refl, tt); known = refl; off = refl }

serve_steps-IsRetired_example :
    IsRetired "AA"
      (serve_steps example_runtime example_outside "7" default_settings steps
        (opened (db CredentialStatus.lost) 0)).saved.local_nfc_credentials
serve_steps-IsRetired_example =
    serve_steps-IsRetired example_runtime example_outside "7" default_settings "AA"
      example_runtime-AssignsFresh steps (db CredentialStatus.lost) 0 steps_are_sane lost-IsRetired

abbrev event : GatewaySyncEvent
event = record {
  id = 1;
  event_id = "e1";
  gateway_id = 1;
  station_id = 7;
  event_type = "USER_ACCESS_CREDENTIAL_DISABLED";
  direction = SyncDirection.server_to_gateway;
  payload_json = withdrawal (some "lost") (example_card 1 "AA" AccessCredentialStatus.lost);
  status = SyncStatus.sent;
  retry_count = 0;
}

abbrev pulled : Result Fields × Session LocalDb
pulled =
    sync_pull_once example_runtime example_outside "7" default_settings (pull_answer (event ∷ []))
      (opened (db CredentialStatus.active) 0)

pulled-ok : pulled ≡ (ok (pull_answer (event ∷ [])), pulled.1)
unfolding sync_pull_once get_or get put str_eq iterated event_items apply_items apply_item
    event_type_of payload_of apply_sync_event apply_kind upper credential_payload
    credential_disabled must column_text find_first retire_credential credential_status member
    text_of found_member access_credential_status_value
pulled-ok = refl

only_card :
    filter
      (λ (c : LocalNfcCredential). str_eq c.credential_value "AA")
      (card CredentialStatus.active ∷ [])
    ≡ card CredentialStatus.active ∷ []
unfolding filter str_eq
only_card = refl

abbrev grant : Grant
grant = record {
  user_id = some "1";
  pickup_session_id = "sess_uuid0";
  pickup_count = 1;
  session_color = "BLUE";
  color_display_name = "蓝色";
  shelves = [];
  display_text = "";
  items = [];
  warnings = [];
}

keyed_card : any (λ (c : LocalNfcCredential). c.id == 1) [] ≡ false
unfolding any
keyed_card = refl

nothing_later : are_sane (event_items []) ≡ true
unfolding event_items
nothing_later = refl

withdrawn_never_admitted_example : ¬ (
    handle_access_card example_runtime example_outside "7" "R1" "card_uid" "AA" none (
      opened
        (serve_steps example_runtime example_outside "7" default_settings steps
          (opened pulled.1.saved pulled.1.draws)).saved
        9)
    ≡ (ok (granted grant), opened empty_db 0))
withdrawn_never_admitted_example =
    withdrawn_never_admitted (example_card 1 "AA" AccessCredentialStatus.lost) (some "lost") refl
      example_runtime example_outside "7" default_settings example_runtime-AssignsFresh event []
      steps "R1" "card_uid" (db CredentialStatus.active) 0 9 (card CredentialStatus.active) refl
      refl nothing_later steps_are_sane (keyed_card, tt) only_card pulled-ok

abbrev gate_request : GateRequest
gate_request = record {
  auth_method = GateAuthMethod.gate_qr;
  gateway_code = "GW1";
  station_id = 7;
  reader_id = "R1";
  session_id = some "S1";
  nonce = none;
  gate_nfc_tag_id = none;
  expires_at = pos 2000;
}

apply_sync_event-gate_payload_example :
    apply_sync_event example_runtime example_outside "7" default_settings "GATE_USER_AUTH_REQUESTED"
      (gate_payload (example_user 2 UserRole.user) gate_request "gate_req_1" "2026-01-01")
      (opened (db CredentialStatus.lost) 0)
    ≡ (handle_gate_auth_by_user example_runtime example_outside "7" default_settings.gateway_code
            default_settings.gate_auth_result_ttl_seconds
            (gate_auth_method_value GateAuthMethod.gate_qr)
            "R1"
            (str_of 2)
            (some "gate_req_1")
            (some "S1")
          >>= λ _. pure tt)
        (opened (db CredentialStatus.lost) 1)
apply_sync_event-gate_payload_example =
    apply_sync_event-gate_payload example_runtime example_outside "7" default_settings
      (example_user 2 UserRole.user) gate_request "gate_req_1" "2026-01-01"
      (opened (db CredentialStatus.lost) 0)
