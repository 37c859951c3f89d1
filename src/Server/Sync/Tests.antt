-- ===== src/Server/Sync/Tests.antt =====
-- Examples of the mailboxes and of a push that is sent again.
use smart_parcel_station.Prelude.{ℕ, List, [], ◌∷◌, ◌++◌, ◌≡◌, refl, filter, str_eq, length, any}
use smart_parcel_station.Json.{end, entry, text, get, truthy}
use smart_parcel_station.Session.{Result, ok, Session, opened}
use smart_parcel_station.Server.Enums.{GatewaySyncEventType}
use smart_parcel_station.Server.Models.{Db}
use smart_parcel_station.Server.Sync.{SyncPushItem, gateway_push_sync, push_items, push_item}
use smart_parcel_station.Server.Sync.Apply.{
  apply_gateway_business_event, apply_gateway_pickup_event, is_among, find_picked, pick_up,
  store_gateway_pickup, pickup_event_id,
}
use smart_parcel_station.Server.Payload.{text_value, truthy_text}
use smart_parcel_station.Text.{upper}
use smart_parcel_station.Server.Sync.Mailbox.{
  Step, post, pull, mailbox, run, all_posted, all_delivered, run-mailbox,
}
use smart_parcel_station.Server.Sync.Push.{gateway_push_sync-again}
use smart_parcel_station.Server.Examples.{example_runtime, example_db, stocked_db}

abbrev steps : List Step
steps =
    post 7 GatewaySyncEventType.parcel_upsert (entry "a" (text "1") end)
    ∷ pull 2
    ∷ post 8 GatewaySyncEventType.parcel_upsert (entry "a" (text "2") end)
    ∷ pull 1
    ∷ post 7 GatewaySyncEventType.parcel_upsert (entry "a" (text "3") end)
    ∷ []

run-mailbox_example :
    mailbox 1 (example_db []) ++ all_posted 1 example_runtime (example_db []).gateways steps
    ≡ all_delivered 1 example_runtime steps (opened (example_db []) 0)
      ++ mailbox 1 (run 1 example_runtime steps (opened (example_db []) 0)).saved
run-mailbox_example = run-mailbox 1 example_runtime steps (example_db []) 0

abbrev pushed : List SyncPushItem
pushed =
    record {
      event_id = "X1";
      event_type = "OFFLINE_PICKUP";
      payload_json = entry "parcel_code" (text "P5") end;
    }
    ∷ record { event_id = "X1"; event_type = "GATEWAY_LOCAL_PICKUP"; payload_json = end }
    ∷ []

abbrev outcome : Result (ℕ × ℕ) × Session Db
outcome = gateway_push_sync example_runtime 1 7 pushed (opened stocked_db 0)

outcome-ok : outcome ≡ (ok (1, 1), outcome.1)
unfolding gateway_push_sync push_items push_item apply_gateway_business_event
    apply_gateway_pickup_event filter str_eq is_among upper text_value get find_picked pick_up
    store_gateway_pickup pickup_event_id any truthy_text truthy
outcome-ok = refl

gateway_push_sync-again_example :
    let (r', u) = gateway_push_sync example_runtime 1 7 pushed (opened outcome.1.saved 5) in
    (2 ≡ length pushed) × (r' ≡ ok (0, length pushed)) × (u.saved ≡ outcome.1.saved)
gateway_push_sync-again_example =
    gateway_push_sync-again example_runtime 1 7 pushed stocked_db 0 5 outcome-ok
