-- ===== src/Server/Pickup/Tests.antt =====
-- An example of a pickup.
use smart_parcel_station.Prelude.{
  true, false, some, [], ◌≡◌, refl, filter, find_first, str_eq, ◌==◌,
}
use smart_parcel_station.Session.{Result, ok, err, http, Session, opened, for_each}
use smart_parcel_station.Server.Models.{Db, PickupEvent}
use smart_parcel_station.Server.Events.{queue_for, queue_station_event}
use smart_parcel_station.Server.Pickup.{
  picked_up, Confirmation, check_pickup, pickup_event, store_pickup, confirm_parcel, confirm_event,
  pickup_confirm,
}
use smart_parcel_station.Server.Pickup.Confirmed.{IsConfirmed, pickup_confirm-ok}
use smart_parcel_station.Server.Pickup.Repeated.{pickup_confirm-repeated, pickup_confirm-used}
use smart_parcel_station.Server.Examples.{example_runtime, example_parcel, stocked_db}

abbrev first : Result Confirmation × Session Db
first = pickup_confirm example_runtime 1 "E1" "T3" "tok" "B2" (opened stocked_db 0)

abbrev event : PickupEvent
event = pickup_event example_runtime 1 "E1" "T3" "B2" example_parcel []

first-ok : first ≡ (ok (some (picked_up example_parcel), some event, false), first.1)
unfolding pickup_confirm filter confirm_event check_pickup str_eq find_first confirm_parcel
    store_pickup queue_station_event for_each queue_for
first-ok = refl

pickup_confirm-ok_example :
    IsConfirmed example_runtime 1 "E1" "T3" "tok" "B2" stocked_db
      (some (picked_up example_parcel), some event, false)
      first.1
    × (filter (λ e. str_eq e.event_id "E1") stocked_db.pickup_events ≡ [])
pickup_confirm-ok_example =
    pickup_confirm-ok example_runtime 1 "E1" "T3" "tok" "B2" stocked_db 0
      (some (picked_up example_parcel)) (some event) first.1 first-ok

pickup_confirm-repeated_example :
    let (r, u) = pickup_confirm example_runtime 2 "E1" "X" "Y" "Z" (opened first.1.saved 9) in
    (r ≡ ok (find_first (λ p. p.id == event.parcel_id) first.1.saved.parcels, some event, true))
    × (u.saved ≡ first.1.saved)
pickup_confirm-repeated_example =
    pickup_confirm-repeated example_runtime 1 "E1" "T3" "tok" "B2" stocked_db 0
      (some (picked_up example_parcel)) event first.1 first-ok 2 "X" "Y" "Z" 9

no_second : filter (λ e. str_eq e.event_id "E2") first.1.saved.pickup_events ≡ []
unfolding pickup_confirm filter confirm_event check_pickup str_eq find_first confirm_parcel
    store_pickup queue_station_event for_each queue_for
no_second = refl

pickup_confirm-used_example :
    let (r, u) = pickup_confirm example_runtime 1 "E2" "T3" "tok" "B2" (opened first.1.saved 9) in
    (r ≡ err (http 400 "Invalid binding")) × (u.saved ≡ first.1.saved)
pickup_confirm-used_example =
    pickup_confirm-used example_runtime 1 "E1" "T3" "tok" "B2" stocked_db 0
      (some (picked_up example_parcel)) event first.1 first-ok 1 "E2" "T3" "tok" 9 no_second
