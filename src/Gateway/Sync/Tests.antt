-- ===== src/Gateway/Sync/Tests.antt =====
-- An example of a push.
use smart_parcel_station.Prelude.{ℕ, [], ◌∷◌, ◌≡◌, refl, any}
use smart_parcel_station.Session.{ok, opened}
use smart_parcel_station.Server.Examples.{example_runtime}
use smart_parcel_station.Gateway.Enums.{SyncDirection, SyncQueueStatus}
use smart_parcel_station.Gateway.Entities.{LocalDb, SyncQueue}
use smart_parcel_station.Gateway.Sync.{sync_push_once}
use smart_parcel_station.Gateway.Sync.Push.{IsKeyed, pushed, taken_count, sync_push_once_lem}
use smart_parcel_station.Gateway.Examples.{example_outside, empty_db}

abbrev row : ℕ → SyncQueueStatus → SyncQueue
row id status = record {
  id = id;
  event_id = "e";
  direction = SyncDirection.upload;
  payload_json = "{}";
  status = status;
  retry_count = 0;
}

abbrev db : LocalDb
db = record empty_db {
  sync_queue =
      row 1 SyncQueueStatus.pending
      ∷ row 2 SyncQueueStatus.acked
      ∷ row 3 SyncQueueStatus.failed
      ∷ [];
}

db-IsKeyed : IsKeyed db.sync_queue
unfolding any
db-IsKeyed = (refl, (refl, (refl, tt)))

sync_push_once_lem_example :
    let (r, t) = sync_push_once example_runtime example_outside (opened db 0) in
    (r ≡ ok (taken_count example_runtime example_outside 0 db.sync_queue))
    × (t.saved.sync_queue ≡ pushed example_runtime example_outside 0 db.sync_queue)
sync_push_once_lem_example = sync_push_once_lem example_runtime example_outside db 0 db-IsKeyed

pushed_example :
    pushed example_runtime example_outside 0 db.sync_queue
    ≡ row 1 SyncQueueStatus.acked
      ∷ row 2 SyncQueueStatus.acked
      ∷ record (row 3 SyncQueueStatus.failed) { retry_count = 1 }
      ∷ []
unfolding pushed
pushed_example = refl
