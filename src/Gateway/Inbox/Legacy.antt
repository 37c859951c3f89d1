-- ===== src/Gateway/Inbox/Legacy.antt =====
-- The older answer of the server, which lists parcels: the second loop of `sync_pull_once` of
-- smartparcel-gateway/gateway/services/sync_service.py. A text is stored as `column_text` reads it.
use smart_parcel_station.Prelude.{
  String, true, false, Option, none, some, [], ◌∷◌, ◌++◌, map, str_eq, find_first, if◌then◌else◌,
}
use smart_parcel_station.Json.{Json, text, object, Items, nil, cons, Fields, get, truthy}
use smart_parcel_station.Session.{err, crash, Action, pure, gets, draw, modify, ◌>>=◌, ◌>>◌}
use smart_parcel_station.Runtime.{Runtime}
use smart_parcel_station.Server.Payload.{lift}
use smart_parcel_station.Gateway.Entities.{LocalDb, LocalParcel}
use smart_parcel_station.Gateway.Inbox.Read.{
  get_or, must, column_text, not_null, parcel_status, parcel_status_value,
}
use smart_parcel_station.Gateway.Inbox.Parcels.{set_parcel}

-- the texts of a listed parcel that both branches read
pub record Listed : Type 0 where
  pub pickup_code : Option String
  pub receiver_user_id : Option String
  pub receiver_phone : Option String
  pub receiver_name_masked : Option String
  pub shelf : Option String

-- `p.get("shelf_code") or p.get("shelf")`
abbrev pub shelf_of : Fields → Option Json
shelf_of p = let first = get "shelf_code" p in if truthy first then first else get "shelf" p

unfoldable pub listed : Fields → Action LocalDb Listed
listed p = do
  pickup_code ← lift (column_text (get "pickup_code" p))
  receiver_user_id ← lift (column_text (get "receiver_user_id" p))
  receiver_phone ← lift (column_text (get "receiver_phone" p))
  receiver_name_masked ← lift (column_text (get "receiver_name_masked" p))
  shelf ← lift (column_text (shelf_of p))
  pure (record {
    pickup_code = pickup_code;
    receiver_user_id = receiver_user_id;
    receiver_phone = receiver_phone;
    receiver_name_masked = receiver_name_masked;
    shelf = shelf;
  })

-- a column with a default, which a new row takes for `None`
abbrev or_default : String → Option String → String
or_default default none = default
or_default default (some s) = s

-- `if incoming_shelf is not None`
abbrev kept_shelf : Option String → Option String → Option String
kept_shelf none kept = kept
kept_shelf (some s) kept = some s

module _ (rt : Runtime) (station_id : String) where
  -- the branch of a parcel that is not there
  unfoldable pub add_listed : String → Fields → Action LocalDb (Unit {0})
  add_listed server_parcel_id p = do
    code_json ← lift (must "parcel_code" p)
    code_column ← lift (column_text (some code_json))
    parcel_code ← lift (not_null code_column)
    texts ← listed p
    station_column ← lift (column_text (some (get_or "station_id" (text station_id) p)))
    station ← lift (not_null station_column)
    status ← lift (parcel_status true (get_or "status" (text "CREATED") p))
    origin ← lift (column_text (some (get_or "origin" (text "SERVER_MANUAL") p)))
    sync_status ← lift (column_text (some (get_or "sync_status" (text "SYNCED") p)))
    now ← draw rt.clock
    modify (λ db. record db {
      local_parcels =
          db.local_parcels
          ++ record {
            id = rt.next_id (map (λ r. r.id) db.local_parcels);
            server_parcel_id = server_parcel_id;
            parcel_code = parcel_code;
            pickup_code = texts.pickup_code;
            receiver_user_id = texts.receiver_user_id;
            receiver_phone = texts.receiver_phone;
            receiver_name_masked = texts.receiver_name_masked;
            shelf_code = texts.shelf;
            origin = or_default "LOCAL_ONLY" origin;
            sync_status = or_default "LOCAL_ONLY" sync_status;
            station_id = station;
            status = status;
            server_updated_at = none;
            local_updated_at = now;
          }
            ∷ [];
    })

  -- the branch of a parcel that is there
  unfoldable pub refresh_listed : Fields → LocalParcel → Action LocalDb (Unit {0})
  refresh_listed p row = do
    status ← lift (parcel_status false (get_or "status" (text (parcel_status_value row.status)) p))
    texts ← listed p
    origin_column ← lift (column_text (some (get_or "origin" (text row.origin) p)))
    origin ← lift (not_null origin_column)
    sync_column ← lift (column_text (some (get_or "sync_status" (text row.sync_status) p)))
    sync_status ← lift (not_null sync_column)
    now ← draw rt.clock
    modify (
        set_parcel row.id (λ r. record r {
          status = status;
          pickup_code = texts.pickup_code;
          receiver_user_id = texts.receiver_user_id;
          receiver_phone = texts.receiver_phone;
          receiver_name_masked = texts.receiver_name_masked;
          shelf_code = kept_shelf texts.shelf r.shelf_code;
          origin = origin;
          sync_status = sync_status;
          local_updated_at = now;
        }))

  unfoldable pub put_listed : String → Fields → Option LocalParcel → Action LocalDb (Unit {0})
  put_listed server_parcel_id p none = add_listed server_parcel_id p
  put_listed server_parcel_id p (some row) = refresh_listed p row

  -- the body of the loop
  unfoldable pub pull_parcel : Json → Action LocalDb (Unit {0})
  pull_parcel (object p) = do
    key_json ← lift (must "server_parcel_id" p)
    key_column ← lift (column_text (some key_json))
    server_parcel_id ← lift (not_null key_column)
    found ←
        gets (λ db. find_first (λ r. str_eq r.server_parcel_id server_parcel_id) db.local_parcels)
    put_listed server_parcel_id p found
  pull_parcel _ = lift (err (crash "TypeError"))

  unfoldable pub pull_parcels : Items → Action LocalDb (Unit {0})
  pull_parcels nil = pure tt
  pull_parcels (cons p ps) = do pull_parcel p; pull_parcels ps
