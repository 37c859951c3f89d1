-- ===== src/Gateway/Inbox/ParcelEvents.antt =====
-- The events of parcels, and the older answer of the server, leave the stored cards of the gateway
-- as they are.
use smart_parcel_station.Prelude.{
  ℕ, String, true, false, Option, none, some, List, [], ◌∷◌, find_first, str_eq, Bool-cases, inl,
  inr,
}
use smart_parcel_station.Json.{
  Json, null, flag, number, text, array, object, Items, nil, cons, Fields, get, is_given,
}
use smart_parcel_station.Session.{Session, for_each}
use smart_parcel_station.Runtime.{Runtime}
use smart_parcel_station.Gateway.Entities.{LocalDb, LocalParcel, LocalTag, LocalParcelTagBinding}
use smart_parcel_station.Gateway.Inbox.Read.{
  get_or, must, column_text, not_null, parcel_status, parcel_status_value, binding_status,
}
use smart_parcel_station.Gateway.Inbox.Frame.{Policy, Holds, After, After-lift, After-continue}
use smart_parcel_station.Gateway.Inbox.Parcels.{
  is_new, is_picked_up, parcel_key, find_or_add_parcel, parcel_upsert, binding_key, bind_tag,
  find_or_add_binding, put_tag, parcel_tag_binding_upsert, idle_tag, release_binding,
  mark_picked_up, parcel_pickup_confirmed,
}
use smart_parcel_station.Gateway.Inbox.Legacy.{
  shelf_of, listed, add_listed, refresh_listed, put_listed, pull_parcel, pull_parcels,
}

module _ (P : Policy) (rt : Runtime) (station_id : String) where
  find_or_add_parcel-After :
      (payload : Fields) (now : ℕ) (found : Option LocalParcel) (s : Session LocalDb)
      → Holds P s
      → After P (find_or_add_parcel rt station_id payload now found s)
  unfolding find_or_add_parcel
  find_or_add_parcel-After payload now (some row) s h = h
  find_or_add_parcel-After payload now none s h =
      After-lift P (must "parcel_code" payload) _ s h (λ given e.
        After-lift P (column_text (some given)) _ s h
          (λ column e1. After-lift P (not_null column) _ s h (λ code e2. h)))

  pub parcel_upsert-After :
      (payload : Fields) (now : ℕ) (s : Session LocalDb)
      → Holds P s
      → After P (parcel_upsert rt station_id payload now s)
  unfolding parcel_upsert
  parcel_upsert-After payload now s h =
      let found =
        find_first
          (λ (p : LocalParcel). str_eq p.server_parcel_id (parcel_key rt station_id payload))
          s.work.local_parcels in
      After-continue P (find_or_add_parcel rt station_id payload now found s) _
        (find_or_add_parcel-After payload now found s h)
        (λ row t k.
          After-lift P
            (parcel_status (is_new found)
              (get_or "status" (text (parcel_status_value row.status)) payload))
            _ t k (λ status e. k))

  find_or_add_binding-After :
      (key tag_id : String) (payload : Fields) (found : Option LocalParcelTagBinding)
      (s : Session LocalDb)
      → Holds P s
      → After P (find_or_add_binding rt station_id key tag_id payload found s)
  unfolding find_or_add_binding
  find_or_add_binding-After key tag_id payload (some row) s h = h
  find_or_add_binding-After key tag_id payload none s h = h

  put_tag-After :
      (tag_id : String) (payload : Fields) (found : Option LocalTag) (s : Session LocalDb)
      → Holds P s
      → After P (put_tag rt station_id tag_id payload found s)
  unfolding put_tag
  put_tag-After tag_id payload none s h =
      After-lift P (column_text (some (get_or "encrypted_token" (text "") payload))) _ s h
        (λ token e. h)
  put_tag-After tag_id payload (some tag) s h =
      elim (Bool-cases (is_given (get "encrypted_token" payload))) [
        | inl given ↦ rw given (
            After-lift P (column_text (get "encrypted_token" payload)) _ s h
              (λ column e. After-lift P (not_null column) _ s h (λ token e1. h)))
        | inr missing ↦ rw missing h
      ]

  bind_tag-After :
      (key tag_id : String) (payload : Fields) (found : Option LocalParcelTagBinding)
      (s : Session LocalDb)
      → Holds P s
      → After P (bind_tag rt station_id key tag_id payload found s)
  unfolding bind_tag
  bind_tag-After key tag_id payload found s h =
      After-continue P (find_or_add_binding rt station_id key tag_id payload found s) _
        (find_or_add_binding-After key tag_id payload found s h)
        (λ row t k.
          After-lift P (binding_status (is_new found) (get_or "status" (text "ACTIVE") payload)) _ t
            k (λ status e. put_tag-After tag_id payload _ _ k))

  pub parcel_tag_binding_upsert-After :
      (payload : Fields) (s : Session LocalDb)
      → Holds P s
      → After P (parcel_tag_binding_upsert rt station_id payload s)
  unfolding parcel_tag_binding_upsert
  parcel_tag_binding_upsert-After payload s h =
      After-lift P (binding_key rt station_id payload) _ s h (λ key_json e.
        After-lift P (column_text (some key_json)) _ s h (λ key_column e1.
          After-lift P (not_null key_column) _ s h (λ key e2.
            After-lift P (must "tag_id" payload) _ s h (λ tag_json e3.
              After-lift P (column_text (some tag_json)) _ s h (λ tag_column e4.
                After-lift P (not_null tag_column) _ s h
                  (λ tag_id e5. bind_tag-After key tag_id payload _ s h))))))

  idle_tag-After :
      (found : Option LocalTag) (s : Session LocalDb)
      → Holds P s
      → After P (idle_tag rt station_id found s)
  unfolding idle_tag
  idle_tag-After none s h = h
  idle_tag-After (some tag) s h = h

  release_all-After :
      (now : ℕ) (bindings : List LocalParcelTagBinding) (s : Session LocalDb)
      → Holds P s
      → After P (for_each bindings (release_binding rt station_id now) s)
  unfolding for_each release_binding
  release_all-After now [] s h = h
  release_all-After now (b ∷ bs) s h =
      After-continue P
        (idle_tag rt station_id
          (find_first (λ (t : LocalTag). str_eq t.tag_id b.tag_id) s.work.local_tags) _)
        _ (idle_tag-After _ _ h) (λ u t k. release_all-After now bs t k)

  mark_picked_up-After :
      (found : Option LocalParcel) (s : Session LocalDb)
      → Holds P s
      → After P (mark_picked_up rt station_id found s)
  unfolding mark_picked_up
  mark_picked_up-After none s h = h
  mark_picked_up-After (some parcel) s h = elim (Bool-cases (is_picked_up parcel.status)) [
    | inl done ↦ rw done h
    | inr waits ↦ rw waits h
  ]

  pub parcel_pickup_confirmed-After :
      (payload : Fields) (now : ℕ) (s : Session LocalDb)
      → Holds P s
      → After P (parcel_pickup_confirmed rt station_id payload now s)
  unfolding parcel_pickup_confirmed
  parcel_pickup_confirmed-After payload now s h =
      let found =
        find_first
          (λ (p : LocalParcel). str_eq p.server_parcel_id (parcel_key rt station_id payload))
          s.work.local_parcels in
      After-continue P (mark_picked_up rt station_id found s) _ (mark_picked_up-After found s h)
        (λ u t k. release_all-After now _ t k)

  listed-After : (p : Fields) (s : Session LocalDb) → Holds P s → After P (listed p s)
  unfolding listed
  listed-After p s h = After-lift P (column_text (get "pickup_code" p)) _ s h (λ a e.
      After-lift P (column_text (get "receiver_user_id" p)) _ s h (λ b e1.
        After-lift P (column_text (get "receiver_phone" p)) _ s h (λ c e2.
          After-lift P (column_text (get "receiver_name_masked" p)) _ s h
            (λ d e3. After-lift P (column_text (shelf_of p)) _ s h (λ f e4. h)))))

  add_listed-After :
      (key : String) (p : Fields) (s : Session LocalDb)
      → Holds P s
      → After P (add_listed rt station_id key p s)
  unfolding add_listed
  add_listed-After key p s h = After-lift P (must "parcel_code" p) _ s h (λ code_json e.
      After-lift P (column_text (some code_json)) _ s h (λ code_column e1.
        After-lift P (not_null code_column) _ s h (λ code e2.
          After-continue P (listed p s) _ (listed-After p s h) (λ texts t k.
            After-lift P (column_text (some (get_or "station_id" (text station_id) p))) _ t k
              (λ station_column e3. After-lift P (not_null station_column) _ t k (λ station e4.
                After-lift P (parcel_status true (get_or "status" (text "CREATED") p)) _ t k
                  (λ status e5.
                    After-lift P (column_text (some (get_or "origin" (text "SERVER_MANUAL") p))) _ t
                      k
                      (λ origin e6.
                        After-lift P (column_text (some (get_or "sync_status" (text "SYNCED") p))) _
                          t k (λ sync_status e7. k)))))))))

  refresh_listed-After :
      (p : Fields) (row : LocalParcel) (s : Session LocalDb)
      → Holds P s
      → After P (refresh_listed rt station_id p row s)
  unfolding refresh_listed
  refresh_listed-After p row s h =
      After-lift P (parcel_status false (get_or "status" (text (parcel_status_value row.status)) p))
        _ s h
        (λ status e. After-continue P (listed p s) _ (listed-After p s h) (λ texts t k.
          After-lift P (column_text (some (get_or "origin" (text row.origin) p))) _ t k
            (λ origin_column e1. After-lift P (not_null origin_column) _ t k (λ origin e2.
              After-lift P (column_text (some (get_or "sync_status" (text row.sync_status) p))) _ t
                k (λ column e3. After-lift P (not_null column) _ t k (λ sync_status e4. k))))))

  put_listed-After :
      (key : String) (p : Fields) (found : Option LocalParcel) (s : Session LocalDb)
      → Holds P s
      → After P (put_listed rt station_id key p found s)
  unfolding put_listed
  put_listed-After key p none s h = add_listed-After key p s h
  put_listed-After key p (some row) s h = refresh_listed-After p row s h

  pull_parcel-After :
      (p : Json) (s : Session LocalDb) → Holds P s → After P (pull_parcel rt station_id p s)
  unfolding pull_parcel
  pull_parcel-After (object p) s h = After-lift P (must "server_parcel_id" p) _ s h (λ key_json e.
      After-lift P (column_text (some key_json)) _ s h (λ key_column e1.
        After-lift P (not_null key_column) _ s h (λ key e2. put_listed-After key p _ s h)))
  pull_parcel-After null s h = h
  pull_parcel-After (flag b) s h = h
  pull_parcel-After (number n) s h = h
  pull_parcel-After (text t) s h = h
  pull_parcel-After (array items) s h = h

  pub pull_parcels-After :
      (ps : Items) (s : Session LocalDb) → Holds P s → After P (pull_parcels rt station_id ps s)
  unfolding pull_parcels
  pull_parcels-After nil s h = h
  pull_parcels-After (cons p ps) s h =
      After-continue P (pull_parcel rt station_id p s) _ (pull_parcel-After p s h)
        (λ u t k. pull_parcels-After ps t k)
