-- ===== src/Gateway/Inbox/Kinds.antt =====
-- Every kind of event leaves a retired card of the gateway retired.
use smart_parcel_station.Prelude.{
  ℕ, String, Bool, true, ◌&&◌, some, ◌≡◌, str_eq, Bool-cases, inl, inr, if◌then◌else◌, arith,
}
use smart_parcel_station.Text.{upper}
use smart_parcel_station.Json.{
  Json, null, flag, number, text, array, object, Items, nil, cons, Fields, get,
}
use smart_parcel_station.Session.{Result, ok, err, Session}
use smart_parcel_station.Runtime.{Runtime, AssignsFresh}
use smart_parcel_station.Server.Payload.{str_of_json}
use smart_parcel_station.Gateway.Config.{Settings}
use smart_parcel_station.Gateway.Entities.{LocalDb}
use smart_parcel_station.Gateway.Outside.{Outside}
use smart_parcel_station.Gateway.Access.ByUser.{handle_gate_auth_by_user}
use smart_parcel_station.Gateway.Inbox.{
  gate_user_auth_requested, apply_kind, apply_sync_event, event_type_of, payload_of, apply_read,
  apply_item, apply_items,
}
use smart_parcel_station.Gateway.Inbox.Read.{get_or, must, column_text, not_null, credential_status}
use smart_parcel_station.Gateway.Inbox.Retired.{is_final, is_not_expired, retired_card}
use smart_parcel_station.Gateway.Inbox.Frame.{
  Holds, After, After-lift, After-continue, handle_gate_auth_by_user-After,
}
use smart_parcel_station.Gateway.Inbox.CardEvents.{
  credential_disabled-After, credential_upsert-After, credential_replaced-After,
}
use smart_parcel_station.Gateway.Inbox.ParcelEvents.{
  parcel_upsert-After, parcel_tag_binding_upsert-After, parcel_pickup_confirmed-After,
}

-- An event by which the server neither lets a card expire nor makes it active as it disables it.
abbrev pub is_sane_kind : String → Fields → Bool
is_sane_kind kind payload =
    if str_eq kind "USER_ACCESS_CREDENTIAL_UPSERT"
    then is_not_expired (credential_status (get_or "status" (text "ACTIVE") payload))
    else if str_eq kind "USER_ACCESS_CREDENTIAL_DISABLED"
    then is_final (credential_status (get_or "status" (text "DISABLED") payload))
    else true

-- such an event where it can be read at all
abbrev pub is_sane_read : Result String → Result Fields → Bool
is_sane_read (ok event_type) (ok payload) = is_sane_kind (upper event_type) payload
is_sane_read _ _ = true

abbrev pub is_sane_event : Json → Bool
is_sane_event (object event) =
    is_sane_read (event_type_of (get_or "event_type" (text "") event))
      (payload_of (get "payload_json" event))
is_sane_event _ = true

abbrev pub are_sane : Items → Bool
are_sane nil = true
are_sane (cons e es) = is_sane_event e && are_sane es

module _ (rt : Runtime) (out : Outside) (station_id : String) (settings : Settings) (value : String)
    (both : Bool) where
  gate_user_auth_requested-After :
      (payload : Fields) (s : Session LocalDb)
      → Holds (retired_card value both) s
      → After
          (retired_card value both)
          (gate_user_auth_requested rt out station_id settings payload s)
  unfolding gate_user_auth_requested
  gate_user_auth_requested-After payload s h =
      After-lift (retired_card value both) (must "auth_method" payload) _ s h (λ method e.
        After-lift (retired_card value both) (column_text (some method)) _ s h (λ auth_method e1.
          After-lift (retired_card value both) (must "reader_id" payload) _ s h (λ reader e2.
            After-lift (retired_card value both) (column_text (some reader)) _ s h (λ reader_id e3.
              After-lift (retired_card value both) (must "user_id" payload) _ s h (λ user e4.
                After-lift (retired_card value both) (column_text (get "request_id" payload)) _ s h
                  (λ request_id e5.
                    After-lift (retired_card value both) (column_text (get "session_id" payload)) _
                      s h
                      (λ session_id e6.
                        After-lift (retired_card value both) (not_null auth_method) _ s h
                          (λ method_text e7.
                            After-lift (retired_card value both) (not_null reader_id) _ s h
                              (λ reader_text e8.
                                After-continue (retired_card value both)
                                  (handle_gate_auth_by_user rt out station_id settings.gateway_code
                                    settings.gate_auth_result_ttl_seconds method_text reader_text
                                    (str_of_json rt user) request_id session_id s)
                                  _
                                  (handle_gate_auth_by_user-After (retired_card value both) rt out
                                    station_id settings.gateway_code
                                    settings.gate_auth_result_ttl_seconds method_text reader_text
                                    (str_of_json rt user) request_id session_id s h)
                                  (λ a t k. k))))))))))

  module _ (fresh : AssignsFresh rt) where
    apply_kind-After :
        (kind : String) (payload : Fields) (now : ℕ) (s : Session LocalDb)
        → is_sane_kind kind payload ≡ true
        → Holds (retired_card value both) s
        → After (retired_card value both) (apply_kind rt out station_id settings kind payload now s)
    unfolding apply_kind
    apply_kind-After kind payload now s sane h =
        elim (Bool-cases (str_eq kind "USER_ACCESS_CREDENTIAL_UPSERT")) [
          | inl a ↦ rw a (
              credential_upsert-After value both rt out station_id fresh payload now s
                (ground (arith, sane)) h)
          | inr a ↦ elim (Bool-cases (str_eq kind "USER_ACCESS_CREDENTIAL_DISABLED")) [
            | inl b ↦
                rw (a, b)
                  (credential_disabled-After value both payload now s (ground (arith, sane)) h)
            | inr b ↦ elim (Bool-cases (str_eq kind "USER_ACCESS_CREDENTIAL_REPLACED")) [
              | inl c ↦
                  rw (a, b, c)
                    (credential_replaced-After value both rt out station_id fresh payload s h)
              | inr c ↦ elim (Bool-cases (str_eq kind "PARCEL_UPSERT")) [
                | inl d ↦
                    rw (a, b, c, d)
                      (parcel_upsert-After (retired_card value both) rt station_id payload now s h)
                | inr d ↦ elim (Bool-cases (str_eq kind "PARCEL_TAG_BINDING_UPSERT")) [
                  | inl e ↦
                      rw (a, b, c, d, e)
                        (parcel_tag_binding_upsert-After (retired_card value both) rt station_id
                          payload s h)
                  | inr e ↦ elim (Bool-cases (str_eq kind "PARCEL_PICKUP_CONFIRMED")) [
                    | inl f ↦
                        rw (a, b, c, d, e, f)
                          (parcel_pickup_confirmed-After (retired_card value both) rt station_id
                            payload now s h)
                    | inr f ↦ elim (Bool-cases (str_eq kind "GATE_USER_AUTH_REQUESTED")) [
                      | inl g ↦
                          rw (a, b, c, d, e, f, g) (gate_user_auth_requested-After payload s h)
                      | inr g ↦ rw (a, b, c, d, e, f, g) h
                    ]
                  ]
                ]
              ]
            ]
          ]
        ]

    apply_read-After :
        (event_type : Result String) (payload : Result Fields) (s : Session LocalDb)
        → is_sane_read event_type payload ≡ true
        → Holds (retired_card value both) s
        → After
            (retired_card value both)
            (apply_read rt out station_id settings event_type payload s)
    unfolding apply_sync_event
    apply_read-After (ok event_type) (ok payload) s sane h =
        apply_kind-After (upper event_type) payload _ _ sane h
    apply_read-After (ok event_type) (err x) s sane h = h
    apply_read-After (err x) payload s sane h = h

    apply_item-After :
        (e : Json) (s : Session LocalDb)
        → is_sane_event e ≡ true
        → Holds (retired_card value both) s
        → After (retired_card value both) (apply_item rt out station_id settings e s)
    unfolding apply_item
    apply_item-After (object event) s sane h = apply_read-After _ _ s sane h
    apply_item-After null s sane h = h
    apply_item-After (flag b) s sane h = h
    apply_item-After (number n) s sane h = h
    apply_item-After (text t) s sane h = h
    apply_item-After (array items) s sane h = h

    pub apply_items-After :
        (es : Items) (s : Session LocalDb)
        → are_sane es ≡ true
        → Holds (retired_card value both) s
        → After (retired_card value both) (apply_items rt out station_id settings es s)
    unfolding apply_items
    apply_items-After nil s sane h = h
    apply_items-After (cons e es) s sane h =
        After-continue (retired_card value both) (apply_item rt out station_id settings e s) _
          (apply_item-After e s (ground (arith, sane)) h)
          (λ u t k. apply_items-After es t (ground (arith, sane)) k)
