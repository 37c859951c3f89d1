-- ===== src/Gateway/Inbox/GateRequests.antt =====
-- A user's request to open a gate, from the server to the gateway.
use smart_parcel_station.Prelude.{◌+◌, String, Option, none, some, ◌≡◌, refl, str_eq}
use smart_parcel_station.Json.{get, put}
use smart_parcel_station.Session.{Session, pure, ◌>>=◌}
use smart_parcel_station.Text.{str_of, upper}
use smart_parcel_station.Runtime.{Runtime}
use smart_parcel_station.Server.Enums.Values.{gate_auth_method_value}
use smart_parcel_station.Server.Models.{User}
use smart_parcel_station.Server.Payload.{str_of_json}
use smart_parcel_station.Server.GateAuth.{GateRequest, gate_payload}
use smart_parcel_station.Gateway.Config.{Settings}
use smart_parcel_station.Gateway.Entities.{LocalDb}
use smart_parcel_station.Gateway.Outside.{Outside}
use smart_parcel_station.Gateway.Access.ByUser.{handle_gate_auth_by_user}
use smart_parcel_station.Gateway.Inbox.{gate_user_auth_requested, apply_kind, apply_sync_event}
use smart_parcel_station.Gateway.Inbox.Read.{must, column_text, not_null}

module _ (rt : Runtime) (out : Outside) (station_id : String) (settings : Settings) where
  -- The payload that the server queues for a user's request makes a gateway decide about exactly that
  -- request: `apply_sync_event` runs `handle_gate_auth_by_user` with the method, the reader, the user,
  -- the id of the request and the session, if one is named, of the request, and nothing else.
  pub apply_sync_event-gate_payload :
      (user : User) (req : GateRequest) (request_id requested_at : String) (s : Session LocalDb)
      → apply_sync_event rt out station_id settings "GATE_USER_AUTH_REQUESTED"
          (gate_payload user req request_id requested_at)
          s
        ≡ (handle_gate_auth_by_user rt out station_id settings.gateway_code
                settings.gate_auth_result_ttl_seconds
                (gate_auth_method_value req.auth_method)
                req.reader_id
                (str_of user.id)
                (some request_id)
                req.session_id
              >>= λ _. pure tt)
            (record s { draws = s.draws + 1 })
  unfolding apply_sync_event apply_kind upper str_eq gate_user_auth_requested gate_payload get put
      must column_text not_null str_of_json
  apply_sync_event-gate_payload user req request_id requested_at s =
      by_given req.session_id req.nonce req.gate_nfc_tag_id
    where
      by_given :
          (session nonce tag : Option String)
          → apply_sync_event rt out station_id settings "GATE_USER_AUTH_REQUESTED"
              (gate_payload user
                (record req { session_id = session; nonce = nonce; gate_nfc_tag_id = tag })
                request_id
                requested_at)
              s
            ≡ (handle_gate_auth_by_user rt out station_id settings.gateway_code
                    settings.gate_auth_result_ttl_seconds
                    (gate_auth_method_value req.auth_method)
                    req.reader_id
                    (str_of user.id)
                    (some request_id)
                    session
                  >>= λ _. pure tt)
                (record s { draws = s.draws + 1 })
      by_given none none none = refl
      by_given none none (some t) = refl
      by_given none (some n) none = refl
      by_given none (some n) (some t) = refl
      by_given (some i) none none = refl
      by_given (some i) none (some t) = refl
      by_given (some i) (some n) none = refl
      by_given (some i) (some n) (some t) = refl
