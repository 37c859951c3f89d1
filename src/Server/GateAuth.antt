-- ===== src/Server/GateAuth.antt =====
-- Requests of users to open a gate: `request_gate_auth` of smartparcel-server/app/services/services.py,
-- with `gate_nfc_confirm` and `gate_qr_confirm` of app/api/v1/endpoints/endpoints.py.
use smart_parcel_station.Prelude.{
  ℕ, String, Bool, true, false, not, ◌&&◌, Option, none, some, str_eq, ◌==◌, opt_is, is_none,
  filter,
}
use smart_parcel_station.Prelude.Int.{ℤ, pos, ltb_ℤ}
use smart_parcel_station.Text.{◌&◌, str_of}
use smart_parcel_station.Json.{Fields, end, entry, text, put}
use smart_parcel_station.Session.{
  http, Action, pure, gets, draw, commit, or_raise, raise_if, one_or_none, ◌>>=◌, ◌>>◌,
}
use smart_parcel_station.Runtime.{Runtime}
use smart_parcel_station.Server.Enums.{UserRole, GateAuthMethod, GatewaySyncEventType}
use smart_parcel_station.Server.Enums.Values.{gate_auth_method_value}
use smart_parcel_station.Server.Models.{Db, User}
use smart_parcel_station.Server.Events.{queue_station_event}

abbrev is_user : UserRole → Bool
is_user UserRole.user = true
is_user _ = false

abbrev is_qr : GateAuthMethod → Bool
is_qr GateAuthMethod.gate_qr = true
is_qr _ = false

abbrev is_nfc_tag : GateAuthMethod → Bool
is_nfc_tag GateAuthMethod.gate_nfc_tag = true
is_nfc_tag _ = false

-- the body of a request
pub record GateRequest : Type 0 where
  pub auth_method : GateAuthMethod
  pub gateway_code : String
  pub station_id : ℕ
  pub reader_id : String
  pub session_id : Option String
  pub nonce : Option String
  pub gate_nfc_tag_id : Option String
  pub expires_at : ℤ

-- `if data.get(key) is not None: payload[key] = data[key]`
abbrev pub put_given : String → Option String → Fields → Fields
put_given key none payload = payload
put_given key (some s) payload = put key (text s) payload

-- the payload of the event
unfoldable pub gate_payload : User → GateRequest → String → String → Fields
gate_payload user req request_id requested_at = put_given "gate_nfc_tag_id" req.gate_nfc_tag_id (
    put_given "nonce" req.nonce (
      put_given "session_id" req.session_id (
        entry "request_id" (text request_id) (
          entry "auth_method" (text (gate_auth_method_value req.auth_method)) (
            entry "user_id" (text (str_of user.id)) (
              entry "station_id" (text (str_of req.station_id)) (
                entry "gateway_code" (text req.gateway_code) (
                  entry "reader_id" (text req.reader_id)
                    (entry "requested_at" (text requested_at) end)))))))))

-- the user belongs to another station
abbrev is_elsewhere : User → ℕ → Bool
is_elsewhere user station_id =
    not (is_none user.station_id) && not (opt_is user.station_id station_id)

module _ (rt : Runtime) where
  unfoldable pub request_gate_auth : User → GateRequest → Action Db String
  request_gate_auth user req = do
    raise_if (not (is_user user.role)) (http 403 "USER role required")
    raise_if (is_elsewhere user req.station_id) (http 403 "User does not belong to this station")
    rows ← gets (λ db.
        filter (λ g. str_eq g.gateway_code req.gateway_code && (g.station_id == req.station_id))
          db.gateways)
    found ← one_or_none rows
    _ ← or_raise found (http 404 "Gateway not found for station")
    checked ← draw rt.clock
    raise_if (is_qr req.auth_method && ltb_ℤ req.expires_at (pos checked))
        (http 400 "QR session has expired")
    uuid ← draw rt.uuid_hex
    let request_id = "gate_req_" & uuid
    requested ← draw rt.clock
    queue_station_event rt req.station_id GatewaySyncEventType.gate_user_auth_requested
        (gate_payload user req request_id (rt.isoformat requested))
    commit
    pure request_id

  -- the two endpoints, which return the id of the request
  unfoldable pub gate_nfc_confirm : User → GateRequest → Action Db String
  gate_nfc_confirm user req = do
    raise_if (not (is_nfc_tag req.auth_method)) (http 400 "auth_method must be GATE_NFC_TAG")
    request_gate_auth user req

  unfoldable pub gate_qr_confirm : User → GateRequest → Action Db String
  gate_qr_confirm user req = do
    raise_if (not (is_qr req.auth_method)) (http 400 "auth_method must be GATE_QR")
    request_gate_auth user req
