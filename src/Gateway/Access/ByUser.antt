-- ===== src/Gateway/Access/ByUser.antt =====
-- `handle_gate_auth_by_user` of smartparcel-gateway/gateway/services/access_control_service.py.
use smart_parcel_station.Prelude.{
  ℕ, ◌+◌, String, true, Option, none, some, List, [], ◌∷◌, ◌++◌, map, str_eq, ◌==◌, find_first,
  update_where, is_present, or_empty, if◌then◌else◌,
}
use smart_parcel_station.Prelude.Int.{pos}
use smart_parcel_station.Text.{◌&◌}
use smart_parcel_station.Json.{number, text, array, end, entry, texts, opt_text}
use smart_parcel_station.Session.{Action, pure, gets, draw, modify, commit, ◌>>=◌, ◌>>◌}
use smart_parcel_station.Runtime.{Runtime}
use smart_parcel_station.Gateway.Enums.{GateAuthStatus}
use smart_parcel_station.Gateway.Entities.{LocalDb, GateAuthSession}
use smart_parcel_station.Gateway.Outside.{Outside}
use smart_parcel_station.Gateway.Access.{Access, granted, denied, enqueue_audit}
use smart_parcel_station.Gateway.Access.Card.{handle_access_card}

-- what the session takes from the answer
pub record Outcome : Type 0 where
  pub status : GateAuthStatus
  pub audit : String
  pub pickup_count : ℕ
  pub parcel_codes : List String
  pub shelves : List String
  pub session_color : Option String
  pub display_text : String
  pub reason : Option String

unfoldable pub outcome_of : Access → Outcome
outcome_of (granted g) = record {
  status = GateAuthStatus.granted;
  audit = "GATE_AUTH_GRANTED";
  pickup_count = g.pickup_count;
  parcel_codes = map (λ i. i.parcel_code) g.items;
  shelves = g.shelves;
  session_color = some g.session_color;
  display_text = g.display_text;
  reason = none;
}
outcome_of (denied reason display_text) = record {
  status = GateAuthStatus.denied;
  audit = "GATE_AUTH_DENIED";
  pickup_count = 0;
  parcel_codes = [];
  shelves = [];
  session_color = none;
  display_text = display_text;
  reason = some reason;
}

module _ (rt : Runtime) (out : Outside) (station_id gateway_code : String) (ttl : ℕ) where
  -- `session_id or request_id or f"gate_{uuid.uuid4().hex}"`
  unfoldable pub effective_id : Option String → Option String → Action LocalDb String
  effective_id session_id request_id =
      if is_present session_id
      then pure (or_empty session_id)
      else if is_present request_id
      then pure (or_empty request_id)
      else (draw rt.uuid_hex >>= λ uuid. pure ("gate_" & uuid))

  -- the row of the session, or a new one; returns its key
  unfoldable pub find_or_add_session :
      String → String → String → Option GateAuthSession → Action LocalDb ℕ
  find_or_add_session id auth_method reader_id (some row) = pure row.id
  find_or_add_session id auth_method reader_id none = do
    now ← draw rt.clock
    rows ← gets (λ db. db.gate_auth_sessions)
    let key = rt.next_id (map (λ s. s.id) rows)
    modify (λ db. record db {
      gate_auth_sessions =
          db.gate_auth_sessions
          ++ record {
            id = key;
            session_id = id;
            auth_method = auth_method;
            reader_id = reader_id;
            gateway_code = gateway_code;
            station_id = station_id;
            nonce_hash = none;
            challenge_payload = none;
            status = GateAuthStatus.pending;
            user_id = none;
            pickup_count = 0;
            parcel_codes_json = "[]";
            shelves_json = "[]";
            session_color = none;
            display_text = "请刷卡 / 扫码 / 手机 NFC";
            reason = none;
            expires_at = none;
            created_at = now;
            confirmed_at = none;
            consumed_at = none;
            server_request_id = none;
          }
            ∷ [];
    })
    pure key

  -- the assignments to the session
  abbrev pub recorded : Outcome → String → Option String → ℕ → ℕ → GateAuthSession → GateAuthSession
  recorded outcome user_id request_id confirmed expires row = record row {
    status = outcome.status;
    user_id = some user_id;
    pickup_count = outcome.pickup_count;
    parcel_codes_json = out.dumps true (array (texts outcome.parcel_codes));
    shelves_json = out.dumps true (array (texts outcome.shelves));
    session_color = outcome.session_color;
    display_text = outcome.display_text;
    reason = outcome.reason;
    confirmed_at = some confirmed;
    server_request_id = request_id;
    expires_at = some (expires + ttl);
  }

  -- returns the answer with the id of the session
  unfoldable pub handle_gate_auth_by_user :
      String → String → String → Option String → Option String → Action LocalDb (Access × String)
  handle_gate_auth_by_user auth_method reader_id user_id request_id session_id = do
    result ← handle_access_card rt out station_id reader_id auth_method "" (some user_id)
    let outcome = outcome_of result
    id ← effective_id session_id request_id
    found ← gets (λ db. find_first (λ s. str_eq s.session_id id) db.gate_auth_sessions)
    key ← find_or_add_session id auth_method reader_id found
    confirmed ← draw rt.clock
    expires ← draw rt.clock
    modify (λ db. record db {
      gate_auth_sessions =
          update_where (λ s. s.id == key) (recorded outcome user_id request_id confirmed expires)
            db.gate_auth_sessions;
    })
    enqueue_audit rt out station_id outcome.audit (
        entry "reader_id" (text reader_id) (
          entry "auth_method" (text auth_method) (
            entry "request_id" (opt_text request_id) (
              entry "session_id" (text id) (
                entry "user_id" (text user_id) (
                  entry "pickup_count" (number (pos outcome.pickup_count))
                    (entry "reason" (opt_text outcome.reason) end)))))))
    commit
    pure (result, id)
