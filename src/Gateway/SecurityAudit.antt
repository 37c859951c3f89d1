-- ===== src/Gateway/SecurityAudit.antt =====
-- `SecurityAuditService` of smartparcel-gateway/gateway/services/security_audit_service.py. The write of
-- the row and `json.dumps` succeed.
pub mod Redacted
mod Tests
use Prim.Native.String
use smart_parcel_station.Prelude.{
  ℕ, String, Bool, true, false, ◌||◌, Option, none, some, List, [], ◌∷◌, ◌++◌, map, str_eq,
  is_present, or_empty, ltb, if◌then◌else◌, any,
}
use smart_parcel_station.Text.{◌&◌}
use smart_parcel_station.Json.{Json, null, flag, number, text, array, object, Fields, end, entry}
use smart_parcel_station.Session.{Action, modify, commit, ◌>>=◌, ◌>>◌}
use smart_parcel_station.Runtime.{Runtime}
use smart_parcel_station.Gateway.Entities.{LocalDb, GatewaySecurityAudit}
use smart_parcel_station.Gateway.Outside.{Outside}

abbrev pub sensitive_keys : List String
sensitive_keys =
    "gateway_secret" ∷ "secret" ∷ "password" ∷ "token" ∷ "registration_token" ∷ "pairing_code"
    ∷ "session_token" ∷ "local_api_token" ∷ "one_time_binding_token" ∷ "credential_value"
    ∷ "card_uid" ∷ []

-- `key in sensitive_keys`
unfoldable pub is_sensitive : String → Bool
is_sensitive key = any (λ k. str_eq k key) sensitive_keys

module _ (rt : Runtime) where
  -- a text of more than 64 characters is replaced by the beginning of its hash
  unfoldable pub shorten : Json → Json
  shorten null = null
  shorten (flag b) = flag b
  shorten (number n) = number n
  shorten (text s) =
      if ltb 64 (String.count s) then text (String.slice (rt.sha256 s) 0 16 & "...") else text s
  shorten (array items) = array items
  shorten (object fields) = object fields

  -- the loop of `_safe_detail`
  unfoldable pub safe_fields : Fields → Fields
  safe_fields end = end
  safe_fields (entry key value rest) =
      entry key (if is_sensitive key then text "[REDACTED]" else shorten value) (safe_fields rest)

  module _ (out : Outside) where
    -- `_safe_detail`
    unfoldable pub safe_detail : Option Fields → Option String
    safe_detail none = none
    safe_detail (some payload) = some (out.dumps false (object (safe_fields payload)))

    -- `_hash_value(actor_id) if actor_id else None`
    abbrev pub hash_actor : Option String → Option String
    hash_actor actor_id = if is_present actor_id then some (rt.sha256 (or_empty actor_id)) else none

    -- `SecurityAuditService.record`
    unfoldable pub record_event :
        String
        → Option String
        → Option String
        → Option String
        → Option String
        → Option String
        → Option Fields
        → Action LocalDb (Unit {0})
    record_event event_type source_ip actor_type actor_id request_path reason detail = do
      modify (λ db. record db {
        gateway_security_audit =
            db.gateway_security_audit
            ++ record {
              id = rt.next_id (map (λ a. a.id) db.gateway_security_audit);
              event_type = event_type;
              source_ip = source_ip;
              actor_type = actor_type;
              actor_id = hash_actor actor_id;
              request_path = request_path;
              reason = reason;
              detail_json = safe_detail detail;
            }
              ∷ [];
      })
      commit

    abbrev pub provisioning_started : Option String → Action LocalDb (Unit {0})
    provisioning_started source_ip =
        record_event "provisioning_started" source_ip none none none none none

    abbrev pub provisioning_bind_attempt : Option String → Option Fields → Action LocalDb (Unit {0})
    provisioning_bind_attempt source_ip detail =
        record_event "provisioning_bind_attempt" source_ip none none none none detail

    abbrev pub provisioning_bind_success : Option String → Option Fields → Action LocalDb (Unit {0})
    provisioning_bind_success source_ip detail =
        record_event "provisioning_bind_success" source_ip none none none none detail

    abbrev pub provisioning_bind_failed :
        String → Option String → Option Fields → Action LocalDb (Unit {0})
    provisioning_bind_failed reason source_ip detail =
        record_event "provisioning_bind_failed" source_ip none none none (some reason) detail

    abbrev pub local_auth_success :
        Option String → String → Option String → Action LocalDb (Unit {0})
    local_auth_success source_ip actor_type actor_id =
        record_event "local_auth_success" source_ip (some actor_type) actor_id none none none

    abbrev pub local_auth_failed :
        String → Option String → Option String → Action LocalDb (Unit {0})
    local_auth_failed reason source_ip request_path =
        record_event "local_auth_failed" source_ip none none request_path (some reason) none

    abbrev pub local_api_unauthorized : String → Option String → Action LocalDb (Unit {0})
    local_api_unauthorized request_path source_ip =
        record_event "local_api_unauthorized" source_ip none none (some request_path)
          (some "unbound_gateway_blocked_business_endpoint") none

    abbrev pub heartbeat_success : Action LocalDb (Unit {0})
    heartbeat_success = record_event "heartbeat_success" none none none none none none

    abbrev pub heartbeat_failed : Option String → Action LocalDb (Unit {0})
    heartbeat_failed reason = record_event "heartbeat_failed" none none none none reason none

    abbrev pub server_signature_rejected : Option String → Action LocalDb (Unit {0})
    server_signature_rejected reason =
        record_event "server_signature_rejected" none none none none reason none

    abbrev pub replay_detected : Option String → Option Fields → Action LocalDb (Unit {0})
    replay_detected source_ip detail =
        record_event "replay_detected" source_ip none none none none detail

    abbrev pub suspicious_request :
        String → Option String → Option String → Option Fields → Action LocalDb (Unit {0})
    suspicious_request reason source_ip request_path detail =
        record_event "suspicious_request" source_ip none none request_path (some reason) detail
