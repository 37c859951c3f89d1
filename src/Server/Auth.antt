-- ===== src/Server/Auth.antt =====
-- The authentication of gateway requests: smartparcel-server/app/core/security.py. Log lines are
-- left out. `int(time.time())` is a reading of the clock; the raw body is a text.
pub mod Accept
pub mod Kept
pub mod Audited
pub mod Refused
pub mod Replay
pub mod Tick
mod Tests
use smart_parcel_station.Prelude.{
  ℕ, ◌+◌, ◌-◌, String, Bool, true, false, not, ◌&&◌, ◌||◌, Option, none, some, List, [], ◌∷◌, ◌++◌,
  map, str_eq, is_empty, is_present, or_empty, ◌==◌, ltb, if◌then◌else◌, filter, any,
}
use smart_parcel_station.Prelude.Int.{ℤ, pos, negsuc, ltb_ℤ, sub_ℕ, distance}
use smart_parcel_station.Text.{upper, is_ascii, int_of_text, ◌&◌}
use smart_parcel_station.Json.{Fields, end}
use smart_parcel_station.Session.{
  Error, http, crash, Result, ok, err, Session, Action, pure, raise, gets, draw, modify, rollback,
  or_raise, raise_if, catch, one_or_none, ◌>>=◌, ◌>>◌,
}
use smart_parcel_station.Runtime.{Runtime}
use smart_parcel_station.Server.Models.{Db, Gateway, GatewayNonce, SecurityAuditEvent}
use smart_parcel_station.Server.Config.{Settings}

-- the parts of the HTTP request that the check reads
pub record Request : Type 0 where
  pub method : String
  pub path : String
  pub client_host : Option String
  pub body : String

-- the X-Gateway headers
pub record Headers : Type 0 where
  pub gateway_code : Option String
  pub timestamp : Option String
  pub nonce : Option String
  pub body_sha256 : Option String
  pub signature : Option String

-- `_raise_auth`
abbrev pub unauthorized : String → Error
unauthorized detail = http 401 detail

-- `signing_content`
unfoldable pub signing_content : String → String → String → String → String → String
signing_content method path timestamp nonce body_sha256 =
    upper method & "\n" & path & "\n" & timestamp & "\n" & nonce & "\n" & body_sha256

module _ (rt : Runtime) where
  -- `_record_security_audit`: the row is flushed and not committed
  unfoldable pub record_security_audit :
      String
      → Option String
      → Option String
      → Option String
      → Option String
      → Fields
      → Action Db (Unit {0})
  record_security_audit event_type source_ip gateway_code request_path reason detail = modify (λ db.
      record db {
        security_audit_events =
            db.security_audit_events
            ++ record {
              id = rt.next_id (map (λ a. a.id) db.security_audit_events);
              event_type = event_type;
              source_ip = source_ip;
              gateway_code = gateway_code;
              request_path = request_path;
              reason = reason;
              detail_json = detail;
            }
              ∷ [];
      })

  -- `generate_gateway_signature`
  unfoldable pub generate_gateway_signature :
      String → String → String → String → String → String → String
  generate_gateway_signature secret method path timestamp nonce body_sha256 =
      rt.hmac_sha256 secret (signing_content method path timestamp nonce body_sha256)

  -- `verify_gateway_signature`
  unfoldable pub verify_gateway_signature :
      String → String → String → String → String → String → String → Bool
  unfolding generate_gateway_signature
  verify_gateway_signature secret method path timestamp nonce body_sha256 signature =
      str_eq (generate_gateway_signature secret method path timestamp nonce body_sha256) signature

  -- `validate_gateway_timestamp`
  unfoldable pub validate_gateway_timestamp : String → ℕ → Action Db ℤ
  validate_gateway_timestamp timestamp tolerance = do
    value ← or_raise (int_of_text timestamp) (unauthorized "Invalid gateway timestamp")
    now ← draw rt.clock
    raise_if (ltb tolerance (distance now value)) (unauthorized "Expired gateway timestamp")
    pure value

  -- the `where` of the DELETE: rows from before the cutoff
  abbrev pub is_old : ℕ → ℕ → GatewayNonce → Bool
  is_old now tolerance row = ltb_ℤ row.timestamp (sub_ℕ now tolerance)

  -- the unique constraint on (gateway_id, nonce)
  abbrev pub same_nonce : ℕ → String → GatewayNonce → Bool
  same_nonce gateway_id nonce row = (row.gateway_id == gateway_id) && str_eq row.nonce nonce

  -- the flush of the new row, which may break the unique constraint
  insert_nonce : ℕ → String → ℤ → Bool → Action Db (Unit {0})
  insert_nonce gateway_id nonce timestamp true = do
    rollback
    raise (unauthorized "Replay gateway nonce")
  insert_nonce gateway_id nonce timestamp false = modify (λ db. record db {
    gateway_nonces =
        db.gateway_nonces
        ++ record {
          id = rt.next_id (map (λ n. n.id) db.gateway_nonces);
          gateway_id = gateway_id;
          nonce = nonce;
          timestamp = timestamp;
        }
          ∷ [];
  })

  -- `remember_gateway_nonce`
  unfoldable pub remember_gateway_nonce : ℕ → String → ℤ → ℕ → Action Db (Unit {0})
  unfolding insert_nonce
  remember_gateway_nonce gateway_id nonce timestamp tolerance = do
    now ← draw rt.clock
    modify (λ db. record db {
      gateway_nonces = filter (λ row. not (is_old now tolerance row)) db.gateway_nonces;
    })
    seen ← gets (λ db. any (same_nonce gateway_id nonce) db.gateway_nonces)
    insert_nonce gateway_id nonce timestamp seen

  module _ (settings : Settings) (req : Request) (h : Headers) where
    -- the audit row of a refusal
    note_failure : String → Action Db (Unit {0})
    unfolding record_security_audit
    note_failure reason =
        record_security_audit "gateway_auth_failure" req.client_host h.gateway_code (some req.path)
          (some reason) end

    -- a refusal: the audit row, then the exception
    pub refuse_if : Bool → String → String → Action Db (Unit {0})
    unfolding note_failure
    refuse_if b reason detail s =
        if b then (do note_failure reason; raise (unauthorized detail)) s else (ok tt, s)

    -- `hmac.compare_digest` raises for a header that is not ASCII; one that is equal to a digest in
    -- hexadecimal is
    pub refuse_incomparable : Bool → String → Action Db (Unit {0})
    refuse_incomparable equal header =
        raise_if (not equal && not (is_ascii header)) (crash "TypeError")

    -- `try: m; except HTTPException: audit; raise`
    pub auditing : {A : Type 0} → String → Action Db A → Action Db A
    unfolding note_failure
    auditing reason m = catch m (λ e. do note_failure reason; raise e)

    unfoldable pub has_headers : Bool
    has_headers =
        is_present h.gateway_code
        && is_present h.timestamp
        && is_present h.nonce
        && is_present h.body_sha256
        && is_present h.signature

    -- `if not gateway`
    pub known_gateway : Option Gateway → Action Db Gateway
    unfolding note_failure
    known_gateway none = do note_failure "unknown_gateway"; raise (unauthorized "Gateway not found")
    known_gateway (some gateway) = pure gateway

    abbrev pub is_enabled : Gateway → Bool
    is_enabled gateway = str_eq gateway.status "ACTIVE" || str_eq gateway.status "ONLINE"

    -- `verify_gateway_request`
    unfoldable pub verify_gateway_request : Option String → Action Db Gateway
    unfolding has_headers known_gateway refuse_if refuse_incomparable auditing note_failure
    verify_gateway_request expected = do
      refuse_if (not has_headers) "missing_header" "Missing gateway headers"
      rows ← gets (λ db. filter (λ g. str_eq g.gateway_code (or_empty h.gateway_code)) db.gateways)
      found ← one_or_none rows
      gateway ← known_gateway found
      refuse_if (is_present expected && not (str_eq gateway.gateway_code (or_empty expected)))
          "gateway_code_mismatch" "Gateway code mismatch"
      refuse_if (not (is_enabled gateway)) "gateway_disabled" "Gateway disabled"
      timestamp ← auditing "expired_timestamp" (
          validate_gateway_timestamp (or_empty h.timestamp)
            settings.gateway_signature_tolerance_seconds)
      refuse_incomparable (str_eq (rt.sha256 req.body) (or_empty h.body_sha256))
          (or_empty h.body_sha256)
      refuse_if (not (str_eq (rt.sha256 req.body) (or_empty h.body_sha256))) "invalid_body_hash"
          "Invalid gateway body hash"
      refuse_incomparable
          (verify_gateway_signature gateway.device_secret_hash req.method req.path
            (or_empty h.timestamp) (or_empty h.nonce) (rt.sha256 req.body) (or_empty h.signature))
          (or_empty h.signature)
      refuse_if
          (not (
            verify_gateway_signature gateway.device_secret_hash req.method req.path
              (or_empty h.timestamp) (or_empty h.nonce) (rt.sha256 req.body)
              (or_empty h.signature)))
          "invalid_signature" "Invalid gateway signature"
      auditing "replay_nonce" (
          remember_gateway_nonce gateway.id (or_empty h.nonce) timestamp
            settings.gateway_signature_tolerance_seconds)
      pure gateway
