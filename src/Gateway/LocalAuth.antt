-- ===== src/Gateway/LocalAuth.antt =====
-- Who may call the gateway's local API: smartparcel-gateway/gateway/local_api_auth.py. The writes of the
-- audit rows succeed. Every function opens a session of its own and commits in it.
pub mod Allowed
pub mod Issued
mod Tests
use Prim.Native.Char.{code}
use Prim.Native.String
use text.Mathlib.Text.{starts_with}
use smart_parcel_station.Prelude.{
  ℕ, ◌+◌, String, Bool, true, false, not, ◌&&◌, ◌||◌, Option, none, some, List, [], ◌∷◌, ◌++◌, map,
  str_eq, is_empty, is_none, or_empty, ltb, leb, if◌then◌else◌, any, find_first,
}
use smart_parcel_station.Text.{strip, is_ascii, str_of}
use smart_parcel_station.Session.{
  http, crash, Error, Action, pure, raise, gets, draw, modify, commit, raise_if, ◌>>=◌, ◌>>◌,
}
use smart_parcel_station.Runtime.{Runtime}
use smart_parcel_station.Gateway.Config.{Settings, is_unbound}
use smart_parcel_station.Gateway.Entities.{LocalDb, GatewaySecurityAudit, LocalApiSession}

abbrev pub unbound_allowed_prefixes : List String
unbound_allowed_prefixes = "/local/health" ∷ "/local/provisioning/" ∷ []

abbrev pub auth_required_prefixes : List String
auth_required_prefixes = "/local/tags" ∷ "/local/gate" ∷ []

-- what the functions read of a request; `none` is a header that is missing
pub record LocalRequest : Type 0 where
  pub path : String
  pub client_host : Option String
  pub authorization : Option String
  pub x_gate_reader_id : Option String
  pub x_gate_reader_token : Option String

-- the dicts that `validate_local_session` returns
pub data LocalAuth : Type 0 where
  public_access : String → LocalAuth
  session_access : String → String → LocalAuth

-- the dict that `validate_gate_reader_auth` returns
pub record ReaderAuth : Type 0 where
  pub authenticated : Bool
  pub reader_id : String

-- `any(path.startswith(prefix) for prefix in …)`
abbrev pub has_prefix : List String → String → Bool
has_prefix prefixes path = any (λ prefix. starts_with path prefix) prefixes

-- `auth_header[len("Bearer "):].strip()`
unfoldable pub bearer_token : String → String
bearer_token header = strip (String.slice header 7 (String.len header))

module _ (rt : Runtime) where
  -- the row that `_write_audit` adds
  abbrev pub audit_row :
      String → Option String → String → String → List GatewaySecurityAudit → GatewaySecurityAudit
  audit_row event_type source_ip reason request_path rows = record {
    id = rt.next_id (map (λ a. a.id) rows);
    event_type = event_type;
    source_ip = source_ip;
    actor_type = none;
    actor_id = none;
    request_path = some request_path;
    reason = some reason;
    detail_json = none;
  }

  -- `_write_audit`
  unfoldable pub write_audit : String → Option String → String → String → Action LocalDb (Unit {0})
  write_audit event_type source_ip reason request_path = do
    modify (λ db. record db {
      gateway_security_audit =
          db.gateway_security_audit
          ++ audit_row event_type source_ip reason request_path db.gateway_security_audit ∷ [];
    })
    commit

  -- the insertion of a session, which the unique hash may refuse
  unfoldable pub add_session : LocalApiSession → Bool → Action LocalDb (Unit {0})
  add_session session true = pure tt
  add_session session false = do
    modify (λ db. record db { local_api_sessions = db.local_api_sessions ++ session ∷ [] })
    commit

  abbrev pub new_session :
      Settings → String → Option String → String → ℕ → List LocalApiSession → LocalApiSession
  new_session settings role source_ip plain now rows = record {
    id = rt.next_id (map (λ s. s.id) rows);
    session_token_hash = rt.sha256 plain;
    role = role;
    source_ip = source_ip;
    expires_at = now + settings.local_api_token_ttl_seconds;
    revoked_at = none;
  }

  unfoldable pub generate_local_session_token :
      Settings → String → Option String → Action LocalDb String
  generate_local_session_token settings role source_ip = do
    plain ← draw (λ n. rt.token_urlsafe n 32)
    now ← draw rt.clock
    rows ← gets (λ db. db.local_api_sessions)
    add_session (new_session settings role source_ip plain now rows)
        (any (λ s. str_eq s.session_token_hash (rt.sha256 plain)) rows)
    pure plain

  module _ (settings : Settings) (req : LocalRequest) where
    -- an audit row, then the exception
    unfoldable pub refuse : {A : Type 0} → String → String → Error → Action LocalDb A
    refuse event_type reason error = do
      write_audit event_type req.client_host reason req.path
      raise error

    -- the last test, at the time that is read after the others
    unfoldable pub check_expiry : LocalApiSession → ℕ → Action LocalDb LocalAuth
    check_expiry row now =
        if ltb row.expires_at now
        then refuse "local_auth_failed" "token_expired" (http 401 "Session token has expired")
        else pure (session_access row.role (str_of row.id))

    -- the tests of the row
    unfoldable pub check_session : Option LocalApiSession → Action LocalDb LocalAuth
    check_session none =
        refuse "local_auth_failed" "unknown_token" (http 401 "Invalid or expired session token")
    check_session (some row) =
        if not (is_none row.revoked_at)
        then refuse "local_auth_failed" "token_revoked" (http 401 "Session token has been revoked")
        else (draw rt.clock >>= check_expiry row)

    -- from `token_hash` on
    unfoldable pub check_token : String → Action LocalDb LocalAuth
    check_token token =
        if is_empty token
        then refuse "local_auth_failed" "empty_token" (http 401 "Empty token")
        else (gets (λ db.
              find_first (λ s. str_eq s.session_token_hash (rt.sha256 token)) db.local_api_sessions)
            >>= check_session)

    unfoldable pub validate_local_session : Action LocalDb LocalAuth
    validate_local_session =
        if has_prefix unbound_allowed_prefixes req.path
        then pure (public_access "unbound_public_path")
        else if is_unbound settings
        then refuse "local_api_unauthorized" "unbound_gateway_blocked" (
            http 403
              "Gateway is unbound. Only /local/health and /local/provisioning/* are available.")
        else if not (has_prefix auth_required_prefixes req.path)
        then pure (public_access "public_path")
        else if not (starts_with (or_empty req.authorization) "Bearer ")
        then refuse "local_auth_failed" "missing_bearer_token"
            (http 401 "Authorization header required: Bearer <token>")
        else check_token (bearer_token (or_empty req.authorization))

    -- `hmac.compare_digest` of two texts raises where one is not ASCII
    abbrev pub compare_digest : String → String → Action LocalDb Bool
    compare_digest a b =
        if is_ascii a && is_ascii b then pure (str_eq a b) else raise (crash "TypeError")

    -- by whether the credentials are right
    unfoldable pub admit_reader : Bool → Action LocalDb ReaderAuth
    admit_reader false =
        refuse "gate_reader_auth_failed" "invalid_reader_credentials"
          (http 401 "Invalid gate reader credentials")
    admit_reader true =
        pure (record { authenticated = true; reader_id = or_empty req.x_gate_reader_id })

    unfoldable pub validate_gate_reader_auth : Action LocalDb ReaderAuth
    validate_gate_reader_auth =
        let reader_id = or_empty req.x_gate_reader_id in
        let token = or_empty req.x_gate_reader_token in
        if is_unbound settings
        then raise (http 403 "Gateway is unbound")
        else if not settings.gate_reader_auth_enabled
        then pure (record {
          authenticated = false;
          reader_id = if is_empty reader_id then settings.gate_reader_id else reader_id;
        })
        else if not (str_eq reader_id settings.gate_reader_id) || is_empty token
        then admit_reader false
        else (compare_digest token settings.gate_reader_token >>= admit_reader)
