-- ===== src/Server/Auth/Audited.antt =====
-- What each step of `verify_gateway_request` leaves, where it refuses and where it does not.
use smart_parcel_station.Prelude.{
  ◌⊎◌, ◌+◌, inl, inr, Bool, true, false, none, refl, sym, ap, ◌∙◌, ℕ, String, Option, some, List,
  [], ◌∷◌, ◌++◌, map, ◌≡◌, str_eq, if◌then◌else◌, arith,
}
use smart_parcel_station.Prelude.Int.{ℤ}
use smart_parcel_station.Json.{end}
use smart_parcel_station.Session.{
  http, ok, err, Result, Session, Action, opened, continue, pure, raise, one_or_none, ◌>>◌,
}
use smart_parcel_station.Runtime.{Runtime}
use smart_parcel_station.Server.Models.{Db, Gateway, SecurityAuditEvent}
use smart_parcel_station.Server.Config.{Settings}
use smart_parcel_station.Server.Auth.{
  Request, Headers, refuse_if, note_failure, auditing, known_gateway, refuse_incomparable,
  record_security_audit, validate_gateway_timestamp, remember_gateway_nonce,
}

-- the reason in the audit row, by the text of the answer
unfoldable pub reason_of : String → String
reason_of detail =
    if str_eq detail "Missing gateway headers"
    then "missing_header"
    else if str_eq detail "Gateway not found"
    then "unknown_gateway"
    else if str_eq detail "Gateway code mismatch"
    then "gateway_code_mismatch"
    else if str_eq detail "Gateway disabled"
    then "gateway_disabled"
    else if str_eq detail "Invalid gateway body hash"
    then "invalid_body_hash"
    else if str_eq detail "Invalid gateway signature"
    then "invalid_signature"
    else if str_eq detail "Replay gateway nonce"
    then "replay_nonce"
    else "expired_timestamp"

module _ (rt : Runtime) (settings : Settings) (req : Request) (h : Headers) where
  -- the audit row of a refusal with this answer
  abbrev pub failure_row : String → Db → SecurityAuditEvent
  failure_row detail db = record {
    id = rt.next_id (map (λ a. a.id) db.security_audit_events);
    event_type = "gateway_auth_failure";
    source_ip = req.client_host;
    gateway_code = h.gateway_code;
    request_path = some req.path;
    reason = some (reason_of detail);
    detail_json = end;
  }

  module _ (db : Db) where
    -- an answer 401, with one audit row that is not committed
    abbrev pub IsAudited : ℕ → String → Session Db → Type 0
    IsAudited code detail t =
        (code ≡ 401)
        × (t.saved ≡ db)
        × (t.work ≡ record db {
          security_audit_events = db.security_audit_events ++ failure_row detail db ∷ [];
        })

    -- from a session without changes, every HTTP error is such an answer
    abbrev Audits : {A : Type 0} → Action Db A → Type 0
    Audits {A} m =
        (n code : ℕ) (detail : String) (t : Session Db)
        → m (opened db n) ≡ (err (http code detail), t)
        → IsAudited code detail t

    -- a step that succeeds changes no table
    abbrev Leaves : {A : Type 0} → Action Db A → Type 0
    Leaves {A} m =
        (n : ℕ) (a : A) (t : Session Db) → m (opened db n) ≡ (ok a, t) → (k : ℕ) × (t ≡ opened db k)

    -- a step and the rest
    pub stage :
        {A B : Type 0} (m : Action Db A) (f : A → Action Db B) (n code : ℕ) {detail : String}
        {t : Session Db}
        → continue (m (opened db n)) f ≡ (err (http code detail), t)
        → Audits m
        → Leaves m
        → ((a : A) (k : ℕ)
            → f a (opened db k) ≡ (err (http code detail), t)
            → IsAudited code detail t)
        → IsAudited code detail t
    stage {A} {B} m f n code {detail} {t} e first left rest = go (m (opened db n)) refl e
      where
        go :
            (r : Result A × Session Db)
            → m (opened db n) ≡ r
            → continue r f ≡ (err (http code detail), t)
            → IsAudited code detail t
        go (err x, s) at done = first n code detail t (at ∙ ground (arith, done))
        go (ok a, s) at done =
            let (k, there) = left n a s at in rest a k (ap (f a) (sym there) ∙ done)

    -- a last step whose value is not used
    pub last_stage :
        {A B : Type 0} (m : Action Db A) (b : B) (n code : ℕ) {detail : String} {t : Session Db}
        → continue (m (opened db n)) (λ _. pure b) ≡ (err (http code detail), t)
        → Audits m
        → IsAudited code detail t
    last_stage {A} {B} m b n code {detail} {t} e first = go (m (opened db n)) refl e
      where
        go :
            (r : Result A × Session Db)
            → m (opened db n) ≡ r
            → continue r (λ _. pure b) ≡ (err (http code detail), t)
            → IsAudited code detail t
        go (err x, s) at done = first n code detail t (at ∙ ground (arith, done))
        go (ok a, s) at done = absurd (ground (arith, done))

    -- an action that notes a reason and raises
    noted :
        (reason detail : String) (n code : ℕ) (found : String) (t : Session Db)
        → reason ≡ reason_of detail
        → ((note_failure rt settings req h reason >> raise {A = Unit {0}} (http 401 detail))
              (opened db n)
            ≡ (err (http code found), t))
        → IsAudited code found t
    unfolding note_failure record_security_audit
    noted reason detail n code found t why e =
        let same : detail ≡ found = ground (arith, e) in
        let row : reason ≡ reason_of found = why ∙ ap reason_of same in
        (ground (arith, e), ground (arith, e), ground (arith, e, row))

    pub refuse_if-Audits :
        (b : Bool) (reason detail : String)
        → reason ≡ reason_of detail
        → Audits (refuse_if rt settings req h b reason detail)
    unfolding refuse_if
    refuse_if-Audits true reason detail why n code found t e =
        noted reason detail n code found t why e
    refuse_if-Audits false reason detail why n code found t e = cc

    pub refuse_if-Leaves :
        (b : Bool) (reason detail : String) → Leaves (refuse_if rt settings req h b reason detail)
    unfolding refuse_if note_failure record_security_audit
    refuse_if-Leaves true reason detail n a t e = absurd (ground (arith, e))
    refuse_if-Leaves false reason detail n a t e = (n, ground (arith, e))

    pub refuse_incomparable-Audits :
        (b : Bool) (header : String) → Audits (refuse_incomparable rt settings req h b header)
    unfolding refuse_incomparable
    refuse_incomparable-Audits b header n code found t e = absurd (ground (arith, e))

    pub refuse_incomparable-Leaves :
        (b : Bool) (header : String) → Leaves (refuse_incomparable rt settings req h b header)
    unfolding refuse_incomparable
    refuse_incomparable-Leaves b header n a t e = (n, ground (arith, e))

    pub one_or_none-Audits : {A : Type 0} (rows : List A) → Audits (one_or_none rows)
    one_or_none-Audits [] n code found t e = absurd (ground (arith, e))
    one_or_none-Audits (x ∷ []) n code found t e = absurd (ground (arith, e))
    one_or_none-Audits (x ∷ y ∷ rows) n code found t e = absurd (ground (arith, e))

    pub one_or_none-Leaves : {A : Type 0} (rows : List A) → Leaves (one_or_none rows)
    one_or_none-Leaves [] n a t e = (n, ground (arith, e))
    one_or_none-Leaves (x ∷ []) n a t e = (n, ground (arith, e))
    one_or_none-Leaves (x ∷ y ∷ rows) n a t e = absurd (ground (arith, e))

    pub known_gateway-Audits :
        (found : Option Gateway) → Audits (known_gateway rt settings req h found)
    unfolding known_gateway reason_of str_eq note_failure record_security_audit
    known_gateway-Audits none n code found t e =
        let same : "Gateway not found" ≡ found = ground (arith, e) in
        let row : "unknown_gateway" ≡ reason_of found = ap reason_of same in
        (ground (arith, e), ground (arith, e), ground (arith, e, row))
    known_gateway-Audits (some g) n code found t e = absurd (ground (arith, e))

    pub known_gateway-Leaves :
        (found : Option Gateway) → Leaves (known_gateway rt settings req h found)
    unfolding known_gateway note_failure record_security_audit
    known_gateway-Leaves none n a t e = absurd (ground (arith, e))
    known_gateway-Leaves (some g) n a t e = (n, ground (arith, e))

    expired_reason :
        (found : String)
        → (found ≡ "Invalid gateway timestamp") ⊎ (found ≡ "Expired gateway timestamp")
        → "expired_timestamp" ≡ reason_of found
    unfolding reason_of str_eq
    expired_reason found (inl invalid) = ap reason_of (sym invalid)
    expired_reason found (inr old) = ap reason_of (sym old)

    timestamp_detail :
        (timestamp : String) (tolerance n code : ℕ) (found : String) (t : Session Db)
        → auditing rt settings req h "expired_timestamp"
            (validate_gateway_timestamp rt timestamp tolerance)
            (opened db n)
          ≡ (err (http code found), t)
        → (found ≡ "Invalid gateway timestamp") ⊎ (found ≡ "Expired gateway timestamp")
    unfolding auditing validate_gateway_timestamp note_failure record_security_audit
    timestamp_detail timestamp tolerance n code found t e = ground (arith, e)

    pub timestamp-Audits :
        (timestamp : String) (tolerance : ℕ)
        → Audits (
            auditing rt settings req h "expired_timestamp"
              (validate_gateway_timestamp rt timestamp tolerance))
    unfolding auditing validate_gateway_timestamp note_failure record_security_audit
    timestamp-Audits timestamp tolerance n code found t e =
        let row = expired_reason found (timestamp_detail timestamp tolerance n code found t e) in
        (ground (arith, e), ground (arith, e), ground (arith, e, row))

    pub timestamp-Leaves :
        (timestamp : String) (tolerance : ℕ)
        → Leaves (
            auditing rt settings req h "expired_timestamp"
              (validate_gateway_timestamp rt timestamp tolerance))
    unfolding auditing validate_gateway_timestamp note_failure record_security_audit
    timestamp-Leaves timestamp tolerance n a t e = (n + 1, ground (arith, e))

    pub nonce-Audits :
        (id : ℕ) (nonce : String) (timestamp : ℤ) (tolerance : ℕ)
        → Audits (
            auditing rt settings req h "replay_nonce"
              (remember_gateway_nonce rt id nonce timestamp tolerance))
    unfolding auditing remember_gateway_nonce reason_of str_eq note_failure record_security_audit
    nonce-Audits id nonce timestamp tolerance n code found t e =
        let same : "Replay gateway nonce" ≡ found = ground (arith, e) in
        let row : "replay_nonce" ≡ reason_of found = ap reason_of same in
        (ground (arith, e), ground (arith, e), ground (arith, e, row))
