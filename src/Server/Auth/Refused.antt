-- ===== src/Server/Auth/Refused.antt =====
-- What `verify_gateway_request` leaves of a request that it refuses.
use smart_parcel_station.Prelude.{
  not, is_present, ◌&&◌, or_empty, filter, Bool, refl, ℕ, String, Option, ◌≡◌, str_eq,
}
use smart_parcel_station.Session.{http, err, Session, Action, opened, continue, one_or_none}
use smart_parcel_station.Runtime.{Runtime}
use smart_parcel_station.Server.Models.{Db, Gateway}
use smart_parcel_station.Server.Config.{Settings}
use smart_parcel_station.Server.Auth.{
  is_enabled, verify_gateway_signature, has_headers, Request, Headers, refuse_if, auditing,
  known_gateway, refuse_incomparable, validate_gateway_timestamp, remember_gateway_nonce,
  verify_gateway_request,
}
use smart_parcel_station.Server.Auth.Audited.{
  reason_of, refuse_if-Audits, refuse_if-Leaves, refuse_incomparable-Audits,
  refuse_incomparable-Leaves, one_or_none-Audits, one_or_none-Leaves, known_gateway-Audits,
  known_gateway-Leaves, timestamp-Audits, timestamp-Leaves, nonce-Audits, stage, last_stage,
  IsAudited,
}

module _ (rt : Runtime) (settings : Settings) (req : Request) (h : Headers) where
  module _ (db : Db) where
    -- a step that refuses
    refuse_stage :
        {B : Type 0} (b : Bool) (reason detail : String) (f : Unit {0} → Action Db B) (n code : ℕ)
        {found : String} {t : Session Db}
        → continue (refuse_if rt settings req h b reason detail (opened db n)) f
          ≡ (err (http code found), t)
        → reason ≡ reason_of detail
        → ((a : Unit {0}) (k : ℕ)
            → f a (opened db k) ≡ (err (http code found), t)
            → IsAudited rt settings req h db code found t)
        → IsAudited rt settings req h db code found t
    refuse_stage b reason detail f n code e why rest =
        stage rt settings req h db (refuse_if rt settings req h b reason detail) f n code e
          (refuse_if-Audits rt settings req h db b reason detail why)
          (refuse_if-Leaves rt settings req h db b reason detail) rest

    incomparable_stage :
        {B : Type 0} (b : Bool) (header : String) (f : Unit {0} → Action Db B) (n code : ℕ)
        {found : String} {t : Session Db}
        → continue (refuse_incomparable rt settings req h b header (opened db n)) f
          ≡ (err (http code found), t)
        → ((a : Unit {0}) (k : ℕ)
            → f a (opened db k) ≡ (err (http code found), t)
            → IsAudited rt settings req h db code found t)
        → IsAudited rt settings req h db code found t
    incomparable_stage b header f n code e rest =
        stage rt settings req h db (refuse_incomparable rt settings req h b header) f n code e
          (refuse_incomparable-Audits rt settings req h db b header)
          (refuse_incomparable-Leaves rt settings req h db b header) rest

  -- A request that is refused with an HTTP error, from a session without changes, is answered with 401. One
  -- audit row is added for it, with the headers' gateway code, the path, the address of the client and the
  -- reason that belongs to the answer, no other table is changed, and nothing is committed: the audit row
  -- too is only in the uncommitted state.
  pub verify_gateway_request-refused :
      (expected : Option String) (db : Db) (n code : ℕ) {detail : String} {t : Session Db}
      → verify_gateway_request rt settings req h expected (opened db n)
        ≡ (err (http code detail), t)
      → IsAudited rt settings req h db code detail t
  unfolding verify_gateway_request reason_of str_eq
  verify_gateway_request-refused expected db n code {detail} {t} e =
      let tolerance = settings.gateway_signature_tolerance_seconds in
      refuse_stage db (not (has_headers rt settings req h)) "missing_header"
        "Missing gateway headers" _ n code e refl
        (λ _ n e.
          stage rt settings req h db
            (one_or_none
              (filter (λ g. str_eq g.gateway_code (or_empty h.gateway_code)) db.gateways))
            _ n code e (one_or_none-Audits rt settings req h db _)
            (one_or_none-Leaves rt settings req h db _)
            (λ found n e.
              stage rt settings req h db (known_gateway rt settings req h found) _ n code e
                (known_gateway-Audits rt settings req h db found)
                (known_gateway-Leaves rt settings req h db found)
                (λ g n e.
                  refuse_stage db
                    (is_present expected && not (str_eq g.gateway_code (or_empty expected)))
                    "gateway_code_mismatch" "Gateway code mismatch" _ n code e refl
                    (λ _ n e.
                      refuse_stage db (not (is_enabled rt settings req h g)) "gateway_disabled"
                        "Gateway disabled" _ n code e refl
                        (λ _ n e.
                          stage rt settings req h db
                            (auditing rt settings req h "expired_timestamp"
                              (validate_gateway_timestamp rt (or_empty h.timestamp) tolerance))
                            _ n code e (timestamp-Audits rt settings req h db _ _)
                            (timestamp-Leaves rt settings req h db _ _)
                            (λ ts n e.
                              incomparable_stage db same_body (or_empty h.body_sha256) _ n code e
                                (λ _ n e.
                                  refuse_stage db (not same_body) "invalid_body_hash"
                                    "Invalid gateway body hash" _ n code e refl
                                    (λ _ n e.
                                      incomparable_stage db (signed g) (or_empty h.signature) _ n
                                        code e
                                        (λ _ n e.
                                          refuse_stage db (not (signed g)) "invalid_signature"
                                            "Invalid gateway signature" _ n code e refl
                                            (λ _ n e.
                                              last_stage rt settings req h db
                                                (auditing rt settings req h "replay_nonce" (
                                                  remember_gateway_nonce rt g.id (or_empty h.nonce)
                                                    ts tolerance))
                                                g n code e
                                                (nonce-Audits rt settings req h db _ _ _
                                                  _)))))))))))
    where
      same_body : Bool
      same_body = str_eq (rt.sha256 req.body) (or_empty h.body_sha256)

      signed : Gateway → Bool
      signed g =
          verify_gateway_signature rt g.device_secret_hash req.method req.path
            (or_empty h.timestamp) (or_empty h.nonce) (rt.sha256 req.body) (or_empty h.signature)
