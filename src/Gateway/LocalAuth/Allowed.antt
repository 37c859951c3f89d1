-- ===== src/Gateway/LocalAuth/Allowed.antt =====
-- Whom the local API lets in, and what a refusal leaves.
use text.Mathlib.Text.{starts_with}
use smart_parcel_station.Prelude.{
  ℕ, ◌≤◌, String, true, false, Option, none, some, [], ◌∷◌, ◌++◌, ◌≡◌, ◌≢◌, ◌⊎◌, inl, inr, refl,
  str_eq, str_eq_iff, is_empty, is_none, or_empty, ltb, find_first, Bool-cases, arith,
}
use smart_parcel_station.Text.{str_of}
use smart_parcel_station.Session.{Error, http, Result, ok, err, Session}
use smart_parcel_station.Runtime.{Runtime}
use smart_parcel_station.Gateway.Config.{Settings, is_unbound}
use smart_parcel_station.Gateway.Entities.{LocalDb, LocalApiSession}
use smart_parcel_station.Gateway.LocalAuth.{
  LocalRequest, LocalAuth, public_access, session_access, ReaderAuth, has_prefix,
  unbound_allowed_prefixes, auth_required_prefixes, bearer_token, audit_row, write_audit, refuse,
  check_expiry, check_session, check_token, validate_local_session, admit_reader,
  validate_gate_reader_auth,
}

module _ (rt : Runtime) (settings : Settings) (req : LocalRequest) where
  -- the row of a session that is valid for this request at this time
  pub record IsValid (db : LocalDb) (now : ℕ) (row : LocalApiSession) : Type 0 where
    pub bearer : starts_with (or_empty req.authorization) "Bearer " ≡ true
    pub token : is_empty (bearer_token (or_empty req.authorization)) ≡ false
    pub stored :
        find_first
          (λ s. str_eq s.session_token_hash (rt.sha256 (bearer_token (or_empty req.authorization))))
          db.local_api_sessions
        ≡ some row
    pub kept : row.revoked_at ≡ none
    pub fresh : now ≤ row.expires_at

  -- what an answer says of the request
  abbrev pub IsAllowed : Session LocalDb → LocalAuth → Type 0
  IsAllowed s (public_access reason) =
      (has_prefix unbound_allowed_prefixes req.path ≡ true)
      ⊎ ((is_unbound settings ≡ false) × (has_prefix auth_required_prefixes req.path ≡ false))
  IsAllowed s (session_access role id) =
      (is_unbound settings ≡ false)
      × (row : LocalApiSession) × IsValid s.work (rt.clock s.draws) row
      × (role ≡ row.role)
      × (id ≡ str_of row.id)

  -- what a refusal leaves: one audit row with the path and the host of the request
  pub record IsRefused (s : Session LocalDb) (x : Error) (t : Session LocalDb) : Type 0 where
    pub status : (detail : String) × ((x ≡ http 401 detail) ⊎ (x ≡ http 403 detail))
    pub noted :
        (event reason : String) × (t.work ≡ record s.work {
          gateway_security_audit =
              s.work.gateway_security_audit
              ++ audit_row rt event req.client_host reason req.path s.work.gateway_security_audit
                ∷ [];
        })
    pub stored : t.saved ≡ t.work

  -- an outcome of the check
  abbrev pub Outcome : Session LocalDb → Result LocalAuth × Session LocalDb → Type 0
  Outcome s (ok a, t) = IsAllowed s a × (t.work ≡ s.work) × (t.saved ≡ s.saved)
  Outcome s (err x, t) = IsRefused s x t

  unauthorized-Refused :
      (event reason detail : String) (s : Session LocalDb)
      → Outcome s (refuse rt settings req event reason (http 401 detail) s)
  unfolding refuse write_audit
  unauthorized-Refused event reason detail s = record {
    status = (detail, inl refl);
    noted = (event, reason, refl);
    stored = refl;
  }

  forbidden-Refused :
      (event reason detail : String) (s : Session LocalDb)
      → Outcome s (refuse rt settings req event reason (http 403 detail) s)
  unfolding refuse write_audit
  forbidden-Refused event reason detail s = record {
    status = (detail, inr refl);
    noted = (event, reason, refl);
    stored = refl;
  }

  module _ (bound : is_unbound settings ≡ false)
      (bearer : starts_with (or_empty req.authorization) "Bearer " ≡ true) where
    check_session-Outcome :
        (s : Session LocalDb) (found : Option LocalApiSession)
        → is_empty (bearer_token (or_empty req.authorization)) ≡ false
        → find_first
            (λ s.
              str_eq s.session_token_hash (rt.sha256 (bearer_token (or_empty req.authorization))))
            s.work.local_api_sessions
          ≡ found
        → Outcome s (check_session rt settings req found s)
    unfolding check_session check_expiry refuse write_audit
    check_session-Outcome s none token e = unauthorized-Refused _ _ _ s
    check_session-Outcome s (some row) token e = elim (Bool-cases (is_none row.revoked_at)) [
      | inr revoked ↦ rw revoked (unauthorized-Refused _ _ _ s)
      | inl kept ↦ rw kept (elim (Bool-cases (ltb row.expires_at (rt.clock s.draws))) [
        | inl late ↦ rw late (record {
          status = ("Session token has expired", inl refl);
          noted = ("local_auth_failed", "token_expired", refl);
          stored = refl;
        })
        | inr fresh ↦ rw fresh (
          (
            bound,
            row,
            record {
              bearer = bearer;
              token = token;
              stored = e;
              kept = ground (arith, kept);
              fresh = ground (arith, fresh);
            },
            refl,
            refl,
          ),
          refl,
          refl,
        )
      ])
    ]

    check_token-Outcome :
        (s : Session LocalDb)
        → Outcome s (check_token rt settings req (bearer_token (or_empty req.authorization)) s)
    unfolding check_token
    check_token-Outcome s =
        elim (Bool-cases (is_empty (bearer_token (or_empty req.authorization)))) [
          | inl empty ↦ rw empty (unauthorized-Refused _ _ _ s)
          | inr full ↦ rw full (check_session-Outcome s _ full refl)
        ]

  -- The check of a request to the local API either answers or refuses, and both change little. An answer
  -- without a session is given for a path that is open to all, or on a gateway that is bound for a path
  -- that needs no session. An answer with a session is given only on a gateway that is bound, for a bearer token that
  -- is not empty and whose hash is that of a stored session that is not revoked and not past its
  -- expiry; the role and the id are this session's. An answer changes no table. A refusal is a 401 or a 403, and adds and
  -- commits one audit row with the path and the host of the request, and nothing else.
  pub validate_local_session-Outcome :
      (s : Session LocalDb) → Outcome s (validate_local_session rt settings req s)
  unfolding validate_local_session
  validate_local_session-Outcome s =
      elim (Bool-cases (has_prefix unbound_allowed_prefixes req.path)) [
        | inl open_path ↦ rw open_path (inl open_path, refl, refl)
        | inr other ↦ rw other (elim (Bool-cases (is_unbound settings)) [
          | inl unbound ↦ rw unbound (forbidden-Refused _ _ _ s)
          | inr bound ↦ rw bound (elim (Bool-cases (has_prefix auth_required_prefixes req.path)) [
            | inr free ↦ rw free (inr (bound, free), refl, refl)
            | inl guarded ↦
                rw guarded (elim (Bool-cases (starts_with (or_empty req.authorization) "Bearer ")) [
                  | inr bare ↦ rw bare (unauthorized-Refused _ _ _ s)
                  | inl bearer ↦ rw bearer (check_token-Outcome bound bearer s)
                ])
          ])
        ])
      ]

  -- The gate reader is let in with the flag `authenticated` only on a gateway that is bound and asks
  -- for credentials, with the reader's id and token of the settings, and the token is not empty. An
  -- answer changes nothing.
  pub validate_gate_reader_auth-ok :
      (s : Session LocalDb) {a : ReaderAuth} {t : Session LocalDb}
      → validate_gate_reader_auth rt settings req s ≡ (ok a, t)
      → (is_unbound settings ≡ false)
        × (a.authenticated ≡ settings.gate_reader_auth_enabled)
        × ((a.authenticated ≡ false)
            ⊎ ((a.reader_id ≡ settings.gate_reader_id)
                × (req.x_gate_reader_token ≡ some settings.gate_reader_token)
                × (settings.gate_reader_token ≢ "")))
        × (t ≡ s)
  unfolding validate_gate_reader_auth admit_reader refuse
  validate_gate_reader_auth-ok s {a} {t} e = ground (
    arith,
    e,
    str_eq_iff (or_empty req.x_gate_reader_id) settings.gate_reader_id,
    str_eq_iff (or_empty req.x_gate_reader_token) settings.gate_reader_token,
    str_eq_iff (or_empty req.x_gate_reader_token) "",
  )
