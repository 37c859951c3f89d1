-- ===== src/Server/Auth/Accept.antt =====
-- When `verify_gateway_request` accepts.
use smart_parcel_station.Prelude.{
  ℕ, ◌+◌, ◌≤◌, String, true, false, not, ◌&&◌, Option, none, some, inl, inr, Option-cases, List, [],
  ◌∷◌, ◌++◌, map, ◌≡◌, ◌⊎◌, str_eq, str_eq_iff, is_present, or_empty, filter, any, arith,
}
use smart_parcel_station.Prelude.Int.{ℤ, distance}
use smart_parcel_station.Text.{int_of_text}
use smart_parcel_station.Session.{ok, Session}
use smart_parcel_station.Runtime.{Runtime}
use smart_parcel_station.Server.Models.{Db, Gateway, GatewayNonce}
use smart_parcel_station.Server.Config.{Settings}
use smart_parcel_station.Server.Auth.{
  Request, Headers, signing_content, is_old, same_nonce, validate_gateway_timestamp,
  remember_gateway_nonce, verify_gateway_signature, has_headers, is_enabled, verify_gateway_request,
}

module _ (rt : Runtime) (settings : Settings) (req : Request) (h : Headers) where
  -- the nonces that are left when the rows from before the cutoff are gone
  abbrev pub recent : ℕ → ℕ → List GatewayNonce → List GatewayNonce
  recent now tolerance rows = filter (λ row. not (is_old rt now tolerance row)) rows

  -- the row that an accepted request leaves
  abbrev pub new_nonce : Gateway → ℤ → List GatewayNonce → GatewayNonce
  new_nonce gateway value rows = record {
    id = rt.next_id (map (λ n. n.id) rows);
    gateway_id = gateway.id;
    nonce = or_empty h.nonce;
    timestamp = value;
  }

  -- the state after the nonce is recorded
  abbrev pub with_nonce : Gateway → ℤ → Session Db → Session Db
  with_nonce gateway value s =
      let rows =
        recent (rt.clock s.draws) settings.gateway_signature_tolerance_seconds
          s.work.gateway_nonces in
      record s {
        work = record s.work { gateway_nonces = rows ++ new_nonce gateway value rows ∷ [] };
        draws = s.draws + 1;
      }

  abbrev IsNamed : Option String → Gateway → Type 0
  IsNamed none g = Unit
  IsNamed (some code) g = (code ≡ "") ⊎ (g.gateway_code ≡ code)

  -- All that the check demands of a request, and the state that it leaves.
  pub record IsAccepted (expected : Option String) (s : Session Db) (value : ℤ) (g : Gateway)
      (t : Session Db) : Type 0 where
    pub headers : has_headers rt settings req h ≡ true
    pub listed :
        filter (λ g'. str_eq g'.gateway_code (or_empty h.gateway_code)) s.work.gateways ≡ g ∷ []
    pub named : IsNamed expected g
    pub enabled : (g.status ≡ "ACTIVE") ⊎ (g.status ≡ "ONLINE")
    pub parsed : int_of_text (or_empty h.timestamp) ≡ some value
    pub fresh : distance (rt.clock s.draws) value ≤ settings.gateway_signature_tolerance_seconds
    pub body : rt.sha256 req.body ≡ or_empty h.body_sha256
    pub signed :
        rt.hmac_sha256 g.device_secret_hash (
          signing_content req.method req.path
            (or_empty h.timestamp)
            (or_empty h.nonce)
            (or_empty h.body_sha256))
        ≡ or_empty h.signature
    pub unseen :
        any (same_nonce rt g.id (or_empty h.nonce)) (
          recent
            (rt.clock (s.draws + 1))
            settings.gateway_signature_tolerance_seconds
            s.work.gateway_nonces)
        ≡ false
    pub result : t ≡ with_nonce g value (record s { draws = s.draws + 1 })

  module _ (expected : Option String) (s : Session Db) {value : ℤ} {g : Gateway} {t : Session Db}
      (parsed : int_of_text (or_empty h.timestamp) ≡ some value)
      (e : verify_gateway_request rt settings req h expected s ≡ (ok g, t)) where
    accept_headers : has_headers rt settings req h ≡ true
    unfolding verify_gateway_request
    accept_headers = ground arith

    accept_listed :
        filter (λ g'. str_eq g'.gateway_code (or_empty h.gateway_code)) s.work.gateways ≡ g ∷ []
    unfolding verify_gateway_request
    accept_listed = ground arith

    accept_expected : IsNamed expected g
    unfolding verify_gateway_request
    accept_expected =
        ground
          (arith, str_eq_iff (or_empty expected) "", str_eq_iff g.gateway_code (or_empty expected))

    accept_enabled : (g.status ≡ "ACTIVE") ⊎ (g.status ≡ "ONLINE")
    unfolding verify_gateway_request
    accept_enabled = ground (arith, str_eq_iff g.status "ACTIVE", str_eq_iff g.status "ONLINE")

    accept_fresh : distance (rt.clock s.draws) value ≤ settings.gateway_signature_tolerance_seconds
    unfolding verify_gateway_request validate_gateway_timestamp
    accept_fresh = ground arith

    accept_body : rt.sha256 req.body ≡ or_empty h.body_sha256
    unfolding verify_gateway_request
    accept_body = ground (arith, str_eq_iff (rt.sha256 req.body) (or_empty h.body_sha256))

    accept_signature :
        verify_gateway_signature rt g.device_secret_hash req.method req.path
          (or_empty h.timestamp)
          (or_empty h.nonce)
          (rt.sha256 req.body)
          (or_empty h.signature)
        ≡ true
    unfolding verify_gateway_request
    accept_signature = ground arith

    accept_signed :
        rt.hmac_sha256 g.device_secret_hash (
          signing_content req.method req.path
            (or_empty h.timestamp)
            (or_empty h.nonce)
            (or_empty h.body_sha256))
        ≡ or_empty h.signature
    unfolding verify_gateway_signature
    accept_signed = rw (← accept_body) ((str_eq_iff _ _).0 accept_signature)

    accept_unseen :
        any (same_nonce rt g.id (or_empty h.nonce)) (
          recent
            (rt.clock (s.draws + 1))
            settings.gateway_signature_tolerance_seconds
            s.work.gateway_nonces)
        ≡ false
    unfolding verify_gateway_request validate_gateway_timestamp remember_gateway_nonce
    accept_unseen = ground arith

    accept_result : t ≡ with_nonce g value (record s { draws = s.draws + 1 })
    unfolding verify_gateway_request validate_gateway_timestamp remember_gateway_nonce
    accept_result = ground arith

  parsed_of_ok :
      (expected : Option String) (s : Session Db) {g : Gateway} {t : Session Db}
      → verify_gateway_request rt settings req h expected s ≡ (ok g, t)
      → (value : ℤ) × (int_of_text (or_empty h.timestamp) ≡ some value)
  unfolding verify_gateway_request validate_gateway_timestamp
  parsed_of_ok expected s e = elim (Option-cases (int_of_text (or_empty h.timestamp))) [
    | inl bad ↦ absurd (ground arith)
    | inr (value, parsed) ↦ (value, parsed)
  ]

  -- A request is accepted only where every demand is met: all five headers, the one gateway of that
  -- code, an allowed status, a time stamp within the tolerance, the hash of the body, the keyed hash
  -- of the request's signing content, and a nonce that is not among those still kept. It leaves the
  -- uncommitted state with the nonce added and the old ones dropped.
  pub verify_gateway_request-ok :
      (expected : Option String) (s : Session Db) {g : Gateway} {t : Session Db}
      → verify_gateway_request rt settings req h expected s ≡ (ok g, t)
      → (value : ℤ) × IsAccepted expected s value g t
  verify_gateway_request-ok expected s {g} {t} e =
      let (value, parsed) = parsed_of_ok expected s e in
      (
        value,
        record {
          headers = accept_headers expected s parsed e;
          listed = accept_listed expected s parsed e;
          named = accept_expected expected s parsed e;
          enabled = accept_enabled expected s parsed e;
          parsed = parsed;
          fresh = accept_fresh expected s parsed e;
          body = accept_body expected s parsed e;
          signed = accept_signed expected s parsed e;
          unseen = accept_unseen expected s parsed e;
          result = accept_result expected s parsed e;
        },
      )

  module _ (expected : Option String) (s : Session Db) {value : ℤ} {g : Gateway} {t : Session Db}
      (a : IsAccepted expected s value g t) where
    test_named : is_present expected && not (str_eq g.gateway_code (or_empty expected)) ≡ false
    test_named = ground (
      arith,
      a.named,
      str_eq_iff (or_empty expected) "",
      str_eq_iff g.gateway_code (or_empty expected),
    )

    test_enabled : is_enabled rt settings req h g ≡ true
    test_enabled = ground (arith, str_eq_iff g.status "ACTIVE", str_eq_iff g.status "ONLINE")

    test_body : str_eq (rt.sha256 req.body) (or_empty h.body_sha256) ≡ true
    test_body = (str_eq_iff _ _).1 a.body

    test_signed :
        verify_gateway_signature rt g.device_secret_hash req.method req.path
          (or_empty h.timestamp)
          (or_empty h.nonce)
          (rt.sha256 req.body)
          (or_empty h.signature)
        ≡ true
    unfolding verify_gateway_signature
    test_signed = (str_eq_iff _ _).1 (rw a.body a.signed)

    test_timestamp :
        validate_gateway_timestamp rt
          (or_empty h.timestamp)
          settings.gateway_signature_tolerance_seconds
          s
        ≡ (ok value, record s { draws = s.draws + 1 })
    unfolding validate_gateway_timestamp
    test_timestamp = ground (arith, a.parsed, a.fresh)

    test_nonce :
        remember_gateway_nonce rt g.id
          (or_empty h.nonce)
          value
          settings.gateway_signature_tolerance_seconds
          (record s { draws = s.draws + 1 })
        ≡ (ok tt, t)
    unfolding remember_gateway_nonce
    test_nonce = ground (arith, a.unseen, a.result)

  -- Where every demand that `IsAccepted` lists is met, the request is accepted, and the state after it
  -- is the one that `IsAccepted` gives.
  pub verify_gateway_request_complete :
      (expected : Option String) (s : Session Db) (value : ℤ) (g : Gateway) (t : Session Db)
      → IsAccepted expected s value g t
      → verify_gateway_request rt settings req h expected s ≡ (ok g, t)
  unfolding verify_gateway_request
  verify_gateway_request_complete expected s value g t a = ground (
    arith,
    a.headers,
    a.listed,
    test_named expected s a,
    test_enabled expected s a,
    test_timestamp expected s a,
    test_body expected s a,
    test_signed expected s a,
    test_nonce expected s a,
  )
