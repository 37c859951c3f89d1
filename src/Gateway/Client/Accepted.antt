-- ===== src/Gateway/Client/Accepted.antt =====
-- The server accepts what the gateway signs.
use smart_parcel_station.Prelude.{
  ℕ, ◌+◌, ◌≤◌, String, true, false, Option, none, some, List, [], ◌∷◌, ◌≡◌, ◌≢◌, refl, sym, ap, ◌∙◌,
  subst, ◌⊎◌, inl, inr, str_eq, str_eq_iff, is_present, or_empty, filter, any, if◌then◌else◌,
  Bool-cases, arith,
}
use smart_parcel_station.Prelude.Int.{pos, distance}
use smart_parcel_station.Text.{upper, str_of, int_of_text}
use smart_parcel_station.Text.Digits.{int_of_text-str_of}
use smart_parcel_station.Json.{Json}
use smart_parcel_station.Session.{ok, Session}
use smart_parcel_station.Runtime.{Runtime}
use smart_parcel_station.Server.Models.{Db, Gateway}
use smart_parcel_station.Server.Config as ServerConfig
use smart_parcel_station.Server.Auth.{
  Request, Headers, same_nonce, has_headers, verify_gateway_request,
  signing_content as server_signing_content,
}
use smart_parcel_station.Server.Auth.Accept.{recent, with_nonce, verify_gateway_request_complete}
use smart_parcel_station.Gateway.Config.{Settings}
use smart_parcel_station.Gateway.Outside.{Outside}
use smart_parcel_station.Gateway.Client.{
  GatewayHeaders, Sent, signing_content, serialize_json_body, body_hash, generate_signature,
  headers_of, build_gateway_headers, request,
}

-- the headers as the server reads them
abbrev pub read_headers : GatewayHeaders → Headers
read_headers h = record {
  gateway_code = some h.x_gateway_code;
  timestamp = some h.x_gateway_timestamp;
  nonce = some h.x_gateway_nonce;
  body_sha256 = some h.x_gateway_body_sha256;
  signature = some h.x_gateway_signature;
}

-- The request arrives as it was sent; the HTTP client may write the method in capitals.
pub record Arrives (sent : Sent) (req : Request) : Type 0 where
  pub method : upper req.method ≡ upper sent.method
  pub path : req.path ≡ sent.path
  pub body : req.body ≡ sent.body

-- The hashes are the same functions on both machines, and no hash and no random text is empty.
pub record Agrees (rt rt' : Runtime) : Type 0 where
  pub sha : (s : String) → rt'.sha256 s ≡ rt.sha256 s
  pub hmac : (key s : String) → rt'.hmac_sha256 key s ≡ rt.hmac_sha256 key s
  pub sha-full : (s : String) → rt.sha256 s ≢ ""
  pub hmac-full : (key s : String) → rt.hmac_sha256 key s ≢ ""
  pub uuid-full : (n : ℕ) → rt.uuid_hex n ≢ ""

present : (s : String) → s ≢ "" → is_present (some s) ≡ true
present s h = elim (Bool-cases (str_eq s "")) [
  | inl empty ↦ absurd (h ((str_eq_iff s "").0 empty))
  | inr full ↦ rw full refl
]

str_of-full : (n : ℕ) → str_of n ≢ ""
unfolding int_of_text
str_of-full n empty =
    let parsed : int_of_text "" ≡ some (pos n) =
      subst (λ s. int_of_text s ≡ some (pos n)) empty (int_of_text-str_of n) in
    ground (arith, parsed)

module _ (rt rt' : Runtime) (out : Outside) (gs : Settings) (ss : ServerConfig.Settings) where
  -- The row of the gateway at the server: one row has its code, with its secret, and it is enabled.
  pub record IsRegistered (g : Gateway) (db : Db) : Type 0 where
    pub coded : gs.gateway_code ≢ ""
    pub listed : filter (λ g'. str_eq g'.gateway_code gs.gateway_code) db.gateways ≡ g ∷ []
    pub secret : g.device_secret_hash ≡ gs.gateway_secret
    pub enabled : (g.status ≡ "ACTIVE") ⊎ (g.status ≡ "ONLINE")

  listed-code :
      {g : Gateway} (rows : List Gateway)
      → filter (λ g'. str_eq g'.gateway_code gs.gateway_code) rows ≡ g ∷ []
      → g.gateway_code ≡ gs.gateway_code
  unfolding filter
  listed-code [] e = ground (arith, e)
  listed-code {g} (w ∷ rows) e = elim (Bool-cases (str_eq w.gateway_code gs.gateway_code)) [
    | inl same ↦
        let first : w ≡ g = ground (arith, e, same) in
        ap (λ (g : Gateway). g.gateway_code) (sym first)
        ∙ (str_eq_iff w.gateway_code gs.gateway_code).0 same
    | inr other ↦ listed-code {g = g} rows (ground (arith, e, other))
  ]

  -- what `request` sends, with the readings that it takes
  request-sent :
      {D : Type 0} (method path : String) (payload : Option Json) (s : Session D) {sent : Sent}
      {t : Session D}
      → request rt out gs method path payload s ≡ (ok sent, t)
      → sent ≡ record {
        method = method;
        path = path;
        headers =
            headers_of rt out gs.gateway_secret gs.gateway_code method path payload
              (str_of (rt.clock s.draws))
              (rt.uuid_hex (s.draws + 1));
        body = if str_eq (upper method) "GET" then "" else serialize_json_body rt out payload;
      }
  unfolding request build_gateway_headers
  request-sent method path payload s e = ground (arith, e)

  -- a GET is sent without a body, and signed as the others are
  sent_body :
      (method : String) (payload : Option Json)
      → (upper method ≡ "GET" → payload ≡ none)
      → (if str_eq (upper method) "GET" then "" else serialize_json_body rt out payload)
        ≡ serialize_json_body rt out payload
  unfolding serialize_json_body
  sent_body method payload h = elim (Bool-cases (str_eq (upper method) "GET")) [
    | inl get ↦ rw (get, h ((str_eq_iff (upper method) "GET").0 get)) refl
    | inr other ↦ rw other refl
  ]

  -- what `request` sends, given the time and the nonce
  abbrev pub sent_at : String → String → Option Json → ℕ → String → Sent
  sent_at method path payload now nonce = record {
    method = method;
    path = path;
    headers =
        headers_of rt out gs.gateway_secret gs.gateway_code method path payload (str_of now) nonce;
    body = if str_eq (upper method) "GET" then "" else serialize_json_body rt out payload;
  }

  -- what the server does with a request
  abbrev Accepts : Request → Gateway → ℕ → Session Db → Sent → Type 0
  Accepts req g now u sent =
      Arrives sent req
      → any (same_nonce rt' g.id sent.headers.x_gateway_nonce) (
          recent rt' ss req (read_headers sent.headers) (rt'.clock (u.draws + 1))
            ss.gateway_signature_tolerance_seconds u.work.gateway_nonces)
        ≡ false
      → verify_gateway_request rt' ss req (read_headers sent.headers) (some gs.gateway_code) u ≡ (
        ok g,
        with_nonce rt' ss req (read_headers sent.headers) g (pos now)
            (record u { draws = u.draws + 1 }),
      )

  module _ (agree : Agrees rt rt') (method path : String) (payload : Option Json)
      (req : Request) where
    -- the signature that the server computes
    same_signature :
        (secret ts nonce : String)
        → upper req.method ≡ upper method
        → req.path ≡ path
        → rt'.hmac_sha256 secret
            (server_signing_content req.method req.path ts nonce (body_hash rt out payload))
          ≡ generate_signature rt out secret method path ts nonce (body_hash rt out payload)
    unfolding generate_signature signing_content server_signing_content
    same_signature secret ts nonce m p = rw (m, p) (agree.hmac secret _)

    sent_at-Accepts :
        (g : Gateway) (now n : ℕ) (u : Session Db)
        → IsRegistered g u.work
        → (upper method ≡ "GET" → payload ≡ none)
        → distance (rt'.clock u.draws) (pos now) ≤ ss.gateway_signature_tolerance_seconds
        → Accepts req g now u (sent_at method path payload now (rt.uuid_hex n))
    unfolding has_headers body_hash generate_signature
    sent_at-Accepts g now n u row bare fresh arrives unseen =
        let h = read_headers (sent_at method path payload now (rt.uuid_hex n)).headers in
        let coded = present gs.gateway_code row.coded in
        let timed = present (str_of now) (str_of-full now) in
        let once = present (rt.uuid_hex n) (agree.uuid-full n) in
        let hashed =
          present (body_hash rt out payload)
            (agree.sha-full (serialize_json_body rt out payload)) in
        let signed = present (or_empty h.signature) (agree.hmac-full gs.gateway_secret _) in
        verify_gateway_request_complete rt' ss req h (some gs.gateway_code) u (pos now) g _
          (record {
            headers = rw (coded, timed, once, hashed, signed) refl;
            listed = row.listed;
            named = inr (listed-code u.work.gateways row.listed);
            enabled = row.enabled;
            parsed = int_of_text-str_of now;
            fresh = fresh;
            body = ap rt'.sha256 (arrives.body ∙ sent_body method payload bare) ∙ agree.sha _;
            signed =
                ap
                  (λ k. rt'.hmac_sha256 k (
                    server_signing_content req.method req.path (str_of now) (rt.uuid_hex n)
                      (body_hash rt out payload)))
                  row.secret
                ∙ same_signature gs.gateway_secret (str_of now) (rt.uuid_hex n) arrives.method
                    arrives.path;
            unseen = unseen;
            result = refl;
          })

  -- The server accepts what the gateway signs. The gateway has a row at the server with its code and
  -- secret that is enabled, the request arrives as it was sent, a GET has no payload, the server's clock
  -- is within the tolerance of the time that the gateway signed, and no recent request of this gateway
  -- had this nonce. Then `verify_gateway_request` returns this gateway and records the nonce.
  pub verify_gateway_request-request :
      {D : Type 0} (method path : String) (payload : Option Json) (s : Session D) {sent : Sent}
      {t : Session D} (req : Request) (g : Gateway) (u : Session Db)
      → Agrees rt rt'
      → IsRegistered g u.work
      → request rt out gs method path payload s ≡ (ok sent, t)
      → (upper method ≡ "GET" → payload ≡ none)
      → distance (rt'.clock u.draws) (pos (rt.clock s.draws))
        ≤ ss.gateway_signature_tolerance_seconds
      → Arrives sent req
      → any (same_nonce rt' g.id sent.headers.x_gateway_nonce) (
          recent rt' ss req
            (read_headers sent.headers)
            (rt'.clock (u.draws + 1))
            ss.gateway_signature_tolerance_seconds
            u.work.gateway_nonces)
        ≡ false
      → verify_gateway_request rt' ss req (read_headers sent.headers) (some gs.gateway_code) u ≡ (
        ok g,
        with_nonce rt' ss req
            (read_headers sent.headers)
            g
            (pos (rt.clock s.draws))
            (record u { draws = u.draws + 1 }),
      )
  verify_gateway_request-request method path payload s req g u agree row made bare fresh =
      subst (Accepts req g (rt.clock s.draws) u) (sym (request-sent method path payload s made)) (
        sent_at-Accepts agree method path payload req g (rt.clock s.draws) (s.draws + 1) u row bare
          fresh)
