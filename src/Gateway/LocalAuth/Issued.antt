-- ===== src/Gateway/LocalAuth/Issued.antt =====
-- A session token that the gateway issues is accepted until it expires.
use Prim.Native.String
use text.Mathlib.Text.{starts_with}
use text.Mathlib.TextPositions.{len-append, slice-append_right, starts_with-append}
use smart_parcel_station.Prelude.{
  ℕ, ◌+◌, ◌≤◌, String, Bool, true, false, Option, some, List, [], ◌∷◌, ◌++◌, ◌≡◌, ◌≢◌, inl, inr,
  refl, ap, ◌∙◌, str_eq, str_eq_iff, str_eq_refl, is_empty, ltb, find_first, any, Bool-cases, arith,
}
use smart_parcel_station.Text.{◌&◌, strip, str_of}
use smart_parcel_station.Session.{ok, Session, opened}
use smart_parcel_station.Runtime.{Runtime}
use smart_parcel_station.Gateway.Config.{Settings, is_unbound}
use smart_parcel_station.Gateway.Entities.{LocalDb, LocalApiSession}
use smart_parcel_station.Gateway.LocalAuth.{
  LocalRequest, session_access, has_prefix, unbound_allowed_prefixes, auth_required_prefixes,
  bearer_token, new_session, add_session, generate_local_session_token, check_expiry, check_session,
  check_token, validate_local_session,
}

find_first-last :
    (p : LocalApiSession → Bool) (rows : List LocalApiSession) (row : LocalApiSession)
    → any p rows ≡ false
    → p row ≡ true
    → find_first p (rows ++ row ∷ []) ≡ some row
unfolding find_first any
find_first-last p [] row none_yet h = rw h refl
find_first-last p (r ∷ rows) row none_yet h =
    let rest = find_first-last p rows row (ground (arith, none_yet)) h in
    ground (arith, none_yet, rest)

bearer_token-append : (plain : String) → bearer_token ("Bearer " & plain) ≡ strip plain
unfolding bearer_token
bearer_token-append plain = ap strip (
    ap (String.slice ("Bearer " & plain) 7) (len-append "Bearer " plain)
    ∙ slice-append_right "Bearer " plain)

is_empty-full : (s : String) → s ≢ "" → is_empty s ≡ false
is_empty-full s h = elim (Bool-cases (str_eq s "")) [
  | inl empty ↦ absurd (h ((str_eq_iff s "").0 empty))
  | inr full ↦ full
]

module _ (rt : Runtime) (settings : Settings) where
  -- A request that the local API guards: the path needs a session, and the header names this token.
  pub record Presents (plain : String) (req : LocalRequest) : Type 0 where
    pub guarded : has_prefix auth_required_prefixes req.path ≡ true
    pub closed : has_prefix unbound_allowed_prefixes req.path ≡ false
    pub header : req.authorization ≡ some ("Bearer " & plain)

  -- what `generate_local_session_token` returns and stores
  generate_local_session_token-ok :
      (role : String) (host : Option String) (db : LocalDb) (n : ℕ) {plain : String}
      {t : Session LocalDb}
      → any
          (λ s. str_eq s.session_token_hash (rt.sha256 (rt.token_urlsafe n 32)))
          db.local_api_sessions
        ≡ false
      → generate_local_session_token rt settings role host (opened db n) ≡ (ok plain, t)
      → (plain ≡ rt.token_urlsafe n 32)
        × (t.saved.local_api_sessions
            ≡ db.local_api_sessions
              ++ new_session rt settings role host
                  (rt.token_urlsafe n 32)
                  (rt.clock (n + 1))
                  db.local_api_sessions
                ∷ [])
  unfolding generate_local_session_token add_session
  generate_local_session_token-ok role host db n fresh e = ground (arith, e, fresh)

  -- A token that `generate_local_session_token` issues opens the guarded paths of a gateway that is
  -- bound: where no stored session has its hash, the token is not empty and has no spaces around it,
  -- and the time of the request is not past the time of issue plus the time to live, the request that presents it
  -- is answered with the role that it was issued for and the id of its row.
  pub validate_local_session-generated :
      (role : String) (host : Option String) (db : LocalDb) (n m : ℕ) (req : LocalRequest)
      {plain : String} {t : Session LocalDb}
      → is_unbound settings ≡ false
      → any
          (λ s. str_eq s.session_token_hash (rt.sha256 (rt.token_urlsafe n 32)))
          db.local_api_sessions
        ≡ false
      → generate_local_session_token rt settings role host (opened db n) ≡ (ok plain, t)
      → plain ≢ ""
      → strip plain ≡ plain
      → Presents plain req
      → rt.clock m ≤ rt.clock (n + 1) + settings.local_api_token_ttl_seconds
      → let row =
          new_session rt settings role host plain (rt.clock (n + 1)) db.local_api_sessions in
        (validate_local_session rt settings req (opened t.saved m)).0
        ≡ ok (session_access role (str_of row.id))
  unfolding validate_local_session check_token check_session check_expiry
  validate_local_session-generated role host db n m req {plain} {t} bound fresh made full tight
        presents time =
      let (drawn, table) = generate_local_session_token-ok role host db n fresh made in
      let row = new_session rt settings role host plain (rt.clock (n + 1)) db.local_api_sessions in
      let rows : t.saved.local_api_sessions ≡ db.local_api_sessions ++ row ∷ [] = rw drawn table in
      let found : find_first (λ s. str_eq s.session_token_hash (rt.sha256 plain))
            t.saved.local_api_sessions
          ≡ some row =
        rw rows (
          find_first-last (λ s. str_eq s.session_token_hash (rt.sha256 plain)) db.local_api_sessions
            row (rw drawn fresh) (str_eq_refl (rt.sha256 plain))) in
      let in_time : ltb (rt.clock (n + 1) + settings.local_api_token_ttl_seconds) (rt.clock m)
          ≡ false =
        ground (arith, time) in
      let bearer : starts_with ("Bearer " & plain) "Bearer " ≡ true =
        starts_with-append "Bearer " plain in
      let token = bearer_token-append plain ∙ tight in
      rw
        (
          presents.closed,
          bound,
          presents.guarded,
          presents.header,
          bearer,
          token,
          is_empty-full plain full,
          found,
          in_time,
        )
        refl
