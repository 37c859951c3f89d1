-- ===== src/Server/Accounts/Tokens.antt =====
-- A token is accepted for the user that it was made for.
use Prim.Native.Char.{code}
use package.text.Mathlib.TextLemmas.{nil-append, cons-append, append_assoc}
use smart_parcel_station.Prelude.{
  ℕ, ◌+◌, ◌≤◌, String, Bool, true, false, not, ◌&&◌, Option, some, [], ◌∷◌, ◌≡◌, refl, sym, ap, ◌∙◌,
  subst, str_eq, str_eq_refl, str_eq_iff, is_present, ltb, ◌==◌, Bool-cases, inl, inr, filter,
  arith,
}
use smart_parcel_station.Text.{◌&◌}
use smart_parcel_station.Json.{text, object, Fields, get}
use smart_parcel_station.Session.{ok, Session}
use smart_parcel_station.Runtime.{Runtime}
use smart_parcel_station.Server.Models.{Db, User}
use smart_parcel_station.Server.Config.{Settings}
use smart_parcel_station.Server.Payload.{int_value}
use smart_parcel_station.Server.Accounts.{
  Codec, b64url_encode, b64url_decode, token_payload, create_access_token,
}
use smart_parcel_station.Server.Accounts.Base64.{IsBase64, is_url_text, b64url_decode-encode}
use smart_parcel_station.Server.Accounts.Identity.{
  split_dot, loaded, expiry_of, checked_payload, check_token_parts, verify_access_token, load_user,
  load_user_from_token, get_current_user,
}

-- a text without a dot
unfoldable pub no_dot : String → Bool
no_dot String.[] = true
no_dot (String.◌∷◌ c s) = not (code c == b'.') && no_dot s

split_dot-append : (s t : String) → no_dot s ≡ true → split_dot (s & ("." & t)) ≡ s ∷ split_dot t
unfolding split_dot no_dot
split_dot-append String.[] t h =
    ap split_dot (nil-append ("." & t) ∙ cons-append "." "" t ∙ ap (String.◌∷◌ ".") (nil-append t))
split_dot-append (String.◌∷◌ c s) t h =
    let rest = split_dot-append s t (ground (arith, h)) in
    let plain : (code c == b'.') ≡ false = ground (arith, h) in
    ap split_dot (cons-append c s ("." & t)) ∙ rw (plain, rest) refl

split_dot-plain : (s : String) → no_dot s ≡ true → split_dot s ≡ s ∷ []
unfolding split_dot no_dot
split_dot-plain String.[] h = refl
split_dot-plain (String.◌∷◌ c s) h =
    let rest = split_dot-plain s (ground (arith, h)) in
    let plain : (code c == b'.') ≡ false = ground (arith, h) in rw (plain, rest) refl

sps1-plain : no_dot "sps1" ≡ true
unfolding no_dot
sps1-plain = refl

split_token :
    (encoded sig : String)
    → no_dot encoded ≡ true
    → no_dot sig ≡ true
    → split_dot ("sps1." & encoded & "." & sig) ≡ "sps1" ∷ encoded ∷ sig ∷ []
split_token encoded sig e s =
    ap split_dot (append_assoc "sps1" "." (encoded & ("." & sig)))
    ∙ split_dot-append "sps1" (encoded & ("." & sig)) sps1-plain
    ∙ ap (λ parts. "sps1" ∷ parts) (split_dot-append encoded sig e)
    ∙ ap (λ parts. "sps1" ∷ encoded ∷ parts) (split_dot-plain sig s)

token-present :
    (encoded sig : String)
    → no_dot encoded ≡ true
    → no_dot sig ≡ true
    → is_present (some ("sps1." & encoded & "." & sig)) ≡ true
unfolding split_dot
token-present encoded sig e s = elim (Bool-cases (str_eq ("sps1." & encoded & "." & sig) "")) [
  | inr full ↦ rw full refl
  | inl empty ↦
      let parts =
        ap split_dot (sym ((str_eq_iff ("sps1." & encoded & "." & sig) "").0 empty))
        ∙ split_token encoded sig e s in
      absurd (ground (arith, parts))
]

no_dot-is_url_text : (s : String) → is_url_text s ≡ true → no_dot s ≡ true
unfolding no_dot is_url_text
no_dot-is_url_text String.[] h = refl
no_dot-is_url_text (String.◌∷◌ c s) h = ground (arith, h, no_dot-is_url_text s)

checked_payload-fresh :
    (id now expires : ℕ) (role : String) (station : Option ℕ)
    → now ≤ expires
    → checked_payload now (some (object (token_payload id role station expires)))
      ≡ some (token_payload id role station expires)
unfolding checked_payload expiry_of get str_eq
checked_payload-fresh id now expires role station h =
    let late : ltb (expires + 0) (now + 0) ≡ false = ground arith in rw late refl

module _ (rt : Runtime) (codec : Codec) (settings : Settings) where
  -- what is signed, for this dict
  abbrev encoded_of : Fields → String
  encoded_of payload = b64url_encode codec (codec.dumps payload)

  -- the token of this dict
  abbrev token_of : Fields → String
  token_of payload =
      "sps1."
      & encoded_of payload
      & "."
      & rt.hmac_sha256 settings.auth_token_secret (encoded_of payload)

  -- the dict of a token that is made for a user at the time that a session reads next
  abbrev pub payload_at : User → String → Session Db → Fields
  payload_at user role s =
      token_payload user.id role user.station_id
        (rt.clock s.draws + settings.auth_token_ttl_seconds)

  -- What the libraries promise for this dict: `json.loads` reads what `json.dumps` wrote; the base64 text is
  -- one, and is decoded to what it was made of; a digest in hexadecimal has no dot.
  pub record IsReadable (payload : Fields) : Type 0 where
    pub loaded : codec.loads (codec.dumps payload) ≡ some (object payload)
    pub base64 : IsBase64 (codec.urlsafe_b64encode (codec.dumps payload))
    pub decoded :
        codec.urlsafe_b64decode (codec.urlsafe_b64encode (codec.dumps payload))
        ≡ some (codec.dumps payload)
    pub digest_plain :
        no_dot (rt.hmac_sha256 settings.auth_token_secret (encoded_of payload)) ≡ true

  encoded-plain : (payload : Fields) → IsReadable payload → no_dot (encoded_of payload) ≡ true
  encoded-plain payload r =
      no_dot-is_url_text (encoded_of payload)
        (b64url_decode-encode codec (codec.dumps payload) r.base64 r.decoded).1

  loaded-encoded :
      (payload : Fields)
      → IsReadable payload
      → loaded codec (b64url_decode codec (encoded_of payload)) ≡ some (object payload)
  unfolding loaded
  loaded-encoded payload r =
      rw (b64url_decode-encode codec (codec.dumps payload) r.base64 r.decoded).0 r.loaded

  verify_access_token-token_of :
      (id expires : ℕ) (role : String) (station : Option ℕ) (s : Session Db)
      → IsReadable (token_payload id role station expires)
      → rt.clock s.draws ≤ expires
      → verify_access_token rt codec settings (token_of (token_payload id role station expires)) s
        ≡ (ok (some (token_payload id role station expires)), record s { draws = s.draws + 1 })
  unfolding verify_access_token check_token_parts
  verify_access_token-token_of id expires role station s r h =
      let payload = token_payload id role station expires in
      let sig = rt.hmac_sha256 settings.auth_token_secret (encoded_of payload) in
      rw
        (
          split_token (encoded_of payload) sig (encoded-plain payload r) r.digest_plain,
          str_eq_refl "sps1",
          str_eq_refl sig,
          loaded-encoded payload r,
          checked_payload-fresh id (rt.clock s.draws) expires role station h,
        )
        refl

  get_current_user-token_of :
      (user : User) (expires : ℕ) (role : String) (station : Option ℕ) (s : Session Db)
      → IsReadable (token_payload user.id role station expires)
      → rt.clock s.draws ≤ expires
      → filter (λ u. (u.id == user.id) && u.is_active) s.work.users ≡ user ∷ []
      → get_current_user rt codec settings
          (some (token_of (token_payload user.id role station expires)))
          s
        ≡ (ok user, record s { draws = s.draws + 1 })
  unfolding get_current_user load_user_from_token load_user get str_eq int_value
  get_current_user-token_of user expires role station s r h only =
      let payload = token_payload user.id role station expires in
      let present =
        token-present (encoded_of payload)
          (rt.hmac_sha256 settings.auth_token_secret (encoded_of payload)) (encoded-plain payload r)
          r.digest_plain in
      rw (present, verify_access_token-token_of user.id expires role station s r h, only) refl

  -- The token that `create_access_token` makes for a user identifies that user: until the time to live has
  -- passed, `get_current_user` accepts it and returns the user, as long as exactly one active user has
  -- this id. Of the libraries it asks that JSON is read as it was written, that the base64 text of it is
  -- in the URL alphabet, has a length that is a multiple of four, with at most two signs of padding at its
  -- end, and is decoded to what it was made of, and that the digest has no dot.
  pub get_current_user-create_access_token :
      (user : User) (role : String) (s s' : Session Db) {token : String} {t : Session Db}
      → IsReadable (payload_at user role s)
      → create_access_token rt codec settings user.id role user.station_id s ≡ (ok token, t)
      → rt.clock s'.draws ≤ rt.clock s.draws + settings.auth_token_ttl_seconds
      → filter (λ u. (u.id == user.id) && u.is_active) s'.work.users ≡ user ∷ []
      → get_current_user rt codec settings (some token) s'
        ≡ (ok user, record s' { draws = s'.draws + 1 })
  unfolding create_access_token
  get_current_user-create_access_token user role s s' {token} r made young only =
      let named : token_of (payload_at user role s) ≡ token = ground (arith, made) in
      subst
        (λ (x : String).
          get_current_user rt codec settings (some x) s'
          ≡ (ok user, record s' { draws = s'.draws + 1 }))
        named
        (get_current_user-token_of user (rt.clock s.draws + settings.auth_token_ttl_seconds) role
          user.station_id s' r young only)
