-- ===== src/Server/Registration.antt =====
-- Registration tokens of gateways: smartparcel-server/app/services/services.py, `get_station` and
-- `generate_registration_token` to `activate_gateway_registration`. The values of `device_info` that
-- the code reads are texts; SQL compares texts exactly. A unique column that a write would break
-- raises before anything is committed, at the flush or at the commit.
pub mod Activation
pub mod Spent
pub mod Keeps
pub mod Once
mod Tests
use smart_parcel_station.Prelude.{
  ℕ, zero, suc, ◌+◌, ◌-◌, ◌/◌, String, Bool, true, false, not, ◌&&◌, ◌||◌, Option, none, some, List,
  [], ◌∷◌, ◌++◌, map, str_eq, opt_str_is, is_empty, is_present, or_empty, ◌==◌, leb, if◌then◌else◌,
  filter, any, find_first, update_where,
}
use Prim.Native.String
use Prim.Native.Char.{Char, code}
use smart_parcel_station.Prelude.Int.{ℤ, pos, negsuc}
use smart_parcel_station.Text.{◌&◌, upper, strip}
use smart_parcel_station.Json.{Fields, end, entry, text, opt_text}
use smart_parcel_station.Session.{
  Error, http, crash, Action, pure, raise, gets, draw, modify, commit, or_raise, raise_if, when,
  one_or_none, ◌>>=◌, ◌>>◌,
}
use smart_parcel_station.Runtime.{Runtime}
use smart_parcel_station.Server.Enums.{GatewayRegistrationTokenStatus, GatewayFactoryDeviceStatus}
use smart_parcel_station.Server.Models.{
  Db, Station, Gateway, GatewayRegistrationToken, GatewayFactoryDevice,
}
use smart_parcel_station.Server.Config.{Settings}
use smart_parcel_station.Server.Auth.{record_security_audit}
use smart_parcel_station.Server.Cards.{not_found}

abbrev pub is_pending : GatewayRegistrationTokenStatus → Bool
is_pending GatewayRegistrationTokenStatus.pending = true
is_pending _ = false

abbrev pub is_revoked : GatewayRegistrationTokenStatus → Bool
is_revoked GatewayRegistrationTokenStatus.revoked = true
is_revoked _ = false

abbrev pub is_used : GatewayRegistrationTokenStatus → Bool
is_used GatewayRegistrationTokenStatus.used = true
is_used _ = false

abbrev pub is_status_expired : GatewayRegistrationTokenStatus → Bool
is_status_expired GatewayRegistrationTokenStatus.expired = true
is_status_expired _ = false

-- in `{DISABLED, REVOKED}`
abbrev pub is_barred : GatewayFactoryDeviceStatus → Bool
is_barred GatewayFactoryDeviceStatus.disabled = true
is_barred GatewayFactoryDeviceStatus.revoked = true
is_barred _ = false

unfoldable pub get_station : ℕ → Action Db Station
get_station station_id = do
  found ← gets (λ db. find_first (λ s. s.id == station_id) db.stations)
  or_raise found (not_found "station")

-- `replace('_', '')`, `replace('-', '')`
drop_marks : String → String
drop_marks String.[] = ""
drop_marks (String.◌∷◌ c s) =
    let rest = drop_marks s in if code c == b'_' || code c == b'-' then rest else String.◌∷◌ c rest

-- the groups of four from `index` on, joined by dashes
groups : ℕ → ℕ → String → String
groups zero index token = ""
groups (suc zero) index token = String.slice token index (index + 4)
groups (suc (suc n)) index token =
    String.slice token index (index + 4) & "-" & groups (suc n) (index + 4) token

-- the rest of `generate_registration_token`, of the random text
unfoldable pub registration_token_of : String → String
unfolding drop_marks groups
registration_token_of raw =
    let token = String.slice (upper (drop_marks raw)) 0 20 in
    groups ((String.len token + 3) / 4) 0 token

abbrev pub is_expired : ℕ → ℕ → Bool
is_expired expires_at now = leb expires_at now

-- `ttl_seconds or settings.gateway_registration_token_ttl_seconds`
abbrev pub effective_ttl : Option ℤ → Settings → ℤ
effective_ttl none settings = settings.gateway_registration_token_ttl_seconds
effective_ttl (some (pos zero)) settings = settings.gateway_registration_token_ttl_seconds
effective_ttl (some ttl) settings = ttl

-- a time to live that is positive
abbrev pub positive : ℤ → Option ℕ
positive (pos zero) = none
positive (pos (suc n)) = some (suc n)
positive (negsuc n) = none

abbrev pub set_token :
    (GatewayRegistrationToken → Bool)
    → (GatewayRegistrationToken → GatewayRegistrationToken)
    → Db
    → Db
set_token p f db = record db {
  gateway_registration_tokens = update_where p f db.gateway_registration_tokens;
}

-- what the new token is made of
pub record TokenRequest : Type 0 where
  pub gateway_code : String
  pub station_id : ℕ
  pub ttl_seconds : Option ℤ
  pub created_by_admin_id : Option ℕ
  pub gateway_factory_code : Option String
  pub gateway_device_id : Option String
  pub gateway_serial : Option String
  pub created_by_user_id : Option ℕ

insert_desc :
    GatewayRegistrationToken → List GatewayRegistrationToken → List GatewayRegistrationToken
insert_desc r [] = r ∷ []
insert_desc r (x ∷ rest) =
    let later = x ∷ insert_desc r rest in if leb x.id r.id then r ∷ x ∷ rest else later

pub order_desc : List GatewayRegistrationToken → List GatewayRegistrationToken
unfolding insert_desc
order_desc [] = []
order_desc (r ∷ rest) = insert_desc r (order_desc rest)

pub limit : ℕ → List GatewayRegistrationToken → List GatewayRegistrationToken
limit zero rows = []
limit (suc n) [] = []
limit (suc n) (r ∷ rows) = r ∷ limit n rows

module _ (rt : Runtime) (settings : Settings) where
  unfoldable pub generate_registration_token : Action Db String
  generate_registration_token = do
    raw ← draw (λ n. rt.token_urlsafe n settings.gateway_registration_token_bytes)
    pure (registration_token_of raw)

  unfoldable pub hash_registration_token : String → String
  hash_registration_token token = rt.sha256 (strip token)

  -- the row that is added
  abbrev pub new_token :
      TokenRequest → String → String → ℕ → List GatewayRegistrationToken → GatewayRegistrationToken
  new_token req plain_token uuid expires_at rows = record {
    id = rt.next_id (map (λ r. r.id) rows);
    token_id = String.slice uuid 0 12;
    gateway_code = req.gateway_code;
    station_id = req.station_id;
    token_hash = hash_registration_token plain_token;
    expires_at = expires_at;
    used_at = none;
    status = GatewayRegistrationTokenStatus.pending;
    created_by_admin_id = req.created_by_admin_id;
    created_by_user_id = req.created_by_user_id;
    gateway_factory_code = req.gateway_factory_code;
    gateway_device_id = req.gateway_device_id;
    gateway_serial = req.gateway_serial;
  }

  unfoldable pub create_gateway_registration_token :
      TokenRequest → Action Db (GatewayRegistrationToken × String)
  unfolding generate_registration_token
  create_gateway_registration_token req = do
    get_station req.station_id
    ttl ←
        or_raise (positive (effective_ttl req.ttl_seconds settings))
          (http 400 "ttl_seconds must be positive")
    plain_token ← generate_registration_token
    uuid ← draw rt.uuid_hex
    now ← draw rt.clock
    rows ← gets (λ db. db.gateway_registration_tokens)
    let row = new_token req plain_token uuid (now + ttl) rows
    raise_if (any (λ r. str_eq r.token_id row.token_id || str_eq r.token_hash row.token_hash) rows)
        (crash "IntegrityError")
    modify (λ db. record db {
      gateway_registration_tokens = db.gateway_registration_tokens ++ row ∷ [];
    })
    commit
    pure (row, plain_token)

  -- the body of the loop of `list_gateway_registration_tokens`
  abbrev pub expire_if_due : ℕ → GatewayRegistrationToken → GatewayRegistrationToken
  expire_if_due now row =
      if is_pending row.status && is_expired row.expires_at now
      then record row { status = GatewayRegistrationTokenStatus.expired }
      else row

  unfoldable pub list_gateway_registration_tokens : Action Db (List GatewayRegistrationToken)
  unfolding order_desc limit
  list_gateway_registration_tokens = do
    now ← draw rt.clock
    rows ← gets (λ db. limit 100 (order_desc db.gateway_registration_tokens))
    let changed = any (λ r. is_pending r.status && is_expired r.expires_at now) rows
    modify (set_token (λ r. any (λ x. x.id == r.id) rows) (expire_if_due now))
    when changed commit
    pure (map (expire_if_due now) rows)

  -- the branch of a pending token
  revoke_pending : GatewayRegistrationToken → Bool → Action Db GatewayRegistrationToken
  revoke_pending row false = pure row
  revoke_pending row true = do
    let revoke = λ (r : GatewayRegistrationToken). record r {
      status = GatewayRegistrationTokenStatus.revoked;
    }
    modify (set_token (λ r. r.id == row.id) revoke)
    commit
    pure (revoke row)

  unfoldable pub revoke_gateway_registration_token : ℕ → Action Db GatewayRegistrationToken
  unfolding revoke_pending
  revoke_gateway_registration_token token_id = do
    found ← gets (λ db. find_first (λ r. r.id == token_id) db.gateway_registration_tokens)
    row ← or_raise found (not_found "gateway registration token")
    revoke_pending row (is_pending row.status)
