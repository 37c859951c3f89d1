-- ===== src/Server/Accounts.antt =====
-- Passwords and logins: smartparcel-server/app/services/services.py, `hash_password` to
-- `login_with_password`, and `create_access_token` of app/core/security.py. The number of rounds in a
-- stored hash is one that the hash function takes.
pub mod Passwords
pub mod Base64
pub mod Identity
pub mod Tokens
pub mod Headers
pub mod Users
pub mod Notifications
mod Tests
use Prim.Native.Char.{Char, code}
use Prim.Native.String
use smart_parcel_station.Prelude.{
  ℕ, zero, suc, ◌+◌, ◌-◌, ◌%◌, String, Bool, true, false, not, ◌&&◌, Option, none, some, List, [],
  ◌∷◌, str_eq, opt_str_is, is_empty, is_present, or_empty, ◌==◌, if◌then◌else◌, filter,
}
use smart_parcel_station.Prelude.Int.{ℤ, pos, negsuc}
use smart_parcel_station.Text.{◌&◌, cons_first, upper, strip, str_of, int_of_text}
use smart_parcel_station.Json.{Json, null, number, text, Fields, end, entry}
use smart_parcel_station.Session.{
  http, Action, pure, raise, gets, draw, or_raise, raise_if, one_or_none, ◌>>=◌, ◌>>◌,
}
use smart_parcel_station.Runtime.{Runtime}
use smart_parcel_station.Server.Enums.{UserRole}
use smart_parcel_station.Server.Models.{Db, User}
use smart_parcel_station.Server.Config.{Settings}

-- `text.split('$', n)`
unfoldable pub split_dollar : ℕ → String → List String
split_dollar zero s = s ∷ []
split_dollar (suc n) String.[] = "" ∷ []
split_dollar (suc n) (String.◌∷◌ c s) =
    let ends = split_dollar n s in
    let goes_on = split_dollar (suc n) s in
    if code c == b'$' then "" ∷ ends else cons_first c goes_on

-- the text that is stored, with its salt
unfoldable pub stored_hash : Runtime → String → String → String
stored_hash rt password salt =
    "pbkdf2_sha256"
    & ("$" & ("120000" & ("$" & (salt & ("$" & rt.pbkdf2_sha256 password salt 120000)))))

unfoldable pub hash_password : {D : Type 0} → Runtime → String → Option String → Action D String
hash_password rt password salt =
    if is_present salt
    then pure (stored_hash rt password (or_empty salt))
    else (draw (λ n. rt.token_urlsafe n 16) >>= λ drawn. pure (stored_hash rt password drawn))

-- by the number of rounds; one that is not positive raises a ValueError
unfoldable pub check_rounds : Runtime → String → String → String → Option ℤ → Bool
check_rounds rt password salt expected none = false
check_rounds rt password salt expected (some (negsuc n)) = false
check_rounds rt password salt expected (some (pos zero)) = false
check_rounds rt password salt expected (some (pos (suc n))) =
    str_eq (rt.pbkdf2_sha256 password salt (n + 1)) expected

-- by the parts of the stored text; another number of parts raises a ValueError
unfoldable pub check_parts : Runtime → String → List String → Bool
check_parts rt password (algorithm ∷ iterations ∷ salt ∷ expected ∷ []) =
    let checked = check_rounds rt password salt expected (int_of_text iterations) in
    if str_eq algorithm "pbkdf2_sha256" then checked else false
check_parts rt password _ = false

unfoldable pub verify_password : Runtime → String → Option String → Bool
verify_password rt password password_hash =
    if is_present password_hash
    then check_parts rt password (split_dollar 3 (or_empty password_hash))
    else false

unfoldable pub normalize_login_role : {D : Type 0} → String → Action D UserRole
normalize_login_role role =
    let normalized = upper (strip role) in
    if str_eq normalized "CLIENT"
    then pure UserRole.user
    else if str_eq normalized "STAFF"
    then pure UserRole.staff
    else raise (http 401 "账号或密码错误")

abbrev pub public_role : UserRole → String
public_role UserRole.user = "client"
public_role UserRole.staff = "staff"
public_role UserRole.local_admin = "local_admin"
public_role UserRole.gateway_admin = "gateway_admin"
public_role UserRole.server_admin = "server_admin"

-- `a == b` on roles
abbrev pub same_role : UserRole → UserRole → Bool
same_role a b = str_eq (public_role a) (public_role b)

-- the dict that a login returns
pub record Login : Type 0 where
  pub token : String
  pub user_id : String
  pub role : String
  pub display_name : String
  pub station_id : Option String

abbrev pub opt_str_of : Option ℕ → Option String
opt_str_of none = none
opt_str_of (some n) = some (str_of n)

-- The library functions under a token. `base64.urlsafe_b64encode` and `base64.urlsafe_b64decode` take and
-- give the UTF-8 bytes of a text, as the text; `json.dumps` is without spaces. `none` is an exception.
pub record Codec : Type 0 where
  pub dumps : Fields → String
  pub loads : String → Option Json
  pub urlsafe_b64encode : String → String
  pub urlsafe_b64decode : String → Option String

-- `'=' * n`
unfoldable pub equals_signs : ℕ → String
equals_signs zero = ""
equals_signs (suc n) = "=" & equals_signs n

-- `s.rstrip('=')`
unfoldable pub rstrip_equals : String → String
rstrip_equals String.[] = ""
rstrip_equals (String.◌∷◌ c s) =
    let rest = rstrip_equals s in if is_empty rest && code c == b'=' then "" else String.◌∷◌ c rest

-- `len(s)`
unfoldable pub len : String → ℕ
len String.[] = 0
len (String.◌∷◌ c s) = 1 + len s

-- `s` with its padding
unfoldable pub padded : String → String
padded s = let padding = 4 - len s % 4 in if padding == 4 then s else s & equals_signs padding

-- `_b64url_encode`
unfoldable pub b64url_encode : Codec → String → String
b64url_encode codec data_ = rstrip_equals (codec.urlsafe_b64encode data_)

-- `_b64url_decode`
unfoldable pub b64url_decode : Codec → String → Option String
b64url_decode codec s = codec.urlsafe_b64decode (padded s)

abbrev station_json : Option ℕ → Json
station_json none = null
station_json (some n) = number (pos n)

-- the dict that `create_access_token` encodes
abbrev pub token_payload : ℕ → String → Option ℕ → ℕ → Fields
token_payload user_id role station_id expires = entry "user_id" (number (pos user_id)) (
    entry "role" (text role)
      (entry "station_id" (station_json station_id) (entry "exp" (number (pos expires)) end)))

module _ (rt : Runtime) (codec : Codec) (settings : Settings) where
  unfoldable pub create_access_token : {D : Type 0} → ℕ → String → Option ℕ → Action D String
  create_access_token user_id role station_id = do
    now ← draw rt.clock
    let payload = token_payload user_id role station_id (now + settings.auth_token_ttl_seconds)
    let encoded = b64url_encode codec (codec.dumps payload)
    pure ("sps1." & encoded & "." & rt.hmac_sha256 settings.auth_token_secret encoded)

  -- the account with its password, or none
  abbrev pub matching : UserRole → String → Option User → Option User
  matching role password none = none
  matching role password (some user) =
      if same_role user.role role && verify_password rt password user.password_hash
      then some user
      else none

  unfoldable pub login_with_password : String → String → String → Action Db Login
  login_with_password role username password = do
    expected_role ← normalize_login_role role
    found ←
        one_or_none (← gets (λ db. filter (λ u. opt_str_is u.username (strip username)) db.users))
    user ← or_raise (matching expected_role password found) (http 401 "账号或密码错误")
    raise_if (not user.is_active) (http 403 "账号已停用")
    token ← create_access_token user.id (public_role user.role) user.station_id
    pure (record {
      token = token;
      user_id = str_of user.id;
      role = public_role user.role;
      display_name = user.display_name;
      station_id = opt_str_of user.station_id;
    })
