-- ===== src/Server/Accounts/Identity.antt =====
-- Who makes a request: smartparcel-server/app/core/security.py, `_verify_access_token_internal` to
-- `get_current_server_admin_or_bootstrap`.
use smart_parcel_station.Prelude.{
  ℕ, String, Bool, true, false, not, ◌&&◌, Option, none, some, List, [], ◌∷◌, str_eq, is_present,
  or_empty, ◌==◌, if◌then◌else◌, filter,
}
use Prim.Native.Char.{code}
use smart_parcel_station.Prelude.Int.{ℤ, pos, negsuc, ltb_ℤ}
use smart_parcel_station.Text.{cons_first}
use smart_parcel_station.Json.{Json, flag, number, object, Fields, end, entry, get}
use smart_parcel_station.Session.{
  Result, err, http, crash, Action, pure, raise, gets, draw, or_raise, raise_if, one_or_none, ◌>>=◌,
  ◌>>◌,
}
use smart_parcel_station.Runtime.{Runtime}
use smart_parcel_station.Server.Enums.{UserRole}
use smart_parcel_station.Server.Enums.Values.{user_role_value}
use smart_parcel_station.Server.Models.{Db, User}
use smart_parcel_station.Server.Config.{Settings}
use smart_parcel_station.Server.Payload.{int_value, lift}
use smart_parcel_station.Server.Accounts.{Codec, b64url_decode}

-- `text.split('.')`
unfoldable pub split_dot : String → List String
split_dot String.[] = "" ∷ []
split_dot (String.◌∷◌ c s) =
    let rest = split_dot s in if code c == b'.' then "" ∷ rest else cons_first c rest

-- `payload.get('exp', 0)`; what is not an integer cannot be compared with the time
unfoldable pub expiry_of : Option Json → Option ℤ
expiry_of none = some (pos 0)
expiry_of (some (number z)) = some z
expiry_of (some (flag true)) = some (pos 1)
expiry_of (some (flag false)) = some (pos 0)
expiry_of (some _) = none

-- by the time of expiry
abbrev unexpired : ℕ → Option ℤ → Bool
unexpired now none = false
unexpired now (some z) = not (ltb_ℤ z (pos now))

-- the payload that is decoded, if it is a dict
unfoldable pub checked_payload : ℕ → Option Json → Option Fields
checked_payload now (some (object payload)) =
    if unexpired now (expiry_of (get "exp" payload)) then some payload else none
checked_payload now _ = none

-- `payload['user_id']`
abbrev pub user_id_of : Option Json → Result ℤ
user_id_of none = err (crash "KeyError")
user_id_of (some v) = int_value v

abbrev pub has_id : ℤ → User → Bool
has_id (pos n) user = user.id == n
has_id (negsuc n) user = false

-- in `{STAFF, GATEWAY_ADMIN, SERVER_ADMIN}`
abbrev pub is_staff_or_admin : UserRole → Bool
is_staff_or_admin UserRole.staff = true
is_staff_or_admin UserRole.gateway_admin = true
is_staff_or_admin UserRole.server_admin = true
is_staff_or_admin _ = false

abbrev pub is_server_admin : UserRole → Bool
is_server_admin UserRole.server_admin = true
is_server_admin _ = false

-- `_raise_auth`
abbrev raise_auth : {A : Type 0} → String → Action Db A
raise_auth detail = raise (http 401 detail)

-- what the dependency returns: the user, or the mark of the bootstrap token
pub data Administrator : Type 0 where
  bootstrap : Administrator
  as_user : User → Administrator

-- `json.loads`, of a text that was decoded or not
unfoldable pub loaded : Codec → Option String → Option Json
loaded codec none = none
loaded codec (some decoded) = codec.loads decoded

-- by the parts of the token; an exception on the way gives none too
module _ (rt : Runtime) (codec : Codec) (settings : Settings) where
  -- by the parts of the token
  unfoldable pub check_token_parts : ℕ → List String → Option Fields
  check_token_parts now (version ∷ encoded ∷ sig ∷ []) =
      if str_eq version "sps1" && str_eq (rt.hmac_sha256 settings.auth_token_secret encoded) sig
      then checked_payload now (loaded codec (b64url_decode codec encoded))
      else none
  check_token_parts now _ = none

  -- `_verify_access_token_internal`
  unfoldable pub verify_access_token : String → Action Db (Option Fields)
  verify_access_token token =
      draw rt.clock >>= λ now. pure (check_token_parts now (split_dot token))

  -- by the payload, which may be empty
  unfoldable pub load_user : Option Fields → Action Db (Option User)
  load_user none = pure none
  load_user (some end) = pure none
  load_user (some (entry key v payload)) = do
    id ← lift (user_id_of (get "user_id" (entry key v payload)))
    rows ← gets (λ db. filter (λ u. has_id id u && u.is_active) db.users)
    one_or_none rows

  -- `_load_user_from_token`
  unfoldable pub load_user_from_token : String → Action Db (Option User)
  load_user_from_token token = verify_access_token token >>= load_user

  -- by the credentials of the header
  unfoldable pub get_current_user : Option String → Action Db User
  get_current_user credentials = do
    raise_if (not (is_present credentials)) (http 401 "Missing authorization token")
    user ← load_user_from_token (or_empty credentials)
    or_raise user (http 401 "Invalid or expired token")

  unfoldable pub get_current_staff_or_admin : Option String → Action Db User
  get_current_staff_or_admin credentials = do
    user ← get_current_user credentials
    raise_if (not (is_staff_or_admin user.role)) (http 403 "Staff or admin role required")
    pure user

  -- by the headers X-Dev-User-Id and X-Dev-Role
  unfoldable pub get_current_user_dev : Option ℤ → Option String → Action Db User
  get_current_user_dev none role = raise_auth "Missing development auth headers"
  get_current_user_dev (some id) role = do
    raise_if (not (is_present role)) (http 401 "Missing development auth headers")
    rows ← gets (λ db. filter (λ u. has_id id u && u.is_active) db.users)
    found ← one_or_none rows
    user ← or_raise found (http 401 "User not found or inactive")
    raise_if (not (str_eq (user_role_value user.role) (or_empty role))) (http 401 "Role mismatch")
    pure user

  unfoldable pub get_current_server_admin : Option ℤ → Option String → Action Db User
  get_current_server_admin id role = do
    user ← get_current_user_dev id role
    raise_if (not (is_server_admin user.role)) (http 401 "Admin role required")
    pure user

  -- the branch of a bearer token
  unfoldable pub bearer_admin : Option User → Action Db Administrator
  bearer_admin none = raise_auth "Admin role required"
  bearer_admin (some user) =
      if is_server_admin user.role then pure (as_user user) else raise_auth "Admin role required"

  -- `hmac.compare_digest` raises where a text is not ASCII, which `comparable` tells
  unfoldable pub get_current_server_admin_or_bootstrap :
      (String → Bool)
      → Option String
      → Option String
      → Option ℤ
      → Option String
      → Action Db Administrator
  get_current_server_admin_or_bootstrap comparable bootstrap_token credentials id role = do
    raise_if
        (is_present bootstrap_token
          && not
              (comparable (or_empty bootstrap_token) && comparable settings.admin_bootstrap_token))
        (crash "TypeError")
    if is_present bootstrap_token
          && str_eq (or_empty bootstrap_token) settings.admin_bootstrap_token
        then pure bootstrap
        else if is_present credentials
        then (load_user_from_token (or_empty credentials) >>= bearer_admin)
        else (get_current_server_admin id role >>= λ user. pure (as_user user))
