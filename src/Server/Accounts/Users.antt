-- ===== src/Server/Accounts/Users.antt =====
-- Stations and accounts: smartparcel-server/app/services/services.py, `create_station` to
-- `ensure_default_users`. A key that names no row, and a unique column that a write would break, raise.
use smart_parcel_station.Prelude.{
  ℕ, String, Bool, true, false, not, ◌&&◌, ◌||◌, Option, none, some, List, [], ◌∷◌, ◌++◌, map,
  str_eq, opt_str_is, is_present, ◌==◌, if◌then◌else◌, filter, any, find_first, update_where,
}
use smart_parcel_station.Session.{
  crash, Action, pure, gets, modify, commit, or_raise, raise_if, when, one_or_none, ◌>>=◌, ◌>>◌,
}
use smart_parcel_station.Runtime.{Runtime}
use smart_parcel_station.Server.Enums.{UserRole}
use smart_parcel_station.Server.Models.{Db, Station, User}
use smart_parcel_station.Server.Config.{Settings}
use smart_parcel_station.Server.Cards.{not_found}
use smart_parcel_station.Server.Listing.{newest_first}
use smart_parcel_station.Server.Accounts.{hash_password}

pub record StationCreate : Type 0 where
  pub station_code : String
  pub name : String
  pub address : String
  pub status : String

pub record UserCreate : Type 0 where
  pub display_name : String
  pub phone : Option String
  pub openid : Option String
  pub role : UserRole
  pub station_id : Option ℕ
  pub pickup_level : String
  pub trusted_pickup_enabled : Bool
  pub is_active : Bool

pub record UserPatch : Type 0 where
  pub display_name : Option String
  pub phone : Option String
  pub role : Option UserRole
  pub station_id : Option ℕ
  pub pickup_level : Option String
  pub trusted_pickup_enabled : Option Bool
  pub is_active : Option Bool

-- one of the accounts of `ensure_default_users`
pub record Account : Type 0 where
  pub username : String
  pub password : String
  pub display_name : String
  pub phone : String
  pub role : UserRole
  pub station_id : ℕ

-- `if value is not None: setattr(user, key, value)`
abbrev patched {ℓ} : {A : Type ℓ} → Option A → A → A
patched none kept = kept
patched (some value) kept = value

abbrev patched_opt {ℓ} : {A : Type ℓ} → Option A → Option A → Option A
patched_opt none kept = kept
patched_opt (some value) kept = some value

abbrev has_station : Db → Option ℕ → Bool
has_station db none = true
has_station db (some id) = any (λ s. s.id == id) db.stations

abbrev takes_openid : Db → Option String → Bool
takes_openid db none = false
takes_openid db (some openid) = any (λ u. opt_str_is u.openid openid) db.users

abbrev pub set_user : ℕ → (User → User) → Db → Db
set_user id f db = record db { users = update_where (λ u. u.id == id) f db.users }

abbrev pub patch_of : UserPatch → User → User
patch_of patch user = record user {
  display_name = patched patch.display_name user.display_name;
  phone = patched_opt patch.phone user.phone;
  role = patched patch.role user.role;
  station_id = patched_opt patch.station_id user.station_id;
  pickup_level = patched patch.pickup_level user.pickup_level;
  trusted_pickup_enabled = patched patch.trusted_pickup_enabled user.trusted_pickup_enabled;
  is_active = patched patch.is_active user.is_active;
}

-- in `legacy_usernames`
abbrev pub is_legacy : Option String → Bool
is_legacy username =
    opt_str_is username "admin001"
    || opt_str_is username "user001"
    || opt_str_is username "staff001"
    || opt_str_is username "gateway001"

-- the assignments to an account that is there
abbrev pub refreshed : Account → User → User
refreshed account user = record user {
  display_name = account.display_name;
  phone = some account.phone;
  role = account.role;
  station_id = some account.station_id;
  is_active = true;
}

module _ (rt : Runtime) where
  unfoldable pub create_station : StationCreate → Action Db Station
  create_station given = do
    taken ← gets (λ db. any (λ s. str_eq s.station_code given.station_code) db.stations)
    raise_if taken (crash "IntegrityError")
    rows ← gets (λ db. db.stations)
    let station : Station = record {
      id = rt.next_id (map (λ s. s.id) rows);
      station_code = given.station_code;
      name = given.name;
      address = given.address;
      status = given.status;
    }
    modify (λ db. record db { stations = db.stations ++ station ∷ [] })
    commit
    pure station

  unfoldable pub list_stations : Action Db (List Station)
  list_stations = gets (λ db. newest_first (λ s. s.id) db.stations)

  unfoldable pub create_user : UserCreate → Action Db User
  create_user given = do
    broken ← gets (λ db. takes_openid db given.openid || not (has_station db given.station_id))
    raise_if broken (crash "IntegrityError")
    rows ← gets (λ db. db.users)
    let user : User = record {
      id = rt.next_id (map (λ u. u.id) rows);
      username = none;
      password_hash = none;
      openid = given.openid;
      phone = given.phone;
      display_name = given.display_name;
      role = given.role;
      station_id = given.station_id;
      pickup_level = given.pickup_level;
      trusted_pickup_enabled = given.trusted_pickup_enabled;
      is_active = given.is_active;
    }
    modify (λ db. record db { users = db.users ++ user ∷ [] })
    commit
    pure user

  unfoldable pub list_users : Action Db (List User)
  list_users = gets (λ db. newest_first (λ u. u.id) db.users)

  unfoldable pub patch_user : ℕ → UserPatch → Action Db User
  patch_user user_id patch = do
    found ← gets (λ db. find_first (λ u. u.id == user_id) db.users)
    user ← or_raise found (not_found "user")
    known ← gets (λ db. has_station db patch.station_id)
    raise_if (not known) (crash "IntegrityError")
    modify (set_user user.id (patch_of patch))
    commit
    pure (patch_of patch user)

  -- `if not default_station`
  unfoldable pub ensure_station : Option Station → Action Db (Unit {0})
  ensure_station (some station) = pure tt
  ensure_station none = do
    taken ← gets (λ db. any (λ s. str_eq s.station_code "ST001") db.stations)
    raise_if taken (crash "IntegrityError")
    modify (λ db. record db {
      stations =
          db.stations
          ++ record {
            id = 1;
            station_code = "ST001";
            name = "主站点";
            address = "示例路1号";
            status = "ACTIVE";
          }
            ∷ [];
    })

  unfoldable pub store_password : Account → User → Action Db (Unit {0})
  store_password account user = do
    hash ← hash_password rt account.password none
    modify (set_user user.id (λ u. record u { password_hash = some hash }))

  -- the hash that is compared has a salt of its own, so it is another text unless two salts agree
  unfoldable pub refresh_password : Account → User → Action Db (Unit {0})
  refresh_password account user =
      if is_present user.password_hash
      then (do
        compared ← hash_password rt account.password none
        when (not (opt_str_is user.password_hash compared)) (store_password account user))
      else store_password account user

  -- by the account with this name
  unfoldable pub put_account : Account → Option User → Action Db ℕ
  put_account account (some user) = do
    modify (set_user user.id (refreshed account))
    refresh_password account user
    pure user.id
  put_account account none = do
    hash ← hash_password rt account.password none
    rows ← gets (λ db. db.users)
    modify (λ db. record db {
      users =
          db.users
          ++ record {
            id = rt.next_id (map (λ u. u.id) rows);
            username = some account.username;
            password_hash = some hash;
            openid = none;
            phone = some account.phone;
            display_name = account.display_name;
            role = account.role;
            station_id = some account.station_id;
            pickup_level = "NORMAL";
            trusted_pickup_enabled = false;
            is_active = true;
          }
            ∷ [];
    })
    pure (rt.next_id (map (λ u. u.id) rows))

  -- the body of the loop, which gives the id of its account
  unfoldable pub ensure_account : Account → Action Db ℕ
  ensure_account account = do
    rows ← gets (λ db. filter (λ u. opt_str_is u.username account.username) db.users)
    found ← one_or_none rows
    put_account account found

  -- `refresh(user)`, the row as it is after the commit
  unfoldable pub refreshed_user : ℕ → Action Db User
  refreshed_user id = do
    found ← gets (λ db. find_first (λ u. u.id == id) db.users)
    or_raise found (crash "InvalidRequestError")

  module _ (settings : Settings) where
    -- a legacy account that is not one of the two
    abbrev pub is_retired_account : User → Bool
    is_retired_account user =
        is_legacy user.username
        && not (
            opt_str_is user.username settings.default_station_admin_username
            || opt_str_is user.username settings.default_demo_user_username)

    abbrev pub station_admin : Account
    station_admin = record {
      username = settings.default_station_admin_username;
      password = settings.default_station_admin_password;
      display_name = "站点管理员";
      phone = "18800000001";
      role = UserRole.staff;
      station_id = 1;
    }

    abbrev pub demo_user : Account
    demo_user = record {
      username = settings.default_demo_user_username;
      password = settings.default_demo_user_password;
      display_name = "演示用户";
      phone = "18800000002";
      role = UserRole.user;
      station_id = 1;
    }

    unfoldable pub ensure_default_users : Action Db (List User)
    ensure_default_users = do
      found ← gets (λ db. find_first (λ s. s.id == 1) db.stations)
      ensure_station found
      modify (λ db. record db {
        users = update_where is_retired_account (λ u. record u { is_active = false }) db.users;
      })
      admin_id ← ensure_account station_admin
      user_id ← ensure_account demo_user
      commit
      admin ← refreshed_user admin_id
      user ← refreshed_user user_id
      pure (admin ∷ user ∷ [])
