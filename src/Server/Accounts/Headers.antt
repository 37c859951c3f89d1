-- ===== src/Server/Accounts/Headers.antt =====
-- The headers X-Dev-User-Id and X-Dev-Role as credentials.
use smart_parcel_station.Prelude.{
  String, Bool, none, some, [], ◌∷◌, ◌≡◌, refl, ◌&&◌, ◌==◌, filter, str_eq,
}
use smart_parcel_station.Prelude.Int.{pos}
use smart_parcel_station.Session.{ok, Session}
use smart_parcel_station.Runtime.{Runtime}
use smart_parcel_station.Server.Enums.{UserRole}
use smart_parcel_station.Server.Enums.Values.{user_role_value}
use smart_parcel_station.Server.Models.{Db, User}
use smart_parcel_station.Server.Config.{Settings}
use smart_parcel_station.Server.Accounts.{Codec}
use smart_parcel_station.Server.Accounts.Identity.{
  as_user, get_current_user_dev, get_current_server_admin, get_current_server_admin_or_bootstrap,
}

module _ (rt : Runtime) (codec : Codec) where
  -- Whatever the settings are, `dev_auth_enabled` included: a request with no bootstrap token and no
  -- bearer token is let in as a server administrator where its headers name the id of an active account
  -- with the role SERVER_ADMIN, the only active one with this id, and that role. No secret is asked for.
  pub get_current_server_admin_or_bootstrap-headers :
      (settings : Settings) (comparable : String → Bool) (user : User) (s : Session Db)
      → user.role ≡ UserRole.server_admin
      → filter (λ u. (u.id == user.id) && u.is_active) s.work.users ≡ user ∷ []
      → get_current_server_admin_or_bootstrap rt codec settings comparable none none
          (some (pos user.id))
          (some "SERVER_ADMIN")
          s
        ≡ (ok (as_user user), s)
  unfolding get_current_server_admin_or_bootstrap get_current_server_admin get_current_user_dev
      user_role_value str_eq
  get_current_server_admin_or_bootstrap-headers settings comparable user s admin only =
      rw (only, admin) refl
