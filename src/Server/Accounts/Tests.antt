-- ===== src/Server/Accounts/Tests.antt =====
-- Examples of a stored password and of a login.
use smart_parcel_station.Prelude.{
  String, true, none, some, ◌&&◌, ◌==◌, arith, [], ◌∷◌, ◌≡◌, refl, filter, str_eq, if◌then◌else◌,
}
use smart_parcel_station.Text.{upper, strip, str_of, int_of_text}
use smart_parcel_station.Prelude.Int.{pos}
use smart_parcel_station.Json.{Fields, object}
use smart_parcel_station.Session.{Result, ok, Session, opened}
use smart_parcel_station.Server.Enums.{UserRole}
use smart_parcel_station.Server.Models.{Db, User}
use smart_parcel_station.Server.Config.{default_settings}
use smart_parcel_station.Server.Examples.{example_runtime, example_user, example_db}
use smart_parcel_station.Server.Accounts.{
  split_dollar, stored_hash, check_rounds, check_parts, verify_password, normalize_login_role,
  create_access_token, Login, login_with_password, Codec, token_payload, equals_signs,
  rstrip_equals, len, b64url_encode,
}
use smart_parcel_station.Server.Accounts.Identity.{
  as_user, get_current_user, get_current_server_admin_or_bootstrap,
}
use smart_parcel_station.Server.Accounts.Base64.{is_url_text}
use smart_parcel_station.Server.Accounts.Tokens.{
  no_dot, IsReadable, get_current_user-create_access_token,
}
use smart_parcel_station.Server.Accounts.Headers.{get_current_server_admin_or_bootstrap-headers}
use smart_parcel_station.Server.Accounts.Passwords.{
  no_dollar, verify_password-stored_hash, IsLogin, login_with_password-IsLogin,
}

salt-plain : no_dollar "s4lt" ≡ true
unfolding no_dollar
salt-plain = refl

verify_password-stored_hash_example :
    verify_password example_runtime "pa$$word"
      (some (stored_hash example_runtime "pa$$word" "s4lt"))
    ≡ true
verify_password-stored_hash_example =
    verify_password-stored_hash example_runtime "pa$$word" "s4lt" salt-plain

abbrev client : User
client = record (example_user 4 UserRole.user) {
  username = some "ann";
  password_hash = some "pbkdf2_sha256$120000$s4lt$s4ltsecret";
}

abbrev db : Db
db = record (example_db []) { users = client ∷ [] }

-- the dict of the example in the libraries' forms
abbrev payload : Fields
payload = token_payload 4 "client" (some 7) 87400

abbrev codec : Codec
codec = record {
  dumps = λ fields. "payload";
  loads = λ s. if str_eq s "payload" then some (object payload) else none;
  urlsafe_b64encode = λ s. "cGF5bG9hZA==";
  urlsafe_b64decode = λ s. if str_eq s "cGF5bG9hZA==" then some "payload" else none;
}

abbrev attempt : Result Login × Session Db
attempt =
    login_with_password example_runtime codec default_settings " client" "ann " "secret"
      (opened db 0)

abbrev answered : Login
answered = record {
  token = "sps1.cGF5bG9hZA.change-this-auth-token-secret:cGF5bG9hZA";
  user_id = "4";
  role = "client";
  display_name = "";
  station_id = some "7";
}

attempt-ok : attempt ≡ (ok answered, attempt.1)
unfolding login_with_password normalize_login_role create_access_token verify_password check_parts
    b64url_encode rstrip_equals check_rounds split_dollar str_eq filter upper strip str_of
    int_of_text
attempt-ok = refl

login_with_password-IsLogin_example :
    ((user : User) × IsLogin example_runtime codec default_settings " client" "ann " "secret" db
        answered user)
    × (attempt.1.work ≡ db)
    × (attempt.1.saved ≡ db)
login_with_password-IsLogin_example =
    login_with_password-IsLogin example_runtime codec default_settings " client" "ann " "secret"
      (opened db 0) attempt-ok

abbrev minted : Result String × Session Db
minted =
    create_access_token example_runtime codec default_settings 4 "client" (some 7) (opened db 0)

minted-ok : minted ≡ (ok "sps1.cGF5bG9hZA.change-this-auth-token-secret:cGF5bG9hZA", minted.1)
unfolding create_access_token b64url_encode rstrip_equals str_eq
minted-ok = refl

payload-IsReadable : IsReadable example_runtime codec default_settings payload
unfolding no_dot is_url_text equals_signs len rstrip_equals b64url_encode str_eq
payload-IsReadable = record {
  loaded = refl;
  base64 = record {
    body = "cGF5bG9hZA";
    signs = 2;
    split = refl;
    few = omega arith;
    whole = refl;
    alphabet = refl;
  };
  decoded = refl;
  digest_plain = refl;
}

only_client : filter (λ (u : User). (u.id == 4) && u.is_active) (client ∷ []) ≡ client ∷ []
unfolding filter
only_client = refl

get_current_user-create_access_token_example :
    get_current_user example_runtime codec default_settings
      (some "sps1.cGF5bG9hZA.change-this-auth-token-secret:cGF5bG9hZA")
      (opened db 5)
    ≡ (ok client, opened db 6)
get_current_user-create_access_token_example =
    get_current_user-create_access_token example_runtime codec default_settings client "client"
      (opened db 0) (opened db 5) payload-IsReadable minted-ok (omega arith) only_client

abbrev admin : User
admin = example_user 9 UserRole.server_admin

only_admin : filter (λ (u : User). (u.id == 9) && u.is_active) (admin ∷ []) ≡ admin ∷ []
unfolding filter
only_admin = refl

get_current_server_admin_or_bootstrap-headers_example :
    get_current_server_admin_or_bootstrap example_runtime codec default_settings
      (λ t. true)
      none
      none
      (some (pos 9))
      (some "SERVER_ADMIN")
      (opened (record db { users = admin ∷ [] }) 0)
    ≡ (ok (as_user admin), opened (record db { users = admin ∷ [] }) 0)
get_current_server_admin_or_bootstrap-headers_example =
    get_current_server_admin_or_bootstrap-headers example_runtime codec default_settings (λ t. true)
      admin (opened (record db { users = admin ∷ [] }) 0) refl only_admin
