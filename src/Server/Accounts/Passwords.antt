-- ===== src/Server/Accounts/Passwords.antt =====
-- A password is verified against the hash that was made of it.
use Prim.Native.Char.{code}
use text.Mathlib.TextLemmas.{nil-append, cons-append}
use smart_parcel_station.Prelude.{
  ℕ, suc, String, Bool, true, false, not, ◌&&◌, Option, none, some, [], ◌∷◌, ◌≡◌, refl, sym, ap,
  ◌∙◌, subst, ◌⊎◌, str_eq, str_eq_refl, str_eq_iff, is_present, ◌==◌, Bool-cases, inl, inr, filter,
  opt_str_is, arith,
}
use smart_parcel_station.Text.{◌&◌, upper, strip, str_of, int_of_text}
use smart_parcel_station.Prelude.Int.{pos}
use smart_parcel_station.Session.{
  ok, http, Action, pure, ◌>>=◌, Session, one_or_none, or_raise, raise_if,
}
use smart_parcel_station.Session.Laws.{continue-ok, or_raise-ok, raise_if-ok, one_or_none-ok_some}
use smart_parcel_station.Runtime.{Runtime}
use smart_parcel_station.Server.Enums.{UserRole}
use smart_parcel_station.Server.Models.{Db, User}
use smart_parcel_station.Server.Config.{Settings}
use smart_parcel_station.Server.Accounts.{
  split_dollar, stored_hash, check_rounds, check_parts, verify_password, normalize_login_role,
  create_access_token, matching, public_role, same_role, opt_str_of, Codec, Login,
  login_with_password,
}

-- a text without a dollar sign
unfoldable pub no_dollar : String → Bool
no_dollar String.[] = true
no_dollar (String.◌∷◌ c s) = not (code c == b'$') && no_dollar s

split_dollar-append :
    (n : ℕ) (s t : String)
    → no_dollar s ≡ true
    → split_dollar (suc n) (s & ("$" & t)) ≡ s ∷ split_dollar n t
unfolding split_dollar no_dollar
split_dollar-append n String.[] t h =
    ap (split_dollar (suc n))
      (nil-append ("$" & t) ∙ cons-append "$" "" t ∙ ap (String.◌∷◌ "$") (nil-append t))
split_dollar-append n (String.◌∷◌ c s) t h =
    let rest = split_dollar-append n s t (ground (arith, h)) in
    let plain : (code c == b'$') ≡ false = ground (arith, h) in
    ap (split_dollar (suc n)) (cons-append c s ("$" & t)) ∙ rw (plain, rest) refl

split_dollar-zero : (s : String) → split_dollar 0 s ≡ s ∷ []
unfolding split_dollar
split_dollar-zero s = refl

algorithm-plain : no_dollar "pbkdf2_sha256" ≡ true
unfolding no_dollar
algorithm-plain = refl

rounds-plain : no_dollar "120000" ≡ true
unfolding no_dollar
rounds-plain = refl

int_of-rounds : int_of_text "120000" ≡ some (pos 120000)
unfolding int_of_text
int_of-rounds = refl

module _ (rt : Runtime) where
  split_stored :
      (password salt : String)
      → no_dollar salt ≡ true
      → split_dollar 3 (stored_hash rt password salt)
        ≡ "pbkdf2_sha256" ∷ "120000" ∷ salt ∷ rt.pbkdf2_sha256 password salt 120000 ∷ []
  unfolding stored_hash
  split_stored password salt h =
      let digest = rt.pbkdf2_sha256 password salt 120000 in
      split_dollar-append 2 "pbkdf2_sha256" ("120000" & ("$" & (salt & ("$" & digest))))
        algorithm-plain
      ∙ ap (λ parts. "pbkdf2_sha256" ∷ parts)
          (split_dollar-append 1 "120000" (salt & ("$" & digest)) rounds-plain)
      ∙ ap (λ parts. "pbkdf2_sha256" ∷ "120000" ∷ parts) (split_dollar-append 0 salt digest h)
      ∙ ap (λ parts. "pbkdf2_sha256" ∷ "120000" ∷ salt ∷ parts) (split_dollar-zero digest)

  stored_hash-present :
      (password salt : String)
      → no_dollar salt ≡ true
      → is_present (some (stored_hash rt password salt)) ≡ true
  unfolding split_dollar
  stored_hash-present password salt h =
      elim (Bool-cases (str_eq (stored_hash rt password salt) "")) [
        | inr full ↦ rw full refl
        | inl empty ↦
            let parts =
              ap (split_dollar 3) (sym ((str_eq_iff (stored_hash rt password salt) "").0 empty))
              ∙ split_stored password salt h in
            absurd (ground (arith, parts))
      ]

  -- A password is verified against its own hash: for every password, and every salt without a dollar
  -- sign, `verify_password` accepts the text that `hash_password` forms of them.
  pub verify_password-stored_hash :
      (password salt : String)
      → no_dollar salt ≡ true
      → verify_password rt password (some (stored_hash rt password salt)) ≡ true
  unfolding verify_password check_parts check_rounds
  verify_password-stored_hash password salt h =
      let full : is_present (some (stored_hash rt password salt)) ≡ true =
        stored_hash-present password salt h in
      let rounds = int_of-rounds in
      rw
        (
          full,
          split_stored password salt h,
          rounds,
          str_eq_refl (rt.pbkdf2_sha256 password salt 120000),
          str_eq_refl "pbkdf2_sha256",
        )
        refl

same_role-user : (a : UserRole) → same_role a UserRole.user ≡ true → a ≡ UserRole.user
unfolding str_eq
same_role-user UserRole.user h = refl
same_role-user UserRole.staff h = ground (arith, h)
same_role-user UserRole.local_admin h = ground (arith, h)
same_role-user UserRole.gateway_admin h = ground (arith, h)
same_role-user UserRole.server_admin h = ground (arith, h)

same_role-staff : (a : UserRole) → same_role a UserRole.staff ≡ true → a ≡ UserRole.staff
unfolding str_eq
same_role-staff UserRole.staff h = refl
same_role-staff UserRole.user h = ground (arith, h)
same_role-staff UserRole.local_admin h = ground (arith, h)
same_role-staff UserRole.gateway_admin h = ground (arith, h)
same_role-staff UserRole.server_admin h = ground (arith, h)

-- the two roles that a login can ask for
normalize_login_role-ok :
    (role : String) (s : Session Db) {r : UserRole} {t : Session Db}
    → normalize_login_role role s ≡ (ok r, t)
    → (((upper (strip role) ≡ "CLIENT") × (r ≡ UserRole.user))
        ⊎ ((upper (strip role) ≡ "STAFF") × (r ≡ UserRole.staff)))
      × (t ≡ s)
unfolding normalize_login_role
normalize_login_role-ok role s h =
    ground
      (arith, h, str_eq_iff (upper (strip role)) "CLIENT", str_eq_iff (upper (strip role)) "STAFF")

module _ (rt : Runtime) (codec : Codec) (settings : Settings) where
  -- What a login that succeeds has found.
  pub record IsLogin (role username password : String) (db : Db) (login : Login) (user : User)
      : Type 0 where
    pub found : filter (λ u. opt_str_is u.username (strip username)) db.users ≡ user ∷ []
    pub expected :
        ((upper (strip role) ≡ "CLIENT") × (user.role ≡ UserRole.user))
        ⊎ ((upper (strip role) ≡ "STAFF") × (user.role ≡ UserRole.staff))
    pub verified : verify_password rt password user.password_hash ≡ true
    pub active : user.is_active ≡ true
    pub named : login.user_id ≡ str_of user.id
    pub granted : login.role ≡ public_role user.role

  -- the last steps
  answer : User → Action Db Login
  answer user = do
    token ← create_access_token rt codec settings user.id (public_role user.role) user.station_id
    pure (record {
      token = token;
      user_id = str_of user.id;
      role = public_role user.role;
      display_name = user.display_name;
      station_id = opt_str_of user.station_id;
    })

  answer-ok :
      (user : User) (s : Session Db) {login : Login} {t : Session Db}
      → answer user s ≡ (ok login, t)
      → (login.user_id ≡ str_of user.id)
        × (login.role ≡ public_role user.role)
        × (t.work ≡ s.work)
        × (t.saved ≡ s.saved)
  unfolding answer create_access_token
  answer-ok user s h = ground (arith, h)

  not-false : (b : Bool) → not b ≡ false → b ≡ true
  not-false b h = ground (arith, h)

  asked_role :
      (role : String) (r own : UserRole)
      → str_eq (public_role own) (public_role r) ≡ true
      → ((upper (strip role) ≡ "CLIENT") × (r ≡ UserRole.user))
        ⊎ ((upper (strip role) ≡ "STAFF") × (r ≡ UserRole.staff))
      → ((upper (strip role) ≡ "CLIENT") × (own ≡ UserRole.user))
        ⊎ ((upper (strip role) ≡ "STAFF") × (own ≡ UserRole.staff))
  asked_role role r own same (inl (client, user)) =
      inl (client, same_role-user own (subst (λ (r : UserRole). same_role own r ≡ true) user same))
  asked_role role r own same (inr (staff, role_is)) =
      inr
        (staff, same_role-staff own (subst (λ (r : UserRole). same_role own r ≡ true) role_is same))

  matching-ok :
      (r : UserRole) (password : String) (found : Option User) {user : User}
      → matching rt codec settings r password found ≡ some user
      → (found ≡ some user)
        × (same_role user.role r ≡ true)
        × (verify_password rt password user.password_hash ≡ true)
  matching-ok r password none h = ground (arith, h)
  matching-ok r password (some u) {user} h =
      let same : u ≡ user = ground (arith, h) in
      subst
        (λ (v : User).
          (some u ≡ some v)
          × (same_role v.role r ≡ true)
          × (verify_password rt password v.password_hash ≡ true))
        same (refl, ground (arith, h), ground (arith, h))

  -- A login succeeds only for the one account with this name, of the role that is asked for, with a
  -- password that is verified against the stored hash, and that is active. It names this account and
  -- its role, and changes no table.
  pub login_with_password-IsLogin :
      (role username password : String) (s : Session Db) {login : Login} {t : Session Db}
      → login_with_password rt codec settings role username password s ≡ (ok login, t)
      → ((user : User) × IsLogin role username password s.work login user)
        × (t.work ≡ s.work)
        × (t.saved ≡ s.saved)
  unfolding login_with_password answer
  login_with_password-IsLogin role username password s {login} {t} h =
      let (r, s1, role_is, h1) = continue-ok (normalize_login_role role s) _ h in
      let (asked, at1) = normalize_login_role-ok role s role_is in
      let rows = filter (λ u. opt_str_is u.username (strip username)) s1.work.users in
      let (found, s2, row, h2) = continue-ok (one_or_none rows s1) _ h1 in
      let (user, s3, match, h3) =
        continue-ok (or_raise (matching rt codec settings r password found) (http 401 "账号或密码错误") s2)
          _ h2 in
      let (fits, at3) =
        or_raise-ok (matching rt codec settings r password found) (http 401 "账号或密码错误") s2 match in
      let (one, same, verified) = matching-ok r password found fits in
      let (u, s4, active, h4) =
        continue-ok (raise_if (not user.is_active) (http 403 "账号已停用") s3) _ h3 in
      let (on, at4) = raise_if-ok (not user.is_active) (http 403 "账号已停用") s3 active in
      let (alone, at2) =
        one_or_none-ok_some rows s1
          (subst (λ (f : Option User). one_or_none rows s1 ≡ (ok f, s2)) one row) in
      let (named, granted, work, saved) = answer-ok user s4 h4 in
      let start : s4 ≡ s = at4 ∙ at3 ∙ at2 ∙ at1 in
      (
        (
          user,
          record {
            found =
                subst
                  (λ (s : Session Db).
                    filter (λ u. opt_str_is u.username (strip username)) s.work.users ≡ user ∷ [])
                  at1 alone;
            expected = asked_role role r user.role same asked;
            verified = verified;
            active = not-false user.is_active on;
            named = named;
            granted = granted;
          },
        ),
        work ∙ ap (λ (s : Session Db). s.work) start,
        saved ∙ ap (λ (s : Session Db). s.saved) start,
      )
