-- ===== src/Server/Provisioning/Issued.antt =====
-- What a preparation that succeeds has tested and stored.
use smart_parcel_station.Prelude.{
  ℕ, String, Bool, true, false, not, ◌&&◌, ◌||◌, Option, none, some, List, [], ◌∷◌, ◌++◌, ◌≡◌, refl,
  sym, ap, ◌∙◌, subst, all, filter, str_eq, is_empty, or_empty, Bool-cases, inl, inr, arith,
}
use smart_parcel_station.Prelude.Keyed.{all-only, all-unselected}
use smart_parcel_station.Text.{strip}
use smart_parcel_station.Session.{ok, Session, opened, one_or_none}
use smart_parcel_station.Session.Laws.{bind-ok}
use smart_parcel_station.Runtime.{Runtime}
use smart_parcel_station.Server.Enums.{GatewayRegistrationTokenStatus}
use smart_parcel_station.Server.Models.{
  Db, User, Gateway, GatewayRegistrationToken, GatewayFactoryDevice,
}
use smart_parcel_station.Server.Config.{Settings}
use smart_parcel_station.Server.Auth.{record_security_audit}
use smart_parcel_station.Server.Registration.{
  is_barred, get_station, TokenRequest, create_gateway_registration_token,
  generate_registration_token, hash_registration_token,
}
use smart_parcel_station.Server.Provisioning.{
  is_taken, is_running, is_foreign, factory_code_of, PrepareRequest, Prepared, code_with,
  auto_gateway_code, code_suffix, resolve_device, wanted_code, free_code, choose_code,
  check_request, token_request, issue, prepare_gateway_provisioning,
}

-- the device has another factory code, or may be bound
abbrev pub is_free_for : String → GatewayFactoryDevice → Bool
is_free_for code device =
    not (str_eq device.gateway_factory_code code)
    || not (is_barred device.status || is_taken device.status)

-- what the row of a token has from its request
pub record IsIssued (rt : Runtime) (settings : Settings) (req : TokenRequest) (plain : String)
    (row : GatewayRegistrationToken) : Type 0 where
  pub pending : row.status ≡ GatewayRegistrationTokenStatus.pending
  pub hashed : row.token_hash ≡ hash_registration_token rt settings plain
  pub same_code : row.gateway_code ≡ req.gateway_code
  pub same_station : row.station_id ≡ req.station_id
  pub same_factory_code : row.gateway_factory_code ≡ req.gateway_factory_code

one_or_none-work :
    {A : Type 0} (rows : List A) (s : Session Db) → (one_or_none rows s).1.work ≡ s.work
one_or_none-work [] s = refl
one_or_none-work (x ∷ []) s = refl
one_or_none-work (x ∷ y ∷ rows) s = refl

module _ (rt : Runtime) (settings : Settings) where
  create-IsIssued :
      (req : TokenRequest) (s : Session Db) {row : GatewayRegistrationToken} {plain : String}
      {t : Session Db}
      → create_gateway_registration_token rt settings req s ≡ (ok (row, plain), t)
      → IsIssued rt settings req plain row
        × (t.work.gateway_registration_tokens ≡ s.work.gateway_registration_tokens ++ row ∷ [])
  unfolding create_gateway_registration_token get_station generate_registration_token
  create-IsIssued req s e = (
    record {
      pending = ground arith;
      hashed = ground arith;
      same_code = ground arith;
      same_station = ground arith;
      same_factory_code = ground arith;
    },
    ground arith,
  )

  module _ (matches : String → String → Bool) where
    resolve_device-ok :
        (req : PrepareRequest) (code : String) (now : ℕ) (found : Option GatewayFactoryDevice)
        (s : Session Db) {device : GatewayFactoryDevice} {t : Session Db}
        → resolve_device rt settings matches req code now found s ≡ (ok device, t)
        → t.work.gateway_registration_tokens ≡ s.work.gateway_registration_tokens
    unfolding resolve_device record_security_audit
    resolve_device-ok req code now none s e = ground arith
    resolve_device-ok req code now (some device) s e = ground arith

    resolve_device-free :
        (req : PrepareRequest) (code : String) (now : ℕ) (found : GatewayFactoryDevice)
        (s : Session Db) {device : GatewayFactoryDevice} {t : Session Db}
        → resolve_device rt settings matches req code now (some found) s ≡ (ok device, t)
        → (is_barred found.status || is_taken found.status) ≡ false
    unfolding resolve_device
    resolve_device-free req code now found s e = ground arith

    code_with-work :
        (suffix : Option String) (s : Session Db)
        → (code_with rt settings matches suffix s).1.work ≡ s.work
    code_with-work none s = refl
    code_with-work (some suffix) s = refl

    wanted_code-work :
        (req : PrepareRequest) (code : String) (s : Session Db)
        → (wanted_code rt settings matches req code s).1.work ≡ s.work
    unfolding wanted_code auto_gateway_code
    wanted_code-work req code s =
        elim (Bool-cases (is_empty (strip (or_empty req.requested_gateway_code)))) [
          | inl missing ↦ rw missing (code_with-work (code_suffix code) s)
          | inr given ↦ rw given refl
        ]

    free_code-work :
        (code : String) (found : Option Gateway) (s : Session Db)
        → (free_code rt settings matches code found s).1.work ≡ s.work
    unfolding free_code
    free_code-work code none s = refl
    free_code-work code (some g) s = refl

    issue-ok :
        (user : User) (req : PrepareRequest) (code : String) (now : ℕ)
        (device : GatewayFactoryDevice) (gateway_code : String) (s : Session Db) {p : Prepared}
        {t : Session Db}
        → issue rt settings matches user req code now device gateway_code s ≡ (ok p, t)
        → (row : GatewayRegistrationToken) × IsIssued rt settings
            (token_request rt settings matches user req code gateway_code)
            p.registration_token
            row
          × (t.saved.gateway_registration_tokens ≡ s.work.gateway_registration_tokens ++ row ∷ [])
          × (p.gateway_code ≡ gateway_code)
    unfolding issue record_security_audit
    issue-ok user req code now device gateway_code s {p} {t} e =
        let (made, s1, e1, rest) =
          bind-ok
            (create_gateway_registration_token rt settings
              (token_request rt settings matches user req code gateway_code))
            _ s e in
        let (issued, listed) =
          create-IsIssued (token_request rt settings matches user req code gateway_code) s e1 in
        let plain : p.registration_token ≡ made.1 = ground (arith, rest) in
        let stored : t.saved.gateway_registration_tokens ≡ s1.work.gateway_registration_tokens =
          ground (arith, rest) in
        let named : p.gateway_code ≡ gateway_code = ground (arith, rest) in
        (
          made.0,
          subst
              (λ (x : String).
                IsIssued rt settings (token_request rt settings matches user req code gateway_code)
                  x made.0)
              (sym plain) issued,
          stored ∙ listed,
          named,
        )

    -- what a preparation that succeeds has tested and stored
    pub record IsPrepared (user : User) (req : PrepareRequest) (db after : Db) (p : Prepared)
        : Type 0 where
      pub matched :
          matches settings.gateway_factory_code_pattern (factory_code_of req.gateway_factory_code)
          ≡ true
      pub own_station : is_foreign user req.station_id ≡ false
      pub free_device :
          all (is_free_for (factory_code_of req.gateway_factory_code)) db.gateway_factory_devices
          ≡ true
      pub issued :
          (row : GatewayRegistrationToken) × IsIssued rt settings
            (token_request rt settings matches user req
              (factory_code_of req.gateway_factory_code)
              p.gateway_code)
            p.registration_token
            row
          × (after.gateway_registration_tokens ≡ db.gateway_registration_tokens ++ row ∷ [])

    abbrev rows_of : Option GatewayFactoryDevice → List GatewayFactoryDevice
    rows_of none = []
    rows_of (some device) = device ∷ []

    check_request-ok :
        (user : User) (req : PrepareRequest) (db : Db) (n : ℕ) {now : ℕ}
        {found : Option GatewayFactoryDevice} {t : Session Db}
        → check_request rt settings matches user req (opened db n) ≡ (ok (now, found), t)
        → (matches settings.gateway_factory_code_pattern (factory_code_of req.gateway_factory_code)
            ≡ true)
          × (is_foreign user req.station_id ≡ false)
          × (filter
                (λ f. str_eq f.gateway_factory_code (factory_code_of req.gateway_factory_code))
                db.gateway_factory_devices
              ≡ rows_of found)
          × (t.work ≡ db)
    unfolding check_request get_station
    check_request-ok user req db n {now} {found = none} {t} e =
        (ground arith, ground arith, ground arith, ground arith)
    check_request-ok user req db n {now} {found = some device} {t} e =
        (ground arith, ground arith, ground arith, ground arith)

    choose_code-work :
        (req : PrepareRequest) (code : String) (s : Session Db) {c : String} {t : Session Db}
        → choose_code rt settings matches req code s ≡ (ok c, t)
        → t.work ≡ s.work
    unfolding choose_code
    choose_code-work req code s e =
        let (wanted, s1, e1, r1) = bind-ok (wanted_code rt settings matches req code) _ s e in
        let rows =
          filter (λ (g : Gateway). str_eq g.gateway_code wanted && is_running g) s1.work.gateways in
        let (o, s2, e2, r2) =
          bind-ok (one_or_none rows) (free_code rt settings matches wanted) s1 r1 in
        sym (ap (λ r. r.1.work) r2)
        ∙ free_code-work wanted o s2
        ∙ sym (ap (λ r. r.1.work) e2)
        ∙ one_or_none-work rows s1
        ∙ sym (ap (λ r. r.1.work) e1)
        ∙ wanted_code-work req code s

    resolve_device-free_for :
        (req : PrepareRequest) (code : String) (now : ℕ) (found : Option GatewayFactoryDevice)
        (rows : List GatewayFactoryDevice) (s : Session Db) {device : GatewayFactoryDevice}
        {t : Session Db}
        → filter (λ f. str_eq f.gateway_factory_code code) rows ≡ rows_of found
        → resolve_device rt settings matches req code now found s ≡ (ok device, t)
        → all (is_free_for code) rows ≡ true
    resolve_device-free_for req code now none rows s f e =
        all-unselected (λ d. str_eq d.gateway_factory_code code)
          (λ d. not (is_barred d.status || is_taken d.status)) rows f
    resolve_device-free_for req code now (some found) rows s f e =
        all-only (λ d. str_eq d.gateway_factory_code code)
          (λ d. not (is_barred d.status || is_taken d.status)) rows f
          (ap not (resolve_device-free req code now found s e))

    -- A preparation that succeeds was asked for a factory code that matches the pattern, by someone
    -- who is not of the staff of another station, and for no device that is disabled, revoked, bound or
    -- online; it stores exactly one new registration token, which is pending, made out for the gateway
    -- code of the answer, for that station and for that factory code, under the hash of the token that the
    -- answer hands out.
    pub prepare_gateway_provisioning-IsPrepared :
        (user : User) (req : PrepareRequest) (db : Db) (n : ℕ) {p : Prepared} {t : Session Db}
        → prepare_gateway_provisioning rt settings matches user req (opened db n) ≡ (ok p, t)
        → IsPrepared user req db t.saved p
    unfolding prepare_gateway_provisioning
    prepare_gateway_provisioning-IsPrepared user req db n {p} {t} e =
        let code = factory_code_of req.gateway_factory_code in
        let (checked, s1, e1, r1) =
          bind-ok (check_request rt settings matches user req) _ (opened db n) e in
        let (matched, own, rows, same) = check_request-ok user req db n e1 in
        let (device, s2, e2, r2) =
          bind-ok (resolve_device rt settings matches req code checked.0 checked.1) _ s1 r1 in
        let (gateway_code, s3, e3, r3) =
          bind-ok (choose_code rt settings matches req code) _ s2 r2 in
        let (row, issued, stored, named) =
          issue-ok user req code checked.0 device gateway_code s3 r3 in
        let kept : s3.work.gateway_registration_tokens ≡ db.gateway_registration_tokens =
          ap (λ d. d.gateway_registration_tokens) (choose_code-work req code s2 e3)
          ∙ resolve_device-ok req code checked.0 checked.1 s1 e2
          ∙ ap (λ d. d.gateway_registration_tokens) same in
        record {
          matched = matched;
          own_station = own;
          free_device =
              resolve_device-free_for req code checked.0 checked.1 db.gateway_factory_devices s1
                rows e2;
          issued = (
            row,
            subst
                (λ (g : String).
                  IsIssued rt settings (token_request rt settings matches user req code g)
                    p.registration_token row)
                (sym named) issued,
            stored ∙ ap (λ ts. ts ++ row ∷ []) kept,
          );
        }
