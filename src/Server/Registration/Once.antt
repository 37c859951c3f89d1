-- ===== src/Server/Registration/Once.antt =====
-- A registration token activates a gateway at most once, and only one that entitles to it.
use smart_parcel_station.Prelude.{
  ℕ, ◌+◌, String, List, [], ◌∷◌, ◌≡◌, refl, sym, subst, str_eq, str_eq_iff, ◌<◌, filter, arith,
}
use smart_parcel_station.Session.{Error, Result, ok, err, Session, opened, closed, continue}
use smart_parcel_station.Runtime.{Runtime}
use smart_parcel_station.Server.Enums.{GatewayRegistrationTokenStatus}
use smart_parcel_station.Server.Models.{Db, Gateway, GatewayRegistrationToken}
use smart_parcel_station.Server.Config.{Settings}
use smart_parcel_station.Server.Auth.{record_security_audit}
use smart_parcel_station.Server.Registration.{
  TokenRequest, get_station, create_gateway_registration_token, list_gateway_registration_tokens,
  revoke_gateway_registration_token, hash_registration_token,
}
use smart_parcel_station.Server.Registration.Activation.{
  DeviceInfo, check_token, check_device, find_factory_device, store_activation, finish_activation,
  activate_gateway_registration,
}
use smart_parcel_station.Server.Registration.Spent.{IsSpent}
use smart_parcel_station.Server.Registration.Keeps.{
  check_token-ok, finish, create-Keeps, list-Keeps, revoke-Keeps, activate-Keeps, activate-refused,
  activate-IsSpent,
}

-- the requests that concern registration tokens
pub data TokenCall : Type 0 where
  create : TokenRequest → TokenCall
  list_all : TokenCall
  revoke : ℕ → TokenCall
  activate : String → ℕ → String → DeviceInfo → TokenCall

module _ (rt : Runtime) (settings : Settings) where
  serve : TokenCall → Session Db → Session Db
  serve (create req) s = closed (create_gateway_registration_token rt settings req s)
  serve list_all s = closed (list_gateway_registration_tokens rt settings s)
  serve (revoke id) s = closed (revoke_gateway_registration_token rt settings id s)
  serve (activate gateway_code station_id token info) s =
      closed (activate_gateway_registration rt settings gateway_code station_id token info s)

  unfoldable pub serve_all : List TokenCall → Session Db → Session Db
  unfolding serve
  serve_all [] s = s
  serve_all (c ∷ cs) s = serve_all cs (serve c s)

  serve-Keeps :
      (hash : String) (c : TokenCall) (db : Db) (n : ℕ)
      → IsSpent hash db.gateway_registration_tokens
      → IsSpent hash (serve c (opened db n)).saved.gateway_registration_tokens
  unfolding serve
  serve-Keeps hash (create req) = create-Keeps rt settings hash req
  serve-Keeps hash list_all = list-Keeps rt settings hash
  serve-Keeps hash (revoke id) = revoke-Keeps rt settings hash id
  serve-Keeps hash (activate gateway_code station_id token info) =
      activate-Keeps rt settings hash gateway_code station_id token info

  serve-clean : (c : TokenCall) (s : Session Db) → (serve c s).work ≡ (serve c s).saved
  unfolding serve
  serve-clean (create req) s = refl
  serve-clean list_all s = refl
  serve-clean (revoke id) s = refl
  serve-clean (activate gateway_code station_id token info) s = refl

  later-refused :
      (cs : List TokenCall) (gateway_code : String) (station_id : ℕ) (token : String)
      (info : DeviceInfo) (db : Db) (n : ℕ)
      → IsSpent (hash_registration_token rt settings token) db.gateway_registration_tokens
      → (e : Error) × ((activate_gateway_registration rt settings gateway_code station_id token info
            (serve_all cs (opened db n))).0
          ≡ err e)
  unfolding serve_all
  later-refused [] gateway_code station_id token info db n h =
      activate-refused rt settings "" gateway_code station_id token info db n h
  later-refused (c ∷ cs) gateway_code station_id token info db n h =
      let t = serve c (opened db n) in
      subst
        (λ (d : Db).
          (e : Error) × ((activate_gateway_registration rt settings gateway_code station_id token
              info (serve_all cs (record t { work = d }))).0
            ≡ err e))
        (sym (serve-clean c (opened db n)))
        (later-refused cs gateway_code station_id token info t.saved t.draws
          (serve-Keeps (hash_registration_token rt settings token) c db n h))

  -- A registration token activates a gateway at most once: after an activation that succeeds, and
  -- whatever requests to create, list, revoke and activate tokens follow, an activation with the same
  -- token is refused, for any gateway, station and device.
  pub activated_once :
      (cs : List TokenCall) (gateway_code gateway_code' : String) (station_id station_id' : ℕ)
      (token : String) (info info' : DeviceInfo) (db : Db) (n : ℕ) {x : Gateway × String}
      {t : Session Db}
      → activate_gateway_registration rt settings gateway_code station_id token info (opened db n)
        ≡ (ok x, t)
      → (e : Error) × ((activate_gateway_registration rt settings gateway_code' station_id' token
            info'
            (serve_all cs (opened t.saved t.draws))).0
          ≡ err e)
  activated_once cs gateway_code gateway_code' station_id station_id' token info info' db n {x} {t}
        done =
      later-refused cs gateway_code' station_id' token info' t.saved t.draws
        (activate-IsSpent rt settings "" gateway_code station_id token info db n done)

  -- the row of a token that entitles to an activation
  pub record IsEntitled (gateway_code : String) (station_id : ℕ) (token : String) (db : Db)
      (now : ℕ) (row : GatewayRegistrationToken) : Type 0 where
    pub listed :
        filter
          (λ r. str_eq r.token_hash (hash_registration_token rt settings token))
          db.gateway_registration_tokens
        ≡ row ∷ []
    pub on : row.status ≡ GatewayRegistrationTokenStatus.pending
    pub same_code : row.gateway_code ≡ gateway_code
    pub same_station : row.station_id ≡ station_id
    pub young : now < row.expires_at

  check_token-IsEntitled :
      (gateway_code : String) (station_id : ℕ) (token : String) (db : Db) (n : ℕ)
      {row : GatewayRegistrationToken} {now : ℕ} {s : Session Db}
      → check_token rt settings gateway_code station_id token (opened db n) ≡ (ok (row, now), s)
      → IsEntitled gateway_code station_id token db (rt.clock n) row
  unfolding check_token get_station
  check_token-IsEntitled gateway_code station_id token db n {row} e = record {
    listed = ground arith;
    on = ground arith;
    same_code = ground (arith, str_eq_iff row.gateway_code gateway_code);
    same_station = ground arith;
    young = ground arith;
  }

  finish-secret :
      (gateway_code : String) (station_id : ℕ) (info : DeviceInfo) (row : GatewayRegistrationToken)
      (now : ℕ) (db : Db) (n : ℕ) {g : Gateway} {secret : String} {t : Session Db}
      → finish_activation rt settings gateway_code station_id info row now (opened db n)
        ≡ (ok (g, secret), t)
      → g.device_secret_hash ≡ secret
  unfolding finish_activation check_device find_factory_device store_activation
      record_security_audit
  finish-secret gateway_code station_id info row now db n e = ground arith

  -- An activation that succeeds had a token that is stored once under its hash, is pending, was made
  -- out for this gateway and this station, and has not expired; the gateway that it returns holds the
  -- returned secret.
  pub activate_gateway_registration-ok :
      (gateway_code : String) (station_id : ℕ) (token : String) (info : DeviceInfo) (db : Db)
      (n : ℕ) {g : Gateway} {secret : String} {t : Session Db}
      → activate_gateway_registration rt settings gateway_code station_id token info (opened db n)
        ≡ (ok (g, secret), t)
      → ((row : GatewayRegistrationToken) × IsEntitled gateway_code station_id token db
            (rt.clock n)
            row)
        × (g.device_secret_hash ≡ secret)
  unfolding activate_gateway_registration
  activate_gateway_registration-ok gateway_code station_id token info db n {g} {secret} {t} =
      go (check_token rt settings gateway_code station_id token (opened db n)) refl
    where
      go :
          (r : Result (GatewayRegistrationToken × ℕ) × Session Db)
          → check_token rt settings gateway_code station_id token (opened db n) ≡ r
          → continue r (finish rt settings "" gateway_code station_id token info)
            ≡ (ok (g, secret), t)
          → ((row : GatewayRegistrationToken) × IsEntitled gateway_code station_id token db
                (rt.clock n)
                row)
            × (g.device_secret_hash ≡ secret)
      go (ok (row, now), s) e done =
          let (_, _, same) = check_token-ok rt settings "" gateway_code station_id token db n e in
          let secret_kept = finish-secret gateway_code station_id info row now db (n + 1) (
            subst
              (λ (s : Session Db).
                finish_activation rt settings gateway_code station_id info row now s
                ≡ (ok (g, secret), t))
              same done) in
          ((row, check_token-IsEntitled gateway_code station_id token db n e), secret_kept)
      go (err y, s) e done = ground arith
