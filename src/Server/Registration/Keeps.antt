-- ===== src/Server/Registration/Keeps.antt =====
-- The operations on registration tokens: none makes a spent token pending again, and it is refused.
use smart_parcel_station.Prelude.{
  ℕ, ◌+◌, String, Bool, true, false, List, [], ◌∷◌, ◌≡◌, refl, sym, inl, inr, subst, str_eq, ◌==◌,
  Bool-cases, Option-cases, filter, any, find_first, update_where, arith,
}
use smart_parcel_station.Session.{Error, Result, ok, err, Session, Action, opened, continue}
use smart_parcel_station.Runtime.{Runtime}
use smart_parcel_station.Server.Models.{Db, Gateway, GatewayRegistrationToken}
use smart_parcel_station.Server.Config.{Settings}
use smart_parcel_station.Server.Auth.{record_security_audit}
use smart_parcel_station.Server.Registration.{
  TokenRequest, is_pending, expire_if_due, get_station, create_gateway_registration_token,
  list_gateway_registration_tokens, effective_ttl, positive, new_token, registration_token_of,
  limit, order_desc, revoke_gateway_registration_token, hash_registration_token,
}
use smart_parcel_station.Server.Registration.Activation.{
  DeviceInfo, expired_token, used_token, check_token, check_device, find_factory_device,
  store_activation, finish_activation, activate_gateway_registration,
}
use smart_parcel_station.Server.Registration.Spent.{
  IsSpent, IsSpent-concat, IsSpent-update_where, IsSpent-marked, spent-alone,
}

module _ (rt : Runtime) (settings : Settings) (hash : String) where
  abbrev pub Keeps : {A : Type 0} → Action Db A → Type 0
  Keeps m =
      (db : Db) (n : ℕ)
      → IsSpent hash db.gateway_registration_tokens
      → IsSpent hash (m (opened db n)).1.saved.gateway_registration_tokens

  -- an update that keeps the hash and makes no token pending
  update-Keeps :
      (q : GatewayRegistrationToken → Bool)
      (f : GatewayRegistrationToken → GatewayRegistrationToken)
      → ((r : GatewayRegistrationToken) → (f r).token_hash ≡ r.token_hash)
      → ((r : GatewayRegistrationToken)
          → is_pending r.status ≡ false
          → is_pending (f r).status ≡ false)
      → (xs : List GatewayRegistrationToken) → IsSpent hash xs
      → IsSpent hash (update_where q f xs)
  update-Keeps q f same off = IsSpent-update_where hash q f (λ r h. ground (arith, same r, off r))

  pub create-Keeps :
      (req : TokenRequest) → Keeps (create_gateway_registration_token rt settings req)
  unfolding create_gateway_registration_token get_station
  create-Keeps req db n h =
      elim (Option-cases (find_first (λ s. s.id == req.station_id) db.stations)) [
        | inl missing ↦ rw missing h
        | inr (station, found) ↦
            rw found (elim (Option-cases (positive (effective_ttl req.ttl_seconds settings))) [
              | inl bad ↦ rw bad h
              | inr (ttl, good) ↦ rw good (
                  ground (
                    arith,
                    h,
                    IsSpent-concat hash db.gateway_registration_tokens (
                        new_token rt settings req
                          (registration_token_of
                            (rt.token_urlsafe n settings.gateway_registration_token_bytes))
                          (rt.uuid_hex (n + 1)) (rt.clock (n + 2) + ttl)
                          db.gateway_registration_tokens
                        ∷ []),
                  ))
            ])
      ]

  pub list-Keeps : Keeps (list_gateway_registration_tokens rt settings)
  unfolding list_gateway_registration_tokens
  list-Keeps db n h = ground (
    arith,
    h,
    update-Keeps
        (λ r. any (λ x. x.id == r.id) (limit 100 (order_desc db.gateway_registration_tokens)))
        (expire_if_due rt settings (rt.clock n)) (λ r. ground arith) (λ r p. ground arith)
        db.gateway_registration_tokens h,
  )

  pub revoke-Keeps : (id : ℕ) → Keeps (revoke_gateway_registration_token rt settings id)
  unfolding revoke_gateway_registration_token
  revoke-Keeps id db n h =
      elim (Option-cases (find_first (λ r. r.id == id) db.gateway_registration_tokens)) [
        | inl missing ↦ rw missing h
        | inr (row, found) ↦ rw found (elim (Bool-cases (is_pending row.status)) [
          | inl p ↦ rw p (
              update-Keeps (λ r. r.id == row.id) _ (λ r. refl) (λ r e. refl)
                db.gateway_registration_tokens h)
          | inr q ↦ rw q h
        ])
      ]

  module _ (gateway_code : String) (station_id : ℕ) (token : String) where
    check-Keeps : Keeps (check_token rt settings gateway_code station_id token)
    unfolding check_token get_station
    check-Keeps db n h =
        go
          (filter (λ r. str_eq r.token_hash (hash_registration_token rt settings token))
            db.gateway_registration_tokens)
          refl
      where
        go :
            (rows : List GatewayRegistrationToken)
            → filter
                (λ r. str_eq r.token_hash (hash_registration_token rt settings token))
                db.gateway_registration_tokens
              ≡ rows
            → IsSpent hash
                (check_token rt settings gateway_code station_id token
                  (opened db n)).1.saved.gateway_registration_tokens
        go [] e = ground (arith, e, h)
        go (row ∷ []) e = ground (
          arith,
          e,
          h,
          update-Keeps (λ r. r.id == row.id) expired_token (λ r. refl) (λ r p. refl)
              db.gateway_registration_tokens h,
        )
        go (row ∷ other ∷ rest) e = ground (arith, e, h)

    -- a token that passes
    pub check_token-ok :
        (db : Db) (n : ℕ) {row : GatewayRegistrationToken} {now : ℕ} {s : Session Db}
        → check_token rt settings gateway_code station_id token (opened db n) ≡ (ok (row, now), s)
        → (filter
              (λ r. str_eq r.token_hash (hash_registration_token rt settings token))
              db.gateway_registration_tokens
            ≡ row ∷ [])
          × (is_pending row.status ≡ true)
          × (s ≡ opened db (n + 1))
    unfolding check_token get_station
    check_token-ok db n e = ground arith

  -- the writes, from a session without changes
  module _ (gateway_code : String) (station_id : ℕ) (info : DeviceInfo)
      (row : GatewayRegistrationToken) (now : ℕ) where
    finish-Keeps : Keeps (finish_activation rt settings gateway_code station_id info row now)
    unfolding finish_activation check_device find_factory_device store_activation
        record_security_audit
    finish-Keeps db n h = ground (
      arith,
      h,
      update-Keeps (λ r. r.id == row.id) (used_token now) (λ r. refl) (λ r p. refl)
          db.gateway_registration_tokens h,
    )

    pub finish-ok :
        (db : Db) (n : ℕ) {x : Gateway × String} {t : Session Db}
        → finish_activation rt settings gateway_code station_id info row now (opened db n)
          ≡ (ok x, t)
        → t.saved.gateway_registration_tokens
          ≡ update_where (λ r. r.id == row.id) (used_token now) db.gateway_registration_tokens
    unfolding finish_activation check_device find_factory_device store_activation
        record_security_audit
    finish-ok db n e = ground arith

  module _ (gateway_code : String) (station_id : ℕ) (token : String) (info : DeviceInfo) where
    abbrev pub finish : GatewayRegistrationToken × ℕ → Action Db (Gateway × String)
    finish rn = finish_activation rt settings gateway_code station_id info rn.0 rn.1

    pub activate-Keeps :
        Keeps (activate_gateway_registration rt settings gateway_code station_id token info)
    unfolding activate_gateway_registration
    activate-Keeps db n h =
        go (check_token rt settings gateway_code station_id token (opened db n)) refl
      where
        go :
            (r : Result (GatewayRegistrationToken × ℕ) × Session Db)
            → check_token rt settings gateway_code station_id token (opened db n) ≡ r
            → IsSpent hash (continue r finish).1.saved.gateway_registration_tokens
        go (ok (row, now), s) e =
            let (_, _, same) = check_token-ok gateway_code station_id token db n e in
            rw same (finish-Keeps gateway_code station_id info row now db (n + 1) h)
        go (err x, s) e =
            subst
              (λ (r : Result (GatewayRegistrationToken × ℕ) × Session Db).
                IsSpent hash r.1.saved.gateway_registration_tokens)
              e (check-Keeps gateway_code station_id token db n h)

    -- where a token with its hash is spent, a token is refused
    pub activate-refused :
        (db : Db) (n : ℕ)
        → IsSpent (hash_registration_token rt settings token) db.gateway_registration_tokens
        → (e : Error) × ((activate_gateway_registration rt settings gateway_code station_id token
              info
              (opened db n)).0
            ≡ err e)
    unfolding activate_gateway_registration
    activate-refused db n h =
        go (check_token rt settings gateway_code station_id token (opened db n)) refl
      where
        go :
            (r : Result (GatewayRegistrationToken × ℕ) × Session Db)
            → check_token rt settings gateway_code station_id token (opened db n) ≡ r
            → (e : Error) × ((continue r finish).0 ≡ err e)
        go (ok (row, now), s) e =
            let (alone, on, _) = check_token-ok gateway_code station_id token db n e in
            let off =
              spent-alone (hash_registration_token rt settings token) db.gateway_registration_tokens
                h alone in
            cc
        go (err x, s) e = (x, refl)

    -- the token of an activation is spent
    pub activate-IsSpent :
        (db : Db) (n : ℕ) {x : Gateway × String} {t : Session Db}
        → activate_gateway_registration rt settings gateway_code station_id token info (opened db n)
          ≡ (ok x, t)
        → IsSpent (hash_registration_token rt settings token) t.saved.gateway_registration_tokens
    unfolding activate_gateway_registration
    activate-IsSpent db n {x} {t} ok_t =
        go (check_token rt settings gateway_code station_id token (opened db n)) refl ok_t
      where
        go :
            (r : Result (GatewayRegistrationToken × ℕ) × Session Db)
            → check_token rt settings gateway_code station_id token (opened db n) ≡ r
            → continue r finish ≡ (ok x, t)
            → IsSpent
                (hash_registration_token rt settings token)
                t.saved.gateway_registration_tokens
        go (ok (row, now), s) e done =
            let (alone, on, same) = check_token-ok gateway_code station_id token db n e in
            let table =
              finish-ok gateway_code station_id info row now db (n + 1)
                (subst (λ (s : Session Db). finish (row, now) s ≡ (ok x, t)) same done) in
            subst (IsSpent (hash_registration_token rt settings token)) (sym table) (
              IsSpent-marked (hash_registration_token rt settings token) (used_token now)
                db.gateway_registration_tokens (λ r h. ground (arith, h)) alone)
        go (err y, s) e done = ground arith
