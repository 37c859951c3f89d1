-- ===== src/Server/Cards/Retiring.antt =====
-- The operations that take a card out of use: `report_card_lost` and `disable_user_card`.
use smart_parcel_station.Prelude.{
  ℕ, String, true, false, not, ◌&&◌, Option, some, List, ◌≡◌, ◌≢◌, refl, sym, ap, inl, inr, subst,
  ◌==◌, ==→≡, ==-refl, Bool-cases, Option-cases, opt_is, find_first, find_first-sat, update_where,
  arith,
}
use smart_parcel_station.Session.{Result, ok, err, Session, opened, http}
use smart_parcel_station.Runtime.{Runtime}
use smart_parcel_station.Server.Enums.{AccessCredentialStatus}
use smart_parcel_station.Server.Models.{Db, User, UserAccessCredential}
use smart_parcel_station.Server.Events.Queue.{queue_station_event_lem}
use smart_parcel_station.Server.Cards.{
  is_active, is_server_admin, lost, disabled, report_card_lost, disable_user_card, disable_active,
  not_found,
}
use smart_parcel_station.Server.Cards.Lifecycle.{
  CardStep, Evolves, IsKeyed, Evolves-refl, update_where-Evolves, IsKeyed-update_where,
}

module _ (rt : Runtime) (reason : String) (db : Db) (n : ℕ) where
  abbrev by_id : ℕ → Option UserAccessCredential
  by_id id = find_first (λ c. c.id == id) db.user_access_credentials

  report_card_lost-ok :
      (user : User) (card_id : ℕ) (card : UserAccessCredential)
      → by_id card_id ≡ some card
      → card.user_id ≡ user.id
      → is_active card.status ≡ true
      → let (r, t) = report_card_lost rt user card_id reason (opened db n) in
        (r ≡ ok (lost rt (rt.clock n) reason card))
        × (t.saved.user_access_credentials
            ≡ update_where
                (λ c. c.id == card.id)
                (lost rt (rt.clock n) reason)
                db.user_access_credentials)
  unfolding report_card_lost
  report_card_lost-ok user card_id card found own active =
      rw (found, own) (rw (==-refl user.id, active) (rw queue_station_event_lem (refl, refl)))

  report_card_lost-foreign :
      (user : User) (card_id : ℕ)
      → ((card : UserAccessCredential)
          → by_id card_id ≡ some card
          → (card.user_id == user.id) ≡ false)
      → let (r, t) = report_card_lost rt user card_id reason (opened db n) in
        (r ≡ err (not_found "card")) × (t.saved ≡ db)
  unfolding report_card_lost
  report_card_lost-foreign user card_id foreign = elim (Option-cases (by_id card_id)) [
    | inl missing ↦ rw missing (refl, refl)
    | inr (card, found) ↦ let other = foreign card found in rw found (rw other (refl, refl))
  ]

  report_card_lost-inactive :
      (user : User) (card_id : ℕ) (card : UserAccessCredential)
      → by_id card_id ≡ some card
      → (card.user_id == user.id) ≡ true
      → is_active card.status ≡ false
      → let (r, t) = report_card_lost rt user card_id reason (opened db n) in
        (r ≡ err (http 409 "Only an ACTIVE card can be reported lost")) × (t.saved ≡ db)
  unfolding report_card_lost
  report_card_lost-inactive user card_id card found own inactive =
      rw found (rw (own, inactive) (refl, refl))

  -- the outcomes of a report, by what the table holds under the card's key
  pub data IsReported (user : User) (card_id : ℕ)
      : Result UserAccessCredential × Session Db → Type 0 where
    reported :
        (card : UserAccessCredential) (t : Session Db)
        → by_id card_id ≡ some card
        → card.user_id ≡ user.id
        → card.status ≡ AccessCredentialStatus.active
        → t.saved.user_access_credentials
          ≡ update_where
              (λ c. c.id == card.id)
              (lost rt (rt.clock n) reason)
              db.user_access_credentials
        → IsReported user card_id (ok (lost rt (rt.clock n) reason card), t)
    unowned :
        (t : Session Db)
        → ((card : UserAccessCredential) → by_id card_id ≡ some card → card.user_id ≢ user.id)
        → t.saved ≡ db
        → IsReported user card_id (err (not_found "card"), t)
    unusable :
        (card : UserAccessCredential) (t : Session Db)
        → by_id card_id ≡ some card
        → card.user_id ≡ user.id
        → card.status ≢ AccessCredentialStatus.active
        → t.saved ≡ db
        → IsReported user card_id (err (http 409 "Only an ACTIVE card can be reported lost"), t)

  module _ (user : User) (card_id : ℕ) where
    abbrev outcome : Result UserAccessCredential × Session Db
    outcome = report_card_lost rt user card_id reason (opened db n)

    foreign-IsReported :
        ((card : UserAccessCredential)
          → by_id card_id ≡ some card
          → (card.user_id == user.id) ≡ false)
        → IsReported user card_id outcome
    foreign-IsReported other =
        let (a, b) = report_card_lost-foreign user card_id other in
        subst (λ (r : Result UserAccessCredential). IsReported user card_id (r, outcome.1)) (sym a)
          (unowned outcome.1 (λ card f. ground (arith, other card f, ==-refl user.id)) b)

    -- A report of a lost card answers 404 where the card does not exist or belongs to another user, and
    -- 409 where it is not active, and commits nothing then. Otherwise the card is committed as LOST with
    -- the reason and the time, and no other row of the table changes.
    pub report_card_lost_cases : IsReported user card_id outcome
    report_card_lost_cases = elim (Option-cases (by_id card_id)) [
      | inl missing ↦ foreign-IsReported (λ card f. cc)
      | inr (card, found) ↦ elim (Bool-cases (card.user_id == user.id)) [
        | inr other ↦ foreign-IsReported (λ card' f. ground arith)
        | inl own ↦ elim (Bool-cases (is_active card.status)) [
          | inl active ↦
              let (a, b) = report_card_lost-ok user card_id card found (==→≡ _ _ own) active in
              subst (λ (r : Result UserAccessCredential). IsReported user card_id (r, outcome.1))
                (sym a) (reported card outcome.1 found (==→≡ _ _ own) (ground arith) b)
          | inr off ↦
              let (a, b) = report_card_lost-inactive user card_id card found own off in
              subst (λ (r : Result UserAccessCredential). IsReported user card_id (r, outcome.1))
                (sym a) (unusable card outcome.1 found (==→≡ _ _ own) (ground arith) b)
        ]
      ]
    ]

  disable_active-table :
      (card : UserAccessCredential) (s : Session Db)
      → (disable_active rt reason card true s).1.saved.user_access_credentials
        ≡ update_where
            (λ c. c.id == card.id)
            (disabled rt (rt.clock s.draws) reason)
            s.work.user_access_credentials
  unfolding disable_active
  disable_active-table card s = rw queue_station_event_lem refl

  -- what both operations do to an active card
  retire-step :
      (f : UserAccessCredential → UserAccessCredential) (card_id : ℕ) (card : UserAccessCredential)
      → IsKeyed db.user_access_credentials
      → by_id card_id ≡ some card
      → CardStep card (f card)
      → Evolves db.user_access_credentials
          (update_where (λ c. c.id == card.id) f db.user_access_credentials)
  retire-step f card_id card keyed found st =
      let same : card.id ≡ card_id = ==→≡ _ _ (
        find_first-sat (λ (c : UserAccessCredential). c.id == card_id) db.user_access_credentials
          found) in
      subst
        (λ (k : ℕ).
          Evolves db.user_access_credentials
            (update_where (λ c. c.id == k) f db.user_access_credentials))
        (sym same) (update_where-Evolves card_id f db.user_access_credentials keyed found st)

  lost-step :
      (card : UserAccessCredential)
      → is_active card.status ≡ true
      → CardStep card (lost rt (rt.clock n) reason card)
  lost-step card active = inr (record {
    was_active = active;
    not_active = refl;
    same_id = refl;
    same_user = refl;
    same_station = refl;
    same_type = refl;
    same_value = refl;
  })

  disabled-step :
      (card : UserAccessCredential)
      → is_active card.status ≡ true
      → CardStep card (disabled rt (rt.clock n) reason card)
  disabled-step card active = inr (record {
    was_active = active;
    not_active = refl;
    same_id = refl;
    same_user = refl;
    same_station = refl;
    same_type = refl;
    same_value = refl;
  })

  -- the table after either operation is as before, or one active card of it is retired
  abbrev pub IsRetiring : List UserAccessCredential → Type 0
  IsRetiring rows = Evolves db.user_access_credentials rows × IsKeyed rows

  module _ (keyed : IsKeyed db.user_access_credentials) where
    unchanged : IsRetiring db.user_access_credentials
    unchanged = (Evolves-refl db.user_access_credentials, keyed)

    pub report_card_lost-Evolves :
        (user : User) (card_id : ℕ)
        → IsRetiring
            (report_card_lost rt user card_id reason (opened db n)).1.saved.user_access_credentials
    report_card_lost-Evolves user card_id = go _ (report_card_lost_cases user card_id)
      where
        go :
            (r : Result UserAccessCredential × Session Db)
            → IsReported user card_id r
            → IsRetiring r.1.saved.user_access_credentials
        go _ (reported card t found own active table) = subst IsRetiring (sym table) (
          retire-step (lost rt (rt.clock n) reason) card_id card keyed found
              (lost-step card (ap is_active active)),
          IsKeyed-update_where (λ c. c.id == card.id) (lost rt (rt.clock n) reason) (λ c. refl)
              db.user_access_credentials keyed,
        )
        go _ (unowned t other same) =
            subst (λ (d : Db). IsRetiring d.user_access_credentials) (sym same) unchanged
        go _ (unusable card t found own off same) =
            subst (λ (d : Db). IsRetiring d.user_access_credentials) (sym same) unchanged

    pub disable_user_card-Evolves :
        (user_id card_id : ℕ) (staff : User)
        → IsRetiring
            (disable_user_card rt user_id card_id reason staff
              (opened db n)).1.saved.user_access_credentials
    unfolding disable_user_card
    disable_user_card-Evolves user_id card_id staff = elim (Option-cases (by_id card_id)) [
      | inl missing ↦ rw missing unchanged
      | inr (card, found) ↦ rw found (elim (Bool-cases (card.user_id == user_id)) [
        | inr other ↦ rw other unchanged
        | inl own ↦
            rw own
              (elim (Bool-cases (
                not (is_server_admin staff.role)
                && not (opt_is staff.station_id card.station_id))) [
                  | inl barred ↦ rw barred unchanged
                  | inr allowed ↦ rw allowed (elim (Bool-cases (is_active card.status)) [
                    | inr inactive ↦ rw inactive unchanged
                    | inl active ↦
                        rw (active, queue_station_event_lem)
                          (
                            retire-step (disabled rt (rt.clock n) reason) card_id card keyed found
                                (disabled-step card active),
                            IsKeyed-update_where (λ c. c.id == card.id)
                                (disabled rt (rt.clock n) reason) (λ c. refl)
                                db.user_access_credentials keyed,
                          )
                  ])
                ])
      ])
    ]
