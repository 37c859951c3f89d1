-- ===== src/Gateway/Access/Granted.antt =====
-- When `handle_access_card` lets a card in.
use smart_parcel_station.Prelude.{
  ℕ, ◌<◌, String, true, Option, none, some, List, [], ◌∷◌, ◌≡◌, refl, sym, subst, length, filter,
  find_first, find_first-sat, str_eq_iff, arith,
}
use smart_parcel_station.Session.{ok, Session, opened}
use smart_parcel_station.Runtime.{Runtime}
use smart_parcel_station.Gateway.Enums.{CredentialType, CredentialStatus}
use smart_parcel_station.Gateway.Entities.{LocalDb, LocalParcel, LocalNfcCredential}
use smart_parcel_station.Gateway.Outside.{Outside}
use smart_parcel_station.Gateway.Access.{
  granted, Grant, normalize_credential_type, is_credential, is_waiting_for, deny,
}
use smart_parcel_station.Gateway.Access.Card.{
  grant_access, admit, admit_card, admit_type, handle_access_card,
}

module _ (rt : Runtime) (out : Outside)
    (station_id reader_id credential_type credential_value : String) where
  abbrev waiting : Option String → LocalDb → List LocalParcel
  waiting user_id db = filter (is_waiting_for rt out station_id user_id) db.local_parcels

  grant_access-user :
      (user_id : Option String) (parcels : List LocalParcel) (s : Session LocalDb) {g : Grant}
      {t : Session LocalDb}
      → grant_access rt out station_id reader_id credential_type credential_value user_id parcels s
        ≡ (ok (granted g), t)
      → (g.user_id ≡ user_id) × (g.pickup_count ≡ length parcels)
  unfolding grant_access
  grant_access-user user_id parcels s e = (ground arith, ground arith)

  admit-user :
      (user_id : Option String) (parcels : List LocalParcel) (s : Session LocalDb) {g : Grant}
      {t : Session LocalDb}
      → admit rt out station_id reader_id credential_type credential_value user_id parcels s
        ≡ (ok (granted g), t)
      → (g.user_id ≡ user_id) × (g.pickup_count ≡ length parcels) × (0 < length parcels)
  unfolding admit deny
  admit-user user_id [] s e = ground arith
  admit-user user_id (p ∷ ps) s e =
      let (a, b) = grant_access-user user_id (p ∷ ps) s e in (a, b, omega arith)

  is_credential-sat :
      (kind : CredentialType) (card : LocalNfcCredential)
      → is_credential rt out station_id kind credential_value card ≡ true
      → (card.status ≡ CredentialStatus.active)
        × (card.station_id ≡ station_id)
        × (card.credential_value ≡ credential_value)
  is_credential-sat kind card h = (
    ground arith,
    (str_eq_iff card.station_id station_id).0 (ground arith),
    (str_eq_iff card.credential_value credential_value).0 (ground arith),
  )

  -- the card that a grant rests on
  pub record IsAdmitted (db : LocalDb) (g : Grant) (kind : CredentialType)
      (card : LocalNfcCredential) : Type 0 where
    pub kind_known : normalize_credential_type credential_type ≡ some kind
    pub stored :
        find_first (is_credential rt out station_id kind credential_value) db.local_nfc_credentials
        ≡ some card
    pub on : card.status ≡ CredentialStatus.active
    pub same_station : card.station_id ≡ station_id
    pub same_value : card.credential_value ≡ credential_value
    pub same_user_id : g.user_id ≡ card.user_id
    pub counted : g.pickup_count ≡ length (waiting card.user_id db)
    pub some_waiting : 0 < g.pickup_count

  -- A card that is presented at a reader is let in only where it is stored as active at this station
  -- with the type and the value presented; the answer then names the user of that card and counts
  -- exactly the parcels at the station that wait for that user, of which there is at least one.
  pub handle_access_card-granted :
      (db : LocalDb) (n : ℕ) {g : Grant} {t : Session LocalDb}
      → handle_access_card rt out station_id reader_id credential_type credential_value none
          (opened db n)
        ≡ (ok (granted g), t)
      → (kind : CredentialType) × (card : LocalNfcCredential) × IsAdmitted db g kind card
  unfolding handle_access_card admit_type admit_card deny
  handle_access_card-granted db n {g} {t} = by_kind (normalize_credential_type credential_type) refl
    where
      by_card :
          (kind : CredentialType) (found : Option LocalNfcCredential)
          → normalize_credential_type credential_type ≡ some kind
          → find_first
              (is_credential rt out station_id kind credential_value)
              db.local_nfc_credentials
            ≡ found
          → admit_card rt out station_id reader_id credential_type credential_value found none
              (opened db n)
            ≡ (ok (granted g), t)
          → (kind : CredentialType) × (card : LocalNfcCredential) × IsAdmitted db g kind card
      by_card kind none k f e = ground arith
      by_card kind (some card) k f e =
          let (user, count, more) =
            admit-user card.user_id (waiting card.user_id db) (opened db n) e in
          let (on, same_station, same_value) = is_credential-sat kind card (
            find_first-sat (is_credential rt out station_id kind credential_value)
              db.local_nfc_credentials f) in
          (
            kind,
            card,
            record {
              on = on;
              same_station = same_station;
              same_value = same_value;
              kind_known = k;
              stored = f;
              same_user_id = user;
              counted = count;
              some_waiting = subst (λ (m : ℕ). 0 < m) (sym count) more;
            },
          )

      by_kind :
          (found : Option CredentialType)
          → normalize_credential_type credential_type ≡ found
          → admit_type rt out station_id reader_id credential_type credential_value found none
              (opened db n)
            ≡ (ok (granted g), t)
          → (kind : CredentialType) × (card : LocalNfcCredential) × IsAdmitted db g kind card
      by_kind none k e = ground arith
      by_kind (some kind) k e =
          by_card kind
            (find_first (is_credential rt out station_id kind credential_value)
              db.local_nfc_credentials)
            k refl e
