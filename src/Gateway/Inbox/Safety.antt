-- ===== src/Gateway/Inbox/Safety.antt =====
-- A card that is lost, replaced or disabled does not open the gate again: `sync_pull_once` of
-- smartparcel-gateway/gateway/services/sync_service.py with `handle_access_card` of
-- access_control_service.py.
use smart_parcel_station.Prelude.{
  ℕ, String, Bool, true, not, ◌||◌, none, List, [], ◌∷◌, ◌≡◌, subst, all, str_eq, str_eq_refl,
  Bool-cases, inl, inr, arith,
}
use smart_parcel_station.Json.{array, Items, nil, Fields}
use smart_parcel_station.Session.{Result, ok, err, Session, opened, closed}
use smart_parcel_station.Runtime.{Runtime, AssignsFresh}
use smart_parcel_station.Gateway.Config.{Settings}
use smart_parcel_station.Gateway.Enums.{CredentialStatus}
use smart_parcel_station.Gateway.Entities.{LocalDb}
use smart_parcel_station.Gateway.Outside.{Outside}
use smart_parcel_station.Gateway.Access.{granted, Grant, is_credential}
use smart_parcel_station.Gateway.Access.Card.{handle_access_card}
use smart_parcel_station.Gateway.Access.Granted.{handle_access_card-granted}
use smart_parcel_station.Gateway.Inbox.{apply_items, is_event_answer, sync_pull_once}
use smart_parcel_station.Gateway.Inbox.Read.{get_or, iterated}
use smart_parcel_station.Gateway.Inbox.Credentials.{is_terminal}
use smart_parcel_station.Gateway.Inbox.Retired.{stays_off, IsRetired, retired_card}
use smart_parcel_station.Gateway.Inbox.Frame.{
  Holds, After, After-lift, After-continue, handle_access_card-After,
}
use smart_parcel_station.Gateway.Inbox.ParcelEvents.{pull_parcels-After}
use smart_parcel_station.Gateway.Inbox.Kinds.{are_sane, apply_items-After}
use smart_parcel_station.Gateway.Inbox.Legacy.{pull_parcels}
use smart_parcel_station.Prelude.Keyed.{all-find_first}

abbrev are_sane_read : Result Items → Bool
are_sane_read (ok events) = are_sane events
are_sane_read (err e) = true

-- an answer of the server whose events neither let a card expire nor make it active as they disable it
abbrev pub is_sane_answer : Fields → Bool
is_sane_answer answer = are_sane_read (iterated (get_or "events" (array nil) answer))

-- what happens at a gateway: an answer of the server arrives, or a card is presented, by the reader,
-- the type and the value
pub data Step : Type 0 where
  pull : Fields → Step
  present : String → String → String → Step

abbrev pub is_sane_step : Step → Bool
is_sane_step (pull answer) = is_sane_answer answer
is_sane_step (present reader_id kind value) = true

not_active :
    (status : CredentialStatus) {b : Bool}
    → b ≡ true
    → (not b || is_terminal status) ≡ true
    → ¬ (status ≡ CredentialStatus.active)
not_active CredentialStatus.active h off e = ground arith
not_active CredentialStatus.lost h off e = cc
not_active CredentialStatus.replaced h off e = cc
not_active CredentialStatus.disabled h off e = cc
not_active CredentialStatus.expired h off e = cc

str_eq_is : (a b : String) → a ≡ b → str_eq a b ≡ true
str_eq_is a b e = subst (λ (c : String). str_eq a c ≡ true) e (str_eq_refl a)

module _ (rt : Runtime) (out : Outside) (station_id : String) (settings : Settings) where
  abbrev serve : Step → Session LocalDb → Session LocalDb
  serve (pull answer) s = closed (sync_pull_once rt out station_id settings answer s)
  serve (present reader_id kind value) s =
      closed (handle_access_card rt out station_id reader_id kind value none s)

  unfoldable pub serve_steps : List Step → Session LocalDb → Session LocalDb
  serve_steps [] s = s
  serve_steps (step ∷ steps) s = serve_steps steps (serve step s)

  module _ (value : String) where
    module _ (fresh : AssignsFresh rt) where
      sync_pull_once-After :
          (answer : Fields) (s : Session LocalDb)
          → is_sane_answer answer ≡ true
          → Holds (retired_card value true) s
          → After (retired_card value true) (sync_pull_once rt out station_id settings answer s)
      unfolding sync_pull_once
      sync_pull_once-After answer s sane h =
          elim (Bool-cases (is_event_answer rt out station_id settings answer)) [
            | inl events ↦ rw events (
                After-lift (retired_card value true) (iterated (get_or "events" (array nil) answer))
                  _ s h
                  (λ items e.
                    After-continue (retired_card value true)
                      (apply_items rt out station_id settings items s) _
                      (apply_items-After rt out station_id settings value true fresh items s
                        (subst (λ (r : Result Items). are_sane_read r ≡ true) e sane) h)
                      (λ u t k. (k.0, k.0))))
            | inr parcels ↦ rw parcels (
                After-lift (retired_card value true)
                  (iterated (get_or "parcels" (array nil) answer)) _ s h
                  (λ items e.
                    After-continue (retired_card value true) (pull_parcels rt station_id items s) _
                      (pull_parcels-After (retired_card value true) rt station_id items s h)
                      (λ u t k. (k.0, k.0))))
          ]

      serve-After :
          (step : Step) (s : Session LocalDb)
          → is_sane_step step ≡ true
          → Holds (retired_card value true) s
          → Holds (retired_card value true) (serve step s)
      serve-After (pull answer) s sane h =
          let k = sync_pull_once-After answer s sane h in (k.1, k.1)
      serve-After (present reader_id kind presented) s sane h =
          let k =
            handle_access_card-After (retired_card value true) rt out station_id reader_id kind
              presented none s h in
          (k.1, k.1)

      serve_steps-After :
          (steps : List Step) (s : Session LocalDb)
          → all is_sane_step steps ≡ true
          → Holds (retired_card value true) s
          → Holds (retired_card value true) (serve_steps steps s)
      unfolding serve_steps all
      serve_steps-After [] s sane h = h
      serve_steps-After (step ∷ steps) s sane h =
          serve_steps-After steps (serve step s) (ground (arith, sane))
            (serve-After step s (ground (arith, sane)) h)

      -- Of a card that the gateway stores, with every row of it lost, replaced or disabled, every row stays
      -- lost, replaced or disabled through any sequence of answers of the server and of cards presented
      -- at readers, whether each of them succeeds or fails. No event USER_ACCESS_CREDENTIAL_UPSERT of
      -- the answers may give the status EXPIRED, and no event USER_ACCESS_CREDENTIAL_DISABLED the
      -- status ACTIVE or EXPIRED; primary keys must be distinct, and new ones fresh.
      pub serve_steps-IsRetired :
          (steps : List Step) (db : LocalDb) (n : ℕ)
          → all is_sane_step steps ≡ true
          → IsRetired value db.local_nfc_credentials
          → IsRetired value (serve_steps steps (opened db n)).saved.local_nfc_credentials
      serve_steps-IsRetired steps db n sane r =
          (serve_steps-After steps (opened db n) sane (r, r)).1

    retired-denied :
        (reader_id kind : String) (db : LocalDb) (n : ℕ) {g : Grant} {t : Session LocalDb}
        → IsRetired value db.local_nfc_credentials
        → ¬ (
            handle_access_card rt out station_id reader_id kind value none (opened db n)
            ≡ (ok (granted g), t))
    retired-denied reader_id kind db n r e =
        let (type, card, a) =
          handle_access_card-granted rt out station_id reader_id kind value db n e in
        let off : stays_off value card ≡ true =
          all-find_first (is_credential rt out station_id type value) (stays_off value)
            db.local_nfc_credentials r.off a.stored in
        not_active card.status (str_eq_is card.credential_value value a.same_value) off a.on

    -- such a card is not let in afterwards
    pub never_admitted :
        AssignsFresh rt
        → (steps : List Step) (reader_id kind : String) (db : LocalDb) (n m : ℕ) {g : Grant}
          {t : Session LocalDb}
        → all is_sane_step steps ≡ true
        → IsRetired value db.local_nfc_credentials
        → ¬ (
            handle_access_card rt out station_id reader_id kind value none
              (opened (serve_steps steps (opened db n)).saved m)
            ≡ (ok (granted g), t))
    never_admitted fresh steps reader_id kind db n m sane r =
        retired-denied reader_id kind _ m (serve_steps-IsRetired fresh steps db n sane r)
