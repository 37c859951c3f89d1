-- ===== src/Gateway/Inbox/CardEvents.antt =====
-- The events of access cards at the gateway leave a retired card retired.
use smart_parcel_station.Prelude.{
  ℕ, ◌+◌, String, Bool, true, false, not, ◌&&◌, ◌||◌, Option, none, some, ◌≡◌, refl, sym, ◌∙◌,
  subst, find_first, str_eq, Bool-cases, inl, inr, arith,
}
use smart_parcel_station.Prelude.Keyed.{all-find_first, any-map}
use smart_parcel_station.Json.{Json, text, Fields, get, put, get-put, truthy}
use smart_parcel_station.Session.{Result, ok, Session}
use smart_parcel_station.Runtime.{Runtime, AssignsFresh}
use smart_parcel_station.Gateway.Enums.{CredentialStatus}
use smart_parcel_station.Gateway.Entities.{LocalDb, LocalNfcCredential}
use smart_parcel_station.Gateway.Outside.{Outside}
use smart_parcel_station.Gateway.Sync.{enqueue_new_event}
use smart_parcel_station.Gateway.Inbox.Read.{
  get_or, value_of, must, column_text, not_null, credential_status, credential_type, parse_datetime,
  member, text_of, found_member,
}
use smart_parcel_station.Gateway.Inbox.Credentials.{
  is_terminal, is_on, has_value, retired, retire_credential, credential_disabled, add_credential,
  refresh_credential, put_credential, credential_upsert, retire_old, admit_new, credential_replaced,
  old_value, with_value,
}
use smart_parcel_station.Gateway.Inbox.Frame.{Holds, After, After-lift, After-continue}
use smart_parcel_station.Gateway.Inbox.Retired.{
  is_final, is_not_expired, retired_card, IsRetiredWhen-carry, IsRetired-append, IsRetired-update,
  stays_off,
}

module _ (value : String) (both : Bool) where
  retired-stays_off :
      (status : CredentialStatus) (reason : Option String) (now : ℕ) (row : LocalNfcCredential)
      → is_terminal status ≡ true
      → stays_off value (retired status reason now row) ≡ true
  retired-stays_off CredentialStatus.active reason now row h = cc
  retired-stays_off CredentialStatus.lost reason now row h = ground arith
  retired-stays_off CredentialStatus.replaced reason now row h = ground arith
  retired-stays_off CredentialStatus.disabled reason now row h = ground arith
  retired-stays_off CredentialStatus.expired reason now row h = cc

  pub retired-id :
      (status : CredentialStatus) (reason : Option String) (now : ℕ) (row : LocalNfcCredential)
      → ((retired status reason now row).id ≡ row.id)
        × ((retired status reason now row).credential_value ≡ row.credential_value)
  retired-id CredentialStatus.active reason now row = (refl, refl)
  retired-id CredentialStatus.lost reason now row = (refl, refl)
  retired-id CredentialStatus.replaced reason now row = (refl, refl)
  retired-id CredentialStatus.disabled reason now row = (refl, refl)
  retired-id CredentialStatus.expired reason now row = (refl, refl)

  retire_credential-After :
      (key : Option String) (payload : Fields) (now : ℕ) (found : Option LocalNfcCredential)
      (s : Session LocalDb)
      → find_first (has_value key) s.work.local_nfc_credentials ≡ found
      → is_final (credential_status (get_or "status" (text "DISABLED") payload)) ≡ true
      → Holds (retired_card value both) s
      → After (retired_card value both) (retire_credential payload now found s)
  unfolding retire_credential
  retire_credential-After key payload now none s f h r = r
  retire_credential-After key payload now (some row) s f h r =
      After-lift (retired_card value both)
        (credential_status (get_or "status" (text "DISABLED") payload)) _ s r
        (λ status e.
          After-lift (retired_card value both) (column_text (get "reason" payload)) _ s r
            (λ reason e'. (
              IsRetired-update value key (retired status reason now) s.work.local_nfc_credentials
                  row f (λ c. (retired-id status reason now c).0)
                  (λ c. (retired-id status reason now c).1)
                  (retired-stays_off status reason now row
                    (subst (λ (x : Result CredentialStatus). is_final x ≡ true) e h))
                  r.0,
              r.1,
            )))

  pub credential_disabled-After :
      (payload : Fields) (now : ℕ) (s : Session LocalDb)
      → is_final (credential_status (get_or "status" (text "DISABLED") payload)) ≡ true
      → Holds (retired_card value both) s
      → After (retired_card value both) (credential_disabled payload now s)
  unfolding credential_disabled
  credential_disabled-After payload now s h r =
      After-lift (retired_card value both) (must "credential_value" payload) _ s r (λ v e.
        After-lift (retired_card value both) (column_text (some v)) _ s r
          (λ key e'. retire_credential-After key payload now _ s refl h r))

  replaced-final :
      (v : Json) (payload : Fields)
      → is_final
          (credential_status (get_or "status" (text "DISABLED") (with_value v "REPLACED" payload)))
        ≡ true
  unfolding get_or credential_status member text_of found_member str_eq
  replaced-final v payload =
      rw (get-put "status" (text "REPLACED") (put "credential_value" v payload)) refl

  active-not_expired :
      (v : Json) (payload : Fields)
      → is_not_expired
          (credential_status (get_or "status" (text "ACTIVE") (with_value v "ACTIVE" payload)))
        ≡ true
  unfolding get_or credential_status member text_of found_member str_eq
  active-not_expired v payload =
      rw (get-put "status" (text "ACTIVE") (put "credential_value" v payload)) refl

  not_null-ok : (key : Option String) {v : String} → not_null key ≡ ok v → key ≡ some v
  unfolding not_null
  not_null-ok none e = cc
  not_null-ok (some k) e = ground arith

  module _ (rt : Runtime) (out : Outside) (station_id : String) where
    refreshed-stays_off :
        (row : LocalNfcCredential) (status : CredentialStatus)
        → stays_off value row ≡ true
        → (is_terminal row.status && is_on status) ≡ false
        → is_not_expired (ok status) ≡ true
        → (not (has_value (some value) row) || is_terminal status) ≡ true
    refreshed-stays_off row CredentialStatus.active a b c = ground arith
    refreshed-stays_off row CredentialStatus.expired a b c = cc
    refreshed-stays_off row CredentialStatus.lost a b c = ground arith
    refreshed-stays_off row CredentialStatus.replaced a b c = ground arith
    refreshed-stays_off row CredentialStatus.disabled a b c = ground arith

    module _ (payload : Fields) (now : ℕ) (key : Option String) (status : CredentialStatus)
        (s : Session LocalDb) (current : is_not_expired (ok status) ≡ true)
        (r : Holds (retired_card value both) s) where
      refresh_credential-After :
          (row : LocalNfcCredential)
          → find_first (has_value key) s.work.local_nfc_credentials ≡ some row
          → (is_terminal row.status && is_on status) ≡ false
          → After
              (retired_card value both)
              (refresh_credential rt out station_id payload now row status s)
      unfolding refresh_credential
      refresh_credential-After row f h =
          After-lift (retired_card value both) (must "user_id" payload) _ s r (λ user e.
            After-lift (retired_card value both) (parse_datetime rt out (get "expires_at" payload))
              _ s r
              (λ expires e'. (
                IsRetired-update value key _ s.work.local_nfc_credentials row f (λ c. refl)
                    (λ c. refl)
                    (refreshed-stays_off row status
                      (all-find_first (has_value key) (stays_off value) s.work.local_nfc_credentials
                        r.0.off f)
                      h current)
                    r.0,
                r.1,
              )))

      add_credential-After :
          AssignsFresh rt
          → find_first (has_value key) s.work.local_nfc_credentials ≡ none
          → After
              (retired_card value both)
              (add_credential rt out station_id payload now key status s)
      unfolding add_credential
      add_credential-After fresh f =
          After-lift (retired_card value both)
            (credential_type (get_or "credential_type" (text "CARD_UID") payload)) _ s r
            (λ kind e.
              After-lift (retired_card value both) (must "user_id" payload) _ s r (λ user e1.
                After-lift (retired_card value both)
                  (parse_datetime rt out (get "expires_at" payload)) _ s r
                  (λ expires e2. After-lift (retired_card value both) (not_null key) _ s r (λ v e3.
                    let added =
                      IsRetired-append value s.work.local_nfc_credentials _
                        (sym (any-map (λ c. c.id) _ s.work.local_nfc_credentials) ∙ fresh _)
                        (subst
                          (λ (k : Option String).
                            find_first (has_value k) s.work.local_nfc_credentials ≡ none)
                          (not_null-ok key e3) f)
                        r.0 in
                    (added, r.1)))))

      put_credential-After :
          AssignsFresh rt
          → (found : Option LocalNfcCredential)
          → find_first (has_value key) s.work.local_nfc_credentials ≡ found
          → After
              (retired_card value both)
              (put_credential rt out station_id payload now key status found s)
      unfolding put_credential
      put_credential-After fresh none f = add_credential-After fresh f
      put_credential-After fresh (some row) f =
          elim (Bool-cases (is_terminal row.status && is_on status)) [
            | inl kept ↦ rw kept r
            | inr free ↦ rw free (refresh_credential-After row f free)
          ]

    module _ (fresh : AssignsFresh rt) where
      pub credential_upsert-After :
          (payload : Fields) (now : ℕ) (s : Session LocalDb)
          → is_not_expired (credential_status (get_or "status" (text "ACTIVE") payload)) ≡ true
          → Holds (retired_card value both) s
          → After (retired_card value both) (credential_upsert rt out station_id payload now s)
      unfolding credential_upsert
      credential_upsert-After payload now s h r =
          After-lift (retired_card value both) (must "credential_value" payload) _ s r (λ v e.
            After-lift (retired_card value both) (column_text (some v)) _ s r (λ key e'.
              After-lift (retired_card value both)
                (credential_status (get_or "status" (text "ACTIVE") payload)) _ s r
                (λ status e2.
                  put_credential-After payload now key status s
                    (subst (λ (x : Result CredentialStatus). is_not_expired x ≡ true) e2 h) r fresh
                    _ refl)))

      retire_old-After :
          (payload : Fields) (s : Session LocalDb)
          → Holds (retired_card value both) s
          → After (retired_card value both) (retire_old rt out station_id payload s)
      unfolding retire_old
      retire_old-After payload s r = elim (Bool-cases (truthy (old_value payload))) [
        | inl old ↦ rw old (
            credential_disabled-After (with_value (value_of (old_value payload)) "REPLACED" payload)
              (rt.clock s.draws) (record s { draws = s.draws + 1 })
              (replaced-final (value_of (old_value payload)) payload) r)
        | inr none_old ↦ rw none_old r
      ]

      admit_new-After :
          (payload : Fields) (s : Session LocalDb)
          → Holds (retired_card value both) s
          → After (retired_card value both) (admit_new rt out station_id payload s)
      unfolding admit_new
      admit_new-After payload s r =
          let new = get "new_credential_value" payload in
          elim (Bool-cases (truthy (get "new_credential_value" payload))) [
            | inl given ↦ rw given (
                credential_upsert-After (with_value (value_of new) "ACTIVE" payload)
                  (rt.clock s.draws) (record s { draws = s.draws + 1 })
                  (active-not_expired (value_of new) payload) r)
            | inr missing ↦ rw missing r
          ]

      pub credential_replaced-After :
          (payload : Fields) (s : Session LocalDb)
          → Holds (retired_card value both) s
          → After (retired_card value both) (credential_replaced rt out station_id payload s)
      unfolding credential_replaced enqueue_new_event
      credential_replaced-After payload s r =
          After-continue (retired_card value both) (retire_old rt out station_id payload s) _
            (retire_old-After payload s r)
            (λ a t q.
              After-continue (retired_card value both) (admit_new rt out station_id payload t) _
                (admit_new-After payload t q)
                (λ b u w. (w.0, IsRetiredWhen-carry value both _ w.0)))
