-- ===== src/Gateway/Inbox/Disabled.antt =====
-- The event of a disabled card on its way from the server to the gate: the payload that
-- smartparcel-server/app/services/services.py queues, as `sync_pull_once` applies it.
use smart_parcel_station.Prelude.{
  ℕ, ◌+◌, String, Bool, true, false, Option, none, some, List, [], ◌∷◌, ◌≡◌, refl, ap, ◌∙◌, subst,
  all, filter, update_where, str_eq, ◌==◌,
}
use smart_parcel_station.Prelude.Keyed.{
  IsKeyedBy, IsKeyedBy-update, any-update_where, all-update_only, find_first-only, find_first-any,
}
use smart_parcel_station.Text.{upper}
use smart_parcel_station.Json.{text, Fields, get, put, opt_text}
use smart_parcel_station.Session.{Result, ok, Session, opened}
use smart_parcel_station.Session.Laws.{bind-ok}
use smart_parcel_station.Runtime.{Runtime, AssignsFresh}
use smart_parcel_station.Server.Enums.{AccessCredentialStatus}
use smart_parcel_station.Server.Enums.Values.{access_credential_status_value}
use smart_parcel_station.Server.Models.{UserAccessCredential, GatewaySyncEvent}
use smart_parcel_station.Server.Cards.{credential_payload}
use smart_parcel_station.Server.Sync.Answer.{event_item, event_items, pull_answer}
use smart_parcel_station.Gateway.Config.{Settings}
use smart_parcel_station.Gateway.Enums.{CredentialStatus}
use smart_parcel_station.Gateway.Entities.{LocalDb, LocalNfcCredential}
use smart_parcel_station.Gateway.Outside.{Outside}
use smart_parcel_station.Gateway.Access.{granted, Grant}
use smart_parcel_station.Gateway.Access.Card.{handle_access_card}
use smart_parcel_station.Gateway.Inbox.{
  event_type_of, payload_of, apply_kind, apply_sync_event, apply_item, apply_items, sync_pull_once,
}
use smart_parcel_station.Gateway.Inbox.Read.{
  get_or, must, column_text, iterated, credential_status, member, text_of, found_member,
}
use smart_parcel_station.Gateway.Inbox.Credentials.{
  has_value, is_terminal, retired, retire_credential, credential_disabled,
}
use smart_parcel_station.Gateway.Inbox.Retired.{IsRetired, retired_card}
use smart_parcel_station.Gateway.Inbox.Frame.{Policy, After, After-continue}
use smart_parcel_station.Gateway.Inbox.CardEvents.{retired-id}
use smart_parcel_station.Gateway.Inbox.Kinds.{are_sane, apply_items-After}
use smart_parcel_station.Gateway.Inbox.Safety.{Step, is_sane_step, serve_steps, never_admitted}

-- the states of a card at the server that its events of DISABLED carry
abbrev pub is_withdrawn : AccessCredentialStatus → Bool
is_withdrawn AccessCredentialStatus.lost = true
is_withdrawn AccessCredentialStatus.replaced = true
is_withdrawn AccessCredentialStatus.disabled = true
is_withdrawn _ = false

-- what `report_card_lost`, `disable_user_card` and a replacement queue
abbrev pub withdrawal : Option String → UserAccessCredential → Fields
withdrawal reason card = put "reason" (opt_text reason) (credential_payload card)

withdrawal-value :
    (reason : Option String) (card : UserAccessCredential)
    → get "credential_value" (withdrawal reason card) ≡ some (text card.credential_value)
unfolding get put credential_payload str_eq
withdrawal-value reason card = refl

withdrawal-reason :
    (reason : Option String) (card : UserAccessCredential)
    → column_text (get "reason" (withdrawal reason card)) ≡ ok reason
unfolding get put credential_payload str_eq column_text
withdrawal-reason none card = refl
withdrawal-reason (some r) card = refl

withdrawal-status :
    (reason : Option String) (card : UserAccessCredential)
    → is_withdrawn card.status ≡ true
    → (status : CredentialStatus) × (credential_status
          (get_or "status" (text "DISABLED") (withdrawal reason card))
        ≡ ok status)
      × (is_terminal status ≡ true)
unfolding get put credential_payload str_eq get_or credential_status member text_of found_member
    access_credential_status_value
withdrawal-status reason card h = by_status card.status h
  where
    by_status :
        (s : AccessCredentialStatus)
        → is_withdrawn s ≡ true
        → (status : CredentialStatus) × (credential_status
              (get_or "status" (text "DISABLED") (withdrawal reason (record card { status = s })))
            ≡ ok status)
          × (is_terminal status ≡ true)
    by_status AccessCredentialStatus.active h = cc
    by_status AccessCredentialStatus.lost h = (CredentialStatus.lost, refl, refl)
    by_status AccessCredentialStatus.replaced h = (CredentialStatus.replaced, refl, refl)
    by_status AccessCredentialStatus.disabled h = (CredentialStatus.disabled, refl, refl)
    by_status AccessCredentialStatus.expired h = cc

retired-terminal :
    (status : CredentialStatus) (reason : Option String) (now : ℕ) (row : LocalNfcCredential)
    → is_terminal status ≡ true
    → is_terminal (retired status reason now row).status ≡ true
retired-terminal CredentialStatus.active reason now row h = cc
retired-terminal CredentialStatus.lost reason now row h = refl
retired-terminal CredentialStatus.replaced reason now row h = refl
retired-terminal CredentialStatus.disabled reason now row h = refl
retired-terminal CredentialStatus.expired reason now row h = cc

-- the one row of the card is retired
retired-only :
    (value : String) (status : CredentialStatus) (reason : Option String) (now : ℕ)
    (rows : List LocalNfcCredential) (row : LocalNfcCredential)
    → IsKeyedBy (λ c. c.id) rows
    → filter (has_value (some value)) rows ≡ row ∷ []
    → is_terminal status ≡ true
    → IsRetired value (update_where (λ c. c.id == row.id) (retired status reason now) rows)
retired-only value status reason now rows row keyed only h = record {
  keyed =
      IsKeyedBy-update (λ c. c.id) _ _ rows (λ c. (retired-id value true status reason now c).0)
        keyed;
  known =
      any-update_where (λ c. c.id) (has_value (some value)) _ _ rows
        (λ c. ap (λ v. str_eq v value) (retired-id value true status reason now c).1)
      ∙ find_first-any (has_value (some value)) rows
          (find_first-only (has_value (some value)) rows only);
  off =
      all-update_only (λ c. c.id) (has_value (some value)) (λ c. is_terminal c.status) _ rows keyed
        only (retired-terminal status reason now row h);
}

module _ (card : UserAccessCredential) (reason : Option String)
    (withdrawn : is_withdrawn card.status ≡ true) where
  abbrev one_of_two : Policy
  one_of_two = retired_card card.credential_value false

  module _ (s : Session LocalDb) (row : LocalNfcCredential)
      (keyed : IsKeyedBy (λ c. c.id) s.work.local_nfc_credentials)
      (only : filter (has_value (some card.credential_value)) s.work.local_nfc_credentials
        ≡ row ∷ []) where
    retire_credential-withdrawal :
        (now : ℕ) → After one_of_two (retire_credential (withdrawal reason card) now (some row) s)
    unfolding retire_credential
    retire_credential-withdrawal now =
        let (status, e, terminal) = withdrawal-status reason card withdrawn in
        rw (e, withdrawal-reason reason card)
          (
            retired-only card.credential_value status reason now s.work.local_nfc_credentials row
                keyed only terminal,
            tt,
          )

    credential_disabled-withdrawal :
        (now : ℕ) → After one_of_two (credential_disabled (withdrawal reason card) now s)
    unfolding credential_disabled must get put credential_payload str_eq column_text
    credential_disabled-withdrawal now =
        rw
          (find_first-only (has_value (some card.credential_value)) s.work.local_nfc_credentials
            only)
          (retire_credential-withdrawal now)

  module _ (rt : Runtime) (out : Outside) (station_id : String) (settings : Settings) where
    apply_item-withdrawal :
        (e : GatewaySyncEvent) (s : Session LocalDb) (row : LocalNfcCredential)
        → e.event_type ≡ "USER_ACCESS_CREDENTIAL_DISABLED"
        → e.payload_json ≡ withdrawal reason card
        → IsKeyedBy (λ c. c.id) s.work.local_nfc_credentials
        → filter (has_value (some card.credential_value)) s.work.local_nfc_credentials ≡ row ∷ []
        → After one_of_two (apply_item rt out station_id settings (event_item e) s)
    unfolding apply_item get_or get event_type_of payload_of apply_sync_event apply_kind upper
        str_eq
    apply_item-withdrawal e s row named carried keyed only =
        rw (named, carried)
          (credential_disabled-withdrawal (record s { draws = s.draws + 1 }) row keyed only
            (rt.clock s.draws))

    module _ (fresh : AssignsFresh rt) where
      pull-withdrawal :
          (e : GatewaySyncEvent) (later : List GatewaySyncEvent) (db : LocalDb) (n : ℕ)
          (row : LocalNfcCredential) {answer : Fields} {t : Session LocalDb}
          → e.event_type ≡ "USER_ACCESS_CREDENTIAL_DISABLED"
          → e.payload_json ≡ withdrawal reason card
          → are_sane (event_items later) ≡ true
          → IsKeyedBy (λ c. c.id) db.local_nfc_credentials
          → filter (has_value (some card.credential_value)) db.local_nfc_credentials ≡ row ∷ []
          → sync_pull_once rt out station_id settings (pull_answer (e ∷ later)) (opened db n)
            ≡ (ok answer, t)
          → IsRetired card.credential_value t.saved.local_nfc_credentials
      unfolding sync_pull_once get_or get str_eq iterated event_items apply_items
      pull-withdrawal e later db n row {answer} {t} named carried sane keyed only done =
          let both =
            After-continue one_of_two
              (apply_item rt out station_id settings (event_item e) (opened db n))
              (λ u. apply_items rt out station_id settings (event_items later))
              (apply_item-withdrawal e (opened db n) row named carried keyed only)
              (λ u w k.
                apply_items-After rt out station_id settings card.credential_value false fresh
                  (event_items later) w sane k) in
          let (u, w, ran, end_) =
            bind-ok (apply_items rt out station_id settings (event_items (e ∷ later))) _
              (opened db n) done in
          let in_work =
            subst (λ (r : Result (Unit {0}) × Session LocalDb). After one_of_two r) ran both in
          subst (IsRetired card.credential_value) (ap (λ r. r.1.saved.local_nfc_credentials) end_)
            in_work.0

      -- The server has queued USER_ACCESS_CREDENTIAL_DISABLED for a card that is lost, replaced or
      -- disabled, and sends it to a gateway that stores the card in exactly one row, as the first event of
      -- an answer. Once `sync_pull_once` has succeeded on that answer, then whatever answers of the server
      -- arrive and whatever cards are presented afterwards, `handle_access_card` never lets the card
      -- in. No event USER_ACCESS_CREDENTIAL_UPSERT that follows may give the status EXPIRED, and no event
      -- USER_ACCESS_CREDENTIAL_DISABLED the status ACTIVE or EXPIRED; primary keys must be distinct, and
      -- new ones fresh.
      pub withdrawn_never_admitted :
          (e : GatewaySyncEvent) (later : List GatewaySyncEvent) (steps : List Step)
          (reader_id kind : String) (db : LocalDb) (n m : ℕ) (row : LocalNfcCredential)
          {answer : Fields} {t t' : Session LocalDb} {g : Grant}
          → e.event_type ≡ "USER_ACCESS_CREDENTIAL_DISABLED"
          → e.payload_json ≡ withdrawal reason card
          → are_sane (event_items later) ≡ true
          → all is_sane_step steps ≡ true
          → IsKeyedBy (λ c. c.id) db.local_nfc_credentials
          → filter (has_value (some card.credential_value)) db.local_nfc_credentials ≡ row ∷ []
          → sync_pull_once rt out station_id settings (pull_answer (e ∷ later)) (opened db n)
            ≡ (ok answer, t)
          → ¬ (
              handle_access_card rt out station_id reader_id kind card.credential_value none (
                opened
                  (serve_steps rt out station_id settings steps (opened t.saved t.draws)).saved
                  m)
              ≡ (ok (granted g), t'))
      withdrawn_never_admitted e later steps reader_id kind db n m row {t = t} named carried sane
            sane_steps keyed only done =
          never_admitted rt out station_id settings card.credential_value fresh steps reader_id kind
            t.saved t.draws m sane_steps
            (pull-withdrawal e later db n row named carried sane keyed only done)
