-- ===== src/Server/Cards.antt =====
-- Access cards of users: smartparcel-server/app/services/services.py, `_credential_payload` to
-- `disable_user_card`. `with_for_update` and `refresh` change no value and are left out. The flush of a
-- new card checks the unique column `credential_value`; after it no commit of `bind_user_card` can
-- break a constraint, so the branch for that is not reached.
pub mod Lifecycle
pub mod Binding
pub mod Safety
pub mod Retiring
pub mod History
mod Tests
use smart_parcel_station.Prelude.{
  ℕ, ◌+◌, String, Bool, true, false, not, ◌&&◌, ◌||◌, Option, none, some, List, [], ◌∷◌, ◌++◌, map,
  str_eq, opt_eq, opt_is, is_none, ◌==◌, leb, if◌then◌else◌, filter, any, find_first, update_where,
}
use smart_parcel_station.Prelude.Int.{ℤ, pos, ltb_ℤ}
use smart_parcel_station.Text.{upper, strip, str_of, ◌&◌}
use smart_parcel_station.Json.{Json, null, text, Fields, end, entry, put, opt_text}
use smart_parcel_station.Session.{
  Error, http, crash, Action, pure, raise, gets, draw, modify, commit, or_raise, raise_if, when,
  one_or_none, ◌>>=◌, ◌>>◌,
}
use smart_parcel_station.Runtime.{Runtime}
use smart_parcel_station.Server.Enums.{
  UserRole, AccessCredentialType, AccessCredentialStatus, GateAuthMethod, GatewaySyncEventType,
}
use smart_parcel_station.Server.Enums.Values.{
  access_credential_type_value, access_credential_status_value, gate_auth_method_value,
}
use smart_parcel_station.Server.Models.{Db, User, Gateway, UserAccessCredential}
use smart_parcel_station.Server.Events.{queue_station_event}

-- `_not_found`
abbrev pub not_found : String → Error
not_found name = http 404 (name & " not found")

abbrev pub is_server_admin : UserRole → Bool
is_server_admin UserRole.server_admin = true
is_server_admin _ = false

abbrev pub is_user : UserRole → Bool
is_user UserRole.user = true
is_user _ = false

abbrev pub is_card_uid : AccessCredentialType → Bool
is_card_uid AccessCredentialType.card_uid = true
is_card_uid _ = false

abbrev pub is_active : AccessCredentialStatus → Bool
is_active AccessCredentialStatus.active = true
is_active _ = false

-- `_credential_payload`
unfoldable pub credential_payload : UserAccessCredential → Fields
credential_payload card = entry "user_id" (text (str_of card.user_id)) (
    entry "station_id" (text (str_of card.station_id)) (
      entry "credential_type" (text (access_credential_type_value card.credential_type)) (
        entry "credential_value" (text card.credential_value) (
          entry "status" (text (access_credential_status_value card.status))
            (entry "expires_at" null end)))))

-- an active card of a user at a station
abbrev pub is_current : ℕ → ℕ → UserAccessCredential → Bool
is_current user_id station_id card =
    (card.user_id == user_id)
    && (card.station_id == station_id)
    && is_card_uid card.credential_type
    && is_active card.status

-- assignments to the row of `card`
abbrev pub set_card : ℕ → (UserAccessCredential → UserAccessCredential) → Db → Db
set_card id f db = record db {
  user_access_credentials = update_where (λ c. c.id == id) f db.user_access_credentials;
}

-- the assignments to a card that a new one replaces
abbrev pub replaced_by : ℕ → ℕ → UserAccessCredential → UserAccessCredential
replaced_by id now card = record card {
  status = AccessCredentialStatus.replaced;
  replaced_by_id = some id;
  replaced_at = some now;
  reason = some "REPLACED_BY_NEW_CARD";
}

module _ (rt : Runtime) where
  -- the row that `bind_user_card` adds
  abbrev pub new_card :
      ℕ
      → ℕ
      → AccessCredentialType
      → String
      → Option String
      → User
      → List UserAccessCredential
      → UserAccessCredential
  new_card user_id station_id credential_type value reason admin rows = record {
    id = rt.next_id (map (λ c. c.id) rows);
    user_id = user_id;
    station_id = station_id;
    credential_type = credential_type;
    credential_value = value;
    credential_hash = none;
    status = AccessCredentialStatus.active;
    replaced_by_id = none;
    lost_reported_at = none;
    replaced_at = none;
    disabled_at = none;
    reason = reason;
    created_by_user_id = none;
    created_by_admin_id = some admin.id;
  }

  -- `db.add(card); await db.flush()`
  unfoldable pub add_card : UserAccessCredential → Action Db (Unit {0})
  add_card card = do
    taken ← gets (λ db.
        any (λ c. str_eq c.credential_value card.credential_value) db.user_access_credentials)
    raise_if taken (crash "IntegrityError")
    modify (λ db. record db { user_access_credentials = db.user_access_credentials ++ card ∷ [] })

  -- `if old_card`
  unfoldable pub retire_card :
      ℕ
      → UserAccessCredential
      → ℕ
      → Option UserAccessCredential
      → Action Db (Option UserAccessCredential)
  retire_card station_id card now none = pure none
  retire_card station_id card now (some old_card) = do
    let retired = replaced_by card.id now old_card
    modify (set_card old_card.id (replaced_by card.id now))
    queue_station_event rt station_id GatewaySyncEventType.user_access_credential_disabled
        (put "reason" (opt_text retired.reason) (credential_payload retired))
    pure (some retired)

  -- the tests of `bind_user_card`: the value of the new card, and the card that it replaces
  unfoldable pub check_binding :
      ℕ
      → ℕ
      → AccessCredentialType
      → String
      → User
      → Action Db (String × Option UserAccessCredential)
  check_binding user_id station_id credential_type credential_value admin = do
    raise_if (not (is_card_uid credential_type))
        (http 400 "This endpoint only binds CARD_UID credentials")
    user ← or_raise (← gets (λ db. find_first (λ u. u.id == user_id) db.users)) (not_found "user")
    raise_if (not (opt_is user.station_id station_id))
        (http 403 "User does not belong to this station")
    raise_if (not (is_server_admin admin.role) && not (opt_is admin.station_id station_id))
        (http 403 "Staff can only operate their own station")
    let value = upper (strip credential_value)
    existing ←
        one_or_none
          (← gets (λ db. filter (λ c. str_eq c.credential_value value) db.user_access_credentials))
    raise_if (not (is_none existing))
        (http 409 "Credential UID has already been issued and cannot be rebound")
    old_card ←
        one_or_none
          (← gets (λ db. filter (is_current user_id station_id) db.user_access_credentials))
    pure (value, old_card)

  -- the writes of `bind_user_card`
  unfoldable pub store_binding :
      ℕ
      → ℕ
      → AccessCredentialType
      → String
      → Option UserAccessCredential
      → Option String
      → User
      → Action Db (UserAccessCredential × Option UserAccessCredential)
  store_binding user_id station_id credential_type value old_card reason admin = do
    now ← draw rt.clock
    rows ← gets (λ db. db.user_access_credentials)
    let card = new_card user_id station_id credential_type value reason admin rows
    add_card card
    retired ← retire_card station_id card now old_card
    queue_station_event rt station_id GatewaySyncEventType.user_access_credential_upsert
        (credential_payload card)
    commit
    pure (card, retired)

  unfoldable pub bind_user_card :
      ℕ
      → ℕ
      → AccessCredentialType
      → String
      → Option String
      → User
      → Action Db (UserAccessCredential × Option UserAccessCredential)
  bind_user_card user_id station_id credential_type credential_value reason admin = do
    (value, old_card) ← check_binding user_id station_id credential_type credential_value admin
    store_binding user_id station_id credential_type value old_card reason admin

  -- the assignments of `report_card_lost` and of `disable_user_card`
  abbrev pub lost : ℕ → String → UserAccessCredential → UserAccessCredential
  lost now reason card = record card {
    status = AccessCredentialStatus.lost;
    lost_reported_at = some now;
    reason = some reason;
  }

  abbrev pub disabled : ℕ → String → UserAccessCredential → UserAccessCredential
  disabled now reason card = record card {
    status = AccessCredentialStatus.disabled;
    disabled_at = some now;
    reason = some reason;
  }

  unfoldable pub report_card_lost : User → ℕ → String → Action Db UserAccessCredential
  report_card_lost user card_id reason = do
    card ←
        or_raise (← gets (λ db. find_first (λ c. c.id == card_id) db.user_access_credentials))
          (not_found "card")
    raise_if (not (card.user_id == user.id)) (not_found "card")
    raise_if (not (is_active card.status)) (http 409 "Only an ACTIVE card can be reported lost")
    now ← draw rt.clock
    let card' = lost now reason card
    modify (set_card card.id (lost now reason))
    queue_station_event rt card.station_id GatewaySyncEventType.user_access_credential_disabled
        (put "reason" (text reason) (credential_payload card'))
    commit
    pure card'

  -- the branch of an active card
  unfoldable pub disable_active :
      String → UserAccessCredential → Bool → Action Db UserAccessCredential
  disable_active reason card false = pure card
  disable_active reason card true = do
    now ← draw rt.clock
    let card' = disabled now reason card
    modify (set_card card.id (disabled now reason))
    queue_station_event rt card.station_id GatewaySyncEventType.user_access_credential_disabled
        (put "reason" (text reason) (credential_payload card'))
    commit
    pure card'

  unfoldable pub disable_user_card : ℕ → ℕ → String → User → Action Db UserAccessCredential
  unfolding disable_active
  disable_user_card user_id card_id reason staff = do
    card ←
        or_raise (← gets (λ db. find_first (λ c. c.id == card_id) db.user_access_credentials))
          (not_found "card")
    raise_if (not (card.user_id == user_id)) (not_found "card")
    raise_if (not (is_server_admin staff.role) && not (opt_is staff.station_id card.station_id))
        (http 403 "Staff can only operate their own station")
    disable_active reason card (is_active card.status)

-- `order_by(id.desc())`
insert_desc : UserAccessCredential → List UserAccessCredential → List UserAccessCredential
insert_desc c [] = c ∷ []
insert_desc c (d ∷ rest) =
    let later = d ∷ insert_desc c rest in if leb d.id c.id then c ∷ d ∷ rest else later

order_desc : List UserAccessCredential → List UserAccessCredential
unfolding insert_desc
order_desc [] = []
order_desc (c ∷ rest) = insert_desc c (order_desc rest)

unfoldable pub list_user_cards : ℕ → User → Action Db (List UserAccessCredential)
unfolding order_desc
list_user_cards user_id staff = do
  user ← or_raise (← gets (λ db. find_first (λ u. u.id == user_id) db.users)) (not_found "user")
  raise_if (not (is_server_admin staff.role) && not (opt_eq staff.station_id user.station_id))
      (http 403 "Staff can only operate their own station")
  rows ← gets (λ db.
      filter
        (λ c.
          (c.user_id == user_id)
          && opt_is user.station_id c.station_id
          && is_card_uid c.credential_type)
        db.user_access_credentials)
  pure (order_desc rows)
