-- ===== src/Gateway/Inbox/Read.antt =====
-- How `apply_sync_event` reads a payload: required keys, texts for the columns of SQLite, the members of
-- enumerations, and `_parse_datetime`, of smartparcel-gateway/gateway/services/sync_service.py.
use smart_parcel_station.Prelude.{
  ℕ, ◌+◌, String, Bool, true, false, Option, none, some, List, [], ◌∷◌, str_eq, if◌then◌else◌,
}
use smart_parcel_station.Prelude.Int.{pos, negsuc}
use smart_parcel_station.Text.{◌&◌, str_of}
use smart_parcel_station.Json.{
  Json, null, flag, number, text, array, object, Items, nil, cons, Fields, end, entry, get, truthy,
}
use smart_parcel_station.Session.{crash, Result, ok, err}
use smart_parcel_station.Runtime.{Runtime}
use smart_parcel_station.Server.Payload.{str_of_json}
use smart_parcel_station.Gateway.Enums.{
  ParcelStatus, BindingStatus, CredentialType, CredentialStatus,
}
use smart_parcel_station.Gateway.Outside.{Outside}
use smart_parcel_station.Gateway.Access.{credential_type_value}

found_or : Option Json → Json → Json
found_or none default = default
found_or (some v) default = v

abbrev pub is_found : Option Json → Bool
is_found none = false
is_found (some v) = true

required : Option Json → Result Json
required none = err (crash "KeyError")
required (some v) = ok v

-- `payload.get(key, default)`
unfoldable pub get_or : String → Json → Fields → Json
unfolding found_or
get_or key default payload = found_or (get key payload) default

-- a value that was read by `payload.get(key)`
abbrev pub value_of : Option Json → Json
value_of none = null
value_of (some v) = v

-- `key in payload`
abbrev pub has_key : String → Fields → Bool
has_key key payload = is_found (get key payload)

-- `payload[key]`
unfoldable pub must : String → Fields → Result Json
unfolding required
must key payload = required (get key payload)

-- a value for a text column; a missing key reads as `None`
unfoldable pub column_text : Option Json → Result (Option String)
column_text none = ok none
column_text (some null) = ok none
column_text (some (flag true)) = ok (some "1")
column_text (some (flag false)) = ok (some "0")
column_text (some (number (pos n))) = ok (some (str_of n))
column_text (some (number (negsuc n))) = ok (some ("-" & str_of (n + 1)))
column_text (some (text s)) = ok (some s)
column_text (some (array items)) = err (crash "InterfaceError")
column_text (some (object fields)) = err (crash "InterfaceError")

-- for a column that may not be empty
unfoldable pub not_null : Option String → Result String
not_null none = err (crash "IntegrityError")
not_null (some s) = ok s

-- the member with a name or a value, which are the same texts
unfoldable pub member {ℓ} : {A : Type ℓ} → (A → String) → List A → String → Option A
member value [] s = none
member value (a ∷ others) s =
    let rest = member value others s in if str_eq (value a) s then some a else rest

unfoldable pub text_of : Json → Option String
text_of (text s) = some s
text_of _ = none

unfoldable pub found_member {ℓ} : {A : Type ℓ} → (A → String) → List A → Option String → Option A
found_member value members none = none
found_member value members (some s) = member value members s

abbrev pub credential_status_value : CredentialStatus → String
credential_status_value CredentialStatus.active = "ACTIVE"
credential_status_value CredentialStatus.lost = "LOST"
credential_status_value CredentialStatus.replaced = "REPLACED"
credential_status_value CredentialStatus.disabled = "DISABLED"
credential_status_value CredentialStatus.expired = "EXPIRED"

abbrev pub credential_statuses : List CredentialStatus
credential_statuses =
    CredentialStatus.active ∷ CredentialStatus.lost ∷ CredentialStatus.replaced
    ∷ CredentialStatus.disabled ∷ CredentialStatus.expired ∷ []

abbrev pub credential_types : List CredentialType
credential_types =
    CredentialType.card_uid ∷ CredentialType.phone_hce ∷ CredentialType.gate_nfc_tag
    ∷ CredentialType.gate_qr ∷ CredentialType.token ∷ []

abbrev pub parcel_status_value : ParcelStatus → String
parcel_status_value ParcelStatus.created = "CREATED"
parcel_status_value ParcelStatus.pre_registered = "PRE_REGISTERED"
parcel_status_value ParcelStatus.arrived_at_station = "ARRIVED_AT_STATION"
parcel_status_value ParcelStatus.stored = "STORED"
parcel_status_value ParcelStatus.waiting_pickup = "WAITING_PICKUP"
parcel_status_value ParcelStatus.finding = "FINDING"
parcel_status_value ParcelStatus.pickup_verifying = "PICKUP_VERIFYING"
parcel_status_value ParcelStatus.picked_up = "PICKED_UP"
parcel_status_value ParcelStatus.exception = "EXCEPTION"
parcel_status_value ParcelStatus.cancelled = "CANCELLED"

abbrev pub parcel_statuses : List ParcelStatus
parcel_statuses =
    ParcelStatus.created ∷ ParcelStatus.pre_registered ∷ ParcelStatus.arrived_at_station
    ∷ ParcelStatus.stored ∷ ParcelStatus.waiting_pickup ∷ ParcelStatus.finding
    ∷ ParcelStatus.pickup_verifying ∷ ParcelStatus.picked_up ∷ ParcelStatus.exception
    ∷ ParcelStatus.cancelled ∷ []

abbrev pub binding_status_value : BindingStatus → String
binding_status_value BindingStatus.active = "ACTIVE"
binding_status_value BindingStatus.released = "RELEASED"
binding_status_value BindingStatus.cancelled = "CANCELLED"

abbrev pub binding_statuses : List BindingStatus
binding_statuses = BindingStatus.active ∷ BindingStatus.released ∷ BindingStatus.cancelled ∷ []

characters : String → Items
characters String.[] = nil
characters (String.◌∷◌ c rest) = cons (text (String.◌∷◌ c "")) (characters rest)

keys : Fields → Items
keys end = nil
keys (entry key v rest) = cons (text key) (keys rest)

-- the values that a `for` statement takes: the characters of a text, the keys of a dict
unfoldable pub iterated : Json → Result Items
unfolding characters keys
iterated (array items) = ok items
iterated (text s) = ok (characters s)
iterated (object fields) = ok (keys fields)
iterated _ = err (crash "TypeError")

some_or : {A : Type 0} → String → Option A → Result A
some_or name none = err (crash name)
some_or name (some a) = ok a

-- `CredentialStatus(value)`, `CredentialType(value)`
unfoldable pub credential_status : Json → Result CredentialStatus
unfolding some_or
credential_status v =
    some_or "ValueError" (found_member credential_status_value credential_statuses (text_of v))

unfoldable pub credential_type : Json → Result CredentialType
unfolding some_or
credential_type v =
    some_or "ValueError" (found_member credential_type_value credential_types (text_of v))

-- a value for a column of an enumeration: a new row takes the default for `None`
unfoldable pub parcel_status : Bool → Json → Result ParcelStatus
unfolding some_or
parcel_status true null = ok ParcelStatus.created
parcel_status false null = err (crash "IntegrityError")
parcel_status is_new v =
    some_or "LookupError" (found_member parcel_status_value parcel_statuses (text_of v))

unfoldable pub binding_status : Bool → Json → Result BindingStatus
unfolding some_or
binding_status true null = ok BindingStatus.active
binding_status false null = err (crash "IntegrityError")
binding_status is_new v =
    some_or "LookupError" (found_member binding_status_value binding_statuses (text_of v))

read_time : Option ℕ → Result (Option ℕ)
read_time none = err (crash "ValueError")
read_time (some t) = ok (some t)

-- `_parse_datetime`; `fromisoformat` takes the text with `Z` for the time zone
unfoldable pub parse_datetime : Runtime → Outside → Option Json → Result (Option ℕ)
unfolding read_time
parse_datetime rt out none = ok none
parse_datetime rt out (some v) =
    if truthy (some v) then read_time (out.fromisoformat (str_of_json rt v)) else ok none
