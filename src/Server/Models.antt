-- ===== src/Server/Models.antt =====
-- The tables of smartparcel-server/app/models/models.py, a record for the rows of each. Times are in
-- seconds since the epoch. The columns `created_at` and `updated_at`, which the database fills in and
-- which no operation of the server reads, are left out.
use smart_parcel_station.Prelude.{ℕ, String, Bool, Option, List}
use smart_parcel_station.Prelude.Int.{ℤ}
use smart_parcel_station.Json.{Fields}
use smart_parcel_station.Server.Enums.{
  AccessCredentialStatus, AccessCredentialType, EventSource, GatewayFactoryDeviceStatus,
  GatewayRegistrationTokenStatus, NotificationStatus, NotificationType, ParcelOrigin, ParcelStatus,
  ParcelSyncStatus, ParcelTagBindingStatus, PickupEventType, SyncDirection, SyncStatus, TagStatus,
  UserRole,
}

pub record User : Type 0 where
  pub id : ℕ
  pub username : Option String
  pub password_hash : Option String
  pub openid : Option String
  pub phone : Option String
  pub display_name : String
  pub role : UserRole
  pub station_id : Option ℕ
  pub pickup_level : String
  pub trusted_pickup_enabled : Bool
  pub is_active : Bool

pub record UserAccessCredential : Type 0 where
  pub id : ℕ
  pub user_id : ℕ
  pub station_id : ℕ
  pub credential_type : AccessCredentialType
  pub credential_value : String
  pub credential_hash : Option String
  pub status : AccessCredentialStatus
  pub replaced_by_id : Option ℕ
  pub lost_reported_at : Option ℕ
  pub replaced_at : Option ℕ
  pub disabled_at : Option ℕ
  pub reason : Option String
  pub created_by_user_id : Option ℕ
  pub created_by_admin_id : Option ℕ

pub record Station : Type 0 where
  pub id : ℕ
  pub station_code : String
  pub name : String
  pub address : String
  pub status : String

pub record Gateway : Type 0 where
  pub id : ℕ
  pub gateway_code : String
  pub station_id : ℕ
  pub device_secret_hash : String
  pub status : String
  pub last_seen_at : Option ℕ
  pub gateway_factory_code : Option String
  pub gateway_device_id : Option String
  pub gateway_serial : Option String
  pub bound_at : Option ℕ

pub record GatewayNonce : Type 0 where
  pub id : ℕ
  pub gateway_id : ℕ
  pub nonce : String
  pub timestamp : ℤ

pub record GatewayRegistrationToken : Type 0 where
  pub id : ℕ
  pub token_id : String
  pub gateway_code : String
  pub station_id : ℕ
  pub token_hash : String
  pub expires_at : ℕ
  pub used_at : Option ℕ
  pub status : GatewayRegistrationTokenStatus
  pub created_by_admin_id : Option ℕ
  pub created_by_user_id : Option ℕ
  pub gateway_factory_code : Option String
  pub gateway_device_id : Option String
  pub gateway_serial : Option String

pub record Parcel : Type 0 where
  pub id : ℕ
  pub parcel_code : String
  pub pickup_code : Option String
  pub receiver_user_id : Option ℕ
  pub receiver_phone : Option String
  pub receiver_name_masked : Option String
  pub shelf_code : Option String
  pub station_id : ℕ
  pub status : ParcelStatus
  pub origin : ParcelOrigin
  pub sync_status : ParcelSyncStatus
  pub created_by_admin_id : Option ℕ

pub record Tag : Type 0 where
  pub id : ℕ
  pub tag_id : String
  pub encrypted_token : String
  pub station_id : ℕ
  pub status : TagStatus
  pub battery_level : Option ℕ
  pub last_seen_at : Option ℕ

pub record ParcelTagBinding : Type 0 where
  pub id : ℕ
  pub pickup_binding_id : String
  pub parcel_id : ℕ
  pub tag_id : ℕ
  pub station_id : ℕ
  pub status : ParcelTagBindingStatus

pub record PickupEvent : Type 0 where
  pub id : ℕ
  pub event_id : String
  pub parcel_id : ℕ
  pub user_id : Option ℕ
  pub station_id : ℕ
  pub gateway_id : Option ℕ
  pub event_type : PickupEventType
  pub source : EventSource
  pub payload_json : Fields

pub record GatewaySyncEvent : Type 0 where
  pub id : ℕ
  pub event_id : String
  pub gateway_id : ℕ
  pub station_id : ℕ
  pub event_type : String
  pub direction : SyncDirection
  pub payload_json : Fields
  pub status : SyncStatus
  pub retry_count : ℕ

pub record Notification : Type 0 where
  pub id : ℕ
  pub user_id : ℕ
  pub parcel_id : Option ℕ
  pub title : String
  pub content : String
  pub type : NotificationType
  pub status : NotificationStatus

pub record SecurityAuditEvent : Type 0 where
  pub id : ℕ
  pub event_type : String
  pub source_ip : Option String
  pub gateway_code : Option String
  pub request_path : Option String
  pub reason : Option String
  pub detail_json : Fields

pub record GatewayFactoryDevice : Type 0 where
  pub id : ℕ
  pub gateway_factory_code : String
  pub gateway_device_id : Option String
  pub gateway_serial : Option String
  pub gateway_code : Option String
  pub station_id : Option ℕ
  pub bound_gateway_id : Option ℕ
  pub status : GatewayFactoryDeviceStatus
  pub first_seen_at : Option ℕ
  pub last_seen_at : Option ℕ
  pub bind_requested_by_user_id : Option ℕ
  pub bind_requested_at : Option ℕ
  pub bound_at : Option ℕ
  pub disabled_reason : Option String

-- The whole database, a list of rows for each table.
pub record Db : Type 0 where
  pub users : List User
  pub user_access_credentials : List UserAccessCredential
  pub stations : List Station
  pub gateways : List Gateway
  pub gateway_nonces : List GatewayNonce
  pub gateway_registration_tokens : List GatewayRegistrationToken
  pub parcels : List Parcel
  pub tags : List Tag
  pub parcel_tag_bindings : List ParcelTagBinding
  pub pickup_events : List PickupEvent
  pub gateway_sync_events : List GatewaySyncEvent
  pub notifications : List Notification
  pub security_audit_events : List SecurityAuditEvent
  pub gateway_factory_devices : List GatewayFactoryDevice
