-- ===== src/Gateway/Entities.antt =====
-- The tables of smartparcel-gateway/gateway/models/entities.py, a record for the rows of each. Times
-- are in seconds since the epoch. The columns `created_at` and `updated_at` are left out where no
-- operation reads them.
use smart_parcel_station.Prelude.{ℕ, String, Bool, Option, List}
use smart_parcel_station.Gateway.Enums.{
  ParcelStatus, TagStatus, BindingStatus, CredentialType, CredentialStatus, PickupEventType,
  EventSource, EventSyncStatus, TaskType, TaskTargetType, TaskStatus, SyncDirection,
  SyncQueueStatus, PickupSessionStatus, GateAuthStatus, GatewayBindingStatus,
}

pub record LocalParcel : Type 0 where
  pub id : ℕ
  pub server_parcel_id : String
  pub parcel_code : String
  pub pickup_code : Option String
  pub receiver_user_id : Option String
  pub receiver_phone : Option String
  pub receiver_name_masked : Option String
  pub shelf_code : Option String
  pub origin : String
  pub sync_status : String
  pub station_id : String
  pub status : ParcelStatus
  pub server_updated_at : Option ℕ
  pub local_updated_at : ℕ

pub record LocalTag : Type 0 where
  pub id : ℕ
  pub server_tag_id : Option String
  pub tag_id : String
  pub tag_uid : Option String
  pub encrypted_token : String
  pub hw_model : Option String
  pub fw_version : Option String
  pub local_no : Option ℕ
  pub display_name : Option String
  pub ble_name : Option String
  pub ble_address : Option String
  pub station_id : String
  pub status : TagStatus
  pub battery_level : Option ℕ
  pub battery_mv : Option ℕ
  pub registered_at : Option ℕ
  pub last_seen_at : Option ℕ
  pub last_connected_at : Option ℕ
  pub last_error_type : Option String
  pub last_error_message : Option String
  pub last_error_at : Option ℕ

pub record LocalParcelTagBinding : Type 0 where
  pub id : ℕ
  pub server_binding_id : Option String
  pub pickup_binding_id : String
  pub server_parcel_id : String
  pub tag_id : String
  pub station_id : String
  pub status : BindingStatus
  pub released_at : Option ℕ
  pub release_reason : Option String
  pub last_wake_session_id : Option String
  pub last_wake_color : Option String
  pub last_wake_at : Option ℕ

pub record LocalNfcCredential : Type 0 where
  pub id : ℕ
  pub credential_type : CredentialType
  pub credential_value : String
  pub user_id : Option String
  pub station_id : String
  pub expires_at : Option ℕ
  pub status : CredentialStatus
  pub server_credential_id : Option String
  pub credential_hash : Option String
  pub replaced_by_value : Option String
  pub lost_reported_at : Option ℕ
  pub replaced_at : Option ℕ
  pub disabled_at : Option ℕ
  pub reason : Option String
  pub last_synced_at : Option ℕ

pub record LocalPickupEvent : Type 0 where
  pub id : ℕ
  pub event_id : String
  pub server_parcel_id : Option String
  pub user_id : Option String
  pub station_id : String
  pub event_type : PickupEventType
  pub source : EventSource
  pub payload_json : String
  pub sync_status : EventSyncStatus

pub record LocalPickupSession : Type 0 where
  pub id : ℕ
  pub session_id : String
  pub user_id : Option String
  pub station_id : String
  pub credential_type : Option String
  pub credential_value : Option String
  pub session_color : String
  pub pickup_count : ℕ
  pub shelf_summary : Option String
  pub display_text : String
  pub status : PickupSessionStatus
  pub expires_at : Option ℕ

pub record GateAuthSession : Type 0 where
  pub id : ℕ
  pub session_id : String
  pub auth_method : String
  pub reader_id : String
  pub gateway_code : String
  pub station_id : String
  pub nonce_hash : Option String
  pub challenge_payload : Option String
  pub status : GateAuthStatus
  pub user_id : Option String
  pub pickup_count : ℕ
  pub parcel_codes_json : String
  pub shelves_json : String
  pub session_color : Option String
  pub display_text : String
  pub reason : Option String
  pub expires_at : Option ℕ
  pub created_at : ℕ
  pub confirmed_at : Option ℕ
  pub consumed_at : Option ℕ
  pub server_request_id : Option String

pub record GatewayTask : Type 0 where
  pub id : ℕ
  pub task_id : String
  pub task_type : TaskType
  pub target_type : TaskTargetType
  pub target_id : Option String
  pub payload_json : String
  pub priority : ℕ
  pub status : TaskStatus
  pub retry_count : ℕ
  pub error_message : Option String
  pub started_at : Option ℕ
  pub finished_at : Option ℕ

pub record SyncQueue : Type 0 where
  pub id : ℕ
  pub event_id : String
  pub direction : SyncDirection
  pub payload_json : String
  pub status : SyncQueueStatus
  pub retry_count : ℕ

pub record GatewayConfig : Type 0 where
  pub id : ℕ
  pub gateway_code : Option String
  pub gateway_device_id : Option String
  pub gateway_serial : Option String
  pub station_id : Option String
  pub server_base_url : Option String
  pub mqtt_host : Option String
  pub mqtt_port : Option ℕ
  pub mqtt_tls_enabled : Bool
  pub binding_status : GatewayBindingStatus
  pub config_version : ℕ
  pub bound_at : Option ℕ
  pub last_heartbeat_at : Option ℕ
  pub last_heartbeat_status : Option String

pub record GatewayBindingSession : Type 0 where
  pub id : ℕ
  pub session_id : String
  pub pairing_code_hash : Option String
  pub one_time_binding_token_hash : Option String
  pub status : String
  pub source_ip : Option String
  pub expires_at : Option ℕ
  pub completed_at : Option ℕ

pub record GatewaySecurityAudit : Type 0 where
  pub id : ℕ
  pub event_type : String
  pub source_ip : Option String
  pub actor_type : Option String
  pub actor_id : Option String
  pub request_path : Option String
  pub reason : Option String
  pub detail_json : Option String

pub record LocalApiSession : Type 0 where
  pub id : ℕ
  pub session_token_hash : String
  pub role : String
  pub source_ip : Option String
  pub expires_at : ℕ
  pub revoked_at : Option ℕ

-- The whole local database, a list of rows for each table.
pub record LocalDb : Type 0 where
  pub local_parcels : List LocalParcel
  pub local_tags : List LocalTag
  pub local_parcel_tag_bindings : List LocalParcelTagBinding
  pub local_nfc_credentials : List LocalNfcCredential
  pub local_pickup_events : List LocalPickupEvent
  pub local_pickup_sessions : List LocalPickupSession
  pub gate_auth_sessions : List GateAuthSession
  pub gateway_tasks : List GatewayTask
  pub sync_queue : List SyncQueue
  pub gateway_config : List GatewayConfig
  pub gateway_binding_sessions : List GatewayBindingSession
  pub gateway_security_audit : List GatewaySecurityAudit
  pub local_api_sessions : List LocalApiSession
