-- ===== src/Gateway/Enums.antt =====
-- The enumerations of smartparcel-gateway/gateway/models/entities.py.

pub data ParcelStatus : Type 0 where
  created pre_registered arrived_at_station stored waiting_pickup finding pickup_verifying picked_up
        exception cancelled :
      ParcelStatus

pub data TagStatus : Type 0 where
  idle online offline running low_battery error tamper disabled : TagStatus

pub data BindingStatus : Type 0 where
  active released cancelled : BindingStatus

pub data CredentialType : Type 0 where
  card_uid phone_hce gate_nfc_tag gate_qr token : CredentialType

pub data CredentialStatus : Type 0 where
  active lost replaced disabled expired : CredentialStatus

pub data PickupEventType : Type 0 where
  nfc_access tag_wake pickup_confirmed offline_pickup : PickupEventType

pub data EventSource : Type 0 where
  gateway server : EventSource

pub data EventSyncStatus : Type 0 where
  local_only pending_upload uploaded failed : EventSyncStatus

pub data TaskType : Type 0 where
  sync_pull sync_push tag_wake tag_stop tag_status_query nfc_access_check server_command : TaskType

pub data TaskTargetType : Type 0 where
  server tag nfc local : TaskTargetType

pub data TaskStatus : Type 0 where
  pending running done failed cancelled : TaskStatus

pub data SyncDirection : Type 0 where
  upload download : SyncDirection

pub data SyncQueueStatus : Type 0 where
  pending sent acked failed : SyncQueueStatus

pub data PickupSessionStatus : Type 0 where
  active completed expired cancelled : PickupSessionStatus

pub data GateAuthStatus : Type 0 where
  pending granted denied expired consumed : GateAuthStatus

pub data GatewayBindingStatus : Type 0 where
  unbound binding bound online error : GatewayBindingStatus
