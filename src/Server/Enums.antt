-- ===== src/Server/Enums.antt =====
-- The enumerations of smartparcel-server/app/models/enums.py.
pub mod Values

pub data UserRole : Type 0 where
  user staff local_admin gateway_admin server_admin : UserRole

pub data ParcelStatus : Type 0 where
  created pre_registered arrived_at_station stored waiting_pickup finding pickup_verifying picked_up
        exception cancelled :
      ParcelStatus

pub data ParcelOrigin : Type 0 where
  express_company server_manual gateway_inbound gateway_correction : ParcelOrigin

pub data ParcelSyncStatus : Type 0 where
  server_only local_only sync_pending synced merged conflict : ParcelSyncStatus

pub data TagStatus : Type 0 where
  idle online offline running low_battery error tamper disabled : TagStatus

pub data ParcelTagBindingStatus : Type 0 where
  active released cancelled : ParcelTagBindingStatus

pub data PickupEventType : Type 0 where
  notified nfc_access tag_wake pickup_confirmed pickup_synced offline_pickup : PickupEventType

pub data EventSource : Type 0 where
  server gateway miniprogram : EventSource

pub data SyncDirection : Type 0 where
  gateway_to_server server_to_gateway : SyncDirection

pub data SyncStatus : Type 0 where
  pending sent acked failed : SyncStatus

pub data AccessCredentialType : Type 0 where
  card_uid phone_hce gate_nfc_tag gate_qr : AccessCredentialType

pub data AccessCredentialStatus : Type 0 where
  active lost replaced disabled expired : AccessCredentialStatus

pub data GateAuthMethod : Type 0 where
  card_uid gate_nfc_tag gate_qr : GateAuthMethod

pub data GatewaySyncEventType : Type 0 where
  user_access_credential_upsert user_access_credential_disabled user_access_credential_replaced
        parcel_upsert parcel_tag_binding_upsert parcel_pickup_confirmed gate_user_auth_requested
        gate_auth_result_recorded :
      GatewaySyncEventType

pub data GatewayRegistrationTokenStatus : Type 0 where
  pending used expired revoked : GatewayRegistrationTokenStatus

pub data NotificationType : Type 0 where
  in_app wechat_subscribe : NotificationType

pub data NotificationStatus : Type 0 where
  pending sent read failed : NotificationStatus

pub data GatewayFactoryDeviceStatus : Type 0 where
  unknown_seen pending_bind bound online disabled revoked : GatewayFactoryDeviceStatus
