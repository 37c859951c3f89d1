-- ===== src/Server/Enums/Values.antt =====
-- The texts of the enumerations' members, `member.value`.
use smart_parcel_station.Prelude.{String}
use smart_parcel_station.Server.Enums.{
  UserRole, ParcelStatus, ParcelTagBindingStatus, AccessCredentialType, AccessCredentialStatus,
  GateAuthMethod, GatewaySyncEventType, GatewayFactoryDeviceStatus,
}

unfoldable pub user_role_value : UserRole → String
user_role_value UserRole.user = "USER"
user_role_value UserRole.staff = "STAFF"
user_role_value UserRole.local_admin = "LOCAL_ADMIN"
user_role_value UserRole.gateway_admin = "GATEWAY_ADMIN"
user_role_value UserRole.server_admin = "SERVER_ADMIN"

unfoldable pub parcel_status_value : ParcelStatus → String
parcel_status_value ParcelStatus.created = "CREATED"
parcel_status_value ParcelStatus.pre_registered = "PRE_REGISTERED"
parcel_status_value ParcelStatus.arrived_at_station = "ARRIVED_AT_STATION"
parcel_status_value ParcelStatus.stored = "STORED"
parcel_status_value ParcelStatus.waiting_pickup = "WAITING_PICKUP"
parcel_status_value ParcelStatus.finding = "FINDING"
parcel_status_value ParcelStatus.pickup_verifying = "PICKUP_VERIFYING"
parcel_status_value ParcelStatus.picked_up = "PICKED_UP"
parcel_status_value ParcelStatus.exception = "EXCEPTION"
parcel_status_value ParcelStatus.cancelled = "CANCELLED"

unfoldable pub parcel_tag_binding_status_value : ParcelTagBindingStatus → String
parcel_tag_binding_status_value ParcelTagBindingStatus.active = "ACTIVE"
parcel_tag_binding_status_value ParcelTagBindingStatus.released = "RELEASED"
parcel_tag_binding_status_value ParcelTagBindingStatus.cancelled = "CANCELLED"

unfoldable pub access_credential_type_value : AccessCredentialType → String
access_credential_type_value AccessCredentialType.card_uid = "CARD_UID"
access_credential_type_value AccessCredentialType.phone_hce = "PHONE_HCE"
access_credential_type_value AccessCredentialType.gate_nfc_tag = "GATE_NFC_TAG"
access_credential_type_value AccessCredentialType.gate_qr = "GATE_QR"

unfoldable pub access_credential_status_value : AccessCredentialStatus → String
access_credential_status_value AccessCredentialStatus.active = "ACTIVE"
access_credential_status_value AccessCredentialStatus.lost = "LOST"
access_credential_status_value AccessCredentialStatus.replaced = "REPLACED"
access_credential_status_value AccessCredentialStatus.disabled = "DISABLED"
access_credential_status_value AccessCredentialStatus.expired = "EXPIRED"

unfoldable pub gate_auth_method_value : GateAuthMethod → String
gate_auth_method_value GateAuthMethod.card_uid = "CARD_UID"
gate_auth_method_value GateAuthMethod.gate_nfc_tag = "GATE_NFC_TAG"
gate_auth_method_value GateAuthMethod.gate_qr = "GATE_QR"

unfoldable pub gateway_sync_event_type_value : GatewaySyncEventType → String
gateway_sync_event_type_value GatewaySyncEventType.user_access_credential_upsert =
    "USER_ACCESS_CREDENTIAL_UPSERT"
gateway_sync_event_type_value GatewaySyncEventType.user_access_credential_disabled =
    "USER_ACCESS_CREDENTIAL_DISABLED"
gateway_sync_event_type_value GatewaySyncEventType.user_access_credential_replaced =
    "USER_ACCESS_CREDENTIAL_REPLACED"
gateway_sync_event_type_value GatewaySyncEventType.parcel_upsert = "PARCEL_UPSERT"
gateway_sync_event_type_value GatewaySyncEventType.parcel_tag_binding_upsert =
    "PARCEL_TAG_BINDING_UPSERT"
gateway_sync_event_type_value GatewaySyncEventType.parcel_pickup_confirmed =
    "PARCEL_PICKUP_CONFIRMED"
gateway_sync_event_type_value GatewaySyncEventType.gate_user_auth_requested =
    "GATE_USER_AUTH_REQUESTED"
gateway_sync_event_type_value GatewaySyncEventType.gate_auth_result_recorded =
    "GATE_AUTH_RESULT_RECORDED"

unfoldable pub gateway_factory_device_status_value : GatewayFactoryDeviceStatus → String
gateway_factory_device_status_value GatewayFactoryDeviceStatus.unknown_seen = "UNKNOWN_SEEN"
gateway_factory_device_status_value GatewayFactoryDeviceStatus.pending_bind = "PENDING_BIND"
gateway_factory_device_status_value GatewayFactoryDeviceStatus.bound = "BOUND"
gateway_factory_device_status_value GatewayFactoryDeviceStatus.online = "ONLINE"
gateway_factory_device_status_value GatewayFactoryDeviceStatus.disabled = "DISABLED"
gateway_factory_device_status_value GatewayFactoryDeviceStatus.revoked = "REVOKED"
