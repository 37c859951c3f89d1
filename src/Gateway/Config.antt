-- ===== src/Gateway/Config.antt =====
-- `Settings` of smartparcel-gateway/gateway/core/config.py.
use smart_parcel_station.Prelude.{ℕ, String, Bool, true, false, not, ◌&&◌, str_eq, is_empty}
use smart_parcel_station.Text.{upper}

pub record Settings : Type 0 where
  pub gateway_code : String
  pub gateway_secret : String
  pub gateway_device_id : String
  pub gateway_serial : String
  pub station_id : String
  pub binding_status : String
  pub config_version : ℕ
  pub server_base_url : String
  pub public_server_base_url : String
  pub mqtt_host : String
  pub mqtt_port : ℕ
  pub mqtt_username : String
  pub mqtt_password : String
  pub mqtt_tls_enabled : Bool
  pub sqlite_path : String
  pub local_api_host : String
  pub local_api_port : ℕ
  pub local_api_token : String
  pub local_api_token_ttl_seconds : ℕ
  pub gate_reader_auth_enabled : Bool
  pub gate_reader_id : String
  pub gate_reader_token : String
  pub gate_qr_ttl_seconds : ℕ
  pub gate_auth_result_ttl_seconds : ℕ
  pub gate_nfc_tag_id : String
  pub provisioning_enabled : Bool
  pub provisioning_host : String
  pub provisioning_port : ℕ
  pub provisioning_pairing_code : String
  pub provisioning_token_ttl_seconds : ℕ
  pub wifi_ap_enabled : Bool
  pub wifi_ap_ssid_prefix : String
  pub wifi_ap_password : String
  pub wifi_ap_interface : String
  pub wifi_ap_address : String
  pub wifi_ap_dhcp_range_start : String
  pub wifi_ap_dhcp_range_end : String
  pub ble_backend : String
  pub log_level : String
  pub sync_pull_interval_seconds : ℕ
  pub sync_push_interval_seconds : ℕ
  pub heartbeat_interval_seconds : ℕ
  pub allow_dev_http : Bool
  pub allow_unsafe_dev_autoregister : Bool

-- the defaults, in force where the environment sets nothing
abbrev pub default_settings : Settings
default_settings = record {
  gateway_code = "";
  gateway_secret = "";
  gateway_device_id = "";
  gateway_serial = "";
  station_id = "";
  binding_status = "UNBOUND";
  config_version = 1;
  server_base_url = "";
  public_server_base_url = "";
  mqtt_host = "";
  mqtt_port = 1883;
  mqtt_username = "";
  mqtt_password = "";
  mqtt_tls_enabled = false;
  sqlite_path = "./data/gateway.db";
  local_api_host = "0.0.0.0";
  local_api_port = 19000;
  local_api_token = "";
  local_api_token_ttl_seconds = 3600;
  gate_reader_auth_enabled = true;
  gate_reader_id = "GATE01";
  gate_reader_token = "change-this-reader-token";
  gate_qr_ttl_seconds = 60;
  gate_auth_result_ttl_seconds = 15;
  gate_nfc_tag_id = "GATE-NFC-001";
  provisioning_enabled = true;
  provisioning_host = "0.0.0.0";
  provisioning_port = 19000;
  provisioning_pairing_code = "";
  provisioning_token_ttl_seconds = 600;
  wifi_ap_enabled = true;
  wifi_ap_ssid_prefix = "SmartParcel-GW";
  wifi_ap_password = "";
  wifi_ap_interface = "wlan0";
  wifi_ap_address = "192.168.4.1";
  wifi_ap_dhcp_range_start = "192.168.4.50";
  wifi_ap_dhcp_range_end = "192.168.4.150";
  ble_backend = "real";
  log_level = "INFO";
  sync_pull_interval_seconds = 30;
  sync_push_interval_seconds = 15;
  heartbeat_interval_seconds = 20;
  allow_dev_http = false;
  allow_unsafe_dev_autoregister = false;
}

-- the properties `is_bound` and `is_unbound`
unfoldable pub is_bound : Settings → Bool
is_bound s = str_eq (upper s.binding_status) "BOUND" && not (is_empty s.gateway_secret)

unfoldable pub is_unbound : Settings → Bool
unfolding is_bound
is_unbound s = not (is_bound s)
