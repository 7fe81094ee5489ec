-- ===== src/Mqtt/Config.antt =====
-- The configuration of the MQTT service: `modify`, `attachInterface` and `detachInterface`
-- (MqttService/MqttService.cpp). `ILaunchService` belongs to the shape framework.
pub mod Laws
use Prim.Native.String.{String}
use shapeware.Base.{◌≡◌, Bool, List, [], ◌∷◌, ◌++◌, Option, none, some, if◌then◌else◌, ◌==◌, arith}
use shapeware.Base.Int.{ℤ}
use shapeware.Text.{Text, is_empty, codes}
use shapeware.StdMap.Laws.{or_value}
use shapeware.Properties.{Properties}
use shapeware.Mqtt.State.{Handler, Settings, Service, Outcome, returns, throws, undefined_null}

abbrev pub cert_dir : Text → Text
cert_dir data_dir = data_dir ++ codes "/cert/"

in_cert_dir : Text → Text → Text
in_cert_dir data_dir path = if is_empty path then [] else cert_dir data_dir ++ path

read_members : Properties → Settings → Settings
read_members props c = record c {
  mqtt_broker_addr = or_value (string "BrokerAddr") c.mqtt_broker_addr;
  mqtt_persistence = or_value (int "Persistence") c.mqtt_persistence;
  mqtt_user = or_value (string "User") c.mqtt_user;
  mqtt_password = or_value (string "Password") c.mqtt_password;
  mqtt_enabled_ssl = or_value (bool "EnabledSSL") c.mqtt_enabled_ssl;
  trust_store = or_value (string "TrustStore") c.trust_store;
  key_store = or_value (string "KeyStore") c.key_store;
  private_key = or_value (string "PrivateKey") c.private_key;
  private_key_password = or_value (string "PrivateKeyPassword") c.private_key_password;
  enabled_cipher_suites = or_value (string "EnabledCipherSuites") c.enabled_cipher_suites;
  enable_server_cert_auth = or_value (bool "EnableServerCertAuth") c.enable_server_cert_auth;
  mqtt_keep_alive_interval = or_value (int "KeepAliveInterval") c.mqtt_keep_alive_interval;
  mqtt_connect_timeout = or_value (int "ConnectTimeout") c.mqtt_connect_timeout;
  mqtt_min_reconnect = or_value (int "MinReconnect") c.mqtt_min_reconnect;
  mqtt_max_reconnect = or_value (int "MaxReconnect") c.mqtt_max_reconnect;
  buffered = or_value (bool "Buffered") c.buffered;
  buffer_size = or_value (int "BufferSize") c.buffer_size;
}
  where
    string : String → Option Text
    string name = props.member_as_string (codes name)

    int : String → Option ℤ
    int name = props.member_as_int (codes name)

    bool : String → Option Bool
    bool name = props.member_as_bool (codes name)

add_cert_dir : Text → Settings → Settings
unfolding in_cert_dir
add_cert_dir data_dir c = record c {
  trust_store = in_cert_dir data_dir c.trust_store;
  key_store = in_cert_dir data_dir c.key_store;
  private_key = in_cert_dir data_dir c.private_key;
}

-- `data_dir` is what `m_iLaunchService->getDataDir()` returns.
unfoldable pub modify : Properties → Text → Service → Outcome
unfolding read_members add_cert_dir
modify props data_dir s =
    let read = read_members props s.settings in
    elim s.launch_service [
      | none ↦ throws (record s { settings = read }) [] undefined_null
      | some launch ↦ returns (record s { settings = add_cert_dir data_dir read }) []
    ]

-- `activate`, which only calls `modify`
unfoldable pub activate : Properties → Text → Service → Outcome
unfolding modify
activate props data_dir s = modify props data_dir s

unfoldable pub attach_interface : Handler → Service → Outcome
attach_interface launch s = returns (record s { launch_service = some launch }) []

unfoldable pub detach_interface : Handler → Service → Outcome
detach_interface launch s = elim s.launch_service [
  | none ↦ returns s []
  | some l ↦ returns (if l == launch then record s { launch_service = none } else s) []
]
