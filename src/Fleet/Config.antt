-- ===== src/Fleet/Config.antt =====
-- The configuration of the fleet provisioning, and what it tells to other components
-- (AwsFleetProv/AwsFleetProv.cpp).
use shapeware.Base.{Bool, true, false, [], ◌++◌, none, if◌then◌else◌, ◌&&◌, ◌⊎◌, inl, inr}
use shapeware.Text.{Text, codes, is_empty}
use shapeware.StdMap.{StdMap}
use shapeware.StdMap.Laws.{or_value}
use shapeware.Properties.{Properties}
use shapeware.Mqtt.State.{ConnectionPars, Service, returns}
use shapeware.Mqtt.Connection.{disconnect}
use shapeware.Mqtt.Handlers.{unregister_message_str_handler, unregister_on_connect_handler}
use shapeware.Fleet.State.{
  ProvisioningData, idle, Failure, no_provisioning_key, Settings, Fleet, no_topics, no_promises,
  Action, call, ◌>>◌,
}
use shapeware.Fleet.Messages.{explore_provision_file}
use shapeware.Fleet.Requests.{Bindings}
use shapeware.Fleet.Worker.{file_exists}

abbrev no_pars : ConnectionPars
no_pars = record {
  broker_address = [];
  trust_store = [];
  certificate = [];
  private_key = [];
  user = [];
  password = [];
  enabled_ssl = true;
}

abbrev pub no_settings : Settings
no_settings = record {
  instance_name = [];
  broker_addr = [];
  template_name = [];
  bootstrap_certificate_pem_file_name = [];
  bootstrap_private_pem_file_name = [];
  official_cert_store_path = [];
  official_certificates_file_name = [];
  official_certificate_pem_file_name = [];
  official_private_pem_file_name = [];
  official_provision_file_name = [];
}

-- The component as its constructor leaves it, with the MQTT service and the files as they are.
abbrev pub new : Service → StdMap Text Text → Fleet
new service files = record {
  mqtt = service;
  settings = no_settings;
  provisioning_data = record {
    connection_pars = no_pars;
    provisioned_key = [];
    is_provisioned = false;
  };
  on_provisioned = none;
  on_error = none;
  mqtt_client_id = [];
  token = [];
  thing_name = [];
  certificate_id = [];
  topic_prefix = [];
  files = files;
  phase = idle;
  connected = false;
  topics = no_topics;
  keys_promises = no_promises;
  register_promises = no_promises;
  blocked = false;
  events = [];
  mqtt_events = [];
}

unfoldable pub modify : Properties → Settings → Settings
modify props s = record s {
  instance_name = or_value (props.member_as_string (codes "instance")) s.instance_name;
  broker_addr = or_value (props.member_as_string (codes "brokerAddr")) s.broker_addr;
  template_name = or_value (props.member_as_string (codes "templateName")) s.template_name;
}

unfoldable pub set_paths : Text → Settings → Settings
set_paths data_dir s =
    let bootstrap = data_dir ++ codes "/cert/bootstrap/" in
    let official = data_dir ++ codes "/cert/official/" in
    record s {
      bootstrap_certificate_pem_file_name = bootstrap ++ codes "certificate.pem.crt";
      bootstrap_private_pem_file_name = bootstrap ++ codes "private.pem.key";
      official_cert_store_path = official;
      official_certificates_file_name = official ++ codes "certificates.json";
      official_certificate_pem_file_name = official ++ codes "certificate.pem.crt";
      official_private_pem_file_name = official ++ codes "private.pem.key";
      official_provision_file_name = official ++ codes "provision.json";
    }

abbrev pub all_exist : Settings → Fleet → Bool
all_exist s f =
    file_exists s.official_certificates_file_name f
    && (file_exists s.official_certificate_pem_file_name f
        && (file_exists s.official_private_pem_file_name f
            && file_exists s.official_provision_file_name f))

-- The address and the two paths of the parameters of the connection, and `m_isProvisioned`.
abbrev pub set_connection : Bool → Text → Text → Text → Fleet → Fleet
set_connection done address certificate key f =
    let d = f.provisioning_data in
    record f {
      provisioning_data = record d {
        is_provisioned = done;
        connection_pars = record d.connection_pars {
          broker_address = address;
          certificate = certificate;
          private_key = key;
        };
      };
    }

unfoldable pub activate : Bindings → Properties → Text → Action
unfolding modify set_paths explore_provision_file
activate b props data_dir f =
    let s = set_paths data_dir (modify props f.settings) in
    let f' = record f { settings = s } in
    elim (all_exist s f') [
      | true ↦ explore_provision_file b.json b.identity (
          set_connection true s.broker_addr s.official_certificate_pem_file_name
            s.official_private_pem_file_name f')
      | false ↦ (none, set_connection false [] [] [] f')
    ]

-- `deactivate`, up to the join of the worker.
unfoldable pub deactivate : Action
unfolding call ◌>>◌
deactivate f =
    let deactivates : Action = (do
      call (λ s. returns (unregister_message_str_handler s) [])
      call (λ s. returns (unregister_on_connect_handler s) [])
      call disconnect) in
    deactivates f

unfoldable pub get_provisioning_data : Fleet → ProvisioningData
get_provisioning_data f = f.provisioning_data

unfoldable pub get_topic_prefix : Fleet → Failure ⊎ Text
get_topic_prefix f =
    if is_empty f.provisioning_data.provisioned_key
    then inl no_provisioning_key
    else inr f.topic_prefix
