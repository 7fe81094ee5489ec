-- ===== src/Fleet/State.antt =====
-- The state of `AwsFleetProv::Imp` (AwsFleetProv/AwsFleetProv.cpp), with the MQTT service that it
-- uses and the files that it reads and writes. The local variables of `worker` and of
-- `makeProvisioning` are here too, since the functions given to the MQTT service set them.
use shapeware.Base.{ℕ, Bool, true, false, List, [], ◌++◌, Option, none, some}
use shapeware.Text.{Text}
use shapeware.StdMap.{StdMap}
use shapeware.Mqtt.State.{ConnectionPars, Service, Outcome, Error, Event as MqttEvent}

abbrev pub Handler : Type 0
Handler = ℕ

-- `IIdentityProvider::IdentityParams`
pub record IdentityParams : Type 0 where
  pub topic_root : Text
  pub dev_stage : Text
  pub vendor : Text
  pub product : Text
  pub serial_number : Text
  pub gw_type : Text

pub record ProvisioningData : Type 0 where
  pub connection_pars : ConnectionPars
  pub provisioned_key : Text
  pub is_provisioned : Bool

-- The two exchanges with the cloud: that of CreateKeysAndCertificate and that of RegisterThing.
pub data Part : Type 0 where
  keys register : Part

-- The promises of one exchange, each with its value once it is set.
pub record Promises : Type 0 where
  pub accepted_subscribed : Option Bool
  pub rejected_subscribed : Option Bool
  pub sent : Option Bool
  pub responded : Option Bool

-- The promise whose future the worker waits for.
pub data Wait : Type 0 where
  for_accepted for_rejected for_sent for_response : Wait

-- Where the worker stands.
pub data Phase : Type 0 where
  idle : Phase  -- not started yet, or it has returned
  connecting : Phase  -- in `m_workCond.wait_for`
  waiting : Part → Wait → Phase  -- in `makeProvisioning`

pub data Failure : Type 0 where
  cert_missing key_missing : Failure
  cannot_connect : Failure
  cannot_subscribe cannot_create_keys cannot_register : Failure
  mqtt_failure : Error → Failure
  json_parse_error missing_or_bad_type : Failure
  cannot_open : Text → Failure
  -- `throw e` of a `std::exception &`: the class and the text of what was caught are lost
  sliced : Failure
  no_provisioning_key : Failure

pub data FleetEvent : Type 0 where
  makes_folder : Text → FleetEvent
  calls_provisioned : Handler → ProvisioningData → FleetEvent
  calls_error : Handler → Failure → FleetEvent
  uncaught : Failure → FleetEvent  -- an exception leaves a function that the MQTT service called
  set_twice : FleetEvent  -- so does that of a promise set twice
  dangling : FleetEvent  -- a function is called whose captured variables are gone

pub record Settings : Type 0 where
  pub instance_name : Text
  pub broker_addr : Text
  pub template_name : Text
  pub bootstrap_certificate_pem_file_name : Text
  pub bootstrap_private_pem_file_name : Text
  pub official_cert_store_path : Text
  pub official_certificates_file_name : Text
  pub official_certificate_pem_file_name : Text
  pub official_private_pem_file_name : Text
  pub official_provision_file_name : Text

-- `topic1` to `topic4`
pub record Topics : Type 0 where
  pub topic1 : Text
  pub topic2 : Text
  pub topic3 : Text
  pub topic4 : Text

pub record Fleet : Type 0 where
  pub mqtt : Service
  pub settings : Settings
  pub provisioning_data : ProvisioningData
  pub on_provisioned : Option Handler
  pub on_error : Option Handler
  pub mqtt_client_id : Text
  pub token : Text
  pub thing_name : Text
  pub certificate_id : Text
  pub topic_prefix : Text
  pub files : StdMap Text Text
  pub phase : Phase
  pub connected : Bool
  pub topics : Topics
  pub keys_promises : Promises
  pub register_promises : Promises
  pub blocked : Bool  -- a function called by the MQTT service waits for `m_workMtx`
  pub events : List FleetEvent
  pub mqtt_events : List MqttEvent

abbrev pub no_topics : Topics
no_topics = record { topic1 = []; topic2 = []; topic3 = []; topic4 = [] }

abbrev pub no_promises : Promises
no_promises = record {
  accepted_subscribed = none;
  rejected_subscribed = none;
  sent = none;
  responded = none;
}

-- What the component needs of rapidjson: the members of a document by pointer, each where it is
-- there with the type asked for; the reading of a text, where it is well-formed; the writing of a
-- document with text members. The document that is not read from a text has no members.
pub record Document : Type 0 where
  pub string_at : Text → Option Text
  pub number_at : Text → Bool

pub record Json : Type 0 where
  pub parse : Text → Option Document
  pub write : List (Text × Text) → Text

abbrev pub null_document : Document
null_document = record { string_at = λ p. none; number_at = λ p. false }

-- Steps that throw: the state after them, and what they threw.
abbrev pub Action : Type 0
Action = Fleet → Option Failure × Fleet

infixl 5 ◌>>◌
unfoldable pub ◌>>◌ : Action → Action → Action
◌>>◌ m k f = let (r, f') = m f in elim r [ none ↦ k f' | some e ↦ (some e, f') ]

unfoldable pub throw : Failure → Action
throw e f = (some e, f)

unfoldable pub modify : (Fleet → Fleet) → Action
modify g f = (none, g f)

-- The state where an action starts.
unfoldable pub with_state : (Fleet → Action) → Action
with_state k f = k f f

unfoldable pub unless : Bool → Failure → Action
unless true e f = (none, f)
unless false e f = (some e, f)

abbrev pub mqtt_thrown : Option Error → Option Failure
mqtt_thrown none = none
mqtt_thrown (some e) = some (mqtt_failure e)

-- A call of the MQTT service.
unfoldable pub call : (Service → Outcome) → Action
call op f =
    let o = op f.mqtt in
    (mqtt_thrown o.thrown, record f { mqtt = o.service; mqtt_events = f.mqtt_events ++ o.events })

-- `catch`: the handler gets what was thrown.
unfoldable pub catch : Action → (Failure → Action) → Action
catch m h f = let (r, f') = m f in elim r [ none ↦ (none, f') | some e ↦ h e f' ]
