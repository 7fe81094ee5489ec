-- ===== src/Fleet/Tests.antt =====
-- Runs of the fleet provisioning (AwsFleetProv/AwsFleetProv.cpp).
use shapeware.Base.{
  ℕ, ◌≡◌, refl, true, false, List, [], ◌∷◌, ◌++◌, Option, none, some, All, ◌+◌, is_some,
  if◌then◌else◌, inr, inl,
}
use shapeware.Base.Int.{pos}
use shapeware.Text.{Text, codes, is_empty, text_order, text_eq}
use shapeware.StdMap.{StdMap, find, assign}
use shapeware.StdMap.Keys.{int_order}
use shapeware.Properties.{Properties}
use shapeware.Mqtt.State.{Service, success, started}
use shapeware.Mqtt.State as MqttState
use shapeware.Mqtt.Connection.{created}
use shapeware.Mqtt.Run.{Callback, reconnect, subscribe_ok, send_ok, message}
use shapeware.Fleet.State.{
  Fleet, Json, ProvisioningData, calls_provisioned, calls_error, idle, Settings, waiting,
  for_response, keys, mqtt_failure, json_parse_error, no_provisioning_key,
}
use shapeware.Fleet.Messages.{FileSystem}
use shapeware.Fleet.Requests.{Bindings, Answers}
use shapeware.Fleet.Worker.{launch_provisioning, worker_step, file_exists}
use shapeware.Fleet.Config.{new, activate, set_paths, get_topic_prefix, get_provisioning_data}
use shapeware.Fleet.Config
use shapeware.Fleet.Mkdir.{mkdir, folder_exists}
use shapeware.Fleet.Restart.{restart-announced}
use shapeware.Fleet.Run.Invariant.{Told}
use shapeware.Fleet.Run.Saved.{announced-saved}
use shapeware.Fleet.Run.Retry.{refused-blocks_retry}
use shapeware.Fleet.Run.{Reach, here}
use shapeware.Fleet.Run.Moves.{Move, work, hear, moves, moves-Reach}

-- The sum of the bytes, as a token of the library.
abbrev token_of : Text → ℕ
token_of [] = 0
token_of (c ∷ cs) = c + token_of cs

abbrev test_json : Json
test_json = record {
  parse = λ t.
      if is_empty t
      then none
      else some (record { string_at = λ p. some (codes "v"); number_at = λ p. true });
  write = λ members. codes "{..}";
}

abbrev test_bindings : Bindings
test_bindings = record {
  json = test_json;
  identity = record {
    topic_root = codes "root";
    dev_stage = codes "dev";
    vendor = codes "v";
    product = codes "p";
    serial_number = codes "1";
    gw_type = codes "g";
  };
  app_name = codes "app";
}

abbrev test_props : Properties
test_props = record {
  member_as_string = λ name. if text_eq name (codes "templateName") then some (codes "T") else none;
  member_as_int = λ name. none;
  member_as_bool = λ name. none;
}

abbrev test_files : StdMap Text Text
test_files =
    (codes "d/cert/bootstrap/certificate.pem.crt", codes "c")
    ∷ (codes "d/cert/bootstrap/private.pem.key", codes "k")
    ∷ []

abbrev writable : FileSystem
writable = record { folder_exists = λ path. true; opens = λ path. true }

abbrev accepting : Answers
accepting = record {
  random = codes "7";
  created = created;
  set_connected = success;
  set_callbacks = success;
  is_connected = false;
  connects = success;
  starts = λ topic. started (pos (token_of topic));
  handle_left = false;
  in_disconnect = [];
  meanwhile = [];
}

abbrev launched : Fleet
launched =
    launch_provisioning (some 1) (some 2) accepting
      (activate test_bindings test_props (codes "d") (new MqttState.new test_files)).1

abbrev keys_topic : Text
keys_topic = codes "$aws/certificates/create/json"

abbrev register_topic : Text
register_topic = codes "$aws/provisioning-templates/T/provision/json"

abbrev work_on : Move
work_on = work false accepting

abbrev hear_it : Callback → Move
hear_it c = hear writable c

-- An exchange in which all goes well, from its subscriptions to the answer.
abbrev exchange : Text → Text → List Move
exchange topic answer =
    hear_it (subscribe_ok (some (pos (token_of (topic ++ codes "/accepted")), pos 1)))
    ∷ work_on
    ∷ hear_it (subscribe_ok (some (pos (token_of (topic ++ codes "/rejected")), pos 1)))
    ∷ work_on
    ∷ hear_it (send_ok (some (pos (token_of topic))))
    ∷ work_on
    ∷ hear_it (message (topic ++ codes "/" ++ answer) (pos 0) (codes "{}"))
    ∷ []

abbrev keys_exchange : List Move
keys_exchange = hear_it reconnect ∷ work_on ∷ exchange keys_topic (codes "accepted")

abbrev whole_run : List Move
whole_run = keys_exchange ++ work_on ∷ exchange register_topic (codes "accepted") ++ work_on ∷ []

unfoldable after : List Move → Fleet
unfolding moves
after ms = elim (moves test_bindings ms launched) [ none ↦ launched | some f ↦ f ]

abbrev provisioned_state : Fleet
provisioned_state = after whole_run

abbrev told_data : ProvisioningData
told_data = record {
  connection_pars = record {
    broker_address = [];
    trust_store = [];
    certificate = codes "d/cert/official/certificate.pem.crt";
    private_key = codes "d/cert/official/private.pem.key";
    user = [];
    password = [];
    enabled_ssl = true;
  };
  provisioned_key = codes "v/p/1";
  is_provisioned = true;
}

whole_run_events :
    (is_some (moves test_bindings whole_run launched) ≡ true)
    × ((provisioned_state.events ≡ calls_provisioned 1 told_data ∷ [])
        × (find (codes "d/cert/official/provision.json") provisioned_state.files
            ≡ some (codes "{}")))
unfolding after moves launch_provisioning find activate assign shapeware.Mqtt.Connection.create
    shapeware.Mqtt.Connection.connect_with shapeware.Fleet.Run.deliver_all
    shapeware.Mqtt.Run.perform_callback shapeware.Mqtt.Connection.reconnected
    shapeware.Fleet.Run.deliver shapeware.Mqtt.Subscription.subscribe
    shapeware.Mqtt.Subscription.subscribe_succeeded shapeware.Fleet.Messages.set_accepted_subscribed
    shapeware.StdMap.erase shapeware.Fleet.Messages.set_rejected_subscribed
    shapeware.Mqtt.Publish.publish shapeware.Mqtt.Publish.send_succeeded
    shapeware.Fleet.Messages.set_sent shapeware.Mqtt.Receive.message_arrived
    shapeware.Mqtt.Topic.dispatch shapeware.Mqtt.Topic.entry_calls
    shapeware.Mqtt.Receive.message_topic shapeware.Fleet.Messages.keys_accepted
    shapeware.Fleet.Messages.register_accepted shapeware.Mqtt.Subscription.unsubscribe
    shapeware.Mqtt.Connection.disconnect shapeware.Mqtt.Connection.destroy
whole_run_events = (refl, (refl, refl))

is_some_lem :
    (o : Option Fleet) (f : Fleet)
    → is_some o ≡ true
    → o ≡ some (elim o as (λ x. Fleet) [ none ↦ f | some g ↦ g ])
is_some_lem none f h = cc
is_some_lem (some g) f h = refl

reached :
    (ms : List Move)
    → is_some (moves test_bindings ms launched) ≡ true
    → Reach test_bindings launched (after ms)
unfolding after
reached ms h =
    moves-Reach test_bindings ms here (is_some_lem (moves test_bindings ms launched) launched h)

abbrev official : Settings
official = (activate test_bindings test_props (codes "d") (new MqttState.new test_files)).1.settings

announced-saved_example :
    All (Told test_bindings official provisioned_state.files) provisioned_state.events
announced-saved_example =
    announced-saved test_bindings test_props (codes "d") MqttState.new test_files (some 1) (some 2)
      accepting (reached whole_run whole_run_events.0)

restart-announced_example :
    let (thrown, f) =
      activate test_bindings test_props (codes "d") (new MqttState.new provisioned_state.files) in
    let e = get_provisioning_data f in
    (thrown ≡ none)
    × ((e.is_provisioned ≡ true)
        × ((e.connection_pars.broker_address ≡ [])
            × ((e.connection_pars.certificate ≡ codes "d/cert/official/certificate.pem.crt")
                × ((e.connection_pars.private_key ≡ codes "d/cert/official/private.pem.key")
                    × ((e.provisioned_key ≡ codes "v/p/1")
                        × (get_topic_prefix f ≡ inr (codes "root/dev/v/p/1")))))))
unfolding set_paths Config.modify
restart-announced_example =
    restart-announced test_bindings test_props (codes "d") MqttState.new MqttState.new test_files
      (some 1) (some 2) accepting [] [] 1 told_data (codes "{}")
      (record { string_at = λ p. some (codes "v"); number_at = λ p. true })
      (reached whole_run whole_run_events.0) whole_run_events.1.0 whole_run_events.1.1 refl

-- The keys refused, up to the wait for the answer.
abbrev refused_state : Fleet
refused_state = after (hear_it reconnect ∷ work_on ∷ exchange keys_topic (codes "rejected"))

refused_facts :
    (refused_state.phase ≡ waiting keys for_response)
    × ((refused_state.keys_promises.responded ≡ some false)
        × ((refused_state.mqtt.client ≡ true)
            × ((file_exists refused_state.settings.bootstrap_certificate_pem_file_name refused_state
                  ≡ true)
                × (file_exists refused_state.settings.bootstrap_private_pem_file_name refused_state
                    ≡ true))))
unfolding after moves launch_provisioning find activate assign shapeware.Mqtt.Connection.create
    shapeware.Mqtt.Connection.connect_with shapeware.Fleet.Run.deliver_all
    shapeware.Mqtt.Run.perform_callback shapeware.Mqtt.Connection.reconnected
    shapeware.Fleet.Run.deliver shapeware.Mqtt.Subscription.subscribe
    shapeware.Mqtt.Subscription.subscribe_succeeded shapeware.Fleet.Messages.set_accepted_subscribed
    shapeware.StdMap.erase shapeware.Fleet.Messages.set_rejected_subscribed
    shapeware.Mqtt.Publish.publish shapeware.Mqtt.Publish.send_succeeded
    shapeware.Fleet.Messages.set_sent shapeware.Mqtt.Receive.message_arrived
    shapeware.Mqtt.Topic.dispatch shapeware.Mqtt.Topic.entry_calls
    shapeware.Mqtt.Receive.message_topic shapeware.Fleet.Messages.keys_accepted
    shapeware.Fleet.Messages.rejected shapeware.Mqtt.Subscription.unsubscribe
    shapeware.Mqtt.Connection.disconnect shapeware.Mqtt.Connection.destroy
refused_facts = (refl, (refl, (refl, (refl, refl))))

refused-blocks_retry_example :
    (g : Fleet) × ((worker_step test_bindings false accepting refused_state ≡ some g)
      × ((g.phase ≡ idle)
          × (let k = launch_provisioning (some 1) (some 2) accepting g in
              (k.phase ≡ idle)
              × (k.events
                  ≡ g.events ++ calls_error 2 (mqtt_failure MqttState.already_created) ∷ []))))
refused-blocks_retry_example =
    refused-blocks_retry test_bindings refused_state keys false accepting accepting (some 1) 2
      refused_facts.0 refused_facts.1.0 refused_facts.1.1.0 refused_facts.1.1.1.0
      refused_facts.1.1.1.1

made_folders : mkdir (λ path. true) (codes "/a//b/") [] ≡ (true, codes "/a/b" ∷ codes "/a" ∷ [])
unfolding mkdir folder_exists
made_folders = refl

-- Where the provision file is damaged, the component counts as provisioned all the same.
damaged_provision_file :
    let (thrown, f) = activate test_bindings test_props (codes "d") (
      new MqttState.new (
        (codes "d/cert/official/certificate.pem.crt", codes "c")
        ∷ (codes "d/cert/official/certificates.json", codes "j")
        ∷ (codes "d/cert/official/private.pem.key", codes "k")
        ∷ (codes "d/cert/official/provision.json", [])
        ∷ [])) in
    (thrown ≡ some json_parse_error)
    × ((get_provisioning_data f).is_provisioned ≡ true)
    × (get_topic_prefix f ≡ inl no_provisioning_key)
unfolding activate get_provisioning_data get_topic_prefix find
damaged_provision_file = (refl, refl, refl)
