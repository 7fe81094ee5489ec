-- ===== src/Mqtt/Tests/Sessions.antt =====
-- Connections, configuration and whole runs (MqttService/MqttService.cpp).
use shapeware.Base.{◌≤◌, length, refl, false, List, [], ◌∷◌, none, some}
use shapeware.Base.Int.{pos}
use shapeware.Text.{codes}
use shapeware.Mqtt.State.{ConnectionPars, Service, new, OnPublish, success, started}
use shapeware.Mqtt.Connection.{created}
use shapeware.Properties.{Properties}
use shapeware.Mqtt.Config.{activate, attach_interface}
use shapeware.Mqtt.Run.{Call, request, callback, creates, publishes, connect_ok, lost, run}
use shapeware.Mqtt.Run.BufferSize.{run_activated-bounded}

abbrev one_slot : Properties
one_slot = record {
  member_as_string = λ name. none;
  member_as_int = λ name. some (pos 1);
  member_as_bool = λ name. none;
}

abbrev pars : ConnectionPars
pars = record {
  broker_address = codes "b";
  trust_store = [];
  certificate = [];
  private_key = [];
  user = [];
  password = [];
  enabled_ssl = false;
}

abbrev some_calls : List Call
some_calls =
    request (creates (codes "c") pars created success success)
    ∷ callback connect_ok
    ∷ request (
        publishes (codes "a") (pos 1) (codes "m") OnPublish.traced OnPublish.traced
          (started (pos 9)))
    ∷ callback lost
    ∷ []

abbrev after_run : Service
after_run = run some_calls (activate one_slot (codes "/d") (attach_interface 1 new).service).service

run_activated-bounded_example : length after_run.publish_context_map ≤ 2
unfolding activate attach_interface
run_activated-bounded_example =
    run_activated-bounded 1 one_slot (codes "/d") some_calls 1 refl
      (refl, (refl, (refl, (refl, tt))))
