-- ===== src/Mqtt/Receive.antt =====
-- A received message: `msgarrvd` (MqttService/MqttService.cpp).
pub mod Laws
use shapeware.Base.{
  ℕ, zero, suc, Bool, true, false, List, [], ◌∷◌, ◌++◌, Option, none, some, if◌then◌else◌, ◌==◌,
}
use shapeware.Base.Int.{ℤ, pos, negsuc}
use shapeware.Text.{Text, c_string}
use shapeware.Mqtt.State.{
  OnMessage, Service, Event, on_message, on_message_registered, on_message_str_registered,
  undefined_filter, Outcome, returns, throws,
}
use shapeware.Mqtt.Connection.{call_if}
use shapeware.Mqtt.Topic.{take, dispatch}

-- The topic in the buffer that the library passes: the given number of bytes, or the text up to the
-- first zero byte where the length is not positive.
unfoldable pub message_topic : Text → ℤ → Text
message_topic buffer (pos zero) = c_string buffer
message_topic buffer (pos (suc n)) = take (suc n) buffer
message_topic buffer (negsuc n) = c_string buffer

-- A call of one handler; the lambda of the obsolete `subscribe` calls the registered ones.
abbrev pub message_call : Service → Text → Text → OnMessage → List Event
message_call s topic msg (OnMessage.given h) = on_message h topic msg ∷ []
message_call s topic msg OnMessage.obsolete =
    call_if s.mqtt_message_handler_func (λ h. on_message_registered h topic msg)
    ++ call_if s.mqtt_message_str_handler_func (λ h. on_message_str_registered h topic msg)

abbrev pub message_calls : Service → Text → Text → List OnMessage → List Event
message_calls s topic msg [] = []
message_calls s topic msg (h ∷ hs) = message_call s topic msg h ++ message_calls s topic msg hs

unfoldable pub message_arrived : Text → ℤ → Text → Service → Outcome
message_arrived buffer topic_len msg s =
    let topic = message_topic buffer topic_len in
    elim (dispatch topic s.on_message_hndl_map) [
      | none ↦ throws s [] undefined_filter
      | some hs ↦ returns s (message_calls s topic msg hs)
    ]
