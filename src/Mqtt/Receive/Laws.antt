-- ===== src/Mqtt/Receive/Laws.antt =====
-- What a received message calls, by the rules of MQTT (MqttService/MqttService.cpp).
use shapeware.Base.{◌≡◌, ◌≢◌, refl, false, List, [], ◌∷◌, ◌++◌, some, arith, ◌&&◌, inl, inr}
use shapeware.Base.Int.{ℤ}
use shapeware.Text.{Text, has_byte}
use shapeware.Mqtt.State.{Service, OnMessage, returns}
use shapeware.Mqtt.Topic.{plus, hash, entry_calls, dispatch}
use shapeware.Mqtt.Topic.Matching.{is_reserved, begins_wild, MatchesTopic, entry_calls-MatchesTopic}
use shapeware.Mqtt.Receive.{message_topic, message_calls, message_arrived}

-- The second list has the handlers of the entries whose filter matches the topic, each once and in
-- the order of the entries, and no other.
pub data Selected {ℓ} {H : Type ℓ} (topic : Text) : List (Text × H) → List H → Type ℓ where
  no_more : Selected topic [] []
  takes :
      {f : Text} {h : H} {m : List (Text × H)} {hs : List H}
      → MatchesTopic f topic
      → Selected topic m hs
      → Selected topic ((f, h) ∷ m) (h ∷ hs)
  skips :
      {f : Text} {h : H} {m : List (Text × H)} {hs : List H}
      → ¬ MatchesTopic f topic
      → Selected topic m hs
      → Selected topic ((f, h) ∷ m) hs

-- No filter is empty or has a `#`, and none begins with `+` where the topic begins with `$`.
abbrev pub HasFilters {ℓ} : {H : Type ℓ} → Text → List (Text × H) → Type 0
HasFilters topic [] = Unit
HasFilters topic ((f, h) ∷ m) =
    (f ≢ [])
    × (has_byte hash f ≡ false)
    × ((begins_wild f && is_reserved topic) ≡ false)
    × HasFilters topic m

-- The handlers that are called for a message.
record Chosen {ℓ} {H : Type ℓ} (topic : Text) (m : List (Text × H)) : Type ℓ where
  handlers : List H
  dispatched : dispatch topic m ≡ some handlers
  selected : Selected topic m handlers

dispatch_next {ℓ} :
    {H : Type ℓ} (topic f : Text) (h : H) (m : List (Text × H)) (hs rest : List H)
    → entry_calls topic f h ≡ some hs
    → dispatch topic m ≡ some rest
    → dispatch topic ((f, h) ∷ m) ≡ some (hs ++ rest)
unfolding dispatch
dispatch_next topic f h m hs rest e r = rw (dispatch, e, r) refl

dispatch-Chosen {ℓ} :
    {H : Type ℓ} (topic : Text) (m : List (Text × H))
    → has_byte plus topic ≡ false
    → has_byte hash topic ≡ false
    → HasFilters topic m
    → Chosen topic m
unfolding dispatch
dispatch-Chosen topic [] p t v = record { handlers = []; dispatched = refl; selected = no_more }
dispatch-Chosen topic ((f, h) ∷ m) p t (ne, n, w, v) =
    let c = dispatch-Chosen topic m p t v in
    elim (entry_calls-MatchesTopic topic f h p t ne n w) [
      | inl (fits, e) ↦ record {
        handlers = h ∷ c.handlers;
        dispatched = dispatch_next topic f h m (h ∷ []) c.handlers e c.dispatched;
        selected = takes fits c.selected;
      }
      | inr (misfits, e) ↦ record {
        handlers = c.handlers;
        dispatched = dispatch_next topic f h m [] c.handlers e c.dispatched;
        selected = skips misfits c.selected;
      }
    ]

-- A message whose topic, read from the buffer and the length that the library passes, is without
-- wildcards, when no subscription has a filter that is empty, has a `#`, or begins with `+` where
-- the topic begins with `$`: the calls are those of the handlers whose filter matches the topic by
-- the rules of MQTT, each once and in the order of the filters, and no other, with the topic and the
-- message; the service is left as it was.
pub message_arrived-Selected :
    (s : Service) (buffer topic msg : Text) (len : ℤ)
    → message_topic buffer len ≡ topic
    → has_byte plus topic ≡ false
    → has_byte hash topic ≡ false
    → HasFilters topic s.on_message_hndl_map
    → (hs : List OnMessage) × ((message_arrived buffer len msg s
          ≡ returns s (message_calls s topic msg hs))
        × Selected topic s.on_message_hndl_map hs)
unfolding message_arrived
message_arrived-Selected s buffer topic msg len e p h f =
    let c = dispatch-Chosen topic s.on_message_hndl_map p h f in
    (c.handlers, (ground (arith, c.dispatched), c.selected))
