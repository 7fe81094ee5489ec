-- ===== src/Mqtt/Tests/Topics.antt =====
-- Topics and filters (include/mqtt_utils.h, MqttService/MqttService.cpp).
use shapeware.Base.{ℕ, ◌≡◌, ◌≢◌, ◌⊎◌, refl, List, [], ◌∷◌, some}
use shapeware.Base.Int.{pos}
use shapeware.Text.{Text, codes}
use shapeware.Mqtt.State.{OnMessage, Service, new, returns}
use shapeware.Mqtt.Topic.{slash, tokenize_topic, entry_calls}
use shapeware.Mqtt.Topic.Levels.{join, tokenize_topic-join}
use shapeware.Mqtt.Topic.Matching.{MatchesTopic, entry_calls-MatchesTopic}
use shapeware.Mqtt.Topic.Hash.{hash-misses_parent}
use shapeware.Mqtt.Receive.{message_topic, message_calls, message_arrived}
use shapeware.Mqtt.Receive.Laws.{Selected, message_arrived-Selected}

abbrev topic : Text
topic = codes "a/b"

ne_cons : {c : ℕ} {s : Text} → c ∷ s ≢ []
ne_cons e = cc

tokens : tokenize_topic (codes "a//b/") ≡ codes "a" ∷ [] ∷ codes "b" ∷ [] ∷ []
unfolding tokenize_topic
tokens = refl

tokenize_topic-join_example :
    tokenize_topic (join slash (codes "a" ∷ codes "b" ∷ [])) ≡ codes "a" ∷ codes "b" ∷ []
tokenize_topic-join_example = tokenize_topic-join (codes "a") (codes "b" ∷ []) (refl, (refl, tt))

abbrev first_handler : ℕ
first_handler = 1

entry_calls-MatchesTopic_example :
    (MatchesTopic (codes "+/b") topic
      × (entry_calls topic (codes "+/b") first_handler ≡ some (first_handler ∷ [])))
    ⊎ ((¬ MatchesTopic (codes "+/b") topic)
        × (entry_calls topic (codes "+/b") first_handler ≡ some []))
entry_calls-MatchesTopic_example =
    entry_calls-MatchesTopic topic (codes "+/b") first_handler refl refl ne_cons refl refl

hash-misses_parent_example :
    (entry_calls (codes "a/b") (codes "a/#") first_handler ≡ some (first_handler ∷ []))
    × (entry_calls (codes "a") (codes "a/#") first_handler ≡ some [])
    × MatchesTopic (codes "a/#") (codes "a")
hash-misses_parent_example =
    hash-misses_parent (codes "a") (codes "b") first_handler ne_cons refl refl

abbrev subscribed : Service
subscribed = record new {
  on_message_hndl_map = (codes "+/b", OnMessage.given 4) ∷ (codes "a/c", OnMessage.obsolete) ∷ [];
}

message_arrived-Selected_example :
    (hs : List OnMessage) × ((message_arrived (codes "a/b") (pos 3) (codes "hi") subscribed
        ≡ returns subscribed (message_calls subscribed topic (codes "hi") hs))
      × Selected topic subscribed.on_message_hndl_map hs)
unfolding message_topic
message_arrived-Selected_example =
    message_arrived-Selected subscribed (codes "a/b") topic (codes "hi") (pos 3) refl refl refl
      (ne_cons, refl, refl, (ne_cons, refl, refl, tt))
