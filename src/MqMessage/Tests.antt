-- ===== src/MqMessage/Tests.antt =====
-- Runs of the message service (MqMessageService/MqMessageService.cpp).
use shapeware.Base.{ℕ, Bool, Option, arith, ◌≡◌, refl, true, false, List, [], ◌∷◌, ◌++◌, none, some}
use shapeware.Base.Sub.{Sub}
use shapeware.Text.{Text, codes}
use shapeware.MqMessage.Service.{
  Service, new, closes, opens_write, writes, is_ready, listen, send_to, broken,
}
use shapeware.TaskQueue.{init, push_to_queue, worker_step}
use shapeware.TaskQueue.Delivery.{in_flight}
use shapeware.MqMessage.Channel.{
  Channel, started, send_message, worker_turn, run_worker, listener_opens, listener_reads, Reach,
  begin_read, here, next, sends, works, opens, reads,
}
use shapeware.MqMessage.Channel.Written.{IsTried, accepted-tried}
use shapeware.MqMessage.Channel.Drain.{send_message-written, send_to-reopens}
use shapeware.MqMessage.Laws.{heard, tried, written, good_reads, listen-delivers}

abbrev listening : Service
listening = record new { message_handler_func = some 1 }

abbrev two_messages : List Text
two_messages = codes "a" ∷ codes "b" ∷ []

listen-delivers_example :
    let good = listen (some 3) (good_reads two_messages) (some 5) true listening in
    let bad =
      listen
        (some 3)
        (good_reads two_messages ++ none ∷ some (codes "c") ∷ [])
        (some 5)
        true
        listening in
    (heard good.events ≡ two_messages)
    × (tried good.events ≡ [])
    × (written good.events ≡ [])
    × (is_ready good ≡ true)
    × (heard bad.events ≡ two_messages)
    × (tried bad.events ≡ codes "Remote broken" ∷ [])
    × (written bad.events ≡ codes "Remote broken" ∷ [])
    × (is_ready bad ≡ false)
    × (bad.run_listen_thread ≡ false)
listen-delivers_example =
    listen-delivers 1 (some 5) true listening 3 two_messages (some (codes "c") ∷ []) refl refl

abbrev answers : ℕ → Option ℕ × Bool
answers n = (some 5, false)

abbrev two_sent : Channel
two_sent = send_message (codes "b") (send_message (codes "a") (started listening))

-- The listening thread has met a broken read, and the worker has taken the first message.
abbrev broken_channel : Channel
broken_channel =
    listener_reads none none false (listener_opens (some 3) (run_worker 2 answers two_sent))

two_sent-Reach : Reach (started listening) two_sent
two_sent-Reach = next (next here (sends (codes "a"))) (sends (codes "b"))

broken_channel-Reach : Reach (started listening) broken_channel
unfolding run_worker worker_turn worker_step listener_opens begin_read send_message push_to_queue
    init started
broken_channel-Reach =
    next
      (next (next (next two_sent-Reach (works (some 5) false refl)) (works (some 5) false refl))
        (opens (some 3) refl))
      (reads none none false refl)

accepted-tried_example :
    let q = broken_channel.to_mq_message_queue in
    (q.accepted ≡ q.processed ++ (in_flight q.worker ++ q.tasks))
    × IsTried broken_channel
    × Sub (written broken_channel.service.events) (tried broken_channel.service.events)
accepted-tried_example = accepted-tried listening refl broken_channel-Reach

all_tried :
    tried (run_worker 9 answers broken_channel).service.events
    ≡ codes "Remote broken" ∷ codes "a" ∷ codes "b" ∷ []
unfolding run_worker worker_turn worker_step listener_opens begin_read send_message push_to_queue
    init started listener_reads send_to broken
all_tried = refl

abbrev good_answers : ℕ → Option ℕ × Bool
good_answers n = (some 5, true)

send_message-written_example :
    let d = run_worker 9 good_answers broken_channel in
    let q = broken_channel.to_mq_message_queue in
    (d.to_mq_message_queue.tasks ≡ [])
    × (d.to_mq_message_queue.processed ≡ q.accepted)
    × (written d.service.events ≡ codes "a" ∷ codes "b" ∷ [])
unfolding run_worker worker_turn worker_step listener_opens begin_read send_message push_to_queue
    init started listener_reads send_to broken
send_message-written_example =
    send_message-written listening 9 good_answers refl broken_channel-Reach refl (omega arith)
      (λ n. (refl, refl))

send_to-reopens_example :
    let bad = send_to (some 5) false (codes "a") listening in
    let good = send_to (some 5) true (codes "a") listening in
    let after_bad = send_to (some 6) true (codes "b") bad in
    let after_good = send_to (some 6) true (codes "b") good in
    (after_bad.events
      ≡ bad.events
        ++ closes bad.remote_mq_handle
          ∷ opens_write listening.remote_mq_name
          ∷ writes (some 6) (codes "b") true
          ∷ [])
    × (after_bad.connected ≡ true)
    × (after_good.events ≡ good.events ++ writes good.remote_mq_handle (codes "b") true ∷ [])
    × (after_good.connected ≡ true)
send_to-reopens_example =
    send_to-reopens (some 5) (some 6) 5 true (codes "a") (codes "b") listening refl
