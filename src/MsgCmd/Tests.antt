-- ===== src/MsgCmd/Tests.antt =====
-- Runs of MsgCmd and MsgCmdEcho (examples/MsgCmd/MsgCmd.cpp, examples/MsgCmdEcho/MsgCmdEcho.cpp).
use shapeware.Base.{
  ℕ, ◌≡◌, refl, Bool, true, false, [], ◌∷◌, ◌++◌, Option, none, some, arith, if◌then◌else◌,
}
use shapeware.Text.{Text, codes, text_eq, text_order}
use shapeware.StdMap.{find, insert}
use shapeware.TaskQueue.{init, push_to_queue, worker_step}
use shapeware.TaskQueue.Delivery.{in_flight}
use shapeware.Command.Service.{
  new as no_commands, CommandService, Others, answer, find_command, add_command,
}
use shapeware.Command.Line.{result, first_word}
use shapeware.MqMessage.Service.{set_message_handler, new as idle, call_handler}
use shapeware.MqMessage.Laws.{heard, tried, written}
use shapeware.MqMessage.Channel.{
  Channel, started, send_message, run_worker, worker_turn, listener_opens, listener_reads, here,
}
use shapeware.MqMessage.Channel.Written.{IsTried}
use shapeware.MsgCmd.{activate, next_word, do_cmd}
use shapeware.MsgCmd.Laws.{text_cut}
use shapeware.MsgCmd.Typed.{send_all, type_line, typed-written}
use shapeware.Base.Sub.{Sub}
use shapeware.MsgCmd.Duplex.{Duplex, connected}
use shapeware.MsgCmd.Echo
use shapeware.MsgCmd.Echo.{
  EchoReach, echo_here, echo_next, echo_opens, echo_reads, echo_works, echoes, echo-in_order,
}

abbrev one_file : Text → Option Text
one_file name = if text_eq name (codes "f.txt") then some (codes "content") else none

abbrev shown : Text → Text
shown name = name

text_cut_example : do_cmd one_file shown (codes "c t two words") ≡ ([], codes "two" ∷ [])
text_cut_example =
    text_cut one_file shown (codes "c") (codes "two") (codes "words") (refl, refl) (refl, refl)

abbrev no_others : Others
no_others = record { do_other = λ k line. answer []; get_other_help = λ k. [] }

abbrev registered : CommandService
registered = (activate 4 9 no_commands idle).0

abbrev answers : ℕ → Option ℕ × Bool
answers n = (some 5, true)

abbrev typed_state : Channel
typed_state = (type_line one_file shown 4 no_others (codes "c t hello") registered (started idle)).2

typed-written_example :
    let d = run_worker 9 answers typed_state in
    ((type_line one_file shown 4 no_others (codes "c t hello") registered (started idle)).0
      ≡ result [] ∷ [])
    × (d.to_mq_message_queue.tasks ≡ [])
    × (d.to_mq_message_queue.processed ≡ codes "hello" ∷ [])
    × (written d.service.events ≡ codes "hello" ∷ [])
unfolding first_word next_word do_cmd find_command find activate add_command insert no_commands
    started init type_line send_all send_message push_to_queue
typed-written_example =
    typed-written one_file shown 4 no_others idle (codes "c t hello") registered 9 answers refl refl
      refl here refl (omega arith) (λ k. (refl, refl))

abbrev echoing : Channel
echoing = started (Echo.activate 9 idle)

abbrev echoed : Channel
echoed = run_worker 2 answers (
    echoes (some (codes "b")) none false
      (echoes (some (codes "a")) none false (listener_opens (some 3) echoing)))

echoed-EchoReach : EchoReach echoing echoed
unfolding run_worker worker_turn started listener_opens Echo.activate set_message_handler echoes
    send_message listener_reads call_handler worker_step push_to_queue init
echoed-EchoReach =
    echo_next
      (echo_next
        (echo_next
          (echo_next (echo_next echo_here (echo_opens (some 3) refl))
            (echo_reads (some (codes "a")) none false refl))
          (echo_reads (some (codes "b")) none false refl))
        (echo_works (some 5) true refl))
      (echo_works (some 5) true refl)

echo-in_order_example :
    let q = echoed.to_mq_message_queue in
    (heard echoed.service.events ≡ q.processed ++ (in_flight q.worker ++ q.tasks))
    × IsTried echoed
    × Sub (written echoed.service.events) (tried echoed.service.events)
echo-in_order_example = echo-in_order 9 idle refl refl echoed-EchoReach

-- One message is typed, goes to MsgCmdEcho and comes back; then a read of MsgCmdEcho fails, and its
-- notice comes too.
abbrev start_duplex : Duplex
start_duplex = connected 8 9 idle idle

abbrev far_working : Duplex
far_working =
    let near = run_worker 3 answers (send_message (codes "a") start_duplex.near) in
    let far = echoes (some (codes "a")) none false (listener_opens (some 3) start_duplex.far) in
    record { near = near; far = far; to_far = []; to_near = [] }

abbrev came_back : Duplex
came_back = record {
  near =
      listener_reads (some (codes "Remote broken")) none false
        (listener_reads (some (codes "a")) none false (listener_opens (some 3) far_working.near));
  far = echoes none (some 5) true (run_worker 3 answers far_working.far);
  to_far = [];
  to_near = [];
}
