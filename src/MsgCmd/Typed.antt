-- ===== src/MsgCmd/Typed.antt =====
-- From a line that is typed to the remote message queue: the command line, the registry of commands,
-- MsgCmd and the message service (examples/MsgCmd/MsgCmd.cpp).
use shapeware.Base.{
  ℕ, ◌≡◌, ◌≤◌, refl, sym, ap, ◌∙◌, Bool, true, false, List, [], ◌∷◌, ◌++◌, Option, some, arith,
  append_assoc, append-nil, ◌==◌, is_some, if◌then◌else◌,
}
use shapeware.Text.{Text, codes}
use shapeware.TaskQueue.{push_to_queue}
use shapeware.TaskQueue.Progress.{steps_left}
use shapeware.TaskQueue.Delivery.{in_flight}
use shapeware.Command.Service.{
  ICommand, other, answer, Others, CommandService, find_command, do_cmd,
}
use shapeware.Command.Line.{Output, result, first_word, run_line}
use shapeware.MqMessage.Service.{Service}
use shapeware.MqMessage.Laws.{written}
use shapeware.MqMessage.Channel.{Channel, started, send_message, run_worker, sends, Reach, next}
use shapeware.MqMessage.Channel.Drain.{send_message-written}
use shapeware.MsgCmd
use shapeware.MsgCmd.{get_help}

-- The calls of `sendMessage` of a command.
unfoldable pub send_all : List Text → Channel → Channel
send_all [] c = c
send_all (m ∷ ms) c = send_all ms (send_message m c)

module _ (open_file : Text → Option Text) (par : Text → Text) (n : ℕ) (rest : Others) where
  -- The commands of other components, where that of MsgCmd has the number `n`.
  abbrev pub with_msg_cmd : Others
  with_msg_cmd = record {
    do_other = λ k params.
        if k == n then answer (MsgCmd.do_cmd open_file par params).0 else rest.do_other k params;
    get_other_help = λ k. if k == n then get_help else rest.get_other_help k;
  }

  -- The messages that a command sends; those of the components in `rest` send none here.
  unfoldable pub sent_by : Option ICommand → Text → List Text
  sent_by (some (other k)) line = if k == n then (MsgCmd.do_cmd open_file par line).1 else []
  sent_by _ line = []

  -- A line at the command line, with the message service that MsgCmd is attached to.
  unfoldable pub type_line :
      Text → CommandService → Channel → List Output × CommandService × Channel
  unfolding sent_by
  type_line line cs c =
      let (out, _, cs') = run_line with_msg_cmd line cs in
      (out, cs', send_all (sent_by (find_command (first_word line) cs) line) c)

  send_all-accepted :
      (ms : List Text) (c : Channel)
      → let q = (send_all ms c).to_mq_message_queue in
        (q.accepted ≡ c.to_mq_message_queue.accepted ++ ms)
        × (q.tasks ≡ c.to_mq_message_queue.tasks ++ ms)
        × (q.worker ≡ c.to_mq_message_queue.worker)
        × ((send_all ms c).service.events ≡ c.service.events)
        × (q.run_worker_thread ≡ c.to_mq_message_queue.run_worker_thread)
  unfolding send_all send_message push_to_queue
  send_all-accepted [] c = (
    sym (append-nil c.to_mq_message_queue.accepted),
    sym (append-nil c.to_mq_message_queue.tasks),
    refl,
    refl,
    refl,
  )
  send_all-accepted (m ∷ ms) c = ground (
    arith,
    send_all-accepted ms (send_message m c),
    append_assoc c.to_mq_message_queue.accepted (m ∷ []) ms,
    append_assoc c.to_mq_message_queue.tasks (m ∷ []) ms,
  )

  send_all-Reach :
      {b : Channel} (ms : List Text) (c : Channel) → Reach b c → Reach b (send_all ms c)
  unfolding send_all
  send_all-Reach [] c r = r
  send_all-Reach (m ∷ ms) c r = send_all-Reach ms (send_message m c) (next r (sends m))

  run_line-c :
      (line : Text) (cs : CommandService)
      → first_word line ≡ codes "c"
      → find_command (codes "c") cs ≡ some (other n)
      → run_line with_msg_cmd line cs
        ≡ (result (MsgCmd.do_cmd open_file par line).0 ∷ [], false, cs)
  unfolding run_line do_cmd
  run_line-c line cs word found =
      let f = ap (λ w. find_command w cs) word ∙ found in rw (f, run_line) (ground arith)

  sent_by-c :
      (line : Text) (cs : CommandService)
      → first_word line ≡ codes "c"
      → find_command (codes "c") cs ≡ some (other n)
      → sent_by (find_command (first_word line) cs) line ≡ (MsgCmd.do_cmd open_file par line).1
  unfolding sent_by
  sent_by-c line cs word found =
      let f = ap (λ w. find_command w cs) word ∙ found in rw f (ground arith)

  -- When MsgCmd has its command registered as `c` and a line begins with that word: the line shows
  -- the answer of the command, and in whatever state the clients and the threads have brought the
  -- message service from its activation, which leaves it not connected, and in which its queue is not stopped, its worker alone,
  -- given `steps_left` steps or more, with a system that gives a handle at each opening and takes
  -- each write, then has processed all the messages accepted before and those that the command sends
  -- after them, in this order, and has put into the remote queue the message that it had taken, if
  -- any, those that were in the queue and those that the command sends, in this order, and nothing
  -- else.
  pub typed-written :
      (s : Service) (line : Text) (cs : CommandService) {c : Channel} (fuel : ℕ)
      (answers : ℕ → Option ℕ × Bool)
      → first_word line ≡ codes "c"
      → find_command (codes "c") cs ≡ some (other n)
      → s.connected ≡ false
      → Reach (started s) c
      → c.to_mq_message_queue.run_worker_thread ≡ true
      → steps_left (type_line line cs c).2.to_mq_message_queue ≤ fuel
      → ((k : ℕ) → (is_some (answers k).0 ≡ true) × ((answers k).1 ≡ true))
      → let (out, cs', c') = type_line line cs c in
        let d = run_worker fuel answers c' in
        let (reply, sent) = MsgCmd.do_cmd open_file par line in
        (out ≡ result reply ∷ [])
        × (d.to_mq_message_queue.tasks ≡ [])
        × (d.to_mq_message_queue.processed ≡ c.to_mq_message_queue.accepted ++ sent)
        × (written d.service.events
            ≡ written c.service.events
              ++ (in_flight c.to_mq_message_queue.worker ++ (c.to_mq_message_queue.tasks ++ sent)))
  unfolding type_line
  typed-written s line cs {c} fuel answers word found e r run enough good =
      let q = c.to_mq_message_queue in
      let sent = sent_by (find_command (first_word line) cs) line in
      let p = (send_all sent c).to_mq_message_queue in
      let (accepted, queued, same_worker, same_events, running) = send_all-accepted sent c in
      let (empty, all, gone) =
        send_message-written s fuel answers e (send_all-Reach sent c r) (running ∙ run) enough
          good in
      let sends = sent_by-c line cs word found in
      (
        ap (λ x. x.0) (run_line-c line cs word found),
        empty,
        all ∙ accepted ∙ ap (λ l. q.accepted ++ l) sends,
        gone
            ∙ ap (λ es. written es ++ (in_flight p.worker ++ p.tasks)) same_events
            ∙ ap (λ w. written c.service.events ++ (in_flight w ++ p.tasks)) same_worker
            ∙ ap (λ l. written c.service.events ++ (in_flight q.worker ++ l)) queued
            ∙ ap (λ l. written c.service.events ++ (in_flight q.worker ++ (q.tasks ++ l))) sends,
      )
