-- ===== src/ZeroMq/Tests.antt =====
-- Runs of the ZeroMQ service (ZeroMqService/ZeroMqService.cpp).
use shapeware.Base.{◌≡◌, refl, true, false, [], ◌∷◌, ◌++◌, Option, some, none, if◌then◌else◌}
use shapeware.Text.{Text, codes, text_eq}
use shapeware.Properties.{Properties}
use shapeware.ZeroMq.Config.{SocketType, req, rep, default_settings, activate}
use shapeware.ZeroMq.State.{
  testing, waiting_open, waiting_send, sends, on_message, on_req_timeout, Service, new,
  send_message, begin_open, begin_close, open_returns, close_returns,
}
use shapeware.ZeroMq.Worker.{
  Received, nothing, received, Answers, worker_step, run_worker, Reach, here, next, opens, works,
  sends_message,
}
use shapeware.ZeroMq.Session.{request_answered}
use shapeware.ZeroMq.Close.{close-hangs_after_timeout, close-returns}
use shapeware.ZeroMq.Sent.{Sublist, sent, waiting, sent-accepted}

abbrev answers : Option Received → Answers
answers x = record { opens = true; exchange = x; closes = true }

abbrev late : Answers
late = answers (some nothing)

abbrev replied : Answers
replied = answers (some (received (some (codes "r"))))

abbrev start : Service
start = record new { on_message_func = some 1; on_req_timeout_func = some 2; worker = waiting_open }

abbrev asked : Service
asked = record start {
  socket_opened = true;
  require_open = true;
  to_send = true;
  message_to_send = codes "m";
  worker = waiting_send;
  accepted = codes "m" ∷ [];
}

request_answered_example :
    let (opening, waits) = begin_open start in
    let opened = run_worker false (replied ∷ []) opening in
    (waits ≡ true)
    × (open_returns opening ≡ false)
    × (open_returns opened ≡ true)
    × ((s' : Service) × (send_message (codes "m") opened ≡ some s')
        × (let good = run_worker false (replied ∷ []) s' in
            let unanswered = run_worker false (late ∷ []) s' in
            let again = run_worker false (late ∷ late ∷ late ∷ []) s' in
            (good.events ≡ ([] ++ sends (codes "m") ∷ []) ++ on_message 1 (codes "r") ∷ [])
            × (good.worker ≡ waiting_send)
            × (open_returns good ≡ true)
            × (unanswered.events ≡ ([] ++ sends (codes "m") ∷ []) ++ on_req_timeout 2 ∷ [])
            × (unanswered.worker ≡ testing)
            × (open_returns unanswered ≡ false)
            × (again.worker ≡ waiting_send)
            × (open_returns again ≡ true)))
unfolding new
request_answered_example =
    request_answered start (codes "m") (codes "r") 1 2 replied replied late late late refl refl refl
      refl refl refl refl refl refl refl refl

abbrev timed_out : Service
timed_out = run_worker false (late ∷ []) asked

close-hangs_after_timeout_example :
    let (closing, waits) = begin_close timed_out in
    (waits ≡ true) × (close_returns (run_worker false (replied ∷ late ∷ []) closing) ≡ false)
unfolding worker_step run_worker new
close-hangs_after_timeout_example =
    close-hangs_after_timeout late (replied ∷ late ∷ []) asked timed_out refl refl refl refl refl
      refl

close-returns_example :
    let (closing, waits) = begin_close asked in
    let closed = run_worker false (late ∷ []) closing in
    (waits ≡ true)
    × (close_returns closed ≡ true)
    × (closed.worker ≡ testing)
    × (closed.to_send ≡ false)
close-returns_example = close-returns false late nothing asked refl refl refl refl

abbrev given : Service
given = record (run_worker false (replied ∷ []) (begin_open new).0) {
  to_send = true;
  message_to_send = codes "m";
  accepted = codes "m" ∷ [];
}

given-Reach : Reach false new given
unfolding new run_worker worker_step begin_open send_message
given-Reach = next (next (next here opens) (works replied refl)) (sends_message (codes "m") refl)

sent-accepted_example :
    Sublist (sent given.events ++ waiting given.to_send given.message_to_send) given.accepted
sent-accepted_example = sent-accepted false given-Reach

abbrev socket_type_of : Text → SocketType
socket_type_of name = if text_eq name (codes "rep") then rep else req

abbrev reply_socket : Properties
reply_socket = record {
  member_as_string = λ name. if text_eq name (codes "socketType") then some (codes "rep") else none;
  member_as_int = λ name. none;
  member_as_bool = λ name. none;
}

reply_socket_activated : (activate socket_type_of reply_socket default_settings).1 ≡ some true
unfolding activate
reply_socket_activated = refl
