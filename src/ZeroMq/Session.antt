-- ===== src/ZeroMq/Session.antt =====
-- A whole exchange over a request socket (ZeroMqService/ZeroMqService.cpp).
use shapeware.Base.{◌≡◌, true, false, [], ◌∷◌, ◌++◌, some, arith}
use shapeware.Text.{Text}
use shapeware.ZeroMq.State.{
  Handler, testing, waiting_open, waiting_send, sends, on_message, on_req_timeout, Service,
  send_message, begin_open, open_returns,
}
use shapeware.ZeroMq.Worker.{Answers, nothing, received, worker_step, run_worker}

-- When the socket is not required to be open and the worker of a request socket waits for that: an
-- `open` waits, and can return after one step of the worker if the library opens the socket. A
-- message is then accepted and, with the next step, sent. A reply that comes in time is given to
-- the message handler, and the socket stays open; when none comes, the timeout handler is called,
-- the worker leaves its inner loop, and the next two steps open the socket again without a new
-- `open`.
pub request_answered :
    (s : Service) (msg reply : Text) (h k : Handler) (a b c d e : Answers)
    → s.worker ≡ waiting_open
    → s.require_open ≡ false
    → s.run_thd ≡ true
    → s.to_send ≡ false
    → s.on_message_func ≡ some h
    → s.on_req_timeout_func ≡ some k
    → a.opens ≡ true
    → b.exchange ≡ some (received (some reply))
    → c.exchange ≡ some nothing
    → c.closes ≡ true
    → e.opens ≡ true
    → let (opening, waits) = begin_open s in
      let opened = run_worker false (a ∷ []) opening in
      (waits ≡ true)
      × (open_returns opening ≡ false)
      × (open_returns opened ≡ true)
      × ((s' : Service) × (send_message msg opened ≡ some s')
          × (let good = run_worker false (b ∷ []) s' in
              let late = run_worker false (c ∷ []) s' in
              let again = run_worker false (c ∷ d ∷ e ∷ []) s' in
              (good.events ≡ (s.events ++ sends msg ∷ []) ++ on_message h reply ∷ [])
              × (good.worker ≡ waiting_send)
              × (open_returns good ≡ true)
              × (late.events ≡ (s.events ++ sends msg ∷ []) ++ on_req_timeout k ∷ [])
              × (late.worker ≡ testing)
              × (open_returns late ≡ false)
              × (again.worker ≡ waiting_send)
              × (open_returns again ≡ true)))
unfolding run_worker worker_step begin_open open_returns send_message
request_answered s msg reply h k a b c d e w o r t hm hk ao be ce cc' eo =
    let opened = run_worker false (a ∷ []) (begin_open s).0 in
    let s' = record opened {
      message_to_send = msg;
      to_send = true;
      accepted = opened.accepted ++ msg ∷ [];
    } in
    (ground arith, ground arith, ground arith, (s', ground arith, ground arith))
