-- ===== src/ZeroMq/Close.antt =====
-- When `close` returns, and when it does not (ZeroMqService/ZeroMqService.cpp).
use shapeware.Base.{
  ◌≡◌, ◌⊎◌, if◌then◌else◌, Bool, true, false, List, [], ◌∷◌, some, arith, Option-cases, inl, inr,
}
use shapeware.ZeroMq.State.{
  testing, waiting_open, waiting_send, waiting_reply, Service, begin_close, close_returns,
}
use shapeware.ZeroMq.Worker.{Answers, Received, nothing, worker_step, run_worker}

-- The worker finds the socket closed already, while `m_socketOpened` says that it is open.
record Stuck (s : Service) : Type 0 where
  runs : s.run_thd ≡ true
  no_open : s.require_open ≡ false
  opened : s.socket_opened ≡ true
  outside : (s.worker ≡ testing) ⊎ (s.worker ≡ waiting_open)

Stuck-step :
    (rep : Bool) (a : Answers) (s s' : Service) → Stuck s → worker_step rep a s ≡ some s' → Stuck s'
unfolding worker_step
Stuck-step rep a s s' v h = ground (arith, v.outside)

Stuck-run :
    (rep : Bool) (answers : List Answers) (s : Service) → Stuck s → Stuck (run_worker rep answers s)
unfolding run_worker
Stuck-run rep [] s v = v
Stuck-run rep (a ∷ rest) s v = elim (Option-cases (worker_step rep a s)) [
  | inl e ↦ ground (arith, v)
  | inr (s', e) ↦ rw (e, run_worker) (Stuck-run rep rest s' (Stuck-step rep a s s' v e))
]

-- When the socket is required to be open, the worker is to run and a request gets no reply in time:
-- a `close` that then comes, before the worker opens the socket again, waits, and it cannot return
-- however far the worker goes on alone and whatever the library answers.
pub close-hangs_after_timeout :
    (a : Answers) (answers : List Answers) (s s' : Service)
    → s.worker ≡ waiting_send
    → s.to_send ≡ true
    → s.require_open ≡ true
    → s.run_thd ≡ true
    → a.exchange ≡ some nothing
    → worker_step false a s ≡ some s'
    → let (closing, waits) = begin_close s' in
      (waits ≡ true) × (close_returns (run_worker false answers closing) ≡ false)
unfolding worker_step begin_close close_returns
close-hangs_after_timeout a answers s s' w t o r e h =
    let stuck : Stuck (begin_close s').0 = ground arith in
    (ground arith, ground (arith, (Stuck-run false answers (begin_close s').0 stuck).opened))

-- A `close` that comes while the worker of a request socket waits for a request, or that of a reply
-- socket for a reply, can return after one step of the worker, if the library does not throw, whether
-- a message or its time limit comes: the
-- worker is outside its inner loop, and no message waits to be sent.
pub close-returns :
    (rep : Bool) (a : Answers) (r : Received) (s : Service)
    → s.worker ≡ (if rep then waiting_reply else waiting_send)
    → s.require_open ≡ true
    → a.exchange ≡ some r
    → a.closes ≡ true
    → let (closing, waits) = begin_close s in
      let closed = run_worker rep (a ∷ []) closing in
      (waits ≡ true)
      × (close_returns closed ≡ true)
      × (closed.worker ≡ testing)
      × (closed.to_send ≡ false)
unfolding worker_step run_worker begin_close close_returns
close-returns true a r s w o e c = ground arith
close-returns false a r s w o e c = ground arith
