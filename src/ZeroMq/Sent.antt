-- ===== src/ZeroMq/Sent.antt =====
-- What the worker sends is what clients gave (ZeroMqService/ZeroMqService.cpp).
use shapeware.Base.{
  ◌≡◌, refl, sym, ap, ◌∙◌, subst, Bool, true, false, List, [], ◌∷◌, ◌++◌, Option, none, some,
  append-nil, arith, if◌then◌else◌,
}
use shapeware.Text.{Text}
use shapeware.ZeroMq.State.{
  Handler, Worker, testing, waiting_open, waiting_send, polling, waiting_reply, exited, Event,
  sends, on_message, on_req_timeout, Service, new, send_message, begin_open, begin_close,
  set_on_message, set_on_req_timeout, deactivate,
}
use shapeware.ZeroMq.Worker.{
  Answers, Received, nothing, received, call_if, hear, send_now, open_socket, end_round,
  req_received, req_round, rep_received, rep_polled, rep_reply, worker_at, worker_step, Step,
  sends_message, opens, closes, hears, times, stops, works, Reach, here, next,
}

-- The messages of the calls that send one.
abbrev pub sent : List Event → List Text
sent [] = []
sent (sends msg ∷ es) = msg ∷ sent es
sent (on_message h msg ∷ es) = sent es
sent (on_req_timeout h ∷ es) = sent es

-- The first list comes from the second by leaving elements out.
pub data Sublist : List Text → List Text → Type 0 where
  done : Sublist [] []
  kept : {x : Text} {xs ys : List Text} → Sublist xs ys → Sublist (x ∷ xs) (x ∷ ys)
  left_out : {y : Text} {xs ys : List Text} → Sublist xs ys → Sublist xs (y ∷ ys)

-- The message that waits to be sent, if any.
abbrev pub waiting : Bool → Text → List Text
waiting true msg = msg ∷ []
waiting false msg = []

pub Inv : Service → Type 0
Inv s = Sublist (sent s.events ++ waiting s.to_send s.message_to_send) s.accepted

sent-append : (es fs : List Event) → sent (es ++ fs) ≡ sent es ++ sent fs
sent-append [] fs = refl
sent-append (sends msg ∷ es) fs = ap (λ l. msg ∷ l) (sent-append es fs)
sent-append (on_message h msg ∷ es) fs = sent-append es fs
sent-append (on_req_timeout h ∷ es) fs = sent-append es fs

Sublist-nil : (ys : List Text) → Sublist [] ys
Sublist-nil [] = done
Sublist-nil (y ∷ ys) = left_out (Sublist-nil ys)

-- The end of the shorter list left out.
Sublist-shorten :
    {ws ys : List Text} (xs zs : List Text) → Sublist ws ys → ws ≡ xs ++ zs → Sublist xs ys
Sublist-shorten {ys = ys} [] zs h e = Sublist-nil ys
Sublist-shorten (x ∷ xs) zs done e = cc
Sublist-shorten (x ∷ xs) zs (kept {x = y} {xs = ws} {ys = ys} h) e =
    let same : y ≡ x = cc in
    subst (λ v. Sublist (v ∷ xs) (y ∷ ys)) same (kept (Sublist-shorten xs zs h (cc)))
Sublist-shorten (x ∷ xs) zs (left_out h) e = left_out (Sublist-shorten (x ∷ xs) zs h e)

Sublist-grow :
    {xs ys : List Text} (z : Text) → Sublist xs ys → Sublist (xs ++ z ∷ []) (ys ++ z ∷ [])
Sublist-grow z done = kept done
Sublist-grow z (kept h) = kept (Sublist-grow z h)
Sublist-grow z (left_out h) = left_out (Sublist-grow z h)

drops-Inv : (s : Service) (w : Worker) → Inv s → Inv (record s { to_send = false; worker = w })
unfolding Inv
drops-Inv s w v =
    subst (λ l. Sublist l s.accepted) (sym (append-nil (sent s.events)))
      (Sublist-shorten (sent s.events) (waiting s.to_send s.message_to_send) v refl)

call_if-Inv :
    (h : Option Handler) (f : Handler → Event) (s : Service)
    → ((k : Handler) → sent (f k ∷ []) ≡ [])
    → Inv s
    → Inv (call_if h f s)
unfolding Inv call_if
call_if-Inv none f s silent v = v
call_if-Inv (some h) f s silent v =
    subst (λ l. Sublist (l ++ waiting s.to_send s.message_to_send) s.accepted)
      (sym (
        sent-append s.events (f h ∷ [])
        ∙ ap (λ l. sent s.events ++ l) (silent h)
        ∙ append-nil (sent s.events)))
      v

hear-Inv : (r : Option Text) (s : Service) → Inv s → Inv (hear r s)
unfolding hear
hear-Inv none s v = v
hear-Inv (some msg) s v = call_if-Inv s.on_message_func (λ h. on_message h msg) s (λ k. refl) v

send_now-Inv : (s : Service) → s.to_send ≡ true → Inv s → Inv (send_now s)
unfolding Inv send_now
send_now-Inv s t v = ground (
  arith,
  v,
  sent-append s.events (sends s.message_to_send ∷ []),
  append-nil (sent s.events ++ s.message_to_send ∷ []),
)

end_round-Inv :
    (reset : Bool) (w : Worker) (a : Answers) (s : Service) → Inv s → Inv (end_round reset w a s)
unfolding Inv end_round
end_round-Inv reset w a s v = ground (arith, v)

req_received-Inv : (r : Received) (a : Answers) (s : Service) → Inv s → Inv (req_received r a s)
unfolding req_received
req_received-Inv nothing a s v =
    end_round-Inv true waiting_send a (call_if s.on_req_timeout_func on_req_timeout s)
      (call_if-Inv s.on_req_timeout_func on_req_timeout s (λ k. refl) v)
req_received-Inv (received r) a s v = end_round-Inv false waiting_send a (hear r s) (hear-Inv r s v)

at-Inv : (w : Worker) (s : Service) → Inv s → Inv (record s { worker = w })
unfolding Inv
at-Inv w s v = v

if-Inv : (b : Bool) (s t : Service) → (b ≡ true → Inv s) → Inv t → Inv (if b then s else t)
if-Inv true s t v w = v refl
if-Inv false s t v w = w

exchange-Inv :
    (x : Option Received) (s : Service) (f : Received → Service)
    → Inv s
    → ((r : Received) → Inv (f r))
    → Inv (elim x [ none ↦ s | some r ↦ f r ])
exchange-Inv none s f v w = v
exchange-Inv (some r) s f v w = w r

req_round-Inv : (a : Answers) (s : Service) → Inv s → Inv (req_round a s)
unfolding req_round
req_round-Inv a s v =
    if-Inv s.to_send _ _
      (λ t.
        let now = send_now-Inv s t v in
        exchange-Inv a.exchange _ (λ r. req_received r a (send_now s))
          (at-Inv testing (send_now s) now) (λ r. req_received-Inv r a (send_now s) now))
      (end_round-Inv false waiting_send a s v)

rep_received-Inv : (r : Received) (a : Answers) (s : Service) → Inv s → Inv (rep_received r a s)
unfolding rep_received
rep_received-Inv nothing a s v = end_round-Inv false polling a s v
rep_received-Inv (received r) a s v = drops-Inv (hear r s) waiting_reply (hear-Inv r s v)

rep_polled-Inv : (a : Answers) (s : Service) → Inv s → Inv (rep_polled a s)
unfolding rep_polled
rep_polled-Inv a s v =
    exchange-Inv a.exchange _ (λ r. rep_received r a s) (at-Inv testing s v)
      (λ r. rep_received-Inv r a s v)

rep_reply-Inv : (a : Answers) (s : Service) → Inv s → Inv (rep_reply a s)
unfolding rep_reply
rep_reply-Inv a s v =
    if-Inv s.to_send _ _
      (λ t.
        let now = send_now-Inv s t v in
        exchange-Inv a.exchange _ (λ r. end_round false polling a (send_now s))
          (at-Inv testing (send_now s) now) (λ r. end_round-Inv false polling a (send_now s) now))
      (end_round-Inv false polling a s v)

open_socket-Inv :
    (w : Worker) (a : Answers) (s : Service) {s' : Service}
    → Inv s
    → open_socket w a s ≡ some s'
    → Inv s'
unfolding Inv open_socket
open_socket-Inv w a s v h = ground (arith, v)

worker_at-Inv :
    (rep : Bool) (w : Worker) (a : Answers) (s : Service) {s' : Service}
    → Inv s
    → worker_at rep w a s ≡ some s'
    → Inv s'
unfolding worker_at
worker_at-Inv rep testing a s v h = ground (arith, at-Inv waiting_open s v, at-Inv exited s v)
worker_at-Inv rep waiting_open a s v h =
    open_socket-Inv (if rep then polling else waiting_send) a s v h
worker_at-Inv rep waiting_send a s v h = ground (arith, req_round-Inv a s v)
worker_at-Inv rep polling a s v h = ground (arith, rep_polled-Inv a s v)
worker_at-Inv rep waiting_reply a s v h = ground (arith, rep_reply-Inv a s v)
worker_at-Inv rep exited a s v h = cc

Step-Inv : (rep : Bool) {s s' : Service} → Step rep s s' → Inv s → Inv s'
unfolding Inv send_message begin_open begin_close set_on_message set_on_req_timeout deactivate
    worker_step
Step-Inv rep {s} (sends_message msg h) v = ground (
  arith,
  Sublist-grow msg (Sublist-shorten (sent s.events) (waiting s.to_send s.message_to_send) v refl),
)
Step-Inv rep {s} opens v = ground (arith, v)
Step-Inv rep {s} closes v = ground (arith, v)
Step-Inv rep {s} (hears h) v = v
Step-Inv rep {s} (times h) v = v
Step-Inv rep {s} stops v = v
Step-Inv rep {s} (works a h) v = worker_at-Inv rep s.worker a s v h

Reach-Inv : (rep : Bool) {s : Service} → Reach rep new s → Inv s
unfolding Inv new
Reach-Inv rep here = done
Reach-Inv rep (next r st) = Step-Inv rep st (Reach-Inv rep r)

-- In every state that the threads can reach from a new service with a request or a reply socket:
-- the messages that the worker sent, followed by the one that waits to be sent, if any, are
-- messages that `sendMessage` accepted, in the order in which it did and none of them twice.
pub sent-accepted :
    (rep : Bool) {s : Service}
    → Reach rep new s
    → Sublist (sent s.events ++ waiting s.to_send s.message_to_send) s.accepted
unfolding Inv
sent-accepted rep r = Reach-Inv rep r
