-- ===== src/MqMessage/Laws.antt =====
-- What the listening thread delivers and what it writes (MqMessageService/MqMessageService.cpp).
use shapeware.Base.{
  ℕ, ◌≡◌, refl, ap, Bool, true, false, List, [], ◌∷◌, ◌++◌, Option, none, some, append_assoc,
  append-nil, arith, if◌then◌else◌,
}
use shapeware.Base.Sub.{Sub, nothing, keeps, drops}
use shapeware.Text.{Text, codes}
use shapeware.MqMessage.Service.{
  Handler, Event, opens_read, opens_write, closes, writes, calls_handler, Service, is_ready,
  connect, goes_out, send_to, read_loop, listen,
}

-- The messages that the handler was called with.
abbrev pub heard : List Event → List Text
heard [] = []
heard (calls_handler h message ∷ es) = message ∷ heard es
heard (_ ∷ es) = heard es

-- The messages that `writeMq` was called with.
abbrev pub tried : List Event → List Text
tried [] = []
tried (writes handle message ok ∷ es) = message ∷ tried es
tried (_ ∷ es) = tried es

-- The messages that went into the remote queue.
abbrev pub written : List Event → List Text
written [] = []
written (writes handle message true ∷ es) = message ∷ written es
written (_ ∷ es) = written es

abbrev pub good_reads : List Text → List (Option Text)
good_reads [] = []
good_reads (m ∷ ms) = some m ∷ good_reads ms

pub heard-append : (es fs : List Event) → heard (es ++ fs) ≡ heard es ++ heard fs
heard-append [] fs = refl
heard-append (calls_handler h message ∷ es) fs = ap (λ l. message ∷ l) (heard-append es fs)
heard-append (opens_read n ∷ es) fs = heard-append es fs
heard-append (opens_write n ∷ es) fs = heard-append es fs
heard-append (closes h ∷ es) fs = heard-append es fs
heard-append (writes h m ok ∷ es) fs = heard-append es fs

pub tried-append : (es fs : List Event) → tried (es ++ fs) ≡ tried es ++ tried fs
tried-append [] fs = refl
tried-append (calls_handler h message ∷ es) fs = tried-append es fs
tried-append (opens_read n ∷ es) fs = tried-append es fs
tried-append (opens_write n ∷ es) fs = tried-append es fs
tried-append (closes h ∷ es) fs = tried-append es fs
tried-append (writes h m ok ∷ es) fs = ap (λ l. m ∷ l) (tried-append es fs)

pub written-append : (es fs : List Event) → written (es ++ fs) ≡ written es ++ written fs
written-append [] fs = refl
written-append (calls_handler h message ∷ es) fs = written-append es fs
written-append (opens_read n ∷ es) fs = written-append es fs
written-append (opens_write n ∷ es) fs = written-append es fs
written-append (closes h ∷ es) fs = written-append es fs
written-append (writes h m true ∷ es) fs = ap (λ l. m ∷ l) (written-append es fs)
written-append (writes h m false ∷ es) fs = written-append es fs

pub written-Sub-tried : (es : List Event) → Sub (written es) (tried es)
written-Sub-tried [] = nothing
written-Sub-tried (calls_handler h message ∷ es) = written-Sub-tried es
written-Sub-tried (opens_read n ∷ es) = written-Sub-tried es
written-Sub-tried (opens_write n ∷ es) = written-Sub-tried es
written-Sub-tried (closes h ∷ es) = written-Sub-tried es
written-Sub-tried (writes h m true ∷ es) = keeps (written-Sub-tried es)
written-Sub-tried (writes h m false ∷ es) = drops (written-Sub-tried es)

written-one :
    (h : Option ℕ) (m : Text) (ok : Bool)
    → written (writes h m ok ∷ []) ≡ (if ok then m ∷ [] else [])
written-one h m true = refl
written-one h m false = refl

connect-events :
    (opened : Option ℕ) (s : Service)
    → (tried (connect opened s).events ≡ tried s.events)
      × (heard (connect opened s).events ≡ heard s.events)
      × (written (connect opened s).events ≡ written s.events)
unfolding connect
connect-events opened s =
    let es = closes s.remote_mq_handle ∷ opens_write s.remote_mq_name ∷ [] in
    ground (
      arith,
      tried-append s.events es,
      heard-append s.events es,
      written-append s.events es,
      append-nil (tried s.events),
      append-nil (heard s.events),
      append-nil (written s.events),
    )

pub send_to-events :
    (opened : Option ℕ) (wrote : Bool) (message : Text) (s : Service)
    → (tried (send_to opened wrote message s).events ≡ tried s.events ++ message ∷ [])
      × (heard (send_to opened wrote message s).events ≡ heard s.events)
      × (written (send_to opened wrote message s).events
          ≡ written s.events ++ (if goes_out opened wrote s then message ∷ [] else []))
unfolding send_to
send_to-events opened wrote message s =
    let c = connect opened s in
    let ok = goes_out opened wrote s in
    let es = writes c.remote_mq_handle message ok ∷ [] in
    ground (
      arith,
      connect-events opened s,
      tried-append c.events es,
      heard-append c.events es,
      written-append c.events es,
      written-one c.remote_mq_handle message ok,
      append-nil (heard c.events),
    )

pub call_handler-events :
    (h : Handler) (message : Text) (s : Service)
    → (heard (s.events ++ calls_handler h message ∷ []) ≡ heard s.events ++ message ∷ [])
      × (tried (s.events ++ calls_handler h message ∷ []) ≡ tried s.events)
      × (written (s.events ++ calls_handler h message ∷ []) ≡ written s.events)
call_handler-events h message s = ground (
  arith,
  heard-append s.events (calls_handler h message ∷ []),
  tried-append s.events (calls_handler h message ∷ []),
  written-append s.events (calls_handler h message ∷ []),
  append-nil (tried s.events),
  append-nil (written s.events),
)

module _ (h : Handler) (opened : Option ℕ) (wrote : Bool) where
  read_loop-heard :
      (msgs : List Text) (s : Service)
      → s.run_listen_thread ≡ true
      → s.message_handler_func ≡ some h
      → let t = read_loop (good_reads msgs) opened wrote s in
        (heard t.events ≡ heard s.events ++ msgs)
        × (tried t.events ≡ tried s.events)
        × (written t.events ≡ written s.events)
        × (is_ready t ≡ true)
  unfolding read_loop is_ready
  read_loop-heard [] s r e = ground (arith, append-nil (heard s.events))
  read_loop-heard (m ∷ msgs) s r e =
      let s' = record s { state = true; events = s.events ++ calls_handler h m ∷ [] } in
      ground (
        arith,
        read_loop-heard msgs s' r e,
        call_handler-events h m s,
        append_assoc (heard s.events) (m ∷ []) msgs,
      )

  read_loop-broken :
      (msgs : List Text) (later : List (Option Text)) (s : Service)
      → s.run_listen_thread ≡ true
      → s.message_handler_func ≡ some h
      → let t = read_loop (good_reads msgs ++ none ∷ later) opened wrote s in
        (heard t.events ≡ heard s.events ++ msgs)
        × (tried t.events ≡ tried s.events ++ codes "Remote broken" ∷ [])
        × (written t.events
            ≡ written s.events
              ++ (if goes_out opened wrote s then codes "Remote broken" ∷ [] else []))
        × (is_ready t ≡ false)
        × (t.run_listen_thread ≡ false)
  unfolding read_loop is_ready
  read_loop-broken [] later s r e =
      ground
        (arith, send_to-events opened wrote (codes "Remote broken") s, append-nil (heard s.events))
  read_loop-broken (m ∷ msgs) later s r e =
      let s' = record s { state = true; events = s.events ++ calls_handler h m ∷ [] } in
      ground (
        arith,
        read_loop-broken msgs later s' r e,
        call_handler-events h m s,
        append_assoc (heard s.events) (m ∷ []) msgs,
      )

  -- When the listening thread is to run, a handler is registered and the system opens the queue for
  -- reading: while the reads bring messages, the handler gets each once and in order, `writeMq` is
  -- not called and the service is ready. When a read then fails, whatever comes later, the handler
  -- got these messages and no other, `writeMq` is called once, with the notice that the remote is
  -- broken, and the notice goes into the remote queue exactly if the queue for writing is open, or
  -- is opened now, and the system takes the write; the service is not ready, and the thread is not
  -- to run.
  pub listen-delivers :
      (s : Service) (local : ℕ) (msgs : List Text) (later : List (Option Text))
      → s.run_listen_thread ≡ true
      → s.message_handler_func ≡ some h
      → let good = listen (some local) (good_reads msgs) opened wrote s in
        let bad = listen (some local) (good_reads msgs ++ none ∷ later) opened wrote s in
        (heard good.events ≡ heard s.events ++ msgs)
        × (tried good.events ≡ tried s.events)
        × (written good.events ≡ written s.events)
        × (is_ready good ≡ true)
        × (heard bad.events ≡ heard s.events ++ msgs)
        × (tried bad.events ≡ tried s.events ++ codes "Remote broken" ∷ [])
        × (written bad.events
            ≡ written s.events
              ++ (if goes_out opened wrote s then codes "Remote broken" ∷ [] else []))
        × (is_ready bad ≡ false)
        × (bad.run_listen_thread ≡ false)
  unfolding listen
  listen-delivers s local msgs later r e =
      let es = opens_read s.local_mq_name ∷ [] in
      let s' = record s { local_mq_handle = some local; events = s.events ++ es } in
      ground (
        arith,
        read_loop-heard msgs s' r e,
        read_loop-broken msgs later s' r e,
        heard-append s.events es,
        tried-append s.events es,
        written-append s.events es,
        append-nil (heard s.events),
        append-nil (tried s.events),
        append-nil (written s.events),
      )
