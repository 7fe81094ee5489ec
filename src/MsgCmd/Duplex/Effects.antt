-- ===== src/MsgCmd/Duplex/Effects.antt =====
-- What each step leaves of a message service (MqMessageService/MqMessageService.cpp,
-- examples/MsgCmdEcho/MsgCmdEcho.cpp).
use shapeware.Base.{
  ℕ, ◌≡◌, refl, sym, ap, ◌∙◌, Bool, false, List, [], ◌∷◌, ◌++◌, Option, none, some, arith,
  append-nil,
}
use shapeware.Text.{Text, codes}
use shapeware.TaskQueue.{push_to_queue, stop_queue}
use shapeware.MqMessage.Service.{Handler, opens_read, closes, call_handler, broken, deactivate}
use shapeware.MqMessage.Laws.{
  heard, written, heard-append, written-append, send_to-events, call_handler-events,
}
use shapeware.MqMessage.Channel.{
  Channel, send_message, worker_turn, begin_read, listener_opens, listener_reads, shut_down,
}
use shapeware.MqMessage.Channel.Written.{listener_opens-queue, listener_reads-queue}
use shapeware.MqMessage.Channel.Open.{worker_turn-goes_out}
use shapeware.MsgCmd.Echo.{echoes, works-kept, broken-kept, broken-heard}
use shapeware.MsgCmd.Duplex.{delivered, taken, notice}

-- The messages that the handler of a service was called with, those that its queue accepted, and
-- those that it put into the remote queue.
abbrev pub got : Channel → List Text
got c = heard c.service.events

abbrev pub accepted : Channel → List Text
accepted c = c.to_mq_message_queue.accepted

abbrev pub gone : Channel → List Text
gone c = written c.service.events

abbrev pub handler : Channel → Option Handler
handler c = c.service.message_handler_func

-- What a step leaves of a service: its handler and the three lists.
pub record Leaves (c d : Channel) (heard_more accepted_more written_more : List Text) : Type 0 where
  pub same_handler : handler d ≡ handler c
  pub got_more : got d ≡ got c ++ heard_more
  pub accepts_more : accepted d ≡ accepted c ++ accepted_more
  pub writes_more : gone d ≡ gone c ++ written_more

pub send-Leaves : (m : Text) (c : Channel) → Leaves c (send_message m c) [] (m ∷ []) []
unfolding send_message push_to_queue
send-Leaves m c = record {
  same_handler = refl;
  got_more = sym (append-nil (got c));
  accepts_more = refl;
  writes_more = sym (append-nil (gone c));
}

pub works-Leaves :
    (opened : Option ℕ) (wrote : Bool) (c d : Channel)
    → worker_turn opened wrote c ≡ some d
    → Leaves c d [] [] (delivered opened wrote (taken c) c)
works-Leaves opened wrote c d e =
    let (same, hs, as_before) = works-kept opened wrote c d e in
    record {
      same_handler = same;
      got_more = hs ∙ sym (append-nil (got c));
      accepts_more = as_before ∙ sym (append-nil (accepted c));
      writes_more = worker_turn-goes_out opened wrote c d e;
    }

opens-service :
    (local : Option ℕ) (c : Channel)
    → (handler (listener_opens local c) ≡ handler c)
      × (got (listener_opens local c) ≡ got c)
      × (gone (listener_opens local c) ≡ gone c)
unfolding listener_opens begin_read
opens-service local c =
    let es = opens_read c.service.local_mq_name ∷ [] in
    ground (
      arith,
      heard-append c.service.events es,
      written-append c.service.events es,
      append-nil (heard c.service.events),
      append-nil (written c.service.events),
    )

pub opens-Leaves : (local : Option ℕ) (c : Channel) → Leaves c (listener_opens local c) [] [] []
opens-Leaves local c =
    let (same, hs, ws) = opens-service local c in
    record {
      same_handler = same;
      got_more = hs ∙ sym (append-nil (got c));
      accepts_more =
          ap (λ q. q.accepted) (listener_opens-queue local c) ∙ sym (append-nil (accepted c));
      writes_more = ws ∙ sym (append-nil (gone c));
    }

reads-service :
    (h : Handler) (m : Text) (c : Channel)
    → handler c ≡ some h
    → (handler (listener_reads (some m) none false c) ≡ handler c)
      × (got (listener_reads (some m) none false c) ≡ got c ++ m ∷ [])
      × (gone (listener_reads (some m) none false c) ≡ gone c)
unfolding listener_reads begin_read call_handler
reads-service h m c e = ground (arith, call_handler-events h m c.service)

pub reads-Leaves :
    (h : Handler) (m : Text) (c : Channel)
    → handler c ≡ some h
    → Leaves c (listener_reads (some m) none false c) (m ∷ []) [] []
reads-Leaves h m c e =
    let (same, hs, ws) = reads-service h m c e in
    let queue = listener_reads-queue (some m) none false c in
    record {
      same_handler = same;
      got_more = hs;
      accepts_more = ap (λ q. q.accepted) queue ∙ sym (append-nil (accepted c));
      writes_more = ws ∙ sym (append-nil (gone c));
    }

pub echoes-Leaves :
    (h : Handler) (m : Text) (c : Channel)
    → handler c ≡ some h
    → Leaves c (echoes (some m) none false c) (m ∷ []) (m ∷ []) []
unfolding echoes send_message push_to_queue
echoes-Leaves h m c e =
    let r = reads-Leaves h m c e in
    record {
      same_handler = r.same_handler;
      got_more = r.got_more;
      accepts_more = ap (λ l. l ++ m ∷ []) (r.accepts_more ∙ append-nil (accepted c));
      writes_more = r.writes_more;
    }

pub breaks-Leaves :
    (opened : Option ℕ) (wrote : Bool) (c : Channel)
    → Leaves c (listener_reads none opened wrote c) [] [] (delivered opened wrote notice c)
unfolding listener_reads broken
breaks-Leaves opened wrote c = record {
  same_handler = broken-kept opened wrote c.service;
  got_more = broken-heard opened wrote c.service ∙ sym (append-nil (got c));
  accepts_more = sym (append-nil (accepted c));
  writes_more = (send_to-events opened wrote (codes "Remote broken") c.service).2;
}

pub shuts_down-Leaves : (c : Channel) → Leaves c (shut_down c) [] [] []
unfolding shut_down deactivate stop_queue
shuts_down-Leaves c =
    let s = c.service in
    let es = closes s.remote_mq_handle ∷ closes s.local_mq_handle ∷ [] in
    record {
      same_handler = refl;
      got_more = heard-append s.events es;
      accepts_more = sym (append-nil (accepted c));
      writes_more = written-append s.events es;
    }
