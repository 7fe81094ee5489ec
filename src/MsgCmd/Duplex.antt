-- ===== src/MsgCmd/Duplex.antt =====
-- MsgCmd and MsgCmdEcho connected by two message services, as examples/MsgCmd/README.md sets them up:
-- `near` is the service of MsgCmd, `far` that of MsgCmdEcho, and each writes to the queue that the
-- other reads (MqMessageService/MqMessageService.cpp). A queue of the system gives its messages in
-- the order of the writes that succeeded.
pub mod Effects
pub mod Order
use shapeware.Base.{
  ℕ, ◌≡◌, Bool, true, false, List, [], ◌∷◌, ◌++◌, Option, none, some, if◌then◌else◌,
}
use shapeware.Text.{Text, codes}
use shapeware.TaskQueue.Delivery.{in_flight}
use shapeware.MqMessage.Service.{Service, Handler, set_message_handler, goes_out}
use shapeware.MqMessage.Channel.{
  Channel, opening, reading, started, send_message, worker_turn, listener_opens, listener_reads,
  shut_down,
}
use shapeware.MsgCmd.Echo.{echoes}

pub record Duplex : Type 0 where
  pub near : Channel
  pub far : Channel
  pub to_far : List Text
  pub to_near : List Text

-- Both services after their activation, with the handlers of MsgCmd and MsgCmdEcho registered.
unfoldable pub connected : Handler → Handler → Service → Service → Duplex
connected h k s t = record {
  near = started (set_message_handler (some h) s);
  far = started (set_message_handler (some k) t);
  to_far = [];
  to_near = [];
}

-- What a `sendTo` of some messages, none or one, puts into the queue that `c` writes to.
abbrev pub delivered : Option ℕ → Bool → List Text → Channel → List Text
delivered opened wrote messages c = if goes_out opened wrote c.service then messages else []

abbrev pub taken : Channel → List Text
taken c = in_flight c.to_mq_message_queue.worker

abbrev pub notice : List Text
notice = codes "Remote broken" ∷ []

pub data DuplexStep (d : Duplex) : Duplex → Type 0 where
  types : (msg : Text) → DuplexStep d (record d { near = send_message msg d.near })
  near_works :
      (opened : Option ℕ) (wrote : Bool) {c : Channel}
      → worker_turn opened wrote d.near ≡ some c
      → DuplexStep d
          (record d { near = c; to_far = d.to_far ++ delivered opened wrote (taken d.near) d.near })
  far_works :
      (opened : Option ℕ) (wrote : Bool) {c : Channel}
      → worker_turn opened wrote d.far ≡ some c
      → DuplexStep d
          (record d { far = c; to_near = d.to_near ++ delivered opened wrote (taken d.far) d.far })
  near_opens :
      (local : Option ℕ)
      → d.near.listener ≡ opening
      → DuplexStep d (record d { near = listener_opens local d.near })
  far_opens :
      (local : Option ℕ)
      → d.far.listener ≡ opening
      → DuplexStep d (record d { far = listener_opens local d.far })
  near_reads :
      (msg : Text) (rest : List Text)
      → d.near.listener ≡ reading
      → d.to_near ≡ msg ∷ rest
      → DuplexStep d
          (record d { near = listener_reads (some msg) none false d.near; to_near = rest })
  far_reads :
      (msg : Text) (rest : List Text)
      → d.far.listener ≡ reading
      → d.to_far ≡ msg ∷ rest
      → DuplexStep d (record d { far = echoes (some msg) none false d.far; to_far = rest })
  near_breaks :
      (opened : Option ℕ) (wrote : Bool)
      → d.near.listener ≡ reading
      → DuplexStep d (record d {
        near = listener_reads none opened wrote d.near;
        to_far = d.to_far ++ delivered opened wrote notice d.near;
      })
  far_breaks :
      (opened : Option ℕ) (wrote : Bool)
      → d.far.listener ≡ reading
      → DuplexStep d (record d {
        far = echoes none opened wrote d.far;
        to_near = d.to_near ++ delivered opened wrote notice d.far;
      })
  near_shuts_down : DuplexStep d (record d { near = shut_down d.near })
  far_shuts_down : DuplexStep d (record d { far = shut_down d.far })

pub data DuplexReach (d : Duplex) : Duplex → Type 0 where
  duplex_here : DuplexReach d d
  duplex_next : {e f : Duplex} → DuplexReach d e → DuplexStep e f → DuplexReach d f
