-- ===== src/MqMessage/Channel/Listening.antt =====
-- The steps of the listening thread are its loop (MqMessageService/MqMessageService.cpp).
use shapeware.Base.{◌≡◌, refl, true, Bool, List, [], ◌∷◌, ◌++◌, Option, none, some, arith, ℕ}
use shapeware.Text.{Text}
use shapeware.MqMessage.Service.{
  Service, opens_read, send_to, connect, listen, read_loop, broken, call_handler,
}
use shapeware.MqMessage.Channel.{
  Listener, opening, reading, finished, Channel, begin_read, listener_opens, listener_reads,
}

module _ (opened : Option ℕ) (wrote : Bool) where
  -- The listening thread alone over what its reads bring, as long as it reads.
  abbrev pub if_reads : Listener → Channel → Channel → Channel
  if_reads reading c d = d
  if_reads opening c d = c
  if_reads finished c d = c

  pub listen_steps : List (Option Text) → Channel → Channel
  listen_steps [] c = c
  listen_steps (r ∷ rs) c =
      let rest = listen_steps rs (listener_reads r opened wrote c) in if_reads c.listener c rest

  listen_steps-finished :
      (rs : List (Option Text)) (c : Channel) → c.listener ≡ finished → listen_steps rs c ≡ c
  unfolding listen_steps
  listen_steps-finished [] c e = refl
  listen_steps-finished (r ∷ rs) c e = rw e refl

  broken-state :
      (s : Service) → broken opened wrote (record s { state = true }) ≡ broken opened wrote s
  unfolding broken send_to connect
  broken-state s = ground arith

  begin_read-read_loop :
      (rs : List (Option Text)) (c : Channel)
      → (listen_steps rs (begin_read c)).service ≡ read_loop rs opened wrote c.service
  unfolding begin_read read_loop listen_steps listener_reads
  begin_read-read_loop [] c = ground arith
  begin_read-read_loop (none ∷ rs) c =
      let d = record c { service = record c.service { state = true }; listener = reading } in
      ground (
        arith,
        broken-state c.service,
        listen_steps-finished rs (listener_reads none opened wrote d) refl,
      )
  begin_read-read_loop (some m ∷ rs) c =
      let s = call_handler c.service.message_handler_func m (record c.service { state = true }) in
      ground (arith, begin_read-read_loop rs (record c { service = s; listener = reading }))

  -- Whatever the reads bring, the listening thread, step by step from its start, leaves the service
  -- as its loop does in one go, also where it is not to run and where the queue cannot be opened.
  listen_steps-listen :
      (local : Option ℕ) (rs : List (Option Text)) (c : Channel)
      → (listen_steps rs (listener_opens local c)).service ≡ listen local rs opened wrote c.service
  unfolding listener_opens listen
  listen_steps-listen local rs c =
      let s = record c.service {
        local_mq_handle = local;
        events = c.service.events ++ opens_read c.service.local_mq_name ∷ [];
      } in
      ground (
        arith,
        begin_read-read_loop rs (record c { service = s }),
        listen_steps-finished rs (listener_opens local c),
        listener_opens,
      )
