-- ===== src/MsgCmd/Duplex/Order.antt =====
-- What MsgCmd gets back is what was sent, in its order, with at most one notice for each way
-- (examples/MsgCmd/MsgCmd.cpp, examples/MsgCmdEcho/MsgCmdEcho.cpp).
use shapeware.Base.{◌≡◌, ◌⊎◌, List, ◌++◌, some}
use shapeware.Text.{Text}
use shapeware.MqMessage.Service.{Service, Handler}
use shapeware.MqMessage.Channel.{Channel}
use shapeware.MqMessage.Channel.Written.{IsNoted}
use shapeware.Base.Sub.{Sub}
use shapeware.MsgCmd.Duplex.Effects.{got, accepted, gone, handler}
use shapeware.MsgCmd.Duplex.{Duplex}

-- One way: what was read and what waits in the queue of the system are what was put into it.
abbrev Carried : List Text → List Text → List Text → Type 0
Carried received waiting put = received ++ waiting ≡ put

-- Both handlers are registered, MsgCmdEcho has sent what it got, and both ways are carried.
pub record IsCarried (h k : Handler) (d : Duplex) : Type 0 where
  pub near_handler : handler d.near ≡ some h
  pub far_handler : handler d.far ≡ some k
  pub echoed : accepted d.far ≡ got d.far
  pub out : Carried (got d.far) d.to_far (gone d.near)
  pub back : Carried (got d.near) d.to_near (gone d.far)

-- What arrives of what was sent: some of it, in its order, with at most one notice among it.
pub record Arrives (received sent : List Text) : Type 0 where
  pub with_notice : List Text
  pub noted : (with_notice ≡ sent) ⊎ IsNoted sent with_notice
  pub some_of : Sub received with_notice
