-- ===== src/ZeroMq/Config.antt =====
-- `modify` and `activate` of the ZeroMQ service (ZeroMqService/ZeroMqService.cpp). The conversion
-- of the name of a socket type, a template of the shape framework, is a parameter.
use shapeware.Base.{Bool, true, false, [], Option, none, some}
use shapeware.Base.Int.{ℤ, pos}
use shapeware.Text.{Text, codes}
use shapeware.StdMap.Laws.{or_value}
use shapeware.Properties.{Properties}

-- `zmq::socket_type`
pub data SocketType : Type 0 where
  req : SocketType
  rep : SocketType
  another : SocketType

pub record Settings : Type 0 where
  pub socket_adr : Text
  pub socket_type_str : Text
  pub socket_type : Option SocketType  -- none before it is first set
  pub reply_wait_millis : ℤ

abbrev pub default_settings : Settings
default_settings = record {
  socket_adr = [];
  socket_type_str = [];
  socket_type = none;
  reply_wait_millis = pos 2000;
}

module _ (str2enum : Text → SocketType) where
  unfoldable pub modify : Properties → Settings → Settings
  modify props c =
      let type_str = or_value (props.member_as_string (codes "socketType")) c.socket_type_str in
      record {
        socket_adr = or_value (props.member_as_string (codes "socketAdr")) c.socket_adr;
        socket_type_str = type_str;
        socket_type = some (str2enum type_str);
        reply_wait_millis =
            or_value (props.member_as_int (codes "replyWaitMillis")) c.reply_wait_millis;
      }

  -- The worker that a socket type gets: that of a reply socket, where true.
  worker_of : SocketType → Option Bool
  worker_of rep = some true
  worker_of req = some false
  worker_of another = none

  -- The settings, and the worker thread that is started.
  unfoldable pub activate : Properties → Settings → Settings × Option Bool
  unfolding modify worker_of
  activate props c =
      let c' = modify props c in (c', elim c'.socket_type [ none ↦ none | some t ↦ worker_of t ])
