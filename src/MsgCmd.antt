-- ===== src/MsgCmd.antt =====
-- The example components MsgCmd (examples/MsgCmd/MsgCmd.cpp), a command that sends a text or a file by
-- the message service, and MsgCmdEcho (examples/MsgCmdEcho/MsgCmdEcho.cpp), which sends back what it
-- gets. Echo and Typed put them together with the services that they use.
pub mod Laws
pub mod Typed
pub mod Echo
pub mod Duplex
pub mod Tests
use shapeware.Base.{
  ℕ, ◌-◌, ◌==◌, Bool, true, false, List, [], ◌∷◌, ◌++◌, Option, none, some, if◌then◌else◌, length,
}
use shapeware.Text.{Text, codes, text_eq, is_empty}
use shapeware.Command.Service.{CommandService, other, add_command, remove_command, spaces}
use shapeware.Command.Line.{is_space, take_word}
use shapeware.MqMessage.Service.{Service, Handler, set_message_handler}

-- The services that MsgCmd is attached to, by number; none is a null pointer.
pub record Imp : Type 0 where
  pub launch_service : Option ℕ
  pub message_service : Option ℕ
  pub command_service : Option ℕ

unfoldable pub new : Imp
new = record { launch_service = none; message_service = none; command_service = none }

unfoldable pub attach_command_service : ℕ → Imp → Imp
attach_command_service iface i = record i { command_service = some iface }

unfoldable pub attach_message_service : ℕ → Imp → Imp
attach_message_service iface i = record i { message_service = some iface }

unfoldable pub attach_launch_service : ℕ → Imp → Imp
attach_launch_service iface i = record i { launch_service = some iface }

-- The pointer after a `detachInterface`: null if it was the interface.
abbrev pub detached : ℕ → Option ℕ → Option ℕ
detached iface none = none
detached iface (some i) = if i == iface then none else some i

unfoldable pub detach_command_service : ℕ → Imp → Imp
detach_command_service iface i = record i { command_service = detached iface i.command_service }

unfoldable pub detach_message_service : ℕ → Imp → Imp
detach_message_service iface i = record i { message_service = detached iface i.message_service }

unfoldable pub detach_launch_service : ℕ → Imp → Imp
detach_launch_service iface i = record i { launch_service = detached iface i.launch_service }

-- `activate` of MsgCmd, whose command is known by the number `n` and its message handler by `h`.
unfoldable pub activate : ℕ → Handler → CommandService → Service → CommandService × Service
activate n h cs s = ((add_command (codes "c") (other n) cs).0, set_message_handler (some h) s)

unfoldable pub deactivate : CommandService → Service → CommandService × Service
deactivate cs s = ((remove_command (codes "c") cs).0, set_message_handler none s)

-- What stands behind the first word.
unfoldable pub drop_word : Text → Text
drop_word [] = []
drop_word (c ∷ s) = if is_space c then c ∷ s else drop_word s

-- `istr >> word`: the word, nothing where there is none left, and the rest.
unfoldable pub next_word : Text → Text × Text
unfolding take_word drop_word
next_word [] = ([], [])
next_word (c ∷ s) =
    let skipped = next_word s in
    if is_space c then skipped else (take_word (c ∷ s), drop_word (c ∷ s))

-- `std::left << std::setw(15) << name << help << std::endl`
unfoldable pub usage_line : Text → Text → Text
usage_line name help = name ++ (spaces (15 - length name) ++ (help ++ 10 ∷ []))

unfoldable pub usage : Text
unfolding usage_line
usage =
    usage_line (codes "c h") (codes "show help")
    ++ (usage_line (codes "c f file") (codes "send content of file")
        ++ (usage_line (codes "c t \"text\"") (codes "send text") ++ 10 ∷ []))

abbrev pub get_help : Text
get_help = codes "to communicate with msg. Type c h for help"

-- The content of the file of a name, where it can be opened, and `PAR(fname)` of the shape framework.
module _ (open_file : Text → Option Text) (par : Text → Text) where
  -- What `doCmd` answers, and the messages that it sends.
  send_content : Text → Option Text → Text × List Text
  send_content fname none = (codes "Cannot open: " ++ par fname, [])
  send_content fname (some content) =
      if is_empty content then (codes "Empty file: " ++ par fname, []) else ([], content ∷ [])

  send_text : Text → Text × List Text
  send_text text = if is_empty text then (codes "Add text to send", []) else ([], text ∷ [])

  unfoldable pub do_cmd : Text → Text × List Text
  unfolding next_word usage send_content send_text
  do_cmd params =
      let (cmd, rest) = next_word params in
      let (subcmd, args) = next_word rest in
      let arg = (next_word args).0 in
      if text_eq subcmd (codes "h")
      then (usage, [])
      else if text_eq subcmd (codes "f")
      then send_content arg (open_file arg)
      else if text_eq subcmd (codes "t")
      then send_text arg
      else (codes "usage: " ++ 10 ∷ usage, [])
