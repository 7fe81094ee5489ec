-- ===== src/Command/Service.antt =====
-- The registry of commands (CommandService/CommandService.cpp). A command that another component
-- registers is known by a number; what it does is a parameter.
use shapeware.Base.{
  ℕ, zero, suc, ◌-◌, Bool, true, false, [], ◌∷◌, ◌++◌, Option, none, some, length, is_some, not,
}
use shapeware.Text.{Text, codes, text_order}
use shapeware.StdMap.{StdMap, find, insert, erase}

pub data ICommand : Type 0 where
  help : ICommand  -- HelpCommand
  quit : ICommand  -- QuitCommand
  other : ℕ → ICommand

-- What `doCmd` returns, or the text of the exception that it throws.
pub data Reply : Type 0 where
  answer : Text → Reply
  exception : Text → Reply

-- The commands of other components: `doCmd` and `getHelp`.
pub record Others : Type 0 where
  pub do_other : ℕ → Text → Reply
  pub get_other_help : ℕ → Text

pub record CommandService : Type 0 where
  pub commands : StdMap Text ICommand
  pub default_cmd : Option ICommand
  pub quit_flg : Bool

unfoldable pub new : CommandService
new = record { commands = []; default_cmd = none; quit_flg = false }

-- The service, and whether the name was free.
unfoldable pub add_command : Text → ICommand → CommandService → CommandService × Bool
add_command name cmd s =
    (record s { commands = insert name cmd s.commands }, not (is_some (find name s.commands)))

-- The service, and whether the name was registered.
unfoldable pub remove_command : Text → CommandService → CommandService × Bool
remove_command name s =
    (record s { commands = erase name s.commands }, is_some (find name s.commands))

unfoldable pub find_command : Text → CommandService → Option ICommand
find_command name s = find name s.commands

unfoldable pub get_default_command : CommandService → Option ICommand
get_default_command s = s.default_cmd

unfoldable pub set_quit : CommandService → CommandService
set_quit s = record s { quit_flg = true }

unfoldable pub is_quiting : CommandService → Bool
is_quiting s = s.quit_flg

unfoldable pub activate : CommandService → CommandService
unfolding add_command
activate s =
    let s' = record s { default_cmd = some help } in
    (add_command (codes "q") quit (add_command (codes "h") help s').0).0

abbrev pub spaces : ℕ → Text
spaces zero = []
spaces (suc n) = b' ' ∷ spaces n

module _ (others : Others) where
  unfoldable pub get_help : ICommand → Text
  get_help help = codes "for help"
  get_help quit = codes "for quit"
  get_help (other n) = others.get_other_help n

  -- `std::left << std::setw(10) << name << help << std::endl`
  unfoldable pub help_line : Text → ICommand → Text
  unfolding get_help
  help_line name cmd = name ++ (spaces (10 - length name) ++ (get_help cmd ++ 10 ∷ []))

  unfoldable pub help_text : StdMap Text ICommand → Text
  unfolding help_line
  help_text [] = []
  help_text ((name, cmd) ∷ m) = help_line name cmd ++ help_text m

  -- `doCmd`: the reply, and the service after it. `QuitCommand` also raises SIGINT.
  unfoldable pub do_cmd : ICommand → Text → CommandService → Reply × CommandService
  unfolding help_text set_quit
  do_cmd help params s = (answer (help_text s.commands), s)
  do_cmd quit params s = (answer (codes "quit command invoked"), set_quit s)
  do_cmd (other n) params s = (others.do_other n params, s)
