-- ===== src/Command/Line.antt =====
-- The loop of the command line (CommandLineService/CommandLineService.cpp).
use shapeware.Base.{
  ℕ, Bool, true, false, ◌||◌, ◌&&◌, List, [], ◌∷◌, ◌++◌, none, some, Option, if◌then◌else◌, ◌==◌,
  leb,
}
use shapeware.Text.{Text, is_empty}
use shapeware.Command.Service.{
  Reply, answer, exception, Others, CommandService, find_command, get_default_command, is_quiting,
  do_cmd,
}

-- What the loop meets in one round: whether `m_runThdFlg` is still set, the line that `getline`
-- reads, and whether the stream then has a state bit set, as at its end.
pub record Input : Type 0 where
  pub run_thd_flg : Bool
  pub cmd_line : Text
  pub stream_ended : Bool

-- What is written to the terminal.
pub data Output : Type 0 where
  prompt : Output
  result : Text → Output
  failure : Text → Output
  unknown_command : Text → Output
  newline : Output
  aborted : Text → Output  -- an exception that nothing catches

-- The white space of the C locale.
abbrev pub is_space : ℕ → Bool
is_space c = c == 32 || (leb 9 c && leb c 13)

unfoldable pub take_word : Text → Text
take_word [] = []
take_word (c ∷ s) = if is_space c then [] else c ∷ take_word s

-- `istr >> cmdStr`: the first word, or nothing on a blank line.
unfoldable pub first_word : Text → Text
unfolding take_word
first_word [] = []
first_word (c ∷ s) = if is_space c then first_word s else take_word (c ∷ s)

-- A command that is found runs inside `try`; the default command does not, so that an exception of
-- it ends the program.
abbrev pub found_output : Reply → Output
found_output (answer t) = result t
found_output (exception t) = failure t

abbrev pub default_output : Reply → Output
default_output (answer t) = result t
default_output (exception t) = aborted t

abbrev pub throws : Reply → Bool
throws (answer t) = false
throws (exception t) = true

module _ (others : Others) where
  -- One line that is not empty: the output, whether the program ends, and the service. `doCmd` gets
  -- the whole line.
  unfoldable pub run_line : Text → CommandService → List Output × Bool × CommandService
  run_line line s = elim (find_command (first_word line) s) [
    | some cmd ↦ let (reply, s') = do_cmd others cmd line s in (found_output reply ∷ [], false, s')
    | none ↦ elim (get_default_command s) [
      | none ↦ (unknown_command (first_word line) ∷ [], false, s)
      | some cmd ↦
          let (reply, s') = do_cmd others cmd line s in
          (unknown_command (first_word line) ∷ default_output reply ∷ [], throws reply, s')
    ]
  ]

  -- `runThd`, over what its rounds meet; the list is what is still to come.
  unfoldable pub run_thd : List Input → CommandService → List Output × CommandService
  run_thd [] s = ([], s)
  run_thd (i ∷ is) s =
      let skipped = run_thd is s in
      let (out, ends, s') = run_line i.cmd_line s in
      let ran = run_thd is s' in
      if i.run_thd_flg
      then (if is_quiting s
          then (newline ∷ [], s)
          else if i.stream_ended
          then (prompt ∷ newline ∷ [], s)
          else if is_empty i.cmd_line
          then (prompt ∷ skipped.0, skipped.1)
          else if ends
          then (prompt ∷ out, s')
          else (prompt ∷ (out ++ ran.0), ran.1))
      else (newline ∷ [], s)

-- The members of the command line service: the registry that it is attached to, by number, its flag,
-- and whether its thread was started and not joined.
pub record LineService : Type 0 where
  pub command_service : Option ℕ
  pub run_thd_flg : Bool
  pub joinable : Bool

unfoldable pub activate : LineService → LineService
activate s = record s { run_thd_flg = true; joinable = true }

-- `deactivate` up to its join, and what it leaves when the thread has returned.
unfoldable pub begin_deactivate : LineService → LineService
begin_deactivate s = record s { run_thd_flg = false }

unfoldable pub deactivated : LineService → LineService
deactivated s = record s { joinable = false }

unfoldable pub attach_interface : ℕ → LineService → LineService
attach_interface iface s = record s { command_service = some iface }

unfoldable pub detach_interface : ℕ → LineService → LineService
detach_interface iface s = elim s.command_service [
  | none ↦ s
  | some i ↦ if i == iface then record s { command_service = none } else s
]

-- What the loop meets when `deactivate` clears the flag while the thread waits for the line `i`: the
-- flag is tested only after that line.
unfoldable pub inputs_after_deactivate : Input → List Input → List Input
inputs_after_deactivate i [] = record i { run_thd_flg = true } ∷ []
inputs_after_deactivate i (j ∷ rest) =
    record i { run_thd_flg = true } ∷ record j { run_thd_flg = false } ∷ rest
