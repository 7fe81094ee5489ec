-- ===== src/Command/Laws.antt =====
-- What the registry and the command line promise (CommandService/CommandService.cpp,
-- CommandLineService/CommandLineService.cpp).
use shapeware.Base.{
  ◌≡◌, refl, sym, ap, ◌∙◌, true, List, [], ◌∷◌, ◌++◌, some, arith, append_assoc, Bool-cases, inl,
  inr, if◌then◌else◌, false,
}
use shapeware.Text.{Text, codes, text_order, is_empty}
use shapeware.StdMap.{StdMap, find, insert, same, IsOrdered}
use shapeware.StdMap.Laws.{same_iff, find-insert, insert-IsOrdered}
use shapeware.Command.Service.{
  ICommand, help, quit, answer, Others, CommandService, new, add_command, find_command, set_quit,
  is_quiting, activate, help_line, help_text, do_cmd,
}
use shapeware.Command.Line.{
  Input, prompt, result, newline, first_word, run_line, run_thd, inputs_after_deactivate,
}

unfoldable pub add_all : List (Text × ICommand) → CommandService → CommandService
add_all [] s = s
add_all ((name, cmd) ∷ cs) s = add_all cs (add_command name cmd s).0

add_all-keeps :
    (cs : List (Text × ICommand)) (s : CommandService) (k : Text) (c : ICommand)
    → IsOrdered s.commands
    → find_command k s ≡ some c
    → find_command k (add_all cs s) ≡ some c
unfolding add_all find_command add_command
add_all-keeps [] s k c h e = e
add_all-keeps ((name, cmd) ∷ cs) s k c h e =
    add_all-keeps cs (record s { commands = insert name cmd s.commands }) k c
      (insert-IsOrdered name cmd s.commands h)
      (ground (arith, find-insert k name cmd s.commands h, same_iff k name))

-- Whatever commands are added after the activation of a new service, in any order and under any
-- names: `q` stays the quit command and `h` the help command.
quit_survives :
    (cs : List (Text × ICommand))
    → (find_command (codes "q") (add_all cs (activate new)) ≡ some quit)
      × (find_command (codes "h") (add_all cs (activate new)) ≡ some help)
unfolding activate new
quit_survives cs = (
  add_all-keeps cs _ (codes "q") quit
      (insert-IsOrdered (codes "q") quit _ (insert-IsOrdered (codes "h") help [] tt))
      (unfold find_command insert find in refl),
  add_all-keeps cs _ (codes "h") help
      (insert-IsOrdered (codes "q") quit _ (insert-IsOrdered (codes "h") help [] tt))
      (unfold find_command insert find in refl),
)

module _ (others : Others) where
  help_text-lists :
      (k : Text) (c : ICommand) (m : StdMap Text ICommand)
      → find k m ≡ some c
      → (before after : Text) × (help_text others m ≡ before ++ (help_line others k c ++ after))
  unfolding find help_text
  help_text-lists k c [] e = cc
  help_text-lists k c ((j, d) ∷ m) e = elim (Bool-cases (same k j)) [
    | inl eq ↦ ([], help_text others m, ground (arith, same_iff k j))
    | inr ne ↦
        let (before, after, p) = help_text-lists k c m (ground arith) in
        (
          help_line others j d ++ before,
          after,
          ap (λ t. help_line others j d ++ t) p
              ∙ sym (append_assoc (help_line others j d) before (help_line others k c ++ after)),
        )
  ]

  -- The answer of the help command contains, for every command that is found under a name, the line
  -- of that name with the help of that command, and the answer leaves the service as it was.
  help-lists_commands :
      (k params : Text) (c : ICommand) (s : CommandService)
      → find_command k s ≡ some c
      → (before after : Text) × (do_cmd others help params s
          ≡ (answer (before ++ (help_line others k c ++ after)), s))
  unfolding find_command do_cmd
  help-lists_commands k params c s e =
      let (before, after, p) = help_text-lists k c s.commands e in
      (before, after, ap (λ t. (answer t, s)) p)

  -- When the first word of a line that is not empty names the quit command, and the service is not
  -- quitting, the stream is not at its end and the thread is to run, then the loop shows the answer
  -- of the command, reads no further line whatever follows, and leaves the service quitting.
  pub quit_ends_loop :
      (i j : Input) (rest : List Input) (s : CommandService)
      → i.run_thd_flg ≡ true
      → j.run_thd_flg ≡ true
      → i.stream_ended ≡ false
      → is_empty i.cmd_line ≡ false
      → is_quiting s ≡ false
      → find_command (first_word i.cmd_line) s ≡ some quit
      → run_thd others (i ∷ j ∷ rest) s
        ≡ (prompt ∷ result (codes "quit command invoked") ∷ newline ∷ [], set_quit s)
  unfolding run_thd run_line is_quiting set_quit do_cmd
  quit_ends_loop i j rest s hi hj he hn hq f = ground arith

  -- When `deactivate` clears the flag while the thread waits for a line, the thread runs this one
  -- line as ever, and reads no other, whatever follows: so `deactivate`, which joins it, waits until
  -- the line is typed.
  deactivate_runs_line :
      (i j : Input) (rest : List Input) (s : CommandService)
      → is_quiting s ≡ false
      → i.stream_ended ≡ false
      → is_empty i.cmd_line ≡ false
      → let (out, ends, s') = run_line others i.cmd_line s in
        run_thd others (inputs_after_deactivate i (j ∷ rest)) s
        ≡ (if ends then (prompt ∷ out, s') else (prompt ∷ (out ++ newline ∷ []), s'))
  unfolding run_thd inputs_after_deactivate
  deactivate_runs_line i j rest s q e n = ground arith
