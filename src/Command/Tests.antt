-- ===== src/Command/Tests.antt =====
-- Runs of the command line (CommandLineService/CommandLineService.cpp).
use shapeware.Base.{◌≡◌, refl, true, false, [], ◌∷◌}
use shapeware.Text.{Text, codes, text_order}
use shapeware.StdMap.{find, insert}
use shapeware.Command.Service.{answer, Others, new, find_command, is_quiting, set_quit, activate}
use shapeware.Command.Line.{Input, prompt, result, newline, first_word, run_thd}
use shapeware.Command.Laws.{quit_ends_loop}

abbrev others : Others
others = record { do_other = λ n line. answer line; get_other_help = λ n. codes "for others" }

abbrev typed : Text → Input
typed line = record { run_thd_flg = true; cmd_line = line; stream_ended = false }

quit_ends_loop_example :
    run_thd others (typed (codes " q now") ∷ typed (codes "h") ∷ []) (activate new)
    ≡ (prompt ∷ result (codes "quit command invoked") ∷ newline ∷ [], set_quit (activate new))
unfolding is_quiting find_command activate new find insert first_word
quit_ends_loop_example =
    quit_ends_loop others (typed (codes " q now")) (typed (codes "h")) [] (activate new) refl refl
      refl refl refl refl
