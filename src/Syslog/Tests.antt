-- ===== src/Syslog/Tests.antt =====
-- Runs of the logger to syslog (SyslogLogger/SyslogLogger.cpp).
use shapeware.Base.{◌≡◌, refl, false, not, List, [], ◌∷◌, none, some, if◌then◌else◌}
use shapeware.Base.Int.{pos, int_less}
use shapeware.Text.{codes, text_eq}
use shapeware.StdMap.{find, assign}
use shapeware.StdMap.Keys.{int_order}
use shapeware.Syslog.{
  Logger, Levels, Verbosity, new, logs, prints, is_valid, base_name, message_text, write_msg,
  set_levels, set_level, modify,
}
use shapeware.Syslog.Laws.{bound_after, modify-is_valid}

abbrev two_levels : Levels
two_levels = record {
  str2enum = λ name.
      if text_eq name (codes "ERR")
      then some (pos 0)
      else if text_eq name (codes "DBG")
      then some (pos 3)
      else none;
  int2str = λ level. codes "{ERR}";
  number = λ line. codes "7";
  missing_member = codes "missing";
  unknown_level = λ name. codes "unknown";
}

abbrev entries : List Verbosity
entries =
    record { channel = some (pos 0); level = some (codes "ERR") }
    ∷ record { channel = some (pos 0); level = some (codes "DBG") }
    ∷ record { channel = some (pos 1); level = none }
    ∷ record { channel = some (pos 2); level = some (codes "DBG") }
    ∷ []

abbrev logger : Logger
logger = new ((pos 0, pos 3) ∷ [])

shows_message :
    (write_msg two_levels
      (pos 0)
      (pos 0)
      (codes "m")
      (codes "a/b.cpp")
      (pos 7)
      (codes "f")
      (codes "hello")
      (modify two_levels (some (some entries)) logger)).events
    ≡ prints (codes "missing") ∷ logs (pos 3) (codes "[{ERR}] m.b.cpp:f():7 hello") ∷ []
unfolding write_msg find modify assign new is_valid base_name message_text set_levels set_level
shows_message = refl

modify-is_valid_example :
    is_valid (pos 2) (pos 0) (modify two_levels (some (some entries)) logger)
    ≡ elim (bound_after two_levels (pos 0) entries (find (pos 0) logger.trace_level_map)) [
      | none ↦ false
      | some bound ↦ not (int_less bound (pos 2))
    ]
modify-is_valid_example = modify-is_valid two_levels entries (pos 2) (pos 0) logger
