-- ===== src/Syslog.antt =====
-- The logger to syslog (SyslogLogger/SyslogLogger.cpp). The levels of the trace framework are numbers;
-- its conversions of levels and the calls of the system are parameters and events.
pub mod Laws
pub mod Tests
use shapeware.Base.{
  ℕ, ◌==◌, Bool, true, false, ◌||◌, not, List, [], ◌∷◌, ◌++◌, Option, none, some, if◌then◌else◌,
}
use shapeware.Base.Int.{ℤ, pos, int_less}
use shapeware.Text.{Text, codes, is_empty}
use shapeware.StdMap.{StdMap, find, assign}
use shapeware.StdMap.Keys.{int_order}
use shapeware.StdMap.Laws.{or_value}

-- What is called of the system: `openlog`, and `syslog` with a priority and a text.
pub data Event : Type 0 where
  opens_log : Event
  logs : ℤ → Text → Event
  prints : Text → Event

pub record Logger : Type 0 where
  pub trace_level_map : StdMap ℤ ℤ
  pub trace_syslog_level_map : StdMap ℤ ℤ
  pub events : List Event

-- The conversions of the framework: the number of a level's name, none where it throws, the name of
-- a number, the text of a number, and the texts of the exceptions for a member that cannot be read
-- and for a name that is no level.
pub record Levels : Type 0 where
  pub str2enum : Text → Option ℤ
  pub int2str : ℤ → Text
  pub number : ℤ → Text
  pub missing_member : Text
  pub unknown_level : Text → Text

-- An entry of `VerbosityLevels`: its members, each where the macro of the framework that reads it
-- does not throw.
pub record Verbosity : Type 0 where
  pub channel : Option ℤ
  pub level : Option Text

-- The priorities of `syslog` for the levels of errors, warnings, information and debugging, by the
-- numbers that the framework gives these levels.
unfoldable pub new : StdMap ℤ ℤ → Logger
new priorities = record { trace_level_map = []; trace_syslog_level_map = priorities; events = [] }

-- `it->second >= level`
unfoldable pub is_valid : ℤ → ℤ → Logger → Bool
is_valid level chan l = elim (find chan l.trace_level_map) [
  | none ↦ false
  | some bound ↦ not (int_less bound level)
]

abbrev pub is_separator : ℕ → Bool
is_separator c = c == b'/' || c == b'\\'

abbrev pub has_separator : Text → Bool
has_separator [] = false
has_separator (c ∷ s) = is_separator c || has_separator s

-- `sourceFile` without what stands up to its last separator.
unfoldable pub base_name : Text → Text
base_name [] = []
base_name (c ∷ s) =
    let shorter = base_name s in
    if has_separator (c ∷ s) then (if has_separator s then shorter else s) else c ∷ s

module _ (levels : Levels) where
  unfoldable pub message_text : ℤ → Text → Text → ℤ → Text → Text → Text
  message_text level module_name source_file source_line func_name msg =
      (b'[' ∷ levels.int2str level)
      ++ (codes "] "
          ++ ((if is_empty module_name then [] else module_name ++ b'.' ∷ [])
              ++ (base_name source_file
                  ++ (b':' ∷ func_name)
                  ++ (codes "():" ++ (levels.number source_line ++ b' ' ∷ msg)))))

  -- `operator[]` of the map puts 0 for a level that it does not have.
  unfoldable pub write_msg : ℤ → ℤ → Text → Text → ℤ → Text → Text → Logger → Logger
  unfolding is_valid message_text
  write_msg level channel module_name source_file source_line func_name msg l =
      let text = message_text level module_name source_file source_line func_name msg in
      let priority = or_value (find level l.trace_syslog_level_map) (pos 0) in
      if is_valid level channel l
      then record l {
        trace_syslog_level_map = elim (find level l.trace_syslog_level_map) [
          | none ↦ assign level (pos 0) l.trace_syslog_level_map
          | some p ↦ l.trace_syslog_level_map
        ];
        events = l.events ++ logs priority text ∷ [];
      }
      else l

  -- One round of the loop of `modify`: the map, or the text of what it throws.
  unfoldable pub set_level : Verbosity → StdMap ℤ ℤ → Option Text × StdMap ℤ ℤ
  set_level v m = elim v.channel [
    | none ↦ (some levels.missing_member, m)
    | some channel ↦ elim v.level [
      | none ↦ (some levels.missing_member, m)
      | some name ↦ elim (levels.str2enum name) [
        | none ↦ (some (levels.unknown_level name), m)
        | some level ↦ (none, assign channel level m)
      ]
    ]
  ]

  unfoldable pub set_levels : List Verbosity → StdMap ℤ ℤ → Option Text × StdMap ℤ ℤ
  unfolding set_level
  set_levels [] m = (none, m)
  set_levels (v ∷ vs) m =
      let (thrown, m') = set_level v m in
      let rest = set_levels vs m' in elim thrown [ none ↦ rest | some e ↦ (some e, m') ]

  -- `modify` and `activate`: `props` is none for a null pointer, and has the entries where the macro
  -- that reads them does not throw.
  unfoldable pub modify : Option (Option (List Verbosity)) → Logger → Logger
  unfolding set_levels
  modify none l = l
  modify (some none) l = record l { events = l.events ++ prints levels.missing_member ∷ [] }
  modify (some (some vs)) l =
      let (thrown, m) = set_levels vs l.trace_level_map in
      record l {
        trace_level_map = m;
        events = l.events ++ elim thrown [ none ↦ opens_log | some e ↦ prints e ] ∷ [];
      }
