-- ===== src/Log/Config.antt =====
-- The configuration of the loggers in src/log.cpp: the definitions that are read, and the listener that
-- LogIniter adds for them. A std::set of definitions is the list of its elements, which have different
-- names, in their order.
pub mod Applied
use idc.Prelude.{
  Bytes, ℕ, zero, suc, ◌+◌, Bool, true, false, not, ◌&&◌, List, [], ◌∷◌, ◌++◌, Option, none, some,
  Result, ok, fault, ◌>>=◌, bad_access, if◌then◌else◌, ltb, ◌==◌, put,
}
use idc.Text.{equal, is_empty}
use idc.Log.Level.{LogLevel, rank, unknow}
use idc.Log.Formatter.{make_formatter}
use idc.Log.Logger.{
  LogAppender, Logger, Loggers, make_stdout_appender, make_file_appender, set_appender_formatter,
  allocate, add_appender, clear_appenders, set_level, set_pattern, get_logger,
}

-- `kind` is the member `type`.
pub record LogAppenderDefine : Type 0 where
  pub kind : ℕ
  pub level : LogLevel
  pub formatter : Bytes
  pub file : Bytes

pub record LogDefine : Type 0 where
  pub name : Bytes
  pub level : LogLevel
  pub formatter : Bytes
  pub appenders : List LogAppenderDefine

-- operator== of both
unfoldable pub equal_appender : LogAppenderDefine → LogAppenderDefine → Bool
unfolding equal rank
equal_appender a oth =
    a.kind == oth.kind
    && (rank a.level == rank oth.level
        && (equal a.formatter oth.formatter && equal a.file oth.file))

unfoldable pub equal_appenders : List LogAppenderDefine → List LogAppenderDefine → Bool
unfolding equal_appender
equal_appenders [] [] = true
equal_appenders [] (b ∷ others) = false
equal_appenders (a ∷ rest) [] = false
equal_appenders (a ∷ rest) (b ∷ others) = equal_appender a b && equal_appenders rest others

unfoldable pub equal_define : LogDefine → LogDefine → Bool
unfolding equal rank equal_appenders
equal_define d oth =
    equal d.name oth.name
    && (rank d.level == rank oth.level
        && (equal d.formatter oth.formatter && equal_appenders d.appenders oth.appenders))

-- operator< and isValid of LogDefine
unfoldable pub less_text : Bytes → Bytes → Bool
less_text s [] = false
less_text [] (d ∷ ds) = true
less_text (c ∷ cs) (d ∷ ds) = if c == d then less_text cs ds else ltb c d

unfoldable pub less_define : LogDefine → LogDefine → Bool
unfolding less_text
less_define d oth = less_text d.name oth.name

unfoldable pub is_valid : LogDefine → Bool
is_valid d = not (is_empty d.name)

-- find of the set: neither definition is before the other.
unfoldable pub find_define : LogDefine → List LogDefine → Option LogDefine
unfolding less_define
find_define d [] = none
find_define d (oth ∷ defines) =
    if not (less_define d oth) && not (less_define oth d) then some oth else find_define d defines

module _ (can_open : Bytes → Bool) where
  -- The appender that the listener makes; `ap` is null for another type.
  unfoldable pub make_appender : LogAppenderDefine → Option LogAppender
  unfolding make_file_appender make_stdout_appender
  make_appender a =
      if a.kind == 1
      then some (make_file_appender can_open a.file)
      else if a.kind == 2
      then some make_stdout_appender
      else none

  unfoldable pub configure : LogAppenderDefine → LogAppender → LogAppender
  unfolding make_formatter set_appender_formatter
  configure a ap =
      let leveled = record ap { level = a.level } in
      let fmt = make_formatter a.formatter in
      if is_empty a.formatter
      then leveled
      else if fmt.is_error
      then leveled
      else set_appender_formatter (some fmt) leveled

  -- The loop over the appenders of a definition.
  unfoldable pub add_defined : Loggers → ℕ → List LogAppenderDefine → Result Loggers
  unfolding make_appender configure allocate add_appender
  add_defined w l [] = ok w
  add_defined w l (a ∷ rest) = elim (make_appender a) [
    | none ↦ fault bad_access
    | some ap ↦
        let (p, w') = allocate w (configure a ap) in add_defined (add_appender w' l p) l rest
  ]

  -- A definition that is new or has changed.
  unfoldable pub apply_define : Loggers → LogDefine → Result Loggers
  unfolding get_logger set_level set_pattern clear_appenders add_defined
  apply_define w i =
      let (l, w₁) = get_logger w i.name in
      let w₂ = set_level w₁ l i.level in
      let w₃ = if is_empty i.formatter then w₂ else set_pattern w₂ l i.formatter in
      add_defined (clear_appenders w₃ l) l i.appenders

  -- The loop over the new definitions.
  unfoldable pub apply_defines : Loggers → List LogDefine → List LogDefine → Result Loggers
  unfolding find_define equal_define apply_define
  apply_defines w old_value [] = ok w
  apply_defines w old_value (i ∷ new_value) = elim (find_define i old_value) [
    | none ↦ apply_define w i >>= λ w'. apply_defines w' old_value new_value
    | some it ↦ elim (equal_define i it) [
      | true ↦ apply_defines w old_value new_value
      | false ↦ apply_define w i >>= λ w'. apply_defines w' old_value new_value
    ]
  ]

  -- The loop over the old definitions.
  unfoldable pub drop_defines : Loggers → List LogDefine → List LogDefine → Loggers
  unfolding find_define get_logger set_level clear_appenders
  drop_defines w [] new_value = w
  drop_defines w (i ∷ old_value) new_value = elim (find_define i new_value) [
    | some it ↦ drop_defines w old_value new_value
    | none ↦
        let (l, w') = get_logger w i.name in
        drop_defines (clear_appenders (set_level w' l unknow) l) old_value new_value
  ]

  -- The listener, whose own line in the log is left out.
  unfoldable pub on_logger_conf_changed : Loggers → List LogDefine → List LogDefine → Result Loggers
  unfolding apply_defines drop_defines
  on_logger_conf_changed w old_value new_value =
      apply_defines w old_value new_value >>= λ w'. ok (drop_defines w' old_value new_value)
