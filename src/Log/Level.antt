-- ===== src/Log/Level.antt =====
-- The levels and the events of src/log.cpp and include/log.h.
use idc.Prelude.{Bytes, ℕ, ℤ, Bool, leb, ◌≡◌, refl, if◌then◌else◌}
use idc.Text.{codes, equal}

-- LogLevel::Level
pub data LogLevel : Type 0 where
  unknow debug info warn error fatal : LogLevel

unfoldable pub rank : LogLevel → ℕ
rank unknow = 0
rank debug = 1
rank info = 2
rank warn = 3
rank error = 4
rank fatal = 5

-- `level >= m_level`
unfoldable pub is_enabled : LogLevel → LogLevel → Bool
unfolding rank
is_enabled m_level level = leb (rank m_level) (rank level)

-- LogLevel::ToString
unfoldable pub level_to_string : LogLevel → Bytes
level_to_string unknow = codes "UNKNOW"
level_to_string debug = codes "DEBUG"
level_to_string info = codes "INFO"
level_to_string warn = codes "WARN"
level_to_string error = codes "ERROR"
level_to_string fatal = codes "FATAL"

-- LogLevel::FromString
unfoldable pub level_from_string : Bytes → LogLevel
unfolding equal
level_from_string str =
    if equal str (codes "debug")
    then debug
    else if equal str (codes "info")
    then info
    else if equal str (codes "warn")
    then warn
    else if equal str (codes "error")
    then error
    else if equal str (codes "fatal")
    then fatal
    else if equal str (codes "DEBUG")
    then debug
    else if equal str (codes "INFO")
    then info
    else if equal str (codes "WARN")
    then warn
    else if equal str (codes "ERROR")
    then error
    else if equal str (codes "FATAL")
    then fatal
    else unknow

-- LogEvent. `logger_name` is the name of the logger that it was made for, `content` what m_ss holds.
pub record LogEvent : Type 0 where
  pub file : Bytes
  pub line : ℤ
  pub elapse : ℕ
  pub thread_id : ℕ
  pub fiber_id : ℕ
  pub time : ℕ
  pub thread_name : Bytes
  pub content : Bytes
  pub logger_name : Bytes
  pub event_level : LogLevel

level_from_string-level_to_string :
    (level : LogLevel) → level_from_string (level_to_string level) ≡ level
unfolding level_from_string level_to_string
level_from_string-level_to_string unknow = refl
level_from_string-level_to_string debug = refl
level_from_string-level_to_string info = refl
level_from_string-level_to_string warn = refl
level_from_string-level_to_string error = refl
level_from_string-level_to_string fatal = refl
