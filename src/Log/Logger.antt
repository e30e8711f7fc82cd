-- ===== src/Log/Logger.antt =====
-- LogAppender, Logger and LoggerManager of src/log.cpp and include/log.h. The objects are shared by
-- pointers, so they stand in a heap: an appender may belong to several loggers. A file is what is
-- written to it; whether it can be opened is an argument, and a write to an open file does not fail.
-- Locks are left out: each operation holds its lock from the start to the end.
pub mod Written
pub mod Dispatch
pub mod Ready
pub mod Reach
use idc.Prelude.{
  Bytes, ℕ, zero, suc, ◌+◌, Bool, true, false, List, [], ◌∷◌, ◌++◌, Option, none, some, Result, ok,
  fault, ◌>>=◌, bad_access, exhausted, if◌then◌else◌, leb, ◌==◌, add64, put,
}
use idc.Text.{codes, equal}
use idc.Log.Level.{LogLevel, LogEvent, debug, info, warn, error, fatal, is_enabled}
use idc.Log.Formatter.{LogFormatter, make_formatter, format}

-- StdoutLogAppender, and FileLogAppender with m_filename.
pub data Target : Type 0 where
  stdout : Target
  to_file : Bytes → Target

-- `is_open` is whether m_filestream is good.
pub record LogAppender : Type 0 where
  pub target : Target
  pub level : LogLevel
  pub formatter : Option LogFormatter
  pub has_formatter : Bool
  pub last_time : ℕ
  pub is_open : Bool

-- `appenders` and `root` are addresses.
pub record Logger : Type 0 where
  pub name : Bytes
  pub level : LogLevel
  pub appenders : List ℕ
  pub formatter : Option LogFormatter
  pub root : Option ℕ

-- The objects, the addresses that are not used yet, and the map of LoggerManager, with its root at 0.
pub record Loggers : Type 0 where
  pub appenders : ℕ → LogAppender
  pub next_appender : ℕ
  pub loggers : ℕ → Logger
  pub next_logger : ℕ
  pub names : List (Bytes × ℕ)

-- What is written, and where.
pub record Output : Type 0 where
  pub target : Target
  pub text : Bytes

unfoldable pub make_logger : Bytes → Logger
unfolding make_formatter
make_logger name = record {
  name = name;
  level = debug;
  appenders = [];
  formatter =
      some (make_formatter (codes "%d{%Y-%m-%d %H:%M:%S}%T%t%T%N%T%F%T[%p]%T[%c]%T%f:%l%T%m%n"));
  root = none;
}

unfoldable pub make_stdout_appender : LogAppender
make_stdout_appender = record {
  target = stdout;
  level = debug;
  formatter = none;
  has_formatter = false;
  last_time = 0;
  is_open = true;
}

-- LogAppender::setFormatter
unfoldable pub set_appender_formatter : Option LogFormatter → LogAppender → LogAppender
set_appender_formatter none a = record a { formatter = none; has_formatter = false }
set_appender_formatter (some val) a = record a { formatter = some val; has_formatter = true }

-- A new object of an appender class
unfoldable pub allocate : Loggers → LogAppender → ℕ × Loggers
allocate w a = (
  w.next_appender,
  record w { appenders = put w.appenders w.next_appender a; next_appender = w.next_appender + 1 },
)

-- Logger::addAppender
unfoldable pub add_appender : Loggers → ℕ → ℕ → Loggers
add_appender w l p = record w {
  appenders = elim ((w.appenders p).formatter) [
    | none ↦ put w.appenders p (record (w.appenders p) { formatter = (w.loggers l).formatter })
    | some f ↦ w.appenders
  ];
  loggers =
      put w.loggers l (record (w.loggers l) { appenders = (w.loggers l).appenders ++ (p ∷ []) });
}

-- The loop of Logger::delAppender.
unfoldable pub erase_first : ℕ → List ℕ → List ℕ
erase_first p [] = []
erase_first p (q ∷ qs) = if q == p then qs else q ∷ erase_first p qs

unfoldable pub del_appender : Loggers → ℕ → ℕ → Loggers
unfolding erase_first
del_appender w l p = record w {
  loggers =
      put w.loggers l (record (w.loggers l) { appenders = erase_first p (w.loggers l).appenders });
}

unfoldable pub clear_appenders : Loggers → ℕ → Loggers
clear_appenders w l = record w {
  loggers = put w.loggers l (record (w.loggers l) { appenders = [] });
}

unfoldable pub set_level : Loggers → ℕ → LogLevel → Loggers
set_level w l val = record w { loggers = put w.loggers l (record (w.loggers l) { level = val }) }

-- The loop of Logger::setFormatter.
unfoldable pub share_formatter : Option LogFormatter → List ℕ → (ℕ → LogAppender) → ℕ → LogAppender
share_formatter val [] heap = heap
share_formatter val (p ∷ ps) heap =
    share_formatter val ps
      (if (heap p).has_formatter then heap else put heap p (record (heap p) { formatter = val }))

unfoldable pub set_formatter : Loggers → ℕ → Option LogFormatter → Loggers
unfolding share_formatter
set_formatter w l val = record w {
  appenders = share_formatter val (w.loggers l).appenders w.appenders;
  loggers = put w.loggers l (record (w.loggers l) { formatter = val });
}

-- setFormatter with a pattern
unfoldable pub set_pattern : Loggers → ℕ → Bytes → Loggers
unfolding make_formatter set_formatter
set_pattern w l val =
    let new_val = make_formatter val in
    if new_val.is_error then w else set_formatter w l (some new_val)

-- m_loggers.find
unfoldable pub find_logger : Bytes → List (Bytes × ℕ) → Option ℕ
unfolding equal
find_logger name [] = none
find_logger name ((key, l) ∷ names) = if equal key name then some l else find_logger name names

-- LoggerManager::getLogger
unfoldable pub get_logger : Loggers → Bytes → ℕ × Loggers
unfolding find_logger make_logger
get_logger w name = elim (find_logger name w.names) [
  | some l ↦ (l, w)
  | none ↦ (
    w.next_logger,
    record w {
      loggers = put w.loggers w.next_logger (record (make_logger name) { root = some 0 });
      next_logger = w.next_logger + 1;
      names = (name, w.next_logger) ∷ w.names;
    },
  )
]

-- The constructor of LoggerManager, in a heap where nothing else is, before it adds the appender. The
-- root's name is "root".
unfoldable pub start_loggers : Loggers
unfolding make_logger make_stdout_appender
start_loggers = record {
  appenders = λ p. make_stdout_appender;
  next_appender = 1;
  loggers = λ l. make_logger (codes "root");
  next_logger = 1;
  names = (codes "root", 0) ∷ [];
}

unfoldable pub make_loggers : Loggers
unfolding start_loggers add_appender
make_loggers = add_appender start_loggers 0 0

module _ (can_open : Bytes → Bool) where
  -- The constructor of FileLogAppender, with reopen.
  unfoldable pub make_file_appender : Bytes → LogAppender
  make_file_appender filename = record {
    target = to_file filename;
    level = debug;
    formatter = none;
    has_formatter = false;
    last_time = 0;
    is_open = can_open filename;
  }

  module _ (strftime : Bytes → ℕ → Bytes) where
    -- FileLogAppender::log behind its test of the level. The stream of `format` is tested after it.
    unfoldable pub log_file :
        Bytes → LogAppender → LogLevel → LogEvent → Result (LogAppender × List Output)
    unfolding format
    log_file filename a level event =
        let opened =
          if leb (add64 a.last_time 3) event.time
          then record a { is_open = can_open filename; last_time = event.time }
          else a in
        elim a.formatter [
          | none ↦ fault bad_access
          | some f ↦ ok (
            opened,
            (if opened.is_open
                  then record {
                    target = to_file filename;
                    text = format strftime f.items level event;
                  }
                  else record { target = stdout; text = codes "error\n" })
                ∷ [],
          )
        ]

    -- StdoutLogAppender::log behind its test of the level.
    unfoldable pub log_stdout :
        LogAppender → LogLevel → LogEvent → Result (LogAppender × List Output)
    unfolding format
    log_stdout a level event = elim a.formatter [
      | none ↦ fault bad_access
      | some f ↦ ok (a, record { target = stdout; text = format strftime f.items level event } ∷ [])
    ]

    -- The virtual LogAppender::log.
    unfoldable pub log_appender :
        LogAppender → LogLevel → LogEvent → Result (LogAppender × List Output)
    unfolding is_enabled log_file log_stdout
    log_appender a level event =
        if is_enabled a.level level
        then elim a.target [
          | stdout ↦ log_stdout a level event
          | to_file filename ↦ log_file filename a level event
        ]
        else ok (a, [])

    -- The loop of Logger::log.
    unfoldable pub log_appenders :
        List ℕ → (ℕ → LogAppender) → LogLevel → LogEvent → Result ((ℕ → LogAppender) × List Output)
    unfolding log_appender
    log_appenders [] heap level event = ok (heap, [])
    log_appenders (p ∷ ps) heap level event = do
      (a, line) ← log_appender (heap p) level event
      (heap', lines) ← log_appenders ps (put heap p a) level event
      ok (heap', line ++ lines)

    -- Logger::log. Each round goes to m_root; the root has none, so fuel 2 is enough.
    unfoldable pub log_loop : ℕ → Loggers → ℕ → LogLevel → LogEvent → Result (Loggers × List Output)
    unfolding is_enabled log_appenders
    log_loop zero w l level event = fault exhausted
    log_loop (suc fuel) w l level event = elim (is_enabled (w.loggers l).level level) [
      | false ↦ ok (w, [])
      | true ↦ elim ((w.loggers l).appenders) [
        | p ∷ ps ↦ log_appenders (p ∷ ps) w.appenders level event >>= λ (heap, lines).
            ok (record w { appenders = heap }, lines)
        | [] ↦ elim ((w.loggers l).root) [
          | none ↦ ok (w, [])
          | some r ↦ log_loop fuel w r level event
        ]
      ]
    ]

    unfoldable pub log : Loggers → ℕ → LogLevel → LogEvent → Result (Loggers × List Output)
    unfolding log_loop
    log w l level event = log_loop 2 w l level event

    unfoldable pub log_debug : Loggers → ℕ → LogEvent → Result (Loggers × List Output)
    unfolding log
    log_debug w l event = log w l debug event

    unfoldable pub log_info : Loggers → ℕ → LogEvent → Result (Loggers × List Output)
    unfolding log
    log_info w l event = log w l info event

    unfoldable pub log_warn : Loggers → ℕ → LogEvent → Result (Loggers × List Output)
    unfolding log
    log_warn w l event = log w l warn event

    unfoldable pub log_error : Loggers → ℕ → LogEvent → Result (Loggers × List Output)
    unfolding log
    log_error w l event = log w l error event

    unfoldable pub log_fatal : Loggers → ℕ → LogEvent → Result (Loggers × List Output)
    unfolding log
    log_fatal w l event = log w l fatal event

    -- The destructor of LogEventWrap, for an event of the logger at `l`.
    unfoldable pub log_wrapped : Loggers → ℕ → LogEvent → Result (Loggers × List Output)
    unfolding log
    log_wrapped w l event = log w l event.event_level event
