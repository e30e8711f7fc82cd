-- ===== src/Tests/LogRuns.antt =====
-- Runs of src/log.cpp on small inputs.
use idc.Prelude.{
  Bytes, ℕ, ◌≡◌, refl, Bool, true, false, List, [], ◌∷◌, Returns, inl, inr, pos, put-each,
}
use idc.Text.{codes}
use idc.Log.Level.{LogLevel, LogEvent, debug, info, warn}
use idc.Log.Formatter.{
  FormatItem, message, level, name, thread_id, new_line, date_time, file, line, tab, fiber_id,
  thread_name, literal, make_formatter,
}
use idc.Log.Formatter.Pattern.{pattern_of}
use idc.Log.Formatter.RoundTrip.{make_formatter-pattern_of}
use idc.Log.Logger.{
  Loggers, make_loggers, start_loggers, add_appender, get_logger, stdout, to_file, log,
}
use idc.Log.Logger.Written.{IsReady}
use idc.Log.Logger.Dispatch.{Sent, own_lines, log-sender}
use idc.Log.Logger.Reach.{got, at_start, after, Reachable-IsReady}
use idc.Log.Logger.Ready.{get_logger-IsReady}
use idc.Log.Config.{LogDefine, apply_define}
use idc.Log.Config.Applied.{Added, apply_define-Added}

-- The items of the pattern that a logger starts with.
abbrev default_items : List FormatItem
default_items =
    date_time (codes "%Y-%m-%d %H:%M:%S")
    ∷ tab
    ∷ thread_id
    ∷ tab
    ∷ thread_name
    ∷ tab
    ∷ fiber_id
    ∷ tab
    ∷ literal (codes "[")
    ∷ level
    ∷ literal (codes "]")
    ∷ tab
    ∷ literal (codes "[")
    ∷ name
    ∷ literal (codes "]")
    ∷ tab
    ∷ file
    ∷ literal (codes ":")
    ∷ line
    ∷ tab
    ∷ message
    ∷ new_line
    ∷ []

default_pattern :
    pattern_of default_items ≡ codes "%d{%Y-%m-%d %H:%M:%S}%T%t%T%N%T%F%T[%p]%T[%c]%T%f:%l%T%m%n"
default_pattern = refl

make_formatter-pattern_of_example :
    make_formatter (pattern_of default_items)
    ≡ record { pattern = pattern_of default_items; items = default_items; is_error = false }
make_formatter-pattern_of_example = make_formatter-pattern_of default_items (
  (refl, refl),
  (
    refl,
    (
      refl,
      (
        refl,
        (
          refl,
          (
            refl,
            (
              refl,
              (
                refl,
                (
                  (refl, refl, refl),
                  (
                    refl,
                    (
                      (refl, refl, refl),
                      (
                        refl,
                        (
                          (refl, refl, refl),
                          (
                            refl,
                            (
                              (refl, refl, refl),
                              (
                                refl,
                                (refl, ((refl, refl, refl), (refl, (refl, (refl, (refl, tt)))))),
                              ),
                            ),
                          ),
                        ),
                      ),
                    ),
                  ),
                ),
              ),
            ),
          ),
        ),
      ),
    ),
  ),
)

-- The second '%' of "%%" starts a placeholder.
percent_twice :
    (make_formatter (codes "100%%")).items
    ≡ literal (codes "100%") ∷ literal (codes "<<error_format %>>") ∷ []
unfolding make_formatter
percent_twice = refl

abbrev date_text : Bytes → ℕ → Bytes
date_text fmt time = codes "now"

abbrev opens_all : Bytes → Bool
opens_all f = true

abbrev event : LogEvent
event = record {
  file = codes "main.cpp";
  line = pos 7;
  elapse = 12;
  thread_id = 3;
  fiber_id = 0;
  time = 100;
  thread_name = codes "main";
  content = codes "hello";
  logger_name = codes "system";
  event_level = info;
}

-- A logger "system" that has no appenders.
abbrev with_system : Loggers
with_system = (get_logger make_loggers (codes "system")).1

Reachable-IsReady_example : IsReady with_system
Reachable-IsReady_example =
    Reachable-IsReady with_system
      (after true true make_loggers with_system at_start (got make_loggers (codes "system")))

system-IsReady : IsReady with_system
system-IsReady =
    get_logger-IsReady make_loggers (codes "system") (Reachable-IsReady make_loggers at_start)

all_open : (q : ℕ) → (with_system.appenders q).is_open ≡ true
unfolding get_logger make_loggers start_loggers add_appender
all_open = put-each (λ a. a.is_open ≡ true) start_loggers.appenders 0 _ (λ q. refl) refl

log-sender_example :
    Returns
      (log opens_all date_text with_system 1 info event)
      (Sent with_system (own_lines date_text with_system 0 info event))
unfolding get_logger idc.Log.Level.is_enabled make_loggers
log-sender_example =
    log-sender date_text opens_all (λ f. refl) with_system info event system-IsReady all_open 1

abbrev configured : LogDefine
configured = record {
  name = codes "system";
  level = warn;
  formatter = codes "%m%n";
  appenders =
      record { kind = 1; level = info; formatter = []; file = codes "a.log" }
      ∷ record { kind = 2; level = debug; formatter = codes "%m"; file = [] }
      ∷ [];
}

apply_define-Added_example :
    Returns
      (apply_define opens_all with_system configured)
      (Added 1 warn ((to_file (codes "a.log"), info) ∷ (stdout, debug) ∷ []))
unfolding get_logger make_loggers
apply_define-Added_example =
    apply_define-Added opens_all with_system configured system-IsReady (inl refl, (inr refl, tt))
