-- ===== src/Log/Logger/Reach.antt =====
-- The loggers that a program can reach with the operations of Logger and LoggerManager in src/log.cpp.
use idc.Prelude.{
  Bytes, ℕ, ◌<◌, ◌≡◌, refl, Bool, true, false, ◌&&◌, [], Option, none, some, if◌then◌else◌, arith,
  put,
}
use idc.Log.Level.{LogLevel}
use idc.Log.Formatter.{LogFormatter, make_formatter}
use idc.Log.Logger.{
  LogAppender, Loggers, make_logger, make_loggers, set_appender_formatter, add_appender,
  erase_first, del_appender, clear_appenders, set_level, set_formatter, set_pattern, get_logger,
  allocate, start_loggers,
}
use idc.Log.Logger.Written.{IsReady, is_some}
use idc.Log.Logger.Ready.{
  IsReady-of, put-IsReady, heap-IsReady, put_keeps, Supplied-erase_first, add_appender-IsReady,
  set_formatter-IsReady, get_logger-IsReady, allocate-IsReady,
}

start_loggers-IsReady : IsReady start_loggers
unfolding start_loggers make_logger
start_loggers-IsReady =
    IsReady-of start_loggers (λ l. (refl, tt, λ r h. absurd (cc h))) refl (omega arith)

make_loggers-IsReady : IsReady make_loggers
unfolding make_loggers start_loggers
make_loggers-IsReady = add_appender-IsReady start_loggers 0 0 start_loggers-IsReady (omega arith)

-- The operations of a program; an appender that is added is an object. The Boolean is false for a call of
-- setFormatter with a null pointer.
pub data LogStep : Bool → Loggers → Loggers → Type 0 where
  allocated : (w : Loggers) (a : LogAppender) → LogStep true w (allocate w a).1
  added : (w : Loggers) (l p : ℕ) → p < w.next_appender → LogStep true w (add_appender w l p)
  deleted : (w : Loggers) (l p : ℕ) → LogStep true w (del_appender w l p)
  cleared : (w : Loggers) (l : ℕ) → LogStep true w (clear_appenders w l)
  leveled : (w : Loggers) (l : ℕ) (val : LogLevel) → LogStep true w (set_level w l val)
  formatted_by :
      (w : Loggers) (l : ℕ) (f : Option LogFormatter) → LogStep (is_some f) w (set_formatter w l f)
  patterned : (w : Loggers) (l : ℕ) (val : Bytes) → LogStep true w (set_pattern w l val)
  got : (w : Loggers) (name : Bytes) → LogStep true w (get_logger w name).1
  configured :
      (w : Loggers) (p : ℕ) (f : Option LogFormatter)
      → LogStep
          (is_some f)
          w
          (record w { appenders = put w.appenders p (set_appender_formatter f (w.appenders p)) })

-- The states that a program reaches; the Boolean is true if no formatter that it set was null.
pub data Reachable : Bool → Loggers → Type 0 where
  at_start : Reachable true make_loggers
  after : (b c : Bool) (w w' : Loggers) → Reachable b w → LogStep c w w' → Reachable (b && c) w'

pub step-IsReady : (b : Bool) (w w' : Loggers) → LogStep b w w' → b ≡ true → IsReady w → IsReady w'
unfolding del_appender clear_appenders set_level set_pattern set_appender_formatter
step-IsReady b w w' (allocated v a) set ready = allocate-IsReady v a ready
step-IsReady b w w' (added v l p bound) set ready = add_appender-IsReady v l p ready bound
step-IsReady b w w' (deleted v l p) set ready =
    put-IsReady v l (record (v.loggers l) { appenders = erase_first p (v.loggers l).appenders })
      ready (ready.formatted l)
      (Supplied-erase_first v.appenders v.next_appender p (v.loggers l).appenders
        (ready.supplied l))
      refl
step-IsReady b w w' (cleared v l) set ready =
    put-IsReady v l (record (v.loggers l) { appenders = [] }) ready (ready.formatted l) tt refl
step-IsReady b w w' (leveled v l val) set ready =
    put-IsReady v l (record (v.loggers l) { level = val }) ready (ready.formatted l)
      (ready.supplied l) refl
step-IsReady b w w' (formatted_by v l none) set ready = absurd (cc set)
step-IsReady b w w' (formatted_by v l (some f)) set ready = set_formatter-IsReady v l f ready
step-IsReady b w w' (patterned v l val) set ready =
    elim (make_formatter val).is_error
      as (λ b. IsReady (if b then v else set_formatter v l (some (make_formatter val)))) [
        | true ↦ ready
        | false ↦ set_formatter-IsReady v l (make_formatter val) ready
      ]
step-IsReady b w w' (got v name) set ready = get_logger-IsReady v name ready
step-IsReady b w w' (configured v p none) set ready = absurd (cc set)
step-IsReady b w w' (configured v p (some f)) set ready = heap-IsReady v _ ready (λ q _ has.
    put_keeps v.appenders p (set_appender_formatter (some f) (v.appenders p)) refl q has)

reach-IsReady : (b : Bool) (w : Loggers) → Reachable b w → b ≡ true → IsReady w
reach-IsReady b w at_start set = make_loggers-IsReady
reach-IsReady b w (after true c v w' r s) set =
    step-IsReady c v w' s set (reach-IsReady true v r refl)
reach-IsReady b w (after false c v w' r s) set = absurd (cc set)

-- In every state that the operations lead to, as long as setFormatter is never called with a null
-- pointer, all loggers and all of their appenders have formatters, and only the root is the root of a
-- logger.
pub Reachable-IsReady : (w : Loggers) → Reachable true w → IsReady w
Reachable-IsReady w r = reach-IsReady true w r refl
