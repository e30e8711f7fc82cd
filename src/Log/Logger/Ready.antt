-- ===== src/Log/Logger/Ready.antt =====
-- The operations of Logger and LoggerManager in src/log.cpp: each keeps what all loggers have.
use idc.Prelude.{
  Bytes, ℕ, ◌+◌, ◌<◌, ◌≡◌, refl, sym, ◌∙◌, inl, inr, true, false, List, [], ◌∷◌, ◌++◌, none, some,
  Option-cases, if◌then◌else◌, Bool-cases, ◌==◌, arith, put, put-each, put_view, put_here,
  put_apart,
}
use idc.Log.Formatter.{LogFormatter}
use idc.Log.Logger.{
  LogAppender, Logger, Loggers, make_logger, add_appender, erase_first, share_formatter,
  set_formatter, find_logger, get_logger, allocate,
}
use idc.Log.Logger.Written.{IsReady, is_some, Supplied, Supplied-mono}

-- The parts of IsReady for one logger.
abbrev pub IsSound : (ℕ → LogAppender) → ℕ → Logger → Type 0
IsSound heap n lg =
    (is_some lg.formatter ≡ true)
    × Supplied heap n lg.appenders
    × ((r : ℕ) → lg.root ≡ some r → r ≡ 0)

pub IsReady-of :
    (w : Loggers)
    → ((l : ℕ) → IsSound w.appenders w.next_appender (w.loggers l))
    → (w.loggers 0).root ≡ none
    → 0 < w.next_logger
    → IsReady w
IsReady-of w sound top started = record {
  formatted = λ l. (sound l).0;
  supplied = λ l. (sound l).1;
  top = top;
  rooted = λ l r h. (sound l).2 r h;
  started = started;
}

IsSound-of : (w : Loggers) → IsReady w → (l : ℕ) → IsSound w.appenders w.next_appender (w.loggers l)
IsSound-of w ready l = (ready.formatted l, ready.supplied l, λ r h. ready.rooted l r h)

-- One logger is changed, but not its root.
pub put-IsReady :
    (w : Loggers) (l : ℕ) (lg : Logger)
    → IsReady w
    → is_some lg.formatter ≡ true
    → Supplied w.appenders w.next_appender lg.appenders
    → lg.root ≡ (w.loggers l).root
    → IsReady (record w { loggers = put w.loggers l lg })
put-IsReady w l lg ready has fits same =
    IsReady-of (record w { loggers = put w.loggers l lg })
      (put-each (IsSound w.appenders w.next_appender) w.loggers l lg (IsSound-of w ready)
        (has, fits, λ r h. ready.rooted l r (sym same ∙ h)))
      (put_view (λ lg'. lg'.root) w.loggers l lg same 0 ∙ ready.top) ready.started

-- The heap is changed so that what had a formatter has one.
pub heap-IsReady :
    (w : Loggers) (heap : ℕ → LogAppender)
    → IsReady w
    → ((q : ℕ)
        → q < w.next_appender
        → is_some (w.appenders q).formatter ≡ true
        → is_some (heap q).formatter ≡ true)
    → IsReady (record w { appenders = heap })
heap-IsReady w heap ready keeps =
    IsReady-of (record w { appenders = heap })
      (λ l. (
        ready.formatted l,
        Supplied-mono w.appenders heap w.next_appender _ keeps (ready.supplied l),
        λ r h. ready.rooted l r h,
      ))
      ready.top ready.started

-- A write of an appender with a formatter.
pub put_keeps :
    (heap : ℕ → LogAppender) (p : ℕ) (a : LogAppender)
    → is_some a.formatter ≡ true
    → (q : ℕ) → is_some (heap q).formatter ≡ true
    → is_some (put heap p a q).formatter ≡ true
put_keeps heap p a has q h = elim (Bool-cases (p == q)) [
  | inl here ↦ rw here has
  | inr other ↦ rw other h
]

Supplied-append :
    (heap : ℕ → LogAppender) (n p : ℕ) (ps : List ℕ)
    → Supplied heap n ps
    → is_some (heap p).formatter ≡ true
    → p < n
    → Supplied heap n (ps ++ (p ∷ []))
Supplied-append heap n p [] h has bound = (has, bound, tt)
Supplied-append heap n p (q ∷ qs) (has', bound', h) has bound =
    (has', bound', Supplied-append heap n p qs h has bound)

pub Supplied-erase_first :
    (heap : ℕ → LogAppender) (n p : ℕ) (ps : List ℕ)
    → Supplied heap n ps
    → Supplied heap n (erase_first p ps)
unfolding erase_first
Supplied-erase_first heap n p [] h = tt
Supplied-erase_first heap n p (q ∷ qs) (has, bound, h) = elim (Bool-cases (q == p)) [
  | inl here ↦ rw (here, erase_first) h
  | inr other ↦ rw (other, erase_first) (has, bound, Supplied-erase_first heap n p qs h)
]

share_formatter_keeps :
    (f : LogFormatter) (ps : List ℕ) (heap : ℕ → LogAppender) (q : ℕ)
    → is_some (heap q).formatter ≡ true
    → is_some (share_formatter (some f) ps heap q).formatter ≡ true
unfolding share_formatter
share_formatter_keeps f [] heap q h = h
share_formatter_keeps f (p ∷ ps) heap q h =
    let written = put heap p (record (heap p) { formatter = some f }) in
    share_formatter_keeps f ps (if (heap p).has_formatter then heap else written) q
      (elim (heap p).has_formatter
        as (λ b. is_some ((if b then heap else written) q).formatter ≡ true) [
          | true ↦ h
          | false ↦ put_keeps heap p (record (heap p) { formatter = some f }) refl q h
        ])

pub add_appender-IsReady :
    (w : Loggers) (l p : ℕ) → IsReady w → p < w.next_appender → IsReady (add_appender w l p)
unfolding add_appender
add_appender-IsReady w l p ready bound =
    let a = record (w.appenders p) { formatter = (w.loggers l).formatter } in
    elim (Option-cases (w.appenders p).formatter) [
      | inl e ↦
          rw (e, add_appender)
            (put-IsReady (record w { appenders = put w.appenders p a }) l
              (record (w.loggers l) { appenders = (w.loggers l).appenders ++ (p ∷ []) })
              (heap-IsReady w (put w.appenders p a) ready
                (λ q _ has. put_keeps w.appenders p a (ready.formatted l) q has))
              (ready.formatted l)
              (Supplied-append (put w.appenders p a) w.next_appender p (w.loggers l).appenders
                (Supplied-mono w.appenders (put w.appenders p a) w.next_appender
                  (w.loggers l).appenders
                  (λ q _ has. put_keeps w.appenders p a (ready.formatted l) q has)
                  (ready.supplied l))
                (rw (put_here w.appenders p a) (ready.formatted l)) bound)
              refl)
      | inr (f, e) ↦
          rw (e, add_appender)
            (put-IsReady w l
              (record (w.loggers l) { appenders = (w.loggers l).appenders ++ (p ∷ []) }) ready
              (ready.formatted l)
              (Supplied-append w.appenders w.next_appender p (w.loggers l).appenders
                (ready.supplied l) (rw e refl) bound)
              refl)
    ]

pub set_formatter-IsReady :
    (w : Loggers) (l : ℕ) (f : LogFormatter) → IsReady w → IsReady (set_formatter w l (some f))
unfolding set_formatter
set_formatter-IsReady w l f ready =
    let heap = share_formatter (some f) (w.loggers l).appenders w.appenders in
    put-IsReady (record w { appenders = heap }) l (record (w.loggers l) { formatter = some f })
      (heap-IsReady w heap ready
        (λ q _ has. share_formatter_keeps f (w.loggers l).appenders w.appenders q has))
      refl
      (Supplied-mono w.appenders heap w.next_appender (w.loggers l).appenders
        (λ q _ has. share_formatter_keeps f (w.loggers l).appenders w.appenders q has)
        (ready.supplied l))
      refl

pub get_logger-IsReady : (w : Loggers) (name : Bytes) → IsReady w → IsReady (get_logger w name).1
unfolding get_logger make_logger
get_logger-IsReady w name ready = elim (Option-cases (find_logger name w.names)) [
  | inr (l, e) ↦ rw (e, get_logger) ready
  | inl e ↦
      let lg = record (make_logger name) { root = some 0 } in
      let apart : (w.next_logger == 0) ≡ false = ground (arith, ready.started) in
      rw (e, get_logger)
        (IsReady-of
          (record w {
            loggers = put w.loggers w.next_logger lg;
            next_logger = w.next_logger + 1;
            names = (name, w.next_logger) ∷ w.names;
          })
          (put-each (IsSound w.appenders w.next_appender) w.loggers w.next_logger lg
            (IsSound-of w ready) (refl, tt, λ r h. cc h))
          (rw (put_apart w.loggers w.next_logger lg 0 apart) ready.top) (omega arith))
]

Supplied-grown :
    (heap : ℕ → LogAppender) (n : ℕ) (a : LogAppender) (ps : List ℕ)
    → Supplied heap n ps
    → Supplied (put heap n a) (n + 1) ps
Supplied-grown heap n a [] h = tt
Supplied-grown heap n a (p ∷ ps) (has, bound, h) =
    let apart : (n == p) ≡ false = ground arith in
    (rw apart has, omega arith, Supplied-grown heap n a ps h)

pub allocate-IsReady : (w : Loggers) (a : LogAppender) → IsReady w → IsReady (allocate w a).1
unfolding allocate
allocate-IsReady w a ready =
    let (n, w') = allocate w a in
    IsReady-of w'
      (λ l. (
        ready.formatted l,
        Supplied-grown w.appenders w.next_appender a (w.loggers l).appenders (ready.supplied l),
        λ r h. ready.rooted l r h,
      ))
      ready.top ready.started
