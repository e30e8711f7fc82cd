-- ===== src/Log/Logger/Written.antt =====
-- Logger::log of src/log.cpp: which lines an event becomes.
use idc.Prelude.{
  Bytes, ℕ, ◌≡◌, refl, sym, ap, ap₂, ◌∙◌, ◌⊎◌, inl, inr, Bool, true, false, List, [], ◌∷◌, ◌++◌,
  Option, none, some, Result, Returns, Returns-bind, if◌then◌else◌, Bool-cases, Option-cases, subst,
  leb, add64, put, put-each, put_view, ◌<◌,
}
use idc.Log.Level.{LogLevel, LogEvent, is_enabled}
use idc.Log.Formatter.{LogFormatter, format}
use idc.Log.Logger.{
  Target, stdout, to_file, LogAppender, Loggers, Output, log_file, log_stdout, log_appender,
  log_appenders,
}

abbrev pub is_some {ℓ} : {A : Type ℓ} → Option A → Bool
is_some none = false
is_some (some a) = true

Target-cases : (t : Target) → (t ≡ stdout) ⊎ ((f : Bytes) × (t ≡ to_file f))
Target-cases stdout = inl refl
Target-cases (to_file f) = inr (f, refl)

-- What logging does not change in an appender.
abbrev pub setup : LogAppender → Target × LogLevel × Option LogFormatter
setup a = (a.target, a.level, a.formatter)

-- The appenders of a list are among the first `n`, and have formatters.
abbrev pub Supplied : (ℕ → LogAppender) → ℕ → List ℕ → Type 0
Supplied heap n [] = Unit {0}
Supplied heap n (p ∷ ps) = (is_some (heap p).formatter ≡ true) × (p < n) × Supplied heap n ps

-- Every logger and every appender of a logger has a formatter; the root is the root of all others;
-- the places that are free are used by no logger.
pub record IsReady (w : Loggers) : Type 0 where
  pub formatted : (l : ℕ) → is_some (w.loggers l).formatter ≡ true
  pub supplied : (l : ℕ) → Supplied w.appenders w.next_appender (w.loggers l).appenders
  pub top : (w.loggers 0).root ≡ none
  pub rooted : (l r : ℕ) → (w.loggers l).root ≡ some r → r ≡ 0
  pub started : 0 < w.next_logger

-- A write to the heap after which what had a formatter has one.
pub Supplied-mono :
    (heap heap' : ℕ → LogAppender) (n : ℕ) (ps : List ℕ)
    → ((q : ℕ) → q < n → is_some (heap q).formatter ≡ true → is_some (heap' q).formatter ≡ true)
    → Supplied heap n ps
    → Supplied heap' n ps
Supplied-mono heap heap' n [] keeps h = tt
Supplied-mono heap heap' n (p ∷ ps) keeps (has, bound, h) =
    (keeps p bound has, bound, Supplied-mono heap heap' n ps keeps h)

pub Supplied-setup :
    (heap heap' : ℕ → LogAppender) (n : ℕ) (ps : List ℕ)
    → ((q : ℕ) → setup (heap' q) ≡ setup (heap q))
    → Supplied heap n ps
    → Supplied heap' n ps
Supplied-setup heap heap' n ps same h =
    Supplied-mono heap heap' n ps (λ q _ has. ap (λ s. is_some s.2) (same q) ∙ has) h

module _ (strftime : Bytes → ℕ → Bytes) where
  -- The line of one appender, and the lines of a list of them, in its order.
  abbrev pub line_of : Target × LogLevel × Option LogFormatter → LogLevel → LogEvent → List Output
  line_of (target, minimum, none) level event = []
  line_of (target, minimum, some f) level event =
      if is_enabled minimum level
      then record { target = target; text = format strftime f.items level event } ∷ []
      else []

  abbrev pub lines_of : (ℕ → LogAppender) → List ℕ → LogLevel → LogEvent → List Output
  lines_of heap [] level event = []
  lines_of heap (p ∷ ps) level event =
      line_of (setup (heap p)) level event ++ lines_of heap ps level event

  lines_of-setup :
      (heap heap' : ℕ → LogAppender) (ps : List ℕ) (level : LogLevel) (event : LogEvent)
      → ((q : ℕ) → setup (heap' q) ≡ setup (heap q))
      → lines_of heap' ps level event ≡ lines_of heap ps level event
  lines_of-setup heap heap' [] level event same = refl
  lines_of-setup heap heap' (p ∷ ps) level event same =
      ap₂ {C = List Output} (λ a b. a ++ b) (ap (λ s. line_of s level event) (same p))
        (lines_of-setup heap heap' ps level event same)

  module _ (can_open : Bytes → Bool) (opens : (f : Bytes) → can_open f ≡ true) where
    -- What one appender does.
    abbrev pub Logged : LogAppender → LogLevel → LogEvent → LogAppender × List Output → Type 0
    Logged a level event r =
        (setup r.0 ≡ setup a) × (r.0.is_open ≡ true) × (r.1 ≡ line_of (setup a) level event)

    log_file_lem :
        (filename : Bytes) (a : LogAppender) (f : LogFormatter) (level : LogLevel)
        (event : LogEvent)
        → a.target ≡ to_file filename
        → a.formatter ≡ some f
        → is_enabled a.level level ≡ true
        → a.is_open ≡ true
        → Returns (log_file can_open strftime filename a level event) (Logged a level event)
    unfolding log_file
    log_file_lem filename a f level event target e on good =
        elim (Bool-cases (leb (add64 a.last_time 3) event.time)) [
          | inr same ↦ rw (target, e, same, log_file, target, e, good, on) (refl, refl, refl)
          | inl late ↦
              rw (target, e, late, log_file, target, e, opens filename, on) (refl, refl, refl)
        ]

    log_appender_lem :
        (a : LogAppender) (level : LogLevel) (event : LogEvent)
        → is_some a.formatter ≡ true
        → a.is_open ≡ true
        → Returns (log_appender can_open strftime a level event) (Logged a level event)
    unfolding log_appender log_stdout
    log_appender_lem a level event h good = elim (Option-cases a.formatter) [
      | inl e ↦ absurd (cc (h, e))
      | inr (f, e) ↦ elim (Bool-cases (is_enabled a.level level)) [
        | inr off ↦ rw (off, log_appender) (refl, good, rw (e, off) refl)
        | inl on ↦ elim (Target-cases a.target) [
          | inl t ↦ rw (on, t, e, log_appender) (cc t, good, rw on refl)
          | inr (filename, t) ↦
              subst (λ r. Returns r (Logged a level event))
                {x = log_file can_open strftime filename a level event}
                (rw (on, log_appender)
                  (sym (
                    ap {B = Result (LogAppender × List Output)}
                      (λ u. elim u [
                        | stdout ↦ log_stdout can_open strftime a level event
                        | to_file n ↦ log_file can_open strftime n a level event
                      ])
                      t)))
                (log_file_lem filename a f level event t e on good)
        ]
      ]
    ]

    -- What a list of appenders does: they stay as they are set up, with their files open.
    abbrev pub AllLogged :
        List ℕ → (ℕ → LogAppender) → LogLevel → LogEvent → (ℕ → LogAppender) × List Output → Type 0
    AllLogged ps heap level event (heap', lines) =
        ((q : ℕ) → setup (heap' q) ≡ setup (heap q))
        × ((q : ℕ) → (heap' q).is_open ≡ true)
        × (lines ≡ lines_of heap ps level event)

    pub log_appenders_lem :
        (ps : List ℕ) (heap : ℕ → LogAppender) (n : ℕ) (level : LogLevel) (event : LogEvent)
        → Supplied heap n ps
        → ((q : ℕ) → (heap q).is_open ≡ true)
        → Returns
            (log_appenders can_open strftime ps heap level event)
            (AllLogged ps heap level event)
    unfolding log_appenders
    log_appenders_lem [] heap n level event h good = (λ q. refl, good, refl)
    log_appenders_lem (p ∷ ps) heap n level event (has, _, h) good =
        Returns-bind (log_appender can_open strftime (heap p) level event) _
          (Logged (heap p) level event) (AllLogged (p ∷ ps) heap level event)
          (log_appender_lem (heap p) level event has (good p))
          (λ (a, line) (same, opened, one).
            let same' = put_view setup heap p a same in
            Returns-bind (log_appenders can_open strftime ps (put heap p a) level event) _
              (AllLogged ps (put heap p a) level event) (AllLogged (p ∷ ps) heap level event)
              (log_appenders_lem ps (put heap p a) n level event
                (Supplied-setup heap (put heap p a) n ps same' h)
                (put-each (λ b. b.is_open ≡ true) heap p a good opened))
              (λ (heap', lines) (same'', opened'', rest). (
                λ q. same'' q ∙ same' q,
                opened'',
                ap₂ {C = List Output} (λ a b. a ++ b) one
                    (rest ∙ lines_of-setup heap (put heap p a) ps level event same'),
              )))
