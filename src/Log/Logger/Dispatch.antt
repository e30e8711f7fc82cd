-- ===== src/Log/Logger/Dispatch.antt =====
-- Logger::log of src/log.cpp: to which appenders an event goes.
use idc.Prelude.{
  Bytes, ℕ, suc, ◌≡◌, refl, ap, ◌∙◌, inl, inr, Bool, true, List, [], ◌∷◌, Option, none, some,
  Option-cases, Result, ok, Returns, Returns-bind, if◌then◌else◌, Bool-cases, List-cases, subst,
}
use idc.Log.Level.{LogLevel, LogEvent, is_enabled}
use idc.Log.Logger.{LogAppender, Loggers, Output, log_appenders, log_loop, log}
use idc.Log.Logger.Written.{
  IsReady, setup, Supplied, Supplied-setup, lines_of, AllLogged, log_appenders_lem,
}

IsReady-appenders :
    (w : Loggers) (heap : ℕ → LogAppender)
    → IsReady w
    → ((q : ℕ) → setup (heap q) ≡ setup (w.appenders q))
    → IsReady (record w { appenders = heap })
IsReady-appenders w heap ready same = record {
  formatted = ready.formatted;
  supplied = λ l. Supplied-setup w.appenders heap w.next_appender _ same (ready.supplied l);
  top = ready.top;
  rooted = ready.rooted;
  started = ready.started;
}

-- The logger whose appenders get an event that the logger at `l` lets pass.
abbrev pub pick_sender : ℕ → List ℕ → Option ℕ → ℕ
pick_sender l (p ∷ ps) root = l
pick_sender l [] none = l
pick_sender l [] (some r) = r

abbrev pub sender : Loggers → ℕ → ℕ
sender w l = pick_sender l (w.loggers l).appenders (w.loggers l).root

-- What is written, and what stays as it was.
abbrev pub Sent : Loggers → List Output → Loggers × List Output → Type 0
Sent w lines (w', written) =
    IsReady w'
    × (w'.loggers ≡ w.loggers)
    × ((q : ℕ) → (w'.appenders q).is_open ≡ true)
    × (written ≡ lines)

module _ (strftime : Bytes → ℕ → Bytes) where
  -- The lines of the appenders of one logger.
  abbrev pub own_lines : Loggers → ℕ → LogLevel → LogEvent → List Output
  own_lines w l level event =
      if is_enabled (w.loggers l).level level
      then lines_of strftime w.appenders (w.loggers l).appenders level event
      else []

  module _ (can_open : Bytes → Bool) (opens : (f : Bytes) → can_open f ≡ true) (w : Loggers)
      (level : LogLevel) (event : LogEvent) (ready : IsReady w)
      (good : (q : ℕ) → (w.appenders q).is_open ≡ true) where
    nothing : Returns (ok (w, [])) (Sent w [])
    nothing = (ready, refl, good, refl)

    Sent-lines :
        (m : Result (Loggers × List Output)) {lines lines' : List Output}
        → Returns m (Sent w lines)
        → lines ≡ lines'
        → Returns m (Sent w lines')
    Sent-lines m h e = subst (λ out. Returns m (Sent w out)) e h

    -- A logger that has appenders.
    log_loop_own :
        (fuel l p : ℕ) (ps : List ℕ)
        → is_enabled (w.loggers l).level level ≡ true
        → (w.loggers l).appenders ≡ p ∷ ps
        → Returns
            (log_loop can_open strftime (suc fuel) w l level event)
            (Sent w (lines_of strftime w.appenders (p ∷ ps) level event))
    unfolding log_loop
    log_loop_own fuel l p ps on e =
        rw (on, e, log_loop)
          (Returns-bind (log_appenders can_open strftime (p ∷ ps) w.appenders level event) _
            (AllLogged strftime can_open opens (p ∷ ps) w.appenders level event)
            (Sent w (lines_of strftime w.appenders (p ∷ ps) level event))
            (log_appenders_lem strftime can_open opens (p ∷ ps) w.appenders w.next_appender level
              event (subst (Supplied w.appenders w.next_appender) e (ready.supplied l)) good)
            (λ (heap, lines) (same, opened, written).
              (IsReady-appenders w heap ready same, refl, opened, written)))

    log_loop_top :
        (fuel : ℕ)
        → Returns
            (log_loop can_open strftime (suc fuel) w 0 level event)
            (Sent w (own_lines w 0 level event))
    unfolding log_loop
    log_loop_top fuel = elim (Bool-cases (is_enabled (w.loggers 0).level level)) [
      | inr off ↦ rw (off, log_loop) nothing
      | inl on ↦ elim (List-cases (w.loggers 0).appenders) [
        | inl e ↦ rw (on, e, ready.top, log_loop) nothing
        | inr (p, ps, e) ↦ Sent-lines _ (log_loop_own fuel 0 p ps on e) (rw (on, e) refl)
      ]
    ]

    -- If the files can be opened, an event of an enabled level is written once by each appender of
    -- the logger whose level lets it pass, in their order, or by those of the root, for a logger
    -- that has none; no other event is written.
    pub log-sender :
        (l : ℕ)
        → Returns (log can_open strftime w l level event) (
            Sent w (
              if is_enabled (w.loggers l).level level
              then own_lines w (sender w l) level event
              else []))
    unfolding log log_loop
    log-sender l = elim (Bool-cases (is_enabled (w.loggers l).level level)) [
      | inr off ↦ rw (off, log_loop) nothing
      | inl on ↦ elim (List-cases (w.loggers l).appenders) [
        | inr (p, ps, e) ↦ Sent-lines _ (log_loop_own 1 l p ps on e) (rw (e, on, e) refl)
        | inl e ↦ elim (Option-cases (w.loggers l).root) [
          | inl none' ↦
              Sent-lines _ {lines = []} (rw (on, e, none', log_loop) nothing)
                (rw (e, none', on, e) refl)
          | inr (r, e') ↦
              let e'' : (w.loggers l).root ≡ some 0 =
                e' ∙ ap {B = Option ℕ} (λ q. some q) (ready.rooted l r e') in
              Sent-lines _ {lines = own_lines w 0 level event}
                (rw (on, e, e'', log_loop) (log_loop_top 0)) (rw (e, e'', on) refl)
        ]
      ]
    ]
