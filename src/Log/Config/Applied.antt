-- ===== src/Log/Config/Applied.antt =====
-- The listener of LogIniter in src/log.cpp: what a definition makes of a logger.
use idc.Prelude.{
  Bytes, ℕ, ◌≡◌, refl, subst, sym, ap, ap₂, ◌∙◌, inl, inr, ◌⊎◌, Bool, true, false, List, [], ◌∷◌,
  ◌++◌, append_assoc, append-nil, map, some, Option-cases, Returns, if◌then◌else◌, Bool-cases, ◌==◌,
  arith, put, put_view, put_here, put_apart,
}
use idc.Text.{is_empty}
use idc.Log.Level.{LogLevel}
use idc.Log.Formatter.{make_formatter}
use idc.Log.Logger.{
  Target, stdout, to_file, LogAppender, Loggers, make_stdout_appender, make_file_appender,
  set_appender_formatter, allocate, add_appender, clear_appenders, set_level, set_pattern,
  set_formatter, get_logger,
}
use idc.Log.Logger.Written.{IsReady, Supplied}
use idc.Log.Logger.Ready.{add_appender-IsReady, allocate-IsReady, get_logger-IsReady}
use idc.Log.Logger.Reach.{step-IsReady, leveled, patterned, cleared}
use idc.Log.Config.{
  LogAppenderDefine, LogDefine, make_appender, configure, add_defined, apply_define,
}

-- Where an appender writes, and from which level on.
abbrev pub view : LogAppender → Target × LogLevel
view a = (a.target, a.level)

abbrev pub views : (ℕ → LogAppender) → List ℕ → List (Target × LogLevel)
views heap ps = map (λ p. view (heap p)) ps

-- What a definition of an appender asks for.
abbrev pub defined_view : LogAppenderDefine → Target × LogLevel
defined_view a = (if a.kind == 1 then to_file a.file else stdout, a.level)

-- Every appender is of one of the two types.
abbrev pub AllKnown : List LogAppenderDefine → Type 0
AllKnown [] = Unit {0}
AllKnown (a ∷ rest) = ((a.kind ≡ 1) ⊎ (a.kind ≡ 2)) × AllKnown rest

views_same :
    (heap heap' : ℕ → LogAppender) (ps : List ℕ)
    → ((q : ℕ) → view (heap' q) ≡ view (heap q))
    → views heap' ps ≡ views heap ps
views_same heap heap' [] same = refl
views_same heap heap' (p ∷ ps) same =
    ap₂ {C = List (Target × LogLevel)} (λ v vs. v ∷ vs) (same p) (views_same heap heap' ps same)

-- A new appender behind those of a list.
views_new :
    (heap : ℕ → LogAppender) (n : ℕ) (a : LogAppender) (ps : List ℕ)
    → Supplied heap n ps
    → views (put heap n a) (ps ++ (n ∷ [])) ≡ views heap ps ++ (view a ∷ [])
views_new heap n a [] h = ap {B = List (Target × LogLevel)} (λ b. view b ∷ []) (put_here heap n a)
views_new heap n a (p ∷ ps) (has, bound, h) =
    ap₂ {C = List (Target × LogLevel)} (λ b vs. view b ∷ vs) (put_apart heap n a p (ground arith))
      (views_new heap n a ps h)

view-add_appender :
    (w : Loggers) (l p q : ℕ) → view ((add_appender w l p).appenders q) ≡ view (w.appenders q)
unfolding add_appender
view-add_appender w l p q = elim (Option-cases (w.appenders p).formatter) [
  | inl e ↦
      rw (e, add_appender)
        (put_view view w.appenders p
          (record (w.appenders p) { formatter = (w.loggers l).formatter }) refl q)
  | inr (f, e) ↦ rw (e, add_appender) refl
]

add_appender_logger :
    (w : Loggers) (l p : ℕ)
    → (add_appender w l p).loggers l
      ≡ record (w.loggers l) { appenders = (w.loggers l).appenders ++ (p ∷ []) }
unfolding add_appender
add_appender_logger w l p = put_here w.loggers l _

-- The loggers after the appenders of a definition are added to the logger at `l`.
abbrev pub Added : ℕ → LogLevel → List (Target × LogLevel) → Loggers → Type 0
Added l level vs w =
    IsReady w × ((w.loggers l).level ≡ level) × (views w.appenders (w.loggers l).appenders ≡ vs)

module _ (can_open : Bytes → Bool) where
  view-configure :
      (a : LogAppenderDefine) (ap : LogAppender)
      → view (configure can_open a ap) ≡ (ap.target, a.level)
  unfolding configure set_appender_formatter
  view-configure a ap = elim (Bool-cases (is_empty a.formatter)) [
    | inl none' ↦ rw (none', configure) refl
    | inr some' ↦ elim (Bool-cases (make_formatter a.formatter).is_error) [
      | inl bad ↦ rw (some', bad, configure) refl
      | inr good ↦ rw (some', good, configure) refl
    ]
  ]

  -- The appender that is made for a definition.
  make_appender-AllKnown :
      (a : LogAppenderDefine)
      → (a.kind ≡ 1) ⊎ (a.kind ≡ 2)
      → (ap : LogAppender) × (make_appender can_open a ≡ some ap)
        × (view (configure can_open a ap) ≡ defined_view a)
  unfolding make_appender make_file_appender make_stdout_appender
  make_appender-AllKnown a (inl file) = (
    make_file_appender can_open a.file,
    rw (file, make_appender) refl,
    view-configure a (make_file_appender can_open a.file) ∙ rw file refl,
  )
  make_appender-AllKnown a (inr console) = (
    make_stdout_appender,
    rw (console, make_appender) refl,
    view-configure a make_stdout_appender ∙ rw console refl,
  )

  -- A new appender is added.
  Added-new :
      (w : Loggers) (l : ℕ) (a : LogAppender) (level : LogLevel) (vs : List (Target × LogLevel))
      (v : Target × LogLevel)
      → Added l level vs w
      → view a ≡ v
      → Added l level (vs ++ (v ∷ [])) (add_appender (allocate w a).1 l w.next_appender)
  unfolding allocate
  Added-new w l a level vs v (ready, same_level, same) shown =
      let w' = (allocate w a).1 in
      let n = w.next_appender in
      (
        add_appender-IsReady w' l n (allocate-IsReady w a ready) (omega arith),
        ap (λ lg. lg.level) (add_appender_logger w' l n) ∙ same_level,
        ap (λ lg. views (add_appender w' l n).appenders lg.appenders) (add_appender_logger w' l n)
            ∙ views_same w'.appenders (add_appender w' l n).appenders
                ((w.loggers l).appenders ++ (n ∷ [])) (view-add_appender w' l n)
            ∙ views_new w.appenders n a (w.loggers l).appenders (ready.supplied l)
            ∙ ap₂ {C = List (Target × LogLevel)} (λ us u. us ++ (u ∷ [])) same shown,
      )

  add_defined_lem :
      (defines : List LogAppenderDefine) (w : Loggers) (l : ℕ) (level : LogLevel)
      (vs : List (Target × LogLevel))
      → AllKnown defines
      → Added l level vs w
      → Returns (add_defined can_open w l defines) (Added l level (vs ++ map defined_view defines))
  unfolding add_defined
  add_defined_lem [] w l level vs known (ready, same_level, same) =
      (ready, same_level, same ∙ sym (append-nil vs))
  add_defined_lem (a ∷ rest) w l level vs (one, known) (ready, same_level, same) =
      let (ap', made, shown) = make_appender-AllKnown a one in
      let a' = configure can_open a ap' in
      let w' = (allocate w a').1 in
      rw (made, add_defined)
        (subst
          (λ us.
            Returns (add_defined can_open (add_appender w' l w.next_appender) l rest)
              (Added l level us))
          (append_assoc vs (defined_view a ∷ []) (map defined_view rest))
          (add_defined_lem rest (add_appender w' l w.next_appender) l level
            (vs ++ (defined_view a ∷ [])) known
            (Added-new w l a' level vs (defined_view a) (ready, same_level, same) shown)))

  clear_appenders-Added :
      (w : Loggers) (l : ℕ) (level : LogLevel)
      → IsReady w
      → (w.loggers l).level ≡ level
      → Added l level [] (clear_appenders w l)
  unfolding clear_appenders
  clear_appenders-Added w l level ready same =
      let here = put_here w.loggers l (record (w.loggers l) { appenders = [] }) in
      (
        step-IsReady true w (clear_appenders w l) (cleared w l) refl ready,
        ap (λ lg. lg.level) here ∙ same,
        ap (λ lg. views w.appenders lg.appenders) here,
      )

  set_pattern_level :
      (w : Loggers) (l : ℕ) (val : Bytes)
      → ((set_pattern w l val).loggers l).level ≡ (w.loggers l).level
  unfolding set_pattern set_formatter
  set_pattern_level w l val =
      elim (make_formatter val).is_error
        as (λ b.
          (((if b then w else set_formatter w l (some (make_formatter val))).loggers l).level
            ≡ (w.loggers l).level)) [
              | true ↦ refl
              | false ↦
                  ap (λ lg. lg.level)
                    (put_here w.loggers l
                      (record (w.loggers l) { formatter = some (make_formatter val) }))
            ]

  -- A definition whose appenders have known types gives its logger, which is made if there is none of
  -- that name, its level, and appenders that write where it says from the levels that it says, in its
  -- order, and no others. All loggers stay ready for events.
  pub apply_define-Added :
      (w : Loggers) (i : LogDefine)
      → IsReady w
      → AllKnown i.appenders
      → Returns
          (apply_define can_open w i)
          (Added (get_logger w i.name).0 i.level (map defined_view i.appenders))
  unfolding apply_define
  apply_define-Added w i ready known =
      let (l, w₁) = get_logger w i.name in
      let w₂ = set_level w₁ l i.level in
      let ready₂ : IsReady w₂ =
        step-IsReady true w₁ w₂ (leveled w₁ l i.level) refl (get_logger-IsReady w i.name ready) in
      let at_level : (w₂.loggers l).level ≡ i.level =
        ap (λ lg. lg.level) (put_here w₁.loggers l (record (w₁.loggers l) { level = i.level })) in
      let w₃ = set_pattern w₂ l i.formatter in
      elim (is_empty i.formatter)
        as (λ b.
          Returns (add_defined can_open (clear_appenders (if b then w₂ else w₃) l) l i.appenders)
            (Added l i.level (map defined_view i.appenders))) [
              | true ↦
                  add_defined_lem i.appenders (clear_appenders w₂ l) l i.level [] known
                    (clear_appenders-Added w₂ l i.level ready₂ at_level)
              | false ↦ add_defined_lem i.appenders (clear_appenders w₃ l) l i.level [] known (
                  clear_appenders-Added w₃ l i.level
                    (step-IsReady true w₂ w₃ (patterned w₂ l i.formatter) refl ready₂)
                    (set_pattern_level w₂ l i.formatter ∙ at_level))
            ]
