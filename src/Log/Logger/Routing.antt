-- ===== src/Log/Logger/Routing.antt =====
-- Where `Logger::log` prints.
use custom_net_framework.Prelude.{
  ℕ, ◌<◌, ◌≡◌, Bool, true, not, ◌&&◌, none, some, List, [], ◌∷◌, map, leb, if◌then◌else◌, has,
  filter, is_empty, contains, Bytes, ◌===◌, ===_iff, lookup, insert, lookup-insert, arith, refl,
  ◌∙◌, inl, inr, Bool-cases, Option-cases,
}
use custom_net_framework.Log.Level.{Level}
use custom_net_framework.Log.Pattern.{LogEvent, Printer, print_items}
use custom_net_framework.Log.Logger.{
  LogAppender, Logger, LoggerManager, new_logger, get_logger, root_name, log_all, log_by, log,
}

-- Every appender of a logger exists, and has a formatter.
pub record Inv (m : LoggerManager) : Type 0 where
  pub exists :
      (name : Bytes) (l : Logger) (p : ℕ)
      → lookup name m.loggers ≡ some l
      → contains p l.appenders ≡ true
      → p < m.fresh
  pub formatted :
      (name : Bytes) (l : Logger) (p : ℕ)
      → lookup name m.loggers ≡ some l
      → contains p l.appenders ≡ true
      → has (m.appender p).formatter ≡ true

pub changed-Inv :
    (m : LoggerManager) (name : Bytes) (l : Logger) (h : ℕ → LogAppender)
    → Inv m
    → ((p : ℕ) → contains p l.appenders ≡ true → p < m.fresh)
    → ((p : ℕ) → has (m.appender p).formatter ≡ true → has (h p).formatter ≡ true)
    → ((p : ℕ) → contains p l.appenders ≡ true → has (h p).formatter ≡ true)
    → Inv (record m { loggers = insert name l m.loggers; appender = h })
changed-Inv m name l h v below kept new = record {
  exists = λ j k p e c. elim (Bool-cases (j === name)) [
    | inl y ↦ below p (ground (arith, y, e, c, lookup-insert name j l m.loggers))
    | inr o ↦ v.exists j k p (ground (arith, o, e, lookup-insert name j l m.loggers)) c
  ];
  formatted = λ j k p e c. elim (Bool-cases (j === name)) [
    | inl y ↦ new p (ground (arith, y, e, c, lookup-insert name j l m.loggers))
    | inr o ↦ kept p (v.formatted j k p (ground (arith, o, e, lookup-insert name j l m.loggers)) c)
  ];
}

-- The logger that `getLogger` returns.
unfoldable pub logger_at : LoggerManager → Bytes → Logger
unfolding new_logger
logger_at m name = elim (lookup name m.loggers) [ none ↦ new_logger true | some l ↦ l ]

pub get_logger_lem :
    (m : LoggerManager) (name : Bytes)
    → Inv m
    → Inv (get_logger m name).0
      × ((get_logger m name).1 ≡ logger_at m name)
      × ((get_logger m name).0.appender ≡ m.appender)
      × ((j : Bytes) → logger_at (get_logger m name).0 j ≡ logger_at m j)
      × ((p : ℕ)
          → contains p (logger_at m name).appenders ≡ true
          → has (m.appender p).formatter ≡ true)
unfolding get_logger logger_at new_logger
get_logger_lem m name v = elim (Option-cases (lookup name m.loggers)) [
  | inl n ↦ (
    rw (n, get_logger)
        (changed-Inv m name (new_logger true) m.appender v (λ p c. absurd (ground (arith, c)))
          (λ p h. h) (λ p c. cc)),
    ground (arith, n),
    ground (arith, n),
    λ j. elim (Bool-cases (j === name)) [
      | inl y ↦
          ground (arith, n, y, ===_iff j name, lookup-insert name j (new_logger true) m.loggers)
      | inr o ↦ ground (arith, n, o, lookup-insert name j (new_logger true) m.loggers)
    ],
    λ p c. ground (arith, n, c),
  )
  | inr (l, y) ↦ (
    rw (y, get_logger) v,
    ground (arith, y),
    ground (arith, y),
    λ j. ground (arith, y),
    λ p c. v.formatted name l p y (ground (arith, y, c)),
  )
]

is_empty_lem : (ps : List ℕ) → is_empty ps ≡ true → ps ≡ []
is_empty_lem [] e = refl
is_empty_lem (p ∷ ps) e = absurd (ground (arith, e))

module _ (P : Printer) where
  -- What the appender at an address prints.
  pub line : (ℕ → LogAppender) → Level → LogEvent → ℕ → ℕ × Bytes
  line h lv e p = (p, elim (h p).formatter [ none ↦ [] | some f ↦ print_items P f.items lv e ])

  abbrev pub passes : (ℕ → LogAppender) → Level → ℕ → Bool
  passes h lv p = leb (h p).level lv

  pub log_all_lem :
      (h : ℕ → LogAppender) (ps : List ℕ) (lv : Level) (e : LogEvent)
      → ((p : ℕ) → contains p ps ≡ true → has (h p).formatter ≡ true)
      → log_all P h ps lv e ≡ some (map (line h lv e) (filter (passes h lv) ps))
  unfolding log_all line
  log_all_lem h [] lv e f = refl
  log_all_lem h (p ∷ ps) lv e f =
      let rest : log_all P h ps lv e ≡ some (map (line h lv e) (filter (passes h lv) ps)) =
        log_all_lem h ps lv e (λ q c. f q (ground (arith, c))) in
      elim (Bool-cases (leb (h p).level lv)) [
        | inr n ↦ ground (arith, n, rest)
        | inl y ↦ elim (Option-cases (h p).formatter) [
          | inl o ↦ absurd (ground (arith, o, f p))
          | inr (g, z) ↦ ground (arith, y, z, rest)
        ]
      ]

  -- The appenders that print for a logger and its root.
  pub targets_of : (ℕ → LogAppender) → Logger → Logger → Level → List ℕ
  targets_of h l r lv =
      if not (leb l.level lv)
      then []
      else if not (is_empty l.appenders)
      then filter (passes h lv) l.appenders
      else if l.has_root && leb r.level lv
      then filter (passes h lv) r.appenders
      else []

  log_by_lem :
      (m' m : LoggerManager) (l l' r r' : Logger) (lv : Level) (e : LogEvent)
      → (m'.appender ≡ m.appender)
      → (l ≡ l')
      → (r ≡ r')
      → ((p : ℕ) → contains p l'.appenders ≡ true → has (m.appender p).formatter ≡ true)
      → ((p : ℕ) → contains p r'.appenders ≡ true → has (m.appender p).formatter ≡ true)
      → log_by P m' l (log_by P m' r (some []) lv e) lv e
        ≡ some (map (line m.appender lv e) (targets_of m.appender l' r' lv))
  unfolding log_by targets_of
  log_by_lem m' m l l' r r' lv e q a b f g =
      rw (q, a, b)
        (elim (Bool-cases (is_empty r'.appenders)) [
          | inl y ↦
              ground
                (arith, y, is_empty_lem r'.appenders, log_all_lem m.appender l'.appenders lv e f)
          | inr n ↦ ground (
            arith,
            n,
            log_all_lem m.appender l'.appenders lv e f,
            log_all_lem m.appender r'.appenders lv e g,
          )
        ])

  pub targets : LoggerManager → Bytes → Level → List ℕ
  unfolding targets_of
  targets m name lv = targets_of m.appender (logger_at m name) (logger_at m root_name) lv

  -- When every appender of a logger has a formatter, log(level, event) on the logger of a name, which
  -- may be new, prints nothing if the level is below the logger's; else on each appender of the
  -- logger whose level allows it, in order; and if the logger has no appender, on those of the root
  -- logger under the root's level. What each prints is the text of its own formatter.
  pub log_lem :
      (m : LoggerManager) (name : Bytes) (lv : Level) (e : LogEvent)
      → Inv m
      → log P m name lv e ≡ some (map (line m.appender lv e) (targets m name lv))
  unfolding log targets
  log_lem m name lv e v =
      let (v1, a1, h1, s1, f1) = get_logger_lem m name v in
      let (v2, a2, h2, s2, f2) = get_logger_lem (get_logger m name).0 root_name v1 in
      let g = (get_logger_lem m root_name v).4 in
      log_by_lem (get_logger m name).0 m (get_logger m name).1 (logger_at m name)
        (get_logger (get_logger m name).0 root_name).1 (logger_at m root_name) lv e h1 a1
        (a2 ∙ s1 root_name) f1 g
