-- ===== src/Log/Logger.antt =====
-- `Logger`, `LogAppender` and `LoggerManager`. Appenders are shared objects, by address; loggers are
-- objects of the manager, by name.
pub mod Routing
pub mod Steps
pub mod Formatters
pub mod Effects
mod Tests
use custom_net_framework.Prelude.{
  ℕ, zero, suc, ◌+◌, ◌≡◌, Bool, true, false, not, ◌&&◌, ◌||◌, Option, none, some, List, [], ◌∷◌,
  ◌++◌, ◌==◌, leb, if◌then◌else◌, has, update, is_empty, Bytes, codes, ◌===◌, lookup, insert,
}
use custom_net_framework.Log.Level.{Level, debug}
use custom_net_framework.Log.Pattern.{LogFormatter, new_formatter, LogEvent, Printer, print_items}

-- The classes derived from LogAppender.
pub data Kind : Type 0 where
  stdout : Kind
  file : (filename : Bytes) → Kind

pub record LogAppender : Type 0 where
  pub kind : Kind
  pub level : Level
  pub has_formatter : Bool
  pub formatter : Option LogFormatter

pub record Logger : Type 0 where
  pub level : Level
  pub appenders : List ℕ
  pub formatter : Option LogFormatter
  pub has_root : Bool

-- `LoggerManager`, with the appenders there are: `fresh` is the next address.
pub record LoggerManager : Type 0 where
  pub loggers : List (Bytes × Logger)
  pub appender : ℕ → LogAppender
  pub fresh : ℕ

-- `new LogFormatter(pattern)`. The constructor ends, so that the first case is not met.
unfoldable pub make_formatter : Bytes → LogFormatter
make_formatter pattern = elim (new_formatter pattern) [
  | none ↦ record { pattern = pattern; items = []; is_error = true }
  | some f ↦ f
]

pub default_formatter : LogFormatter
unfolding make_formatter
default_formatter =
    make_formatter (codes "%d{%Y-%m-%d %H:%M:%S}%T%t%T%N%T%F%T[%p]%T[%c]%T%f:%l%T%m%n")

-- `Logger::Logger`.
pub new_logger : Bool → Logger
new_logger has_root = record {
  level = debug;
  appenders = [];
  formatter = some default_formatter;
  has_root = has_root;
}

-- `new StdoutLogAppender` and `new FileLogAppender(filename)`.
abbrev pub new_appender : Kind → LogAppender
new_appender kind = record { kind = kind; level = debug; has_formatter = false; formatter = none }

abbrev pub root_name : Bytes
root_name = codes "root"

-- `Logger::addAppender`, on a logger and on the appender at `p`.
pub add_appender_to : Logger → LogAppender → ℕ → Logger × LogAppender
add_appender_to l a p = (
  record l { appenders = l.appenders ++ p ∷ [] },
  if has a.formatter then a else record a { formatter = l.formatter },
)

-- `Logger::setFormatter(ptr)`, on one appender of the logger.
abbrev pub inherit : Option LogFormatter → LogAppender → LogAppender
inherit f a = if a.has_formatter then a else record a { formatter = f }

abbrev pub inherit_all : Option LogFormatter → List ℕ → (ℕ → LogAppender) → ℕ → LogAppender
inherit_all f [] h = h
inherit_all f (p ∷ ps) h = inherit_all f ps (update h p (inherit f (h p)))

-- `LogAppender::setFormatter`.
pub set_appender_formatter : LogAppender → Option LogFormatter → LogAppender
set_appender_formatter a f = record a { formatter = f; has_formatter = has f }

-- `Logger::delAppender`: the first that is this one.
pub remove_appender : ℕ → List ℕ → List ℕ
remove_appender p [] = []
remove_appender p (q ∷ ps) = if q == p then ps else q ∷ remove_appender p ps

-- `LoggerManager::getLogger`: the manager and the logger.
pub get_logger : LoggerManager → Bytes → LoggerManager × Logger
unfolding new_logger
get_logger m name = elim (lookup name m.loggers) [
  | some l ↦ (m, l)
  | none ↦ (record m { loggers = insert name (new_logger true) m.loggers }, new_logger true)
]

abbrev pub with_logger : LoggerManager → Bytes → Logger → LoggerManager
with_logger m name l = record m { loggers = insert name l m.loggers }

-- The calls of a logger, by its name.
pub add_appender : LoggerManager → Bytes → ℕ → LoggerManager
unfolding get_logger add_appender_to
add_appender m name p =
    let (m', l) = get_logger m name in
    let (l', a) = add_appender_to l (m'.appender p) p in
    record (with_logger m' name l') { appender = update m'.appender p a }

pub del_appender : LoggerManager → Bytes → ℕ → LoggerManager
unfolding get_logger remove_appender
del_appender m name p =
    let (m', l) = get_logger m name in
    with_logger m' name (record l { appenders = remove_appender p l.appenders })

pub clear_appenders : LoggerManager → Bytes → LoggerManager
unfolding get_logger
clear_appenders m name =
    let (m', l) = get_logger m name in with_logger m' name (record l { appenders = [] })

pub set_level : LoggerManager → Bytes → Level → LoggerManager
unfolding get_logger
set_level m name level =
    let (m', l) = get_logger m name in with_logger m' name (record l { level = level })

pub set_formatter : LoggerManager → Bytes → Option LogFormatter → LoggerManager
unfolding get_logger
set_formatter m name f =
    let (m', l) = get_logger m name in
    record (with_logger m' name (record l { formatter = f })) {
      appender = inherit_all f l.appenders m'.appender;
    }

-- `Logger::setFormatter(const std::string&)`.
pub set_pattern : LoggerManager → Bytes → Bytes → LoggerManager
unfolding set_formatter make_formatter
set_pattern m name pattern =
    let f = make_formatter pattern in if f.is_error then m else set_formatter m name (some f)

-- `LoggerManager::LoggerManager`: the root logger, with a StdoutLogAppender.
pub new_manager : LoggerManager
unfolding add_appender_to new_logger
new_manager =
    let (l, a) = add_appender_to (new_logger false) (new_appender stdout) 0 in
    record { loggers = (root_name, l) ∷ []; appender = λ p. a; fresh = 1 }

module _ (P : Printer) where
  -- `LogAppender::log` of the appenders at the addresses: what each of them prints. `none`: it calls
  -- through a null formatter.
  pub log_all : (ℕ → LogAppender) → List ℕ → Level → LogEvent → Option (List (ℕ × Bytes))
  log_all h [] lv e = some []
  log_all h (p ∷ ps) lv e =
      let rest = log_all h ps lv e in
      if leb (h p).level lv
      then elim (h p).formatter [
        | none ↦ none
        | some f ↦ elim rest [
          | none ↦ none
          | some outs ↦ some ((p, print_items P f.items lv e) ∷ outs)
        ]
      ]
      else rest

  -- `Logger::log` of a logger; `root` is what its `m_root` does.
  pub log_by :
      LoggerManager
      → Logger
      → Option (List (ℕ × Bytes))
      → Level
      → LogEvent
      → Option (List (ℕ × Bytes))
  unfolding log_all
  log_by m l root lv e =
      if leb l.level lv
      then (if not (is_empty l.appenders)
          then log_all m.appender l.appenders lv e
          else if l.has_root
          then root
          else some [])
      else some []

  -- `SYLAR_LOG_NAME(name)->log(level, event)`. The manager's root has no root of its own.
  pub log : LoggerManager → Bytes → Level → LogEvent → Option (List (ℕ × Bytes))
  unfolding log_by get_logger
  log m name lv e =
      let (m', l) = get_logger m name in
      let (_, r) = get_logger m' root_name in log_by m' l (log_by m' r (some []) lv e) lv e
