-- ===== src/Log/Logger/Tests.antt =====
-- A manager in use, and the examples of the theorems.
use custom_net_framework.Prelude.{
  ℕ, ◌||◌, ◌⊎◌, true, false, Option, contains, has, ◌≡◌, some, [], ◌∷◌, codes, map, Bytes,
}
use custom_net_framework.Log.Level.{info, error}
use custom_net_framework.Log.Pattern.{LogEvent, LogFormatter, Printer}
use custom_net_framework.Log.Logger.{
  LoggerManager, new_manager, get_logger, set_level, set_formatter, log, root_name,
}
use custom_net_framework.Log.Logger.Routing.{Inv, line, logger_at, targets, log_lem}
use custom_net_framework.Log.Logger.Steps.{Calls, start, next, get, level, Calls-Inv}
use custom_net_framework.Log.Logger.Formatters.{calls_lem}

abbrev printer : Printer
printer = record { number = λ n. n ∷ []; time_text = λ f t. f }

abbrev event : LogEvent
event = record {
  file = codes "a.cpp";
  line_number = 1;
  elapsed = 0;
  thread = 1;
  fiber = 0;
  time = 9;
  thread_label = [];
  content = codes "hello";
  logger_name = codes "net";
}

abbrev net : Bytes
net = codes "net"

-- A logger that has no appender prints on the root logger's.
quiet_root : Calls (set_level (get_logger new_manager net).0 root_name error)
quiet_root =
    next (next start (get new_manager net)) (level (get_logger new_manager net).0 root_name error)

abbrev quieted : LoggerManager
quieted = set_level (get_logger new_manager net).0 root_name error

calls_lem_example :
    Inv quieted
    × ((name : Bytes) (f : Option LogFormatter) (p : ℕ)
        → let m' = set_formatter quieted name f in
          let a = quieted.appender p in
          (contains p (logger_at quieted name).appenders ≡ true
            → has (m'.appender p).formatter ≡ (has f || a.has_formatter))
          × ((contains p (logger_at quieted name).appenders ≡ false) ⊎ (a.has_formatter ≡ true)
              → (m'.appender p).formatter ≡ a.formatter))
calls_lem_example = calls_lem quiet_root

log_lem_example :
    log printer new_manager net info event
    ≡ some
        (map (line printer new_manager.appender info event) (targets printer new_manager net info))
log_lem_example = log_lem printer new_manager net info event (Calls-Inv start)
