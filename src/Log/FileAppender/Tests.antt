-- ===== src/Log/FileAppender/Tests.antt =====
-- A file that is written to in two seconds.
use custom_net_framework.Prelude.{ℕ, ◌≡◌, true, false, [], ◌∷◌, codes, arith}
use custom_net_framework.Log.Level.{debug, info, error}
use custom_net_framework.Log.Pattern.{
  LogEvent, LogFormatter, Printer, message, print_items, print_item,
}
use custom_net_framework.Log.FileAppender.{
  FileLogAppender, log_file, log_second, log_second_lem, reopen,
}

abbrev printer : Printer
printer = record { number = λ n. n ∷ []; time_text = λ f t. f }

abbrev messages : LogFormatter
messages = record { pattern = codes "%m"; items = message ∷ []; is_error = false }

abbrev event : ℕ → LogEvent
event c = record {
  file = codes "a.cpp";
  line_number = 1;
  elapsed = 0;
  thread = 1;
  fiber = 0;
  time = 9;
  thread_label = [];
  content = c ∷ [];
  logger_name = codes "root";
}

abbrev appender : FileLogAppender
appender = record {
  level = info;
  formatter = messages;
  is_open = true;
  written = codes "old";
  last_time = 9;
}

-- The line of second 9 is gone after those of second 10.
log_second_lem_example :
    (log_second printer
      (log_second printer appender 9 ((info, event 1) ∷ []))
      10
      ((debug, event 2) ∷ (error, event 3) ∷ [])).written
    ≡ 3 ∷ []
unfolding log_file reopen print_items print_item
log_second_lem_example =
    log_second_lem printer (log_second printer appender 9 ((info, event 1) ∷ [])) 10
      ((debug, event 2) ∷ (error, event 3) ∷ []) (ground arith)
