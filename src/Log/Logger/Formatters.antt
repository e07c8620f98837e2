-- ===== src/Log/Logger/Formatters.antt =====
-- The formatters of appenders: what the calls of the loggers keep, and `Logger::setFormatter`.
use custom_net_framework.Prelude.{
  ℕ, ◌≡◌, ◌∙◌, refl, true, false, not, ◌&&◌, ◌||◌, ◌⊎◌, Option, contains, has, if◌then◌else◌, Bytes,
  arith,
}
use custom_net_framework.Log.Pattern.{LogFormatter}
use custom_net_framework.Log.Logger.{LoggerManager, get_logger, inherit_all, set_formatter}
use custom_net_framework.Log.Logger.Routing.{Inv, get_logger_lem, logger_at}
use custom_net_framework.Log.Logger.Steps.{Calls, Calls-Inv, inherit_all-at}

-- After any calls from a new LoggerManager, of which none gives a null formatter to an appender or to
-- a logger: every appender of every logger exists and has a formatter, so that no log() reads a null
-- pointer. A next call of Logger::setFormatter, also with a null pointer, leaves an appender of
-- its logger with a formatter just if the pointer is not null or the appender has a formatter of its
-- own, and gives no other appender and no appender with a formatter of its own another one.
pub calls_lem :
    {m : LoggerManager}
    → Calls m
    → Inv m
      × ((name : Bytes) (f : Option LogFormatter) (p : ℕ)
          → let m' = set_formatter m name f in
            let a = m.appender p in
            (contains p (logger_at m name).appenders ≡ true
              → has (m'.appender p).formatter ≡ (has f || a.has_formatter))
            × ((contains p (logger_at m name).appenders ≡ false) ⊎ (a.has_formatter ≡ true)
                → (m'.appender p).formatter ≡ a.formatter))
unfolding set_formatter
calls_lem {m} c = (Calls-Inv c, λ name f p. given name f p)
  where
    given :
        (name : Bytes) (f : Option LogFormatter) (p : ℕ)
        → let m' = set_formatter m name f in
          let a = m.appender p in
          (contains p (logger_at m name).appenders ≡ true
            → has (m'.appender p).formatter ≡ (has f || a.has_formatter))
          × ((contains p (logger_at m name).appenders ≡ false) ⊎ (a.has_formatter ≡ true)
              → (m'.appender p).formatter ≡ a.formatter)
    given name f p =
        let (_, same, heap, _, formatted) = get_logger_lem m name (Calls-Inv c) in
        let ps = (get_logger m name).1.appenders in
        let at : (inherit_all f ps (get_logger m name).0.appender p).formatter ≡ (
            if contains p (logger_at m name).appenders && not (m.appender p).has_formatter
            then f
            else (m.appender p).formatter) =
          (inherit_all-at f ps (get_logger m name).0.appender p).0 ∙ rw (same, heap) refl in
        (λ i. ground (arith, at, i, formatted p i), λ o. ground (arith, at, o))
