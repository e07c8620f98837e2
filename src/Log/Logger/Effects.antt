-- ===== src/Log/Logger/Effects.antt =====
-- What the calls of a logger change: its level and the number of its appenders.
use custom_net_framework.Prelude.{
  Option, some, ℕ, suc, ◌≡◌, true, [], ◌∷◌, ◌++◌, if◌then◌else◌, length, length-append, update,
  Bytes, ◌===◌, ===_iff, lookup-insert, arith, refl, sym, ap, ◌∙◌, inl, inr, Bool-cases,
}
use custom_net_framework.Log.Level.{Level}
use custom_net_framework.Log.Pattern.{LogFormatter}
use custom_net_framework.Log.Logger.{
  LogAppender, Logger, LoggerManager, add_appender_to, get_logger, with_logger, add_appender,
  clear_appenders, set_level, set_formatter, set_pattern, make_formatter, inherit_all,
}
use custom_net_framework.Log.Logger.Routing.{Inv, get_logger_lem, logger_at}

abbrev pub View : Type 0
View = Level × ℕ

abbrev pub view_of : Logger → View
view_of l = (l.level, length l.appenders)

unfoldable pub view : LoggerManager → Bytes → View
unfolding logger_at
view m j = view_of (logger_at m j)

edit_view :
    (m : LoggerManager) (name j : Bytes) (l : Logger) (h : ℕ → LogAppender)
    → Inv m
    → view (record (with_logger (get_logger m name).0 name l) { appender = h }) j
      ≡ (if j === name then view_of l else view m j)
unfolding view logger_at
edit_view m name j l h v =
    let same = (get_logger_lem m name v).3 j in
    let found = lookup-insert name j l (get_logger m name).0.loggers in
    elim (Bool-cases (j === name)) [
      | inl y ↦ ground (arith, y, found)
      | inr n ↦ ground (arith, n, found, same)
    ]

pub create_view :
    (m : LoggerManager) (a : LogAppender) (j : Bytes)
    → view (record m { appender = update m.appender m.fresh a; fresh = suc m.fresh }) j ≡ view m j
unfolding view logger_at
create_view m a j = refl

-- The view of the logger that getLogger returns.
own_view :
    (m : LoggerManager) (name j : Bytes)
    → Inv m
    → (j === name) ≡ true
    → view_of (get_logger m name).1 ≡ view m j
unfolding view
own_view m name j v y =
    ap view_of ((get_logger_lem m name v).1)
    ∙ ap (λ k. view_of (logger_at m k)) (sym ((===_iff j name).0 y))

pub set_level_view :
    (m : LoggerManager) (name : Bytes) (lv : Level) (j : Bytes)
    → Inv m
    → view (set_level m name lv) j ≡ (if j === name then (lv, (view m j).1) else view m j)
unfolding set_level
set_level_view m name lv j v =
    let edit =
      edit_view m name j (record (get_logger m name).1 { level = lv })
        (get_logger m name).0.appender v in
    elim (Bool-cases (j === name)) [
      | inl y ↦ rw y (edit ∙ rw y (ap (λ x. (lv, x.1)) (own_view m name j v y)))
      | inr n ↦ rw n (edit ∙ rw n refl)
    ]

pub clear_view :
    (m : LoggerManager) (name j : Bytes)
    → Inv m
    → view (clear_appenders m name) j ≡ (if j === name then ((view m j).0, 0) else view m j)
unfolding clear_appenders
clear_view m name j v =
    let edit =
      edit_view m name j (record (get_logger m name).1 { appenders = [] })
        (get_logger m name).0.appender v in
    elim (Bool-cases (j === name)) [
      | inl y ↦ rw y (edit ∙ rw y (ap (λ x. (x.0, 0)) (own_view m name j v y)))
      | inr n ↦ rw n (edit ∙ rw n refl)
    ]

set_formatter_view :
    (m : LoggerManager) (name : Bytes) (f : Option LogFormatter) (j : Bytes)
    → Inv m
    → view (set_formatter m name f) j ≡ view m j
unfolding set_formatter
set_formatter_view m name f j v =
    let l = (get_logger m name).1 in
    let m' = (get_logger m name).0 in
    let edit =
      edit_view m name j (record l { formatter = f }) (inherit_all f l.appenders m'.appender) v in
    elim (Bool-cases (j === name)) [
      | inl y ↦ edit ∙ rw y (own_view m name j v y)
      | inr n ↦ edit ∙ rw n refl
    ]

pub set_pattern_view :
    (m : LoggerManager) (name s j : Bytes) → Inv m → view (set_pattern m name s) j ≡ view m j
unfolding set_pattern
set_pattern_view m name s j v = elim (Bool-cases (make_formatter s).is_error) [
  | inl y ↦ rw y refl
  | inr n ↦ rw n (set_formatter_view m name (some (make_formatter s)) j v)
]

pub add_view :
    (m : LoggerManager) (name : Bytes) (p : ℕ) (j : Bytes)
    → Inv m
    → view (add_appender m name p) j
      ≡ (if j === name then ((view m j).0, suc (view m j).1) else view m j)
unfolding add_appender add_appender_to
add_view m name p j v =
    let l = (get_logger m name).1 in
    let m' = (get_logger m name).0 in
    let edit =
      edit_view m name j (add_appender_to l (m'.appender p) p).0
        (update m'.appender p (add_appender_to l (m'.appender p) p).1) v in
    let one : length (l.appenders ++ p ∷ []) ≡ suc (length l.appenders) =
      omega (arith, length-append l.appenders (p ∷ [])) in
    elim (Bool-cases (j === name)) [
      | inl y ↦ rw y (
          edit
          ∙ rw y (ap (λ n. (l.level, n)) one ∙ ap (λ x. (x.0, suc x.1)) (own_view m name j v y)))
      | inr n ↦ rw n (edit ∙ rw n refl)
    ]
