-- ===== src/Log/Defines.antt =====
-- The loggers that the configuration defines: `LogAppenderDefine`, `LogDefine`, and the listener of
-- `LogIniter` on the variable "logs". A std::set<LogDefine> is a list in the order of the names.
pub mod Apply
pub mod Listener
mod Tests
use custom_net_framework.Prelude.{
  ℕ, zero, suc, ◌+◌, ◌≡◌, Bool, true, false, not, ◌&&◌, Option, none, some, List, [], ◌∷◌, ◌++◌,
  ◌==◌, if◌then◌else◌, is_empty, update, Bytes, ◌===◌,
}
use custom_net_framework.Log.Level.{Level}
use custom_net_framework.Log.Pattern.{LogFormatter}
use custom_net_framework.Log.Logger.{
  Kind, stdout, file, LogAppender, LoggerManager, make_formatter, new_appender,
  set_appender_formatter, add_appender, clear_appenders, set_level, set_pattern,
}

pub record LogAppenderDefine : Type 0 where
  pub type : ℕ
  pub level : Level
  pub formatter : Bytes
  pub file_name : Bytes

pub record LogDefine : Type 0 where
  pub name : Bytes
  pub level : Level
  pub formatter : Bytes
  pub appenders : List LogAppenderDefine

-- `operator==` of both.
pub same_appender : LogAppenderDefine → LogAppenderDefine → Bool
same_appender a b =
    a.type == b.type
    && a.level == b.level
    && a.formatter === b.formatter
    && a.file_name === b.file_name

pub same_appenders : List LogAppenderDefine → List LogAppenderDefine → Bool
unfolding same_appender
same_appenders [] [] = true
same_appenders [] (b ∷ bs) = false
same_appenders (a ∷ as') [] = false
same_appenders (a ∷ as') (b ∷ bs) = same_appender a b && same_appenders as' bs

pub same_define : LogDefine → LogDefine → Bool
unfolding same_appenders
same_define a b =
    a.name === b.name
    && a.level == b.level
    && a.formatter === b.formatter
    && same_appenders a.appenders b.appenders

-- `find` of the set, which compares names only.
pub find_define : Bytes → List LogDefine → Option LogDefine
find_define name [] = none
find_define name (d ∷ ds) = if d.name === name then some d else find_define name ds

-- The appender of a definition; `none`: of another type, a null pointer that is used.
pub kind_of : LogAppenderDefine → Option Kind
kind_of a =
    if a.type == 1 then some (file a.file_name) else if a.type == 2 then some stdout else none

pub make_appender : LogAppenderDefine → Kind → LogAppender
make_appender a kind =
    let ap' : LogAppender = record (new_appender kind) { level = a.level } in
    let f = make_formatter a.formatter in
    if is_empty a.formatter
    then ap'
    else if f.is_error
    then ap'
    else set_appender_formatter ap' (some f)

-- A turn of the loop over the appenders of a definition.
pub add_defined : LoggerManager → Bytes → LogAppenderDefine → Option LoggerManager
unfolding kind_of make_appender
add_defined m name a = elim (kind_of a) [
  | none ↦ none
  | some kind ↦
      let m' : LoggerManager = record m {
        appender = update m.appender m.fresh (make_appender a kind);
        fresh = suc m.fresh;
      } in
      some (add_appender m' name m.fresh)
]

pub add_all_defined : LoggerManager → Bytes → List LogAppenderDefine → Option LoggerManager
unfolding add_defined
add_all_defined m name [] = some m
add_all_defined m name (a ∷ as') = elim (add_defined m name a) [
  | none ↦ none
  | some m' ↦ add_all_defined m' name as'
]

-- A new or a changed definition.
pub apply_define : LoggerManager → LogDefine → Option LoggerManager
unfolding add_all_defined
apply_define m d =
    let m1 = set_level m d.name d.level in
    let m2 = if is_empty d.formatter then m1 else set_pattern m1 d.name d.formatter in
    add_all_defined (clear_appenders m2 d.name) d.name d.appenders

-- Was there a definition of this name before, and an equal one?
pub is_unchanged : List LogDefine → LogDefine → Bool
unfolding find_define same_define
is_unchanged old d = elim (find_define d.name old) [ none ↦ false | some o ↦ same_define d o ]

-- The loop over the new value.
pub apply_new : List LogDefine → LoggerManager → List LogDefine → Option LoggerManager
unfolding apply_define is_unchanged
apply_new old m [] = some m
apply_new old m (d ∷ ds) =
    if is_unchanged old d
    then apply_new old m ds
    else elim (apply_define m d) [ none ↦ none | some m' ↦ apply_new old m' ds ]

-- The loop over the old value.
pub remove_old : List LogDefine → LoggerManager → List LogDefine → LoggerManager
unfolding find_define
remove_old new m [] = m
remove_old new m (d ∷ ds) = elim (find_define d.name new) [
  | some o ↦ remove_old new m ds
  | none ↦ remove_old new (clear_appenders (set_level m d.name 100) d.name) ds
]

-- The listener.
pub on_change : LoggerManager → List LogDefine → List LogDefine → Option LoggerManager
unfolding apply_new remove_old
on_change m old new = elim (apply_new old m new) [
  | none ↦ none
  | some m' ↦ some (remove_old new m' old)
]
