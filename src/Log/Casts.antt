-- ===== src/Log/Casts.antt =====
-- YAML texts of the loggers: the casts of `LogDefine` from and to text, and `toYamlString` of
-- Logger, StdoutLogAppender and FileLogAppender.
pub mod Nodes
pub mod RoundTrip
pub mod Loggers
mod Tests
use mathlib.Core.List.{foldl}
use custom_net_framework.Prelude.{
  has, ℕ, ◌≡◌, Bool, true, false, not, ◌&&◌, Option, none, some, List, [], ◌∷◌, ◌++◌, ◌==◌,
  if◌then◌else◌, is_empty, Bytes, codes, ◌===◌, ◌>>=◌,
}
use custom_net_framework.Config.Casts.{YamlText, push}
use custom_net_framework.Log.Level.{Level, unknow, to_string, from_string}
use custom_net_framework.Log.Logger.{Kind, stdout, file, LogAppender, Logger, LoggerManager}
use custom_net_framework.Log.Defines.{LogAppenderDefine, LogDefine}

abbrev pub built : (Y : YamlText) → List (Bytes × Y.Node) → Y.Node
built Y ps = foldl (λ n p. Y.assign n p.0 p.1) (Y.null) ps

-- What has been assigned to a key last.
abbrev pub last_of : {V : Type 0} → Bytes → List (Bytes × V) → Option V
last_of k [] = none
last_of k ((j, v) ∷ ps) = elim (last_of k ps) [
  | none ↦ if k === j then some v else none
  | some w ↦ some w
]

-- yaml-cpp, on: nodes of texts, `as<std::string>`, which may throw, and node[key], which throws on
-- nodes that do not take keys, such as scalars; `none` is a node that IsDefined() denies. A key of a
-- node that was null yields what was assigned to it last.
pub record YamlKeys (Y : YamlText) : Type 0 where
  pub scalar : Bytes → Y.Node
  pub as_string : Y.Node → Option Bytes
  pub takes_keys : Y.Node → Bool
  pub get : Y.Node → Bytes → Option Y.Node
  pub as_string_scalar : (s : Bytes) → as_string (scalar s) ≡ some s
  pub takes_keys_built : (ps : List (Bytes × Y.Node)) → takes_keys (built Y ps) ≡ true
  pub get_built : (ps : List (Bytes × Y.Node)) (k : Bytes) → get (built Y ps) k ≡ last_of k ps

module _ (Y : YamlText) (K : YamlKeys Y) where
  -- `node[key] = s`, under a condition.
  pub put : Bool → Y.Node → Bytes → Bytes → Y.Node
  put b n key s = if b then Y.assign n key (K.scalar s) else n

  -- `node[key].push_back(x)`.
  pub push_under : Y.Node → Bytes → Y.Node → Y.Node
  push_under n key x =
      Y.assign n key (Y.push_back (elim (K.get n key) [ none ↦ Y.null | some s ↦ s ]) x)

  -- `node[key].as<std::string>()` if it is defined.
  pub read_or : Bytes → Y.Node → Bytes → Option Bytes
  read_or default n key = elim (K.get n key) [ none ↦ some default | some s ↦ K.as_string s ]

  -- What is read of an appender of each type: an exception, or `continue`, or an appender.
  pub read_file : Y.Node → Option (Option LogAppenderDefine)
  unfolding read_or
  read_file a = elim (K.get a (codes "file")) [
    | none ↦ some none
    | some f ↦ do
      name ← K.as_string f
      formatter ← read_or [] a (codes "formatter")
      some (some (record { type = 1; level = unknow; formatter = formatter; file_name = name }))
  ]

  pub read_stdout : Y.Node → Option (Option LogAppenderDefine)
  unfolding read_or
  read_stdout a = do
    formatter ← read_or [] a (codes "formatter")
    some (some (record { type = 2; level = unknow; formatter = formatter; file_name = [] }))

  -- A turn of the loop over the appenders.
  pub read_appender : Y.Node → Option (Option LogAppenderDefine)
  unfolding read_file read_stdout
  read_appender a = if not (K.takes_keys a) then none else elim (K.get a (codes "type")) [
    | none ↦ some none
    | some t ↦ do
      type ← K.as_string t
      if type === codes "FileLogAppender"
          then read_file a
          else if type === codes "StdoutLogAppender"
          then read_stdout a
          else some none
  ]

  pub read_appenders : List LogAppenderDefine → List Y.Node → Option (List LogAppenderDefine)
  unfolding read_appender
  read_appenders done [] = some done
  read_appenders done (a ∷ nodes) = elim (read_appender a) [
    | none ↦ none
    | some none ↦ read_appenders done nodes
    | some (some x) ↦ read_appenders (push done x) nodes
  ]

  -- `LexicalCast<std::string, LogDefine>`.
  pub define_from_text : Y.Text → Option LogDefine
  unfolding read_or read_appenders
  define_from_text v = do
    n ← Y.load v
    name_node ← K.get n (codes "name")
    name ← K.as_string name_node
    level ← read_or [] n (codes "level")
    formatter ← read_or [] n (codes "formatter")
    appenders ← (elim (K.get n (codes "appenders")) [
      | none ↦ some []
      | some as' ↦ read_appenders [] (Y.elements as')
    ])
    some (record {
      name = name;
      level = from_string level;
      formatter = formatter;
      appenders = appenders;
    })

  -- An appender's node in `LexicalCast<LogDefine, std::string>`.
  pub appender_node : LogAppenderDefine → Y.Node
  unfolding put
  appender_node a =
      let n1 =
        put (a.type == 1) (put (a.type == 1) (Y.null) (codes "type") (codes "FileLogAppender"))
          (codes "file") a.file_name in
      let n2 =
        put (not (a.type == 1) && a.type == 2) n1 (codes "type") (codes "StdoutLogAppender") in
      let n3 = put (not (a.level == unknow)) n2 (codes "level") (to_string a.level) in
      put (not (is_empty a.formatter)) n3 (codes "formatter") a.formatter

  pub push_appenders : Y.Node → List LogAppenderDefine → Y.Node
  unfolding push_under appender_node
  push_appenders n [] = n
  push_appenders n (a ∷ as') =
      push_appenders (push_under n (codes "appenders") (appender_node a)) as'

  pub define_to_text : LogDefine → Y.Text
  unfolding put push_appenders
  define_to_text i =
      let n1 = put true (Y.null) (codes "name") i.name in
      let n2 = put (not (i.level == unknow)) n1 (codes "level") (to_string i.level) in
      let n3 = put (not (is_empty i.formatter)) n2 (codes "formatter") i.formatter in
      Y.print (push_appenders n3 i.appenders)

  -- `toYamlString` of the two appenders.
  pub appender_to_yaml : LogAppender → Y.Text
  unfolding put
  appender_to_yaml a =
      let pattern : Bytes = elim a.formatter [ none ↦ [] | some f ↦ f.pattern ] in
      let own = a.has_formatter && (elim a.formatter [ none ↦ false | some f ↦ true ]) in
      elim a.kind [
        | stdout ↦
            let n1 = put true (Y.null) (codes "type") (codes "StdoutLogAppender") in
            let n2 = put (not (a.level == unknow)) n1 (codes "level") (to_string a.level) in
            Y.print (put own n2 (codes "formatter") pattern)
        | file name ↦
            let n1 = put true (Y.null) (codes "type") (codes "FileLogAppender") in
            let n2 = put true n1 (codes "file") name in
            let n3 = put true n2 (codes "level") (to_string a.level) in
            Y.print (put own n3 (codes "formatter") pattern)
      ]

  pub push_texts : Y.Node → (ℕ → LogAppender) → List ℕ → Option Y.Node
  unfolding push_under appender_to_yaml
  push_texts n h [] = some n
  push_texts n h (p ∷ ps) = elim (Y.load (appender_to_yaml (h p))) [
    | none ↦ none
    | some x ↦ push_texts (push_under n (codes "appenders") x) h ps
  ]

  -- `Logger::toYamlString`, of the logger of this name.
  pub logger_to_yaml : (ℕ → LogAppender) → Bytes → Logger → Option Y.Text
  unfolding put push_texts
  logger_to_yaml h name l =
      let n1 = put true (Y.null) (codes "name") name in
      let n2 = put true n1 (codes "level") (to_string l.level) in
      let pattern : Bytes = elim l.formatter [ none ↦ [] | some f ↦ f.pattern ] in
      let n3 = put (has l.formatter) n2 (codes "formatter") pattern in
      elim (push_texts n3 h l.appenders) [ none ↦ none | some n ↦ some (Y.print n) ]
