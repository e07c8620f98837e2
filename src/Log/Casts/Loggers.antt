-- ===== src/Log/Casts/Loggers.antt =====
-- The texts of loggers, read as definitions.
use custom_net_framework.Prelude.{
  Option, inr, inl, Option-cases, has, ℕ, ◌≡◌, refl, ap, ◌∙◌, arith, Bool, true, false, not, ◌&&◌,
  none, some, List, [], ◌∷◌, ◌==◌, if◌then◌else◌, Bytes, codes, ◌===◌,
}
use custom_net_framework.Config.Casts.{YamlText}
use custom_net_framework.Log.Level.{unknow, to_string}
use custom_net_framework.Log.Logger.{stdout, file, LogAppender, Logger}
use custom_net_framework.Log.Defines.{LogAppenderDefine, LogDefine}
use custom_net_framework.Log.Casts.{
  YamlKeys, push_under, read_or, read_appender, define_from_text, appender_to_yaml, push_texts,
  logger_to_yaml, define_to_text,
}
use custom_net_framework.Log.Casts.Nodes.{push_all, puts, get-new, new-takes_keys}
use custom_net_framework.Log.Casts.RoundTrip.{
  known, as_read, all_kept, level-known, Holds, Reads, read_appender-Holds, define_lem,
  define_roundtrip,
}

-- The pattern of a logger; nothing when its formatter is null.
abbrev pub logger_pattern : Logger → Bytes
logger_pattern l = elim l.formatter [ none ↦ [] | some f ↦ f.pattern ]

-- The pattern of an appender that has a formatter of its own.
abbrev pattern_of : LogAppender → Bytes
pattern_of a = elim a.formatter [ none ↦ [] | some f ↦ f.pattern ]

abbrev owns : LogAppender → Bool
owns a = a.has_formatter && (elim a.formatter [ none ↦ false | some f ↦ true ])

-- An appender, and a logger, as a definition would have them.
pub described : LogAppender → LogAppenderDefine
described a = record {
  type = elim a.kind [ stdout ↦ 2 | file name ↦ 1 ];
  level = unknow;
  formatter = if owns a then pattern_of a else [];
  file_name = elim a.kind [ stdout ↦ [] | file name ↦ name ];
}

pub all_described : (ℕ → LogAppender) → List ℕ → List LogAppenderDefine
all_described h [] = []
all_described h (p ∷ ps) = described (h p) ∷ all_described h ps

module _ (Y : YamlText) (K : YamlKeys Y) where
  abbrev fields : LogAppender → List (Bool × Bytes × Bytes)
  fields a = elim a.kind [
    | stdout ↦
        (true, codes "type", codes "StdoutLogAppender")
        ∷ (not (a.level == unknow), codes "level", to_string a.level)
        ∷ (owns a, codes "formatter", pattern_of a)
        ∷ []
    | file name ↦
        (true, codes "type", codes "FileLogAppender")
        ∷ (true, codes "file", name)
        ∷ (true, codes "level", to_string a.level)
        ∷ (owns a, codes "formatter", pattern_of a)
        ∷ []
  ]

  abbrev node_of : LogAppender → Y.Node
  node_of a = puts Y K (Y.null) (fields a)

  to_yaml-node : (a : LogAppender) → appender_to_yaml Y K a ≡ Y.print (node_of a)
  unfolding appender_to_yaml
  to_yaml-node a = ground arith

  read_own :
      (n : Y.Node) (key s : Bytes) (b : Bool)
      → K.get n key ≡ (if b then some (K.scalar s) else none)
      → read_or Y K [] n key ≡ some (if b then s else [])
  unfolding read_or
  read_own n key s true h = ground (arith, h, K.as_string_scalar s)
  read_own n key s false h = ground (arith, h)

  node_of-read : (a : LogAppender) → read_appender Y K (node_of a) ≡ some (as_read (described a))
  unfolding described Holds ◌===◌
  node_of-read a = read_appender-Holds Y K (node_of a) (described a) (
    new-takes_keys Y K (fields a),
    get-new Y K (fields a) (codes "type") ∙ ground arith,
    get-new Y K (fields a) (codes "file") ∙ ground arith,
    read_own (node_of a) (codes "formatter") (pattern_of a) (owns a)
        (get-new Y K (fields a) (codes "formatter") ∙ ground arith),
  )

  nodes_of : (ℕ → LogAppender) → List ℕ → List Y.Node
  nodes_of h [] = []
  nodes_of h (p ∷ ps) = node_of (h p) ∷ nodes_of h ps

  nodes_of-Reads :
      (h : ℕ → LogAppender) (ps : List ℕ) → Reads Y K (nodes_of h ps) (all_described h ps)
  unfolding Reads nodes_of all_described
  nodes_of-Reads h [] = tt
  nodes_of-Reads h (p ∷ ps) = (node_of-read (h p), nodes_of-Reads h ps)

  push_texts-push_all :
      (n : Y.Node) (h : ℕ → LogAppender) (ps : List ℕ)
      → push_texts Y K n h ps ≡ some (push_all Y K n (codes "appenders") (nodes_of h ps))
  unfolding push_texts push_all nodes_of
  push_texts-push_all n h [] = refl
  push_texts-push_all n h (p ∷ ps) =
      let loaded = ap Y.load (to_yaml-node (h p)) ∙ Y.load_print (node_of (h p)) in
      ground (
        arith,
        loaded,
        push_texts-push_all (push_under Y K n (codes "appenders") (node_of (h p))) h ps,
      )

  abbrev logger_fields : Bytes → Logger → List (Bool × Bytes × Bytes)
  logger_fields name l =
      (true, codes "name", name)
      ∷ (true, codes "level", to_string l.level)
      ∷ (has l.formatter, codes "formatter", logger_pattern l)
      ∷ []

  -- The text of a logger can be read as a definition: of its name, of its level if that has a name,
  -- of its pattern if it has a formatter, and of its appenders, in order, each with its type, its file and the pattern of a
  -- formatter of its own, but with no level. A definition that is written and read again comes back
  -- in the same way: without the levels of its appenders, without the files of those for the
  -- standard output, and without those of another type.
  pub yaml_lem :
      (h : ℕ → LogAppender) (name : Bytes) (l : Logger) (i : LogDefine)
      → ((t : Y.Text) × (logger_to_yaml Y K h name l ≡ some t)
          × (define_from_text Y K t
              ≡ some (record {
                name = name;
                level = known l.level;
                formatter = logger_pattern l;
                appenders = all_kept (all_described h l.appenders);
              })))
        × (define_from_text Y K (define_to_text Y K i)
            ≡ some (record i { level = known i.level; appenders = all_kept i.appenders }))
  unfolding logger_to_yaml ◌===◌
  yaml_lem h name l i =
      let n = puts Y K (Y.null) (logger_fields name l) in
      let ns = nodes_of h l.appenders in
      let own : (if has l.formatter then logger_pattern l else []) ≡ logger_pattern l =
        elim (Option-cases l.formatter) [
          | inl z ↦ ground (arith, z)
          | inr (f, z) ↦ ground (arith, z)
        ] in
      let read =
        define_lem Y K (logger_fields name l) ns (all_described h l.appenders) name
          (to_string l.level) (logger_pattern l) (nodes_of-Reads h l.appenders) (other none)
          (other (some (K.scalar name)))
          (λ m e. read_own m (codes "level") (to_string l.level) true (e ∙ other (some _)))
          (λ m e.
            read_own m (codes "formatter") (logger_pattern l) (has l.formatter) (e ∙ this_one)
            ∙ ap some own) in
      (
        (
          Y.print (push_all Y K n (codes "appenders") ns),
          ground (arith, push_texts-push_all n h l.appenders),
          ground (arith, read, level-known l.level),
        ),
        define_roundtrip Y K i,
      )
    where
      -- The key of the formatter, looked for under another key and under its own.
      other :
          (x : Option Y.Node)
          → (if has l.formatter && false then some (K.scalar (logger_pattern l)) else x) ≡ x
      other x = ground arith

      this_one :
          (if has l.formatter && true then some (K.scalar (logger_pattern l)) else none)
          ≡ (if has l.formatter then some (K.scalar (logger_pattern l)) else none)
      this_one = ground arith
