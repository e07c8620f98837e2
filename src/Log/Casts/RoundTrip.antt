-- ===== src/Log/Casts/RoundTrip.antt =====
-- The definitions of loggers, written and read back, and the texts of loggers, read as definitions.
use mathlib.Core.List.{append-nil, append_assoc}
use custom_net_framework.Prelude.{
  ◌≡◌, refl, sym, ap, ◌∙◌, arith, Bool, true, not, ◌&&◌, Option, none, some, List, [], ◌∷◌, ◌++◌,
  ◌==◌, if◌then◌else◌, leb, map, is_empty, Bytes, codes, ◌===◌, Bool-cases, Option-cases, inl, inr,
}
use custom_net_framework.Config.Casts.{YamlText, push}
use custom_net_framework.Log.Level.{Level, unknow, to_string, from_string, fatal}
use custom_net_framework.Log.Defines.{LogAppenderDefine, LogDefine}
use custom_net_framework.Log.Casts.{
  YamlKeys, push_under, read_or, read_file, read_stdout, read_appender, read_appenders,
  define_from_text, appender_node, push_appenders, define_to_text,
}
use custom_net_framework.Log.Casts.Nodes.{
  null-IsBuilt, puts, written, puts-IsBuilt, get-new, new-takes_keys, push_all, push_all_lem,
  pushed,
}

-- What comes back of a level, and of an appender: the type, the formatter and the file.
pub known : Level → Level
known level = if leb level fatal then level else unknow

abbrev pub as_read : LogAppenderDefine → Option LogAppenderDefine
as_read a =
    if a.type == 1
    then some (record a { level = unknow })
    else if a.type == 2
    then some (record a { level = unknow; file_name = [] })
    else none

pub all_kept : List LogAppenderDefine → List LogAppenderDefine
all_kept [] = []
all_kept (a ∷ as') = elim (as_read a) [ none ↦ all_kept as' | some x ↦ x ∷ all_kept as' ]

is_empty-nil : (s : Bytes) → is_empty s ≡ true → s ≡ []
is_empty-nil [] h = refl
is_empty-nil (c ∷ s) h = ground (arith, h)

pub level-known : (l : Level) → from_string (to_string l) ≡ known l
unfolding known to_string from_string ◌===◌
level-known l = ground arith

module _ (Y : YamlText) (K : YamlKeys Y) where
  -- A node with what `read_appender` looks at.
  unfoldable pub Holds : Y.Node → Option Bytes → Option Bytes → Bytes → Type 0
  Holds n type name formatter =
      (K.takes_keys n ≡ true)
      × (K.get n (codes "type") ≡ (elim type [ none ↦ none | some s ↦ some (K.scalar s) ]))
      × (K.get n (codes "file") ≡ (elim name [ none ↦ none | some s ↦ some (K.scalar s) ]))
      × (read_or Y K [] n (codes "formatter") ≡ some formatter)

  read_or-text :
      (n : Y.Node) (key s : Bytes)
      → K.get n key
        ≡ (elim (if is_empty s then none else some s) [ none ↦ none | some s ↦ some (K.scalar s) ])
      → read_or Y K [] n key ≡ some s
  unfolding read_or
  read_or-text n key s h = elim (Bool-cases (is_empty s)) [
    | inl y ↦ ground (arith, h, y, is_empty-nil s y)
    | inr m ↦ ground (arith, h, m, K.as_string_scalar s)
  ]

  abbrev appender_fields : LogAppenderDefine → List (Bool × Bytes × Bytes)
  appender_fields a =
      (a.type == 1, codes "type", codes "FileLogAppender")
      ∷ (a.type == 1, codes "file", a.file_name)
      ∷ (not (a.type == 1) && a.type == 2, codes "type", codes "StdoutLogAppender")
      ∷ (not (a.level == unknow), codes "level", to_string a.level)
      ∷ (not (is_empty a.formatter), codes "formatter", a.formatter)
      ∷ []

  appender_node-Holds :
      (a : LogAppenderDefine)
      → Holds
          (appender_node Y K a)
          (if a.type == 1
            then some (codes "FileLogAppender")
            else if a.type == 2
            then some (codes "StdoutLogAppender")
            else none)
          (if a.type == 1 then some a.file_name else none)
          a.formatter
  unfolding appender_node Holds ◌===◌
  appender_node-Holds a = (
    new-takes_keys Y K (appender_fields a),
    get-new Y K (appender_fields a) (codes "type") ∙ ground arith,
    get-new Y K (appender_fields a) (codes "file") ∙ ground arith,
    read_or-text (appender_node Y K a) (codes "formatter") a.formatter
        (get-new Y K (appender_fields a) (codes "formatter") ∙ ground arith),
  )

  pub read_appender-Holds :
      (n : Y.Node) (a : LogAppenderDefine)
      → Holds n
          (if a.type == 1
            then some (codes "FileLogAppender")
            else if a.type == 2
            then some (codes "StdoutLogAppender")
            else none)
          (if a.type == 1 then some a.file_name else none)
          a.formatter
      → read_appender Y K n ≡ some (as_read a)
  unfolding read_appender read_file read_stdout Holds ◌===◌
  read_appender-Holds n a (keys, t, f, p) = elim (Bool-cases (a.type == 1)) [
    | inl y ↦ ground (
      arith,
      keys,
      y,
      t,
      f,
      p,
      K.as_string_scalar (codes "FileLogAppender"),
      K.as_string_scalar a.file_name,
    )
    | inr m ↦ elim (Bool-cases (a.type == 2)) [
      | inl y ↦ ground (arith, keys, m, y, t, p, K.as_string_scalar (codes "StdoutLogAppender"))
      | inr k ↦ ground (arith, keys, m, k, t)
    ]
  ]

  -- The nodes of appenders, each of which is read as one of `as'`.
  unfoldable pub Reads : List Y.Node → List LogAppenderDefine → Type 0
  Reads [] [] = Unit
  Reads [] (a ∷ as') = ⊥
  Reads (n ∷ ns) [] = ⊥
  Reads (n ∷ ns) (a ∷ as') = (read_appender Y K n ≡ some (as_read a)) × Reads ns as'

  read_appenders_lem :
      (ns : List Y.Node) (as' done : List LogAppenderDefine)
      → Reads ns as'
      → read_appenders Y K done ns ≡ some (done ++ all_kept as')
  unfolding read_appenders Reads all_kept
  read_appenders_lem [] [] done r = ap (λ l. some l) (sym (append-nil done))
  read_appenders_lem [] (a ∷ as') done r = absurd r
  read_appenders_lem (n ∷ ns) [] done r = absurd r
  read_appenders_lem (n ∷ ns) (a ∷ as') done (r, rs) = elim (Option-cases (as_read a)) [
    | inl m ↦ ground (arith, r, m, read_appenders_lem ns as' done rs)
    | inr (x, y) ↦
        let more =
          read_appenders_lem ns as' (push done x) rs
          ∙ ap (λ l. some l) (append_assoc done (x ∷ []) (all_kept as')) in
        ground (arith, r, y, more)
  ]

  nodes-Reads : (as' : List LogAppenderDefine) → Reads (map (appender_node Y K) as') as'
  unfolding Reads
  nodes-Reads [] = tt
  nodes-Reads (a ∷ as') =
      (read_appender-Holds (appender_node Y K a) a (appender_node-Holds a), nodes-Reads as')

  push_appenders-map :
      (n : Y.Node) (as' : List LogAppenderDefine)
      → push_appenders Y K n as' ≡ push_all Y K n (codes "appenders") (map (appender_node Y K) as')
  unfolding push_appenders push_all
  push_appenders-map n [] = refl
  push_appenders-map n (a ∷ as') =
      push_appenders-map (push_under Y K n (codes "appenders") (appender_node Y K a)) as'

  read_pushed :
      (ns : List Y.Node) (as' : List LogAppenderDefine)
      → Reads ns as'
      → (elim (pushed Y K ns) [ none ↦ some [] | some s ↦ read_appenders Y K [] (Y.elements s) ])
        ≡ some (all_kept as')
  unfolding Reads all_kept
  read_pushed [] [] r = refl
  read_pushed [] (a ∷ as') r = absurd r
  read_pushed (n ∷ ns) as' r =
      ap (λ xs. read_appenders Y K [] xs) (Y.elements_built (n ∷ ns))
      ∙ read_appenders_lem (n ∷ ns) as' [] r

  -- A node of texts, with the nodes of appenders pushed under it.
  pub define_lem :
      (es : List (Bool × Bytes × Bytes)) (ns : List Y.Node) (as' : List LogAppenderDefine)
      (name level formatter : Bytes)
      → Reads ns as'
      → written Y K none (codes "appenders") es ≡ none
      → written Y K none (codes "name") es ≡ some (K.scalar name)
      → ((n : Y.Node)
          → K.get n (codes "level") ≡ written Y K none (codes "level") es
          → read_or Y K [] n (codes "level") ≡ some level)
      → ((n : Y.Node)
          → K.get n (codes "formatter") ≡ written Y K none (codes "formatter") es
          → read_or Y K [] n (codes "formatter") ≡ some formatter)
      → define_from_text Y K (Y.print (push_all Y K (puts Y K (Y.null) es) (codes "appenders") ns))
        ≡ some (record {
          name = name;
          level = from_string level;
          formatter = formatter;
          appenders = all_kept as';
        })
  unfolding define_from_text ◌===◌
  define_lem es ns as' name level formatter r e0 e1 e2 e3 =
      let n = puts Y K (Y.null) es in
      let n' = push_all Y K n (codes "appenders") ns in
      let (a, b) =
        push_all_lem Y K n (codes "appenders") [] ns
          (puts-IsBuilt Y K (Y.null) es (null-IsBuilt Y K))
          (get-new Y K es (codes "appenders") ∙ e0) in
      let named = b (codes "name") refl ∙ get-new Y K es (codes "name") ∙ e1 in
      let levelled = e2 n' (b (codes "level") refl ∙ get-new Y K es (codes "level")) in
      let formatted = e3 n' (b (codes "formatter") refl ∙ get-new Y K es (codes "formatter")) in
      ground (
        arith,
        Y.load_print n',
        named,
        K.as_string_scalar name,
        levelled,
        formatted,
        a,
        read_pushed ns as' r,
      )

  abbrev define_fields : LogDefine → List (Bool × Bytes × Bytes)
  define_fields i =
      (true, codes "name", i.name)
      ∷ (not (i.level == unknow), codes "level", to_string i.level)
      ∷ (not (is_empty i.formatter), codes "formatter", i.formatter)
      ∷ []

  read_level :
      (n : Y.Node) (key : Bytes) (level : Level)
      → K.get n key ≡ (if level == unknow then none else some (K.scalar (to_string level)))
      → read_or Y K [] n key ≡ some (if level == unknow then [] else to_string level)
  unfolding read_or
  read_level n key level h = ground (arith, h, K.as_string_scalar (to_string level))

  level_text-known : (l : Level) → from_string (if l == unknow then [] else to_string l) ≡ known l
  unfolding known from_string ◌===◌
  level_text-known l = ground (arith, level-known l)

  pub define_roundtrip :
      (i : LogDefine)
      → define_from_text Y K (define_to_text Y K i)
        ≡ some (record i { level = known i.level; appenders = all_kept i.appenders })
  unfolding define_to_text ◌===◌
  define_roundtrip i =
      let ns = map (appender_node Y K) i.appenders in
      ap (λ n. define_from_text Y K (Y.print n))
        (push_appenders-map (puts Y K (Y.null) (define_fields i)) i.appenders)
      ∙ define_lem (define_fields i) ns i.appenders i.name
          (if i.level == unknow then [] else to_string i.level) i.formatter
          (nodes-Reads i.appenders) (ground arith) (ground arith)
          (λ n h. read_level n (codes "level") i.level (h ∙ ground arith))
          (λ n h. read_or-text n (codes "formatter") i.formatter (h ∙ ground arith))
      ∙ ap (λ l. some (record i { level = l; appenders = all_kept i.appenders }))
          (level_text-known i.level)
