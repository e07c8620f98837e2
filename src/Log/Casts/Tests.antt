-- ===== src/Log/Casts/Tests.antt =====
-- A logger with two appenders, and a definition with an appender of its own level.
use mathlib.Core.List.{foldl}
use custom_net_framework.Prelude.{
  ℕ, zero, suc, Bool, true, false, ◌≡◌, refl, arith, true, Option, none, some, List, [], ◌∷◌, ◌===◌,
  if◌then◌else◌, Bytes, codes,
}
use custom_net_framework.Config.Casts.Sample.{Tree, nothing, word, assigned, trees}
use custom_net_framework.Log.Level.{info, warn, error}
use custom_net_framework.Log.Logger.{
  stdout, file, LogAppender, Logger, default_formatter, new_appender,
}
use custom_net_framework.Log.Defines.{LogDefine}
use custom_net_framework.Log.Casts.{
  built, last_of, YamlKeys, define_from_text, define_to_text, logger_to_yaml,
}
use custom_net_framework.Log.Casts.RoundTrip.{known, all_kept}
use custom_net_framework.Log.Casts.Loggers.{all_described, yaml_lem}

abbrev as_string : Tree → Option Bytes
as_string (word s) = some s
as_string _ = none

abbrev get : Tree → Bytes → Option Tree
get (assigned n j v) k = if k === j then some v else get n k
get _ k = none

abbrev takes_keys : Tree → Bool
takes_keys (word s) = false
takes_keys _ = true

takes_keys-foldl :
    (n : Tree) (ps : List (Bytes × Tree))
    → takes_keys n ≡ true
    → takes_keys (foldl (λ m p. assigned m p.0 p.1) n ps) ≡ true
takes_keys-foldl n [] h = h
takes_keys-foldl n ((j, v) ∷ ps) h = takes_keys-foldl (assigned n j v) ps refl

get-foldl :
    (n : Tree) (ps : List (Bytes × Tree)) (k : Bytes)
    → get (foldl (λ m p. assigned m p.0 p.1) n ps) k
      ≡ (elim (last_of k ps) [ none ↦ get n k | some v ↦ some v ])
get-foldl n [] k = refl
get-foldl n ((j, v) ∷ ps) k = ground (arith, get-foldl (assigned n j v) ps k)

get-built : (ps : List (Bytes × Tree)) (k : Bytes) → get (built trees ps) k ≡ last_of k ps
get-built ps k = ground (arith, get-foldl nothing ps k)

abbrev keys : YamlKeys trees
keys = record {
  scalar = word;
  as_string = as_string;
  takes_keys = takes_keys;
  get = get;
  as_string_scalar = λ s. refl;
  takes_keys_built = λ ps. takes_keys-foldl nothing ps refl;
  get_built = get-built;
}

abbrev appenders : ℕ → LogAppender
appenders zero = new_appender stdout
appenders (suc p) = record (new_appender (file (codes "a.txt"))) {
  level = error;
  has_formatter = true;
  formatter = some default_formatter;
}

abbrev logger : Logger
logger = record {
  level = info;
  appenders = 0 ∷ 1 ∷ [];
  formatter = some default_formatter;
  has_root = true;
}

abbrev definition : LogDefine
definition = record {
  name = codes "system";
  level = warn;
  formatter = [];
  appenders =
      record { type = 1; level = error; formatter = codes "%m"; file_name = codes "b.txt" } ∷ [];
}

yaml_lem_example :
    ((t : Tree) × (logger_to_yaml trees keys appenders (codes "root") logger ≡ some t)
      × (define_from_text trees keys t
          ≡ some (record {
            name = codes "root";
            level = known info;
            formatter = default_formatter.pattern;
            appenders = all_kept (all_described appenders (0 ∷ 1 ∷ []));
          })))
    × (define_from_text trees keys (define_to_text trees keys definition)
        ≡ some
            (record definition { level = known warn; appenders = all_kept definition.appenders }))
yaml_lem_example = yaml_lem trees keys appenders (codes "root") logger definition
