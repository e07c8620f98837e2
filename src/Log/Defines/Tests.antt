-- ===== src/Log/Defines/Tests.antt =====
-- A definition is taken away, and another one is added.
use custom_net_framework.Prelude.{
  ◌≡◌, inl, inr, none, some, [], ◌∷◌, if◌then◌else◌, length, Bytes, codes, refl,
}
use custom_net_framework.Log.Level.{warn, error}
use custom_net_framework.Log.Logger.{LoggerManager, new_manager}
use custom_net_framework.Log.Logger.Routing.{Inv}
use custom_net_framework.Log.Logger.Steps.{start}
use custom_net_framework.Log.Logger.Effects.{view}
use custom_net_framework.Log.Defines.{
  LogAppenderDefine, LogDefine, find_define, is_unchanged, on_change,
}
use custom_net_framework.Log.Defines.Listener.{on_change_lem}

abbrev to_file : LogAppenderDefine
to_file = record {
  type = 1;
  level = error;
  formatter = codes "%d%T%m%n";
  file_name = codes "net.log";
}

abbrev to_console : LogAppenderDefine
to_console = record { type = 2; level = warn; formatter = []; file_name = [] }

abbrev net : LogDefine
net = record {
  name = codes "net";
  level = warn;
  formatter = codes "%m%n";
  appenders = to_file ∷ to_console ∷ [];
}

abbrev system : LogDefine
system = record {
  name = codes "system";
  level = error;
  formatter = [];
  appenders = to_console ∷ [];
}

on_change_lem_example :
    (m : LoggerManager) × (on_change new_manager (system ∷ []) (net ∷ []) ≡ some m)
    × Inv m
    × ((j : Bytes)
        → view m j ≡ (elim (find_define j (net ∷ [])) [
          | some d ↦
              if is_unchanged (system ∷ []) d
              then view new_manager j
              else (d.level, length d.appenders)
          | none ↦ elim (find_define j (system ∷ [])) [
            | some d ↦ (100, 0)
            | none ↦ view new_manager j
          ]
        ]))
unfolding find_define
on_change_lem_example =
    on_change_lem new_manager (system ∷ []) (net ∷ []) start ((inl refl, (inr refl, tt)), tt)
      (refl, tt)
