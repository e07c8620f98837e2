-- ===== src/Log/Defines/Apply.antt =====
-- What a definition makes of its logger.
use custom_net_framework.Prelude.{
  ℕ, ◌+◌, zero, suc, ◌≡◌, ◌⊎◌, Option, none, some, List, [], ◌∷◌, if◌then◌else◌, is_empty, length,
  update, All, Bytes, ◌===◌, arith, refl, sym, ap, ◌∙◌, inl, inr, Bool-cases,
}
use custom_net_framework.Log.Level.{Level}
use custom_net_framework.Log.Logger.{
  Kind, stdout, file, LoggerManager, set_level, set_pattern, clear_appenders, add_appender,
}
use custom_net_framework.Log.Logger.Steps.{Calls, next, create, add, clear, level, text, Calls-Inv}
use custom_net_framework.Log.Logger.Effects.{
  View, view, create_view, set_level_view, clear_view, set_pattern_view, add_view,
}
use custom_net_framework.Log.Defines.{
  LogAppenderDefine, LogDefine, find_define, kind_of, make_appender, add_defined, add_all_defined,
  apply_define,
}

-- The types of the appenders that LexicalCast makes.
abbrev pub IsKnown : LogAppenderDefine → Type 0
IsKnown a = (a.type ≡ 1) ⊎ (a.type ≡ 2)

abbrev pub AllKnown : List LogDefine → Type 0
AllKnown ds = All (λ d. All IsKnown d.appenders) ds

-- A set of definitions: no two have one name.
abbrev pub Distinct : List LogDefine → Type 0
Distinct [] = Unit
Distinct (d ∷ ds) = (find_define d.name ds ≡ none) × Distinct ds

-- The step ends in a state that calls can reach, with these views.
pub record Ends (r : Option LoggerManager) (views : Bytes → View) : Type 0 where
  pub after : LoggerManager
  pub returns : r ≡ some after
  pub calls : Calls after
  pub seen : (j : Bytes) → view after j ≡ views j

kind_of-known : (a : LogAppenderDefine) → IsKnown a → (kind : Kind) × (kind_of a ≡ some kind)
unfolding kind_of
kind_of-known a (inl e) = (file a.file_name, ground (arith, e))
kind_of-known a (inr e) = (stdout, ground (arith, e))

-- So many more appenders.
abbrev raise : ℕ → View → View
raise zero v = v
raise (suc n) v = raise n (v.0, suc v.1)

raise_lem : (n k : ℕ) (lv : Level) → raise n (lv, k) ≡ (lv, n + k)
raise_lem zero k lv = ap (λ i. (lv, i)) (omega arith)
raise_lem (suc n) k lv = raise_lem n (suc k) lv ∙ ap (λ i. (lv, i)) (omega arith)

grown : Bytes → ℕ → (Bytes → View) → Bytes → View
grown name n views j = if j === name then raise n (views j) else views j

grown-zero : (name : Bytes) (views : Bytes → View) (j : Bytes) → grown name 0 views j ≡ views j
unfolding grown
grown-zero name views j = ground arith

grown-suc :
    (name : Bytes) (n : ℕ) (views views' : Bytes → View) (j : Bytes)
    → views' j ≡ grown name 1 views j
    → grown name n views' j ≡ grown name (suc n) views j
unfolding grown
grown-suc name n views views' j e = elim (Bool-cases (j === name)) [
  | inl y ↦ rw y (ap (raise n) (e ∙ rw y refl))
  | inr o ↦ rw o (e ∙ rw o refl)
]

add_defined-Ends :
    (m : LoggerManager) (name : Bytes) (a : LogAppenderDefine)
    → Calls m
    → IsKnown a
    → Ends (add_defined m name a) (grown name 1 (view m))
unfolding add_defined grown
add_defined-Ends m name a c k =
    let (kind, e) = kind_of-known a k in
    let m1 : LoggerManager = record m {
      appender = update m.appender m.fresh (make_appender a kind);
      fresh = suc m.fresh;
    } in
    let c1 : Calls m1 = next c (create m (make_appender a kind)) in
    record {
      after = add_appender m1 name m.fresh;
      returns = ground (arith, e);
      calls = next c1 (add m1 name m.fresh (omega arith));
      seen = λ j. elim (Bool-cases (j === name)) [
        | inl y ↦
            add_view m1 name m.fresh j (Calls-Inv c1)
            ∙ rw y (ap (raise 1) (create_view m (make_appender a kind) j))
        | inr n ↦
            add_view m1 name m.fresh j (Calls-Inv c1)
            ∙ rw n (create_view m (make_appender a kind) j)
      ];
    }

add_all_defined-Ends :
    (m : LoggerManager) (name : Bytes) (as' : List LogAppenderDefine)
    → Calls m
    → All IsKnown as'
    → Ends (add_all_defined m name as') (grown name (length as') (view m))
unfolding add_all_defined grown
add_all_defined-Ends m name [] c k = record {
  after = m;
  returns = refl;
  calls = c;
  seen = λ j. sym (grown-zero name (view m) j);
}
add_all_defined-Ends m name (a ∷ as') c k =
    let one = add_defined-Ends m name a c k.0 in
    let rest = add_all_defined-Ends one.after name as' one.calls k.1 in
    record {
      after = rest.after;
      returns = ground (arith, one.returns, rest.returns);
      calls = rest.calls;
      seen =
          λ j. rest.seen j ∙ grown-suc name (length as') (view m) (view one.after) j (one.seen j);
    }

-- A definition, in place of what was there.
unfoldable pub replaced : LogDefine → (Bytes → View) → Bytes → View
replaced d views j = if j === d.name then (d.level, length d.appenders) else views j

formatted :
    (m : LoggerManager) (name s : Bytes)
    → Calls m
    → Calls (if is_empty s then m else set_pattern m name s)
      × ((j : Bytes) → view (if is_empty s then m else set_pattern m name s) j ≡ view m j)
formatted m name s c = elim (Bool-cases (is_empty s)) [
  | inl y ↦ (rw y c, λ j. rw y refl)
  | inr n ↦ (rw n (next c (text m name s)), λ j. rw n (set_pattern_view m name s j (Calls-Inv c)))
]

defined-view :
    (name : Bytes) (lv : Level) (n : ℕ) (j : Bytes) (v0 v1 v2 v3 : Bytes → View)
    → v1 j ≡ (if j === name then (lv, (v0 j).1) else v0 j)
    → v2 j ≡ v1 j
    → v3 j ≡ (if j === name then ((v2 j).0, 0) else v2 j)
    → grown name n v3 j ≡ (if j === name then (lv, n) else v0 j)
unfolding grown
defined-view name lv n j v0 v1 v2 v3 a b c = elim (Bool-cases (j === name)) [
  | inl y ↦
      let first : v1 j ≡ (lv, (v0 j).1) = a ∙ rw y refl in
      let third : v3 j ≡ (lv, 0) = c ∙ rw y (ap (λ v. (v.0, 0)) (b ∙ first)) in
      let sum : n + 0 ≡ n = omega arith in
      rw y (ap (raise n) third ∙ raise_lem n 0 lv ∙ ap (λ i. (lv, i)) sum)
  | inr o ↦ rw o (c ∙ rw o (b ∙ (a ∙ rw o refl)))
]

pub apply_define-Ends :
    (m : LoggerManager) (d : LogDefine)
    → Calls m
    → All IsKnown d.appenders
    → Ends (apply_define m d) (replaced d (view m))
unfolding apply_define replaced grown
apply_define-Ends m d c k =
    let m1 = set_level m d.name d.level in
    let c1 : Calls m1 = next c (level m d.name d.level) in
    let m2 = if is_empty d.formatter then m1 else set_pattern m1 d.name d.formatter in
    let (c2, same) = formatted m1 d.name d.formatter c1 in
    let c3 : Calls (clear_appenders m2 d.name) = next c2 (clear m2 d.name) in
    let all = add_all_defined-Ends (clear_appenders m2 d.name) d.name d.appenders c3 k in
    record {
      after = all.after;
      returns = all.returns;
      calls = all.calls;
      seen = λ j.
          let levelled = set_level_view m d.name d.level j (Calls-Inv c) in
          let cleared = clear_view m2 d.name j (Calls-Inv c2) in
          all.seen j
          ∙ defined-view d.name d.level (length d.appenders) j (view m) (view m1) (view m2)
              (view (clear_appenders m2 d.name)) levelled (same j) cleared;
    }
