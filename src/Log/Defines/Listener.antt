-- ===== src/Log/Defines/Listener.antt =====
-- What the listener makes of the loggers.
use custom_net_framework.Prelude.{
  ◌≡◌, none, some, List, [], ◌∷◌, if◌then◌else◌, length, Bytes, ◌===◌, ===_iff, arith, refl, ap,
  ◌∙◌, inl, inr, Bool-cases, Option-cases,
}
use custom_net_framework.Log.Logger.{LoggerManager, set_level, clear_appenders}
use custom_net_framework.Log.Logger.Routing.{Inv}
use custom_net_framework.Log.Logger.Steps.{Calls, next, clear, level, Calls-Inv}
use custom_net_framework.Log.Logger.Effects.{View, view, set_level_view, clear_view}
use custom_net_framework.Log.Defines.{
  LogDefine, find_define, is_unchanged, apply_new, remove_old, on_change,
}
use custom_net_framework.Log.Defines.Apply.{AllKnown, Distinct, Ends, replaced, apply_define-Ends}

-- The views after the loop over the new value.
applied : List LogDefine → List LogDefine → (Bytes → View) → Bytes → View
applied old new views j = elim (find_define j new) [
  | none ↦ views j
  | some d ↦ if is_unchanged old d then views j else (d.level, length d.appenders)
]

flip : (xs ys : Bytes) → (xs === ys) ≡ (ys === xs)
flip xs ys = ground (arith, ===_iff xs ys, ===_iff ys xs)

applied-cons :
    (old : List LogDefine) (d : LogDefine) (ds : List LogDefine) (views views' : Bytes → View)
    (j : Bytes)
    → find_define d.name ds ≡ none
    → views' j ≡ (if is_unchanged old d then views j else replaced d views j)
    → applied old ds views' j ≡ applied old (d ∷ ds) views j
unfolding applied find_define replaced
applied-cons old d ds views views' j u e = elim (Bool-cases (j === d.name)) [
  | inl y ↦
      let gone : find_define j ds ≡ none =
        ap (λ i. find_define i ds) ((===_iff j d.name).0 y) ∙ u in
      ground (arith, gone, flip d.name j ∙ y, y, e)
  | inr n ↦
      let kept : views' j ≡ views j = ground (arith, e, n) in
      elim (Option-cases (find_define j ds)) [
        | inl f ↦ ground (arith, f, flip d.name j ∙ n, kept)
        | inr (o, f) ↦ ground (arith, f, flip d.name j ∙ n, kept)
      ]
]

apply_new-Ends :
    (old : List LogDefine) (m : LoggerManager) (new : List LogDefine)
    → Calls m
    → AllKnown new
    → Distinct new
    → Ends (apply_new old m new) (applied old new (view m))
unfolding apply_new applied find_define
apply_new-Ends old m [] c k u = record { after = m; returns = refl; calls = c; seen = λ j. refl }
apply_new-Ends old m (d ∷ ds) c k u = elim (Bool-cases (is_unchanged old d)) [
  | inl y ↦
      let rest = apply_new-Ends old m ds c k.1 u.1 in
      record {
        after = rest.after;
        returns = ground (arith, y, rest.returns);
        calls = rest.calls;
        seen = λ j. rest.seen j ∙ applied-cons old d ds (view m) (view m) j u.0 (rw y refl);
      }
  | inr n ↦
      let one = apply_define-Ends m d c k.0 in
      let rest = apply_new-Ends old one.after ds one.calls k.1 u.1 in
      record {
        after = rest.after;
        returns = ground (arith, n, one.returns, rest.returns);
        calls = rest.calls;
        seen = λ j.
            rest.seen j ∙ applied-cons old d ds (view m) (view one.after) j u.0 (rw n (one.seen j));
      }
]

-- The views after the loop over the old value.
removed : List LogDefine → List LogDefine → (Bytes → View) → Bytes → View
removed new old views j = elim (find_define j old) [
  | none ↦ views j
  | some d ↦ elim (find_define j new) [ none ↦ (100, 0) | some o ↦ views j ]
]

removed-cons :
    (new : List LogDefine) (d : LogDefine) (ds : List LogDefine) (views views' : Bytes → View)
    (j : Bytes)
    → views' j ≡ (elim (find_define d.name new) [
      | none ↦ if j === d.name then (100, 0) else views j
      | some o ↦ views j
    ])
    → removed new ds views' j ≡ removed new (d ∷ ds) views j
unfolding removed find_define
removed-cons new d ds views views' j e = elim (Bool-cases (j === d.name)) [
  | inl y ↦
      let same : find_define j new ≡ find_define d.name new =
        ap (λ i. find_define i new) ((===_iff j d.name).0 y) in
      elim (Option-cases (find_define j ds)) [
        | inl f ↦ ground (arith, f, flip d.name j ∙ y, y, e, same)
        | inr (o, f) ↦ elim (Option-cases (find_define d.name new)) [
          | inl g ↦ ground (arith, f, g, flip d.name j ∙ y, y, e, same)
          | inr (p, g) ↦ ground (arith, f, g, flip d.name j ∙ y, y, e, same)
        ]
      ]
  | inr n ↦
      let kept : views' j ≡ views j = elim (Option-cases (find_define d.name new)) [
        | inl g ↦ ground (arith, e, n, g)
        | inr (p, g) ↦ ground (arith, e, n, g)
      ] in
      elim (Option-cases (find_define j ds)) [
        | inl f ↦ ground (arith, f, flip d.name j ∙ n, kept)
        | inr (o, f) ↦ elim (Option-cases (find_define j new)) [
          | inl g ↦ ground (arith, f, g, flip d.name j ∙ n, kept)
          | inr (p, g) ↦ ground (arith, f, g, flip d.name j ∙ n, kept)
        ]
      ]
]

silenced :
    (name j : Bytes) (v0 v1 v2 : Bytes → View)
    → v1 j ≡ (if j === name then (100, (v0 j).1) else v0 j)
    → v2 j ≡ (if j === name then ((v1 j).0, 0) else v1 j)
    → v2 j ≡ (if j === name then (100, 0) else v0 j)
silenced name j v0 v1 v2 a b = elim (Bool-cases (j === name)) [
  | inl y ↦
      let first : v1 j ≡ (100, (v0 j).1) = a ∙ rw y refl in
      rw y (b ∙ rw y (ap (λ v. (v.0, 0)) first))
  | inr n ↦ rw n (b ∙ rw n (a ∙ rw n refl))
]

remove_old-calls :
    (new : List LogDefine) (m : LoggerManager) (old : List LogDefine)
    → Calls m
    → Calls (remove_old new m old)
      × ((j : Bytes) → view (remove_old new m old) j ≡ removed new old (view m) j)
unfolding remove_old removed find_define
remove_old-calls new m [] c = (c, λ j. refl)
remove_old-calls new m (d ∷ ds) c = elim (Option-cases (find_define d.name new)) [
  | inr (o, y) ↦
      let rest = remove_old-calls new m ds c in
      (
        rw (y, remove_old) rest.0,
        λ j. rw (y, remove_old) (rest.1 j ∙ removed-cons new d ds (view m) (view m) j (rw y refl)),
      )
  | inl n ↦
      let m1 = set_level m d.name 100 in
      let c1 : Calls m1 = next c (level m d.name 100) in
      let m2 = clear_appenders m1 d.name in
      let rest = remove_old-calls new m2 ds (next c1 (clear m1 d.name)) in
      (
        rw (n, remove_old) rest.0,
        λ j.
            rw (n, remove_old)
              (rest.1 j
                ∙ removed-cons new d ds (view m) (view m2) j (
                    rw n (
                      silenced d.name j (view m) (view m1) (view m2)
                        (set_level_view m d.name 100 j (Calls-Inv c))
                        (clear_view m1 d.name j (Calls-Inv c1))))),
      )
]

-- When the loggers have only been used by their calls, no two of the new definitions have one name,
-- and each of their appenders is of one of the two types: the listener returns, and every appender
-- of every logger still has a formatter. A logger with a new or a changed definition has the level and
-- the number of appenders that the definition gives it; one whose definition was taken away has level
-- 100 and no appenders; the level and the number of appenders of every other logger stay.
pub on_change_lem :
    (m : LoggerManager) (old new : List LogDefine)
    → Calls m
    → AllKnown new
    → Distinct new
    → (m' : LoggerManager) × (on_change m old new ≡ some m')
      × Inv m'
      × ((j : Bytes)
          → view m' j ≡ (elim (find_define j new) [
            | some d ↦ if is_unchanged old d then view m j else (d.level, length d.appenders)
            | none ↦ elim (find_define j old) [ some d ↦ (100, 0) | none ↦ view m j ]
          ]))
unfolding on_change applied removed
on_change_lem m old new c k u =
    let first = apply_new-Ends old m new c k u in
    let (c', seen) = remove_old-calls new first.after old first.calls in
    (
      remove_old new first.after old,
      ground (arith, first.returns),
      Calls-Inv c',
      λ j.
          let a = first.seen j in
          let b = seen j in
          elim (Option-cases (find_define j new)) [
            | inl n ↦ elim (Option-cases (find_define j old)) [
              | inl o ↦ ground (arith, a, b, n, o)
              | inr (p, o) ↦ ground (arith, a, b, n, o)
            ]
            | inr (d, y) ↦ elim (Option-cases (find_define j old)) [
              | inl o ↦ ground (arith, a, b, y, o)
              | inr (p, o) ↦ ground (arith, a, b, y, o)
            ]
          ],
    )
