-- ===== src/Config/Tests.antt =====
-- A tree with an upper-case key and a variable of it, and the examples of the theorems.
use mathlib.Core.List.{Memᴰ}
use custom_net_framework.Prelude.{
  ℕ, zero, suc, ◌≡◌, false, none, some, List, [], ◌∷◌, ◌==◌, if◌then◌else◌, is_empty, Bytes, codes,
  length, lookup, insert, ◌===◌, refl, arith,
}
use custom_net_framework.Config.{
  Values, Yaml, View, scalar, mapping, children, Below, is_valid, lower, list_all_member, ConfigVar,
  Notice, Table, found, null, notify, set_value, from_string, lookup_or_add, lookup_typed,
  node_text, load_all, load_from_yaml,
}
use custom_net_framework.Config.Members.{Member, list_all_member_lem}
use custom_net_framework.Config.Variables.{stop, more, assign, lookup_once}
use custom_net_framework.Config.Load.{HasValue, load_last}

-- a: {x: seven} and B: five.
abbrev view_of : ℕ → View ℕ
view_of zero = mapping ((codes "a", 1) ∷ (codes "B", 2) ∷ [])
view_of (suc zero) = mapping ((codes "x", 3) ∷ [])
view_of (suc (suc zero)) = scalar (codes "five")
view_of (suc (suc (suc n))) = scalar (codes "seven")

abbrev depth_of : ℕ → ℕ
depth_of zero = 2
depth_of (suc zero) = 1
depth_of (suc (suc n)) = 0

is_finite : (n : ℕ) → Below depth_of (depth_of n) (children (view_of n))
is_finite zero = ground arith
is_finite (suc zero) = ground arith
is_finite (suc (suc zero)) = ground arith
is_finite (suc (suc (suc n))) = ground arith

abbrev tree : Yaml
tree = record { Node = ℕ; view = view_of; text = λ n. []; depth = depth_of; finite = is_finite }

-- A text is read as its length.
abbrev lengths : Values
lengths = record {
  Value = ℕ;
  same = λ k v w. v == w;
  from_str = λ k s. if is_empty s then none else some (length s);
  throws = λ cb old new. false;
}

abbrev name : Bytes
name = codes "a.x"

abbrev var : ConfigVar lengths
var = record { kind = 1; val = 0; cbs = (1, 8) ∷ [] }

abbrev table : Table lengths
table = (name, var) ∷ []

-- The upper-case key is not listed.
listed : list_all_member tree 3 [] 0 ≡ some (([], 0) ∷ (codes "a", 1) ∷ (name, 3) ∷ [])
unfolding list_all_member is_valid
listed = refl

notices :
    load_from_yaml lengths tree table 0 ≡ some ((1, 0, 5) ∷ [], (name, record var { val = 5 }) ∷ [])
unfolding load_from_yaml list_all_member is_valid load_all from_string set_value notify node_text
    lower lookup insert ◌===◌
notices = refl

list_all_member_lem_example :
    (out : List (Bytes × ℕ)) × (list_all_member tree 3 [] 0 ≡ some out)
    × ((y : Bytes × ℕ) → Memᴰ y out → Member tree y.0 y.1 [] 0)
    × ((y : Bytes × ℕ) → Member tree y.0 y.1 [] 0 → Memᴰ y out)
    × ((y : Bytes × ℕ) → Memᴰ y out → lower y.0 ≡ y.0)
list_all_member_lem_example = list_all_member_lem tree 0

load_last_example :
    (ns : List (Notice lengths)) × (t' : Table lengths) × (var' : ConfigVar lengths)
    × (load_from_yaml lengths tree table 0 ≡ some (ns, t'))
    × (lookup name t' ≡ some var')
    × (var'.kind ≡ 1)
    × HasValue lengths tree var' 5
unfolding lower lookup ◌===◌ list_all_member is_valid node_text
load_last_example =
    load_last lengths tree table 0 (([], 0) ∷ (codes "a", 1) ∷ []) [] name 3 var 5 refl refl refl
      refl refl (λ cb old. refl)

lookup_once_example :
    (var' : ConfigVar lengths) × (var'.kind ≡ 1)
    × ((kind' v' : ℕ)
        → (lookup_or_add lengths
              (insert name
                (set_value lengths (record var { cbs = [] }) 4).1
                ((name, record var { cbs = [] }) ∷ []))
              kind'
              name
              v'
            ≡ (
              insert name
                  (set_value lengths (record var { cbs = [] }) 4).1
                  ((name, record var { cbs = [] }) ∷ []),
              if 1 == kind' then found var' else null,
            ))
          × (lookup_typed lengths
                (insert name
                  (set_value lengths (record var { cbs = [] }) 4).1
                  ((name, record var { cbs = [] }) ∷ []))
                kind'
                name
              ≡ (if 1 == kind' then some var' else none)))
unfolding lookup_or_add is_valid lookup insert ◌===◌
lookup_once_example =
    let fresh : ConfigVar lengths = record var { cbs = [] } in
    lookup_once lengths tree [] ((name, fresh) ∷ [])
      (insert name (set_value lengths fresh 4).1 ((name, fresh) ∷ [])) 1 name 0 fresh refl
      (more stop (assign ((name, fresh) ∷ []) name fresh 4 refl))
