-- ===== src/Config.antt =====
-- sylar/sylar/config.h and config.cpp: configuration variables with their listeners, the table of
-- them by name, and loading a YAML tree.
pub mod Members
pub mod Casts
pub mod Variables
pub mod Load
mod Tests
use custom_net_framework.Prelude.{
  ℕ, zero, suc, ◌+◌, ◌<◌, ◌≡◌, Bool, true, false, not, ◌&&◌, Option, none, some, List, [], ◌∷◌,
  ◌++◌, ◌==◌, leb, if◌then◌else◌, is_empty, contains, filter, Bytes, codes, lookup, insert,
}

-- The values of every type, by the number of their type: operator== and the cast from text, where
-- `none` is an exception. A listener may throw.
pub record Values : Type 1 where
  pub Value : Type 0
  pub same : ℕ → Value → Value → Bool
  pub from_str : ℕ → Bytes → Option Value
  pub throws : ℕ → Value → Value → Bool

-- yaml-cpp: what a node is, how it is printed, and a bound on the depth of the tree.
pub data View (Node : Type 0) : Type 0 where
  scalar : Bytes → View Node
  mapping : List (Bytes × Node) → View Node
  other : View Node

abbrev pub Below : {Node : Type 0} → (Node → ℕ) → ℕ → List (Bytes × Node) → Type 0
Below depth n [] = Unit
Below depth n ((k, v) ∷ kids) = (depth v < n) × Below depth n kids

abbrev pub children : {Node : Type 0} → View Node → List (Bytes × Node)
children (scalar s) = []
children (mapping kids) = kids
children other = []

pub record Yaml : Type 1 where
  pub Node : Type 0
  pub view : Node → View Node
  pub text : Node → Bytes
  pub depth : Node → ℕ
  pub finite : (n : Node) → Below depth (depth n) (children (view n))

-- `find_first_not_of("abcdefghijklmnopqrstuvwxyz._123456789") == npos`.
abbrev pub allowed : Bytes
allowed = codes "abcdefghijklmnopqrstuvwxyz._123456789"

pub is_valid : Bytes → Bool
is_valid [] = true
is_valid (c ∷ s) = contains c allowed && is_valid s

-- `::tolower` in the C locale.
pub lower : Bytes → Bytes
lower [] = []
lower (c ∷ s) = (if leb b'A' c && leb c b'Z' then c + 32 else c) ∷ lower s

module _ (Y : Yaml) where
  -- `prefix.empty() ? key : prefix + "." + key`.
  abbrev pub join : Bytes → Bytes → Bytes
  join prefix key = if is_empty prefix then key else prefix ++ (b'.' ∷ key)

  abbrev pub gather :
      (Bytes → Y.Node → Option (List (Bytes × Y.Node)))
      → Bytes
      → List (Bytes × Y.Node)
      → Option (List (Bytes × Y.Node))
  gather f prefix [] = some []
  gather f prefix ((k, v) ∷ kids) = elim (f (join prefix k) v) [
    | none ↦ none
    | some out ↦ elim (gather f prefix kids) [ none ↦ none | some outs ↦ some (out ++ outs) ]
  ]

  -- `ListAllMember`: what it adds to the output. A unit of fuel for each level; `none`: it ran out.
  pub list_all_member : ℕ → Bytes → Y.Node → Option (List (Bytes × Y.Node))
  unfolding is_valid
  list_all_member zero prefix node = none
  list_all_member (suc fuel) prefix node =
      let kids = gather (list_all_member fuel) prefix (children (Y.view node)) in
      if not (is_valid prefix)
      then some []
      else elim kids [ none ↦ none | some outs ↦ some ((prefix, node) ∷ outs) ]

module _ (S : Values) where
  -- `ConfigVar<T>`: T by its number, and the listeners by their keys, in order.
  pub record ConfigVar : Type 0 where
    pub kind : ℕ
    pub val : S.Value
    pub cbs : List (ℕ × ℕ)

  -- A call of a listener: its key, the old value and the new one.
  abbrev pub Notice : Type 0
  Notice = ℕ × S.Value × S.Value

  -- The loop of `setValue`: the calls, and whether none of them threw.
  pub notify : List (ℕ × ℕ) → S.Value → S.Value → List Notice × Bool
  notify [] old new = ([], true)
  notify ((key, cb) ∷ cbs) old new =
      let (ns, done) = notify cbs old new in
      if S.throws cb old new then ((key, old, new) ∷ [], false) else ((key, old, new) ∷ ns, done)

  -- `ConfigVar::setValue`: the calls of listeners, the variable, and whether it returned.
  pub set_value : ConfigVar → S.Value → List Notice × ConfigVar × Bool
  unfolding notify
  set_value var v =
      let (ns, done) = notify var.cbs var.val v in
      if S.same var.kind v var.val
      then ([], var, true)
      else (ns, if done then record var { val = v } else var, done)

  -- `ConfigVar::fromString`: the calls of listeners, the variable, and what it returns.
  pub from_string : ConfigVar → Bytes → List Notice × ConfigVar × Bool
  unfolding set_value
  from_string var s = elim (S.from_str var.kind s) [
    | none ↦ ([], var, false)
    | some v ↦ let r = set_value var v in (r.0, r.1, false)
  ]

  abbrev pub Table : Type 0
  Table = List (Bytes × ConfigVar)

  -- What `Lookup` does: it returns the variable, or nullptr, or throws.
  pub data Looked : Type 0 where
    found : ConfigVar → Looked
    null : Looked
    invalid : Looked

  -- `Config::Lookup<T>(name, default_value)`.
  pub lookup_or_add : Table → ℕ → Bytes → S.Value → Table × Looked
  unfolding is_valid
  lookup_or_add t kind name default = elim (lookup name t) [
    | some var ↦ (t, if var.kind == kind then found var else null)
    | none ↦
        let var : ConfigVar = record { kind = kind; val = default; cbs = [] } in
        if not (is_valid name) then (t, invalid) else (insert name var t, found var)
  ]

  -- `Config::Lookup<T>(name)`.
  pub lookup_typed : Table → ℕ → Bytes → Option ConfigVar
  lookup_typed t kind name = elim (lookup name t) [
    | none ↦ none
    | some var ↦ if var.kind == kind then some var else none
  ]

  -- `ConfigVar::addListener` under the key of the counter, `delListener` and `clearListener`.
  pub add_listener : ConfigVar → ℕ → ℕ → ConfigVar
  add_listener var key cb = record var { cbs = var.cbs ++ (key, cb) ∷ [] }

  pub del_listener : ConfigVar → ℕ → ConfigVar
  del_listener var key = record var { cbs = filter (λ x. not (x.0 == key)) var.cbs }

  pub clear_listener : ConfigVar → ConfigVar
  clear_listener var = record var { cbs = [] }

  module _ (Y : Yaml) where
    -- The text that a node is read from.
    pub node_text : Y.Node → Bytes
    node_text n = elim (Y.view n) [ scalar s ↦ s | _ ↦ Y.text n ]

    -- The loop of `Config::LoadFromYaml` over the members: the calls of listeners and the table.
    pub load_all : Table → List (Bytes × Y.Node) → List Notice × Table
    unfolding from_string lower node_text
    load_all t [] = ([], t)
    load_all t ((key, n) ∷ members) =
        if is_empty key then load_all t members else elim (lookup (lower key) t) [
          | none ↦ load_all t members
          | some var ↦
              let r = from_string var (node_text n) in
              let rest = load_all (insert (lower key) r.1 t) members in (r.0 ++ rest.0, rest.1)
        ]

    -- `Config::LoadFromYaml`.
    pub load_from_yaml : Table → Y.Node → Option (List Notice × Table)
    unfolding load_all list_all_member
    load_from_yaml t root = elim (list_all_member Y (suc (Y.depth root)) [] root) [
      | none ↦ none
      | some members ↦ some (load_all t members)
    ]
