-- ===== src/Config/Casts.antt =====
-- The casts of containers from and to YAML text: the specialisations of `LexicalCast` in
-- sylar/sylar/config.h. The casts of the elements are arguments; `none` is an exception.
pub mod RoundTrip
pub mod Unordered
pub mod Sample
mod Tests
use custom_net_framework.Prelude.{
  ℕ, ◌≡◌, Bool, true, false, Option, none, some, List, [], ◌∷◌, ◌++◌, if◌then◌else◌, Bytes, All,
  map,
}
use mathlib.Core.List.{foldl, Permᴰ}
use mathlib.Core.Logic.{◌≢◌}

abbrev pub push {ℓ} : {X : Type ℓ} → List X → X → List X
push xs x = xs ++ (x ∷ [])

-- Each element stands before each later one.
abbrev pub IsAscending {ℓ} : {X : Type ℓ} → (X → X → Bool) → List X → Type 0
IsAscending less [] = Unit
IsAscending less (x ∷ xs) =
    All (λ y. (less x y ≡ true) × (less y x ≡ false)) xs × IsAscending less xs

abbrev pub AreDistinct : {K : Type 0} → List K → Type 0
AreDistinct [] = Unit
AreDistinct (x ∷ xs) = All (λ y. x ≢ y) xs × AreDistinct xs

-- yaml-cpp, as far as the casts use it: `elements` are node[0] to node[size() - 1], and `entries`
-- what the iterator yields, with no key where `Scalar()` throws. Nodes that are pushed one after
-- another on a null node make a sequence of them, nodes that are assigned to distinct keys of one
-- make a mapping, and a node that is printed can be read again.
pub record YamlText : Type 1 where
  pub Text : Type 0
  pub Node : Type 0
  pub load : Text → Option Node
  pub print : Node → Text
  pub null : Node
  pub push_back : Node → Node → Node
  pub assign : Node → Bytes → Node → Node
  pub elements : Node → List Node
  pub entries : Node → List (Option Bytes × Node)
  pub elements_built : (ns : List Node) → elements (foldl push_back null ns) ≡ ns
  pub entries_built :
      (ps : List (Bytes × Node))
      → AreDistinct (map (λ p. p.0) ps)
      → entries (foldl (λ n p. assign n p.0 p.1) null ps) ≡ map (λ p. (some p.0, p.1)) ps
  pub load_print : (n : Node) → load (print n) ≡ some n

-- A std::unordered_set or std::unordered_map, by what is its elements' key: its elements in the order
-- of its iterator, which says nothing of where a new element is put. One with a key that is there
-- already may be dropped.
pub record Hashed {X K : Type 0} (key : X → K) : Type 1 where
  pub State : Type 0
  pub empty : State
  pub insert : State → X → State
  pub elements : State → List X
  pub elements_empty : elements empty ≡ []
  pub insert_new :
      (s : State) (x : X)
      → All (λ y. key y ≢ key x) (elements s)
      → Permᴰ (elements (insert s x)) (x ∷ elements s)

-- The loop of a cast from text over what it finds in the node, and that of a cast to text over the
-- elements.
pub read_into {ℓ κ} :
    {Cell : Type 0} {X : Type ℓ} {S : Type κ}
    → (Cell → Option X)
    → (S → X → S)
    → S
    → List Cell
    → Option S
read_into read insert s [] = some s
read_into read insert s (c ∷ cs) = elim (read c) [
  | none ↦ none
  | some x ↦ read_into read insert (insert s x) cs
]

pub write_into {ℓ} :
    {X : Type ℓ} {Node : Type 0} → (Node → X → Option Node) → Node → List X → Option Node
write_into write n [] = some n
write_into write n (x ∷ xs) = elim (write n x) [ none ↦ none | some n' ↦ write_into write n' xs ]

-- `std::set::insert` and `std::map::insert`: nothing changes if an equal element is there.
pub insert_ordered {ℓ} : {X : Type ℓ} → (X → X → Bool) → List X → X → List X
insert_ordered less [] x = x ∷ []
insert_ordered less (y ∷ ys) x =
    let rest = insert_ordered less ys x in
    if less x y then x ∷ y ∷ ys else if less y x then y ∷ rest else y ∷ ys

module _ (Y : YamlText) {T : Type 0} where
  module _ (from : Y.Text → Option T) where
    pub read_element : Y.Node → Option T
    read_element n = from (Y.print n)

    pub read_entry : Option Bytes × Y.Node → Option (Bytes × T)
    read_entry (none, n) = none
    read_entry (some key, n) = elim (from (Y.print n)) [ none ↦ none | some x ↦ some (key, x) ]

    pub vector_from_text : Y.Text → Option (List T)
    unfolding read_into read_element
    vector_from_text v = elim (Y.load v) [
      | none ↦ none
      | some node ↦ read_into read_element push [] (Y.elements node)
    ]

    pub list_from_text : Y.Text → Option (List T)
    unfolding read_into read_element
    list_from_text v = elim (Y.load v) [
      | none ↦ none
      | some node ↦ read_into read_element push [] (Y.elements node)
    ]

    pub set_from_text : (T → T → Bool) → Y.Text → Option (List T)
    unfolding read_into read_element insert_ordered
    set_from_text less v = elim (Y.load v) [
      | none ↦ none
      | some node ↦ read_into read_element (insert_ordered less) [] (Y.elements node)
    ]

    -- `less` is the order of std::string.
    pub map_from_text : (Bytes → Bytes → Bool) → Y.Text → Option (List (Bytes × T))
    unfolding read_into read_entry insert_ordered
    map_from_text less v = elim (Y.load v) [
      | none ↦ none
      | some node ↦ read_into read_entry (insert_ordered (λ p q. less p.0 q.0)) [] (Y.entries node)
    ]

    pub unordered_set_from_text : (H : Hashed (λ (x : T). x)) → Y.Text → Option H.State
    unfolding read_into read_element
    unordered_set_from_text H v = elim (Y.load v) [
      | none ↦ none
      | some node ↦ read_into read_element H.insert H.empty (Y.elements node)
    ]

    pub unordered_map_from_text : (H : Hashed (λ (p : Bytes × T). p.0)) → Y.Text → Option H.State
    unfolding read_into read_entry
    unordered_map_from_text H v = elim (Y.load v) [
      | none ↦ none
      | some node ↦ read_into read_entry H.insert H.empty (Y.entries node)
    ]

  module _ (to : T → Option Y.Text) where
    -- `YAML::Load(LexicalCast<T, std::string>()(i))`.
    pub element_node : T → Option Y.Node
    element_node x = elim (to x) [ none ↦ none | some t ↦ Y.load t ]

    pub append_element : Y.Node → T → Option Y.Node
    unfolding element_node
    append_element node x = elim (element_node x) [
      | none ↦ none
      | some n ↦ some (Y.push_back node n)
    ]

    pub assign_entry : Y.Node → Bytes × T → Option Y.Node
    unfolding element_node
    assign_entry node (key, x) = elim (element_node x) [
      | none ↦ none
      | some n ↦ some (Y.assign node key n)
    ]

    pub vector_to_text : List T → Option Y.Text
    unfolding write_into append_element
    vector_to_text v = elim (write_into append_element Y.null v) [
      | none ↦ none
      | some node ↦ some (Y.print node)
    ]

    pub list_to_text : List T → Option Y.Text
    unfolding write_into append_element
    list_to_text v = elim (write_into append_element Y.null v) [
      | none ↦ none
      | some node ↦ some (Y.print node)
    ]

    -- In the order of its elements.
    pub set_to_text : List T → Option Y.Text
    unfolding write_into append_element
    set_to_text v = elim (write_into append_element Y.null v) [
      | none ↦ none
      | some node ↦ some (Y.print node)
    ]

    pub map_to_text : List (Bytes × T) → Option Y.Text
    unfolding write_into assign_entry
    map_to_text v = elim (write_into assign_entry Y.null v) [
      | none ↦ none
      | some node ↦ some (Y.print node)
    ]

    pub unordered_set_to_text : (H : Hashed (λ (x : T). x)) → H.State → Option Y.Text
    unfolding write_into append_element
    unordered_set_to_text H v = elim (write_into append_element Y.null (H.elements v)) [
      | none ↦ none
      | some node ↦ some (Y.print node)
    ]

    pub unordered_map_to_text : (H : Hashed (λ (p : Bytes × T). p.0)) → H.State → Option Y.Text
    unfolding write_into assign_entry
    unordered_map_to_text H v = elim (write_into assign_entry Y.null (H.elements v)) [
      | none ↦ none
      | some node ↦ some (Y.print node)
    ]
