-- ===== src/Config/Casts/Sample.antt =====
-- A yaml-cpp whose texts are its nodes.
use mathlib.Core.List.{foldl, append-nil, append_assoc}
use custom_net_framework.Prelude.{
  ◌≡◌, refl, sym, ◌∙◌, Option, some, List, [], ◌∷◌, ◌++◌, Bytes, map,
}
use custom_net_framework.Config.Casts.{YamlText}

-- A tree, by the calls that have built it.
pub data Tree : Type 0 where
  nothing : Tree
  word : Bytes → Tree
  pushed : Tree → Tree → Tree
  assigned : Tree → Bytes → Tree → Tree

abbrev pub elements : Tree → List Tree
elements (pushed n x) = elements n ++ (x ∷ [])
elements _ = []

abbrev pub entries : Tree → List (Option Bytes × Tree)
entries (assigned n k x) = entries n ++ ((some k, x) ∷ [])
entries _ = []

pub elements-foldl : (n : Tree) (ns : List Tree) → elements (foldl pushed n ns) ≡ elements n ++ ns
elements-foldl n [] = sym (append-nil (elements n))
elements-foldl n (x ∷ ns) = elements-foldl (pushed n x) ns ∙ append_assoc (elements n) (x ∷ []) ns

pub entries-foldl :
    (n : Tree) (ps : List (Bytes × Tree))
    → entries (foldl (λ m p. assigned m p.0 p.1) n ps) ≡ entries n ++ map (λ p. (some p.0, p.1)) ps
entries-foldl n [] = sym (append-nil (entries n))
entries-foldl n ((k, x) ∷ ps) =
    entries-foldl (assigned n k x) ps
    ∙ append_assoc (entries n) ((some k, x) ∷ []) (map (λ p. (some p.0, p.1)) ps)

abbrev pub trees : YamlText
trees = record {
  Text = Tree;
  Node = Tree;
  load = λ t. some t;
  print = λ n. n;
  null = nothing;
  push_back = pushed;
  assign = assigned;
  elements = elements;
  entries = entries;
  elements_built = λ ns. elements-foldl nothing ns;
  entries_built = λ ps d. entries-foldl nothing ps;
  load_print = λ n. refl;
}
