-- ===== src/Config/Casts/RoundTrip.antt =====
-- Containers that are cast to text and back.
use mathlib.Core.List.{foldl, append-nil, append_assoc}
use custom_net_framework.Prelude.{
  ◌≡◌, ◌≢◌, refl, sym, subst, ap, ◌∙◌, arith, Bool, true, false, Option, some, List, [], ◌∷◌, ◌++◌,
  Bytes, All, map,
}
use custom_net_framework.Config.Casts.{
  push, IsAscending, AreDistinct, YamlText, read_into, write_into, insert_ordered, read_element,
  read_entry, vector_from_text, list_from_text, set_from_text, map_from_text, element_node,
  append_element, assign_entry, vector_to_text, list_to_text, set_to_text, map_to_text,
}

foldl-push {ℓ} : {X : Type ℓ} (s xs : List X) → foldl push s xs ≡ s ++ xs
foldl-push s [] = sym (append-nil s)
foldl-push s (x ∷ xs) = foldl-push (s ++ (x ∷ [])) xs ∙ append_assoc s (x ∷ []) xs

module _ {ℓ} {X : Type ℓ} (less : X → X → Bool) where
  abbrev IsBefore : X → X → Type 0
  IsBefore y x = (less y x ≡ true) × (less x y ≡ false)

  insert_last :
      (s : List X) (x : X) → All (λ y. IsBefore y x) s → insert_ordered less s x ≡ s ++ (x ∷ [])
  unfolding insert_ordered
  insert_last [] x h = refl
  insert_last (y ∷ s) x h = ground (arith, h.0, insert_last s x h.1)

  -- The elements of `s` stand before those of `xs` and before `x`.
  extend :
      (s : List X) (x : X) (xs : List X)
      → All (λ y. All (IsBefore y) (x ∷ xs)) s
      → All (IsBefore x) xs
      → All (λ y. All (IsBefore y) xs) (s ++ (x ∷ [])) × All (λ y. IsBefore y x) s
  extend [] x xs a h = ((h, tt), tt)
  extend (y ∷ s) x xs a h = let (b, c) = extend s x xs a.1 h in ((a.0.1, b), (a.0.0, c))

  foldl-insert :
      (s xs : List X)
      → All (λ y. All (IsBefore y) xs) s
      → IsAscending less xs
      → foldl (insert_ordered less) s xs ≡ s ++ xs
  foldl-insert s [] a h = sym (append-nil s)
  foldl-insert s (x ∷ xs) a h =
      let (b, c) = extend s x xs a h.0 in
      ap (λ r. foldl (insert_ordered less) r xs) (insert_last s x c)
      ∙ foldl-insert (s ++ (x ∷ [])) xs b h.1
      ∙ append_assoc s (x ∷ []) xs

distinct_from :
    {T : Type 0} (less : Bytes → Bytes → Bool) (p : Bytes × T) (ps : List (Bytes × T))
    → All (λ q. (less p.0 q.0 ≡ true) × (less q.0 p.0 ≡ false)) ps
    → All (λ k. p.0 ≢ k) (map (λ q. q.0) ps)
distinct_from less p [] h = tt
distinct_from less p (q ∷ ps) h = (
  (λ e. ground (arith, h.0, ap (λ k. less k q.0) e, ap (λ k. less q.0 k) e)),
  distinct_from less p ps h.1,
)

ascending_distinct :
    {T : Type 0} (less : Bytes → Bytes → Bool) (ps : List (Bytes × T))
    → IsAscending (λ p q. less p.0 q.0) ps
    → AreDistinct (map (λ p. p.0) ps)
ascending_distinct less [] h = tt
ascending_distinct less (p ∷ ps) h = (distinct_from less p ps h.0, ascending_distinct less ps h.1)

module _ (Y : YamlText) where
  -- A value whose text is that of a node which, printed, is read as the value again.
  unfoldable pub IsCast {ℓ} : {T : Type ℓ} → (Y.Text → Option T) → (T → Option Y.Text) → T → Type ℓ
  IsCast from to x =
      (t : Y.Text) × (n : Y.Node) × (to x ≡ some t)
      × (Y.load t ≡ some n)
      × (from (Y.print n) ≡ some x)

  module _ {T : Type 0} (from : Y.Text → Option T) (to : T → Option Y.Text) where
    pub elements_lem :
        (xs : List T) (node : Y.Node)
        → All (IsCast from to) xs
        → (ns : List Y.Node) × (write_into (append_element Y to) node xs
            ≡ some (foldl Y.push_back node ns))
          × ((S : Type 0) (insert : S → T → S) (s : S)
              → read_into (read_element Y from) insert s ns ≡ some (foldl insert s xs))
    unfolding write_into append_element element_node read_into read_element IsCast
    elements_lem [] node a = ([], refl, λ S insert s. refl)
    elements_lem (x ∷ xs) node ((t, n, e, l, r), a) =
        let (ns, w, back) = elements_lem xs (Y.push_back node n) a in
        (
          n ∷ ns,
          ground (arith, e, l, w),
          λ S insert s. ground (arith, r, back S insert (insert s x)),
        )

    pub entries_lem :
        (xs : List (Bytes × T)) (node : Y.Node)
        → All (λ p. IsCast from to p.1) xs
        → (ps : List (Bytes × Y.Node)) × (write_into (assign_entry Y to) node xs
            ≡ some (foldl (λ n p. Y.assign n p.0 p.1) node ps))
          × (map (λ p. p.0) ps ≡ map (λ p. p.0) xs)
          × ((S : Type 0) (insert : S → Bytes × T → S) (s : S)
              → read_into (read_entry Y from) insert s (map (λ p. (some p.0, p.1)) ps)
                ≡ some (foldl insert s xs))
    unfolding write_into assign_entry element_node read_into read_entry IsCast
    entries_lem [] node a = ([], refl, refl, λ S insert s. refl)
    entries_lem ((key, x) ∷ xs) node ((t, n, e, l, r), a) =
        let (ps, w, k, back) = entries_lem xs (Y.assign node key n) a in
        (
          (key, n) ∷ ps,
          ground (arith, e, l, w),
          ap (λ ks. key ∷ ks) k,
          λ S insert s. ground (arith, r, back S insert (insert s (key, x))),
        )

    pub vector_lem :
        (xs : List T)
        → All (IsCast from to) xs
        → IsCast (vector_from_text Y from) (vector_to_text Y to) xs
    unfolding IsCast vector_from_text vector_to_text
    vector_lem xs a =
        let (ns, w, back) = elements_lem xs (Y.null) a in
        let node = foldl Y.push_back Y.null ns in
        (
          Y.print node,
          node,
          ground (arith, w),
          Y.load_print node,
          ground (
            arith,
            Y.load_print node,
            Y.elements_built ns,
            back (List T) push [],
            foldl-push [] xs,
          ),
        )

    pub list_lem :
        (xs : List T)
        → All (IsCast from to) xs
        → IsCast (list_from_text Y from) (list_to_text Y to) xs
    unfolding list_from_text list_to_text vector_from_text vector_to_text
    list_lem xs a = vector_lem xs a

    pub set_lem :
        (less : T → T → Bool) (xs : List T)
        → All (IsCast from to) xs
        → IsAscending less xs
        → IsCast (set_from_text Y from less) (set_to_text Y to) xs
    unfolding IsCast set_from_text set_to_text
    set_lem less xs a o =
        let (ns, w, back) = elements_lem xs (Y.null) a in
        let node = foldl Y.push_back Y.null ns in
        (
          Y.print node,
          node,
          ground (arith, w),
          Y.load_print node,
          ground (
            arith,
            Y.load_print node,
            Y.elements_built ns,
            back (List T) (insert_ordered less) [],
            foldl-insert less [] xs tt o,
          ),
        )

    pub map_lem :
        (less : Bytes → Bytes → Bool) (ps : List (Bytes × T))
        → All (λ p. IsCast from to p.1) ps
        → IsAscending (λ p q. less p.0 q.0) ps
        → IsCast (map_from_text Y from less) (map_to_text Y to) ps
    unfolding IsCast map_from_text map_to_text
    map_lem less ps a o =
        let (es, w, k, back) = entries_lem ps (Y.null) a in
        let node = foldl (λ n p. Y.assign n p.0 p.1) (Y.null) es in
        let keys = subst AreDistinct (sym k) (ascending_distinct less ps o) in
        (
          Y.print node,
          node,
          ground (arith, w),
          Y.load_print node,
          ground (
            arith,
            Y.load_print node,
            Y.entries_built es keys,
            back (List (Bytes × T)) (insert_ordered (λ p q. less p.0 q.0)) [],
            foldl-insert (λ p q. less p.0 q.0) [] ps tt o,
          ),
        )

    -- If each element of a container has a text that is read as the element again, then so has the
    -- container: a vector or a list of any elements, a set in the order of its elements, and a map
    -- in the order of its keys. So containers can be nested.
    pub containers_lem :
        (xs ys : List T) (less : T → T → Bool) (ps : List (Bytes × T))
        (less_key : Bytes → Bytes → Bool)
        → All (IsCast from to) xs
        → All (IsCast from to) ys
        → IsAscending less ys
        → All (λ p. IsCast from to p.1) ps
        → IsAscending (λ p q. less_key p.0 q.0) ps
        → IsCast (vector_from_text Y from) (vector_to_text Y to) xs
          × IsCast (list_from_text Y from) (list_to_text Y to) xs
          × IsCast (set_from_text Y from less) (set_to_text Y to) ys
          × IsCast (map_from_text Y from less_key) (map_to_text Y to) ps
    containers_lem xs ys less ps less_key a b o c k =
        (vector_lem xs a, list_lem xs a, set_lem less ys b o, map_lem less_key ps c k)
