-- ===== src/Config/Casts/Unordered.antt =====
-- Sets and maps without an order, cast to text and back.
use mathlib.Core.List.{foldl, Permᴰ}
use mathlib.Core.List.Permᴰ
use custom_net_framework.Prelude.{
  ◌≡◌, ◌≢◌, sym, subst, arith, Option, some, List, [], ◌∷◌, ◌++◌, Bytes, All, map,
}
use custom_net_framework.Config.Casts.{
  AreDistinct, YamlText, Hashed, unordered_set_from_text, unordered_map_from_text,
  unordered_set_to_text, unordered_map_to_text,
}
use custom_net_framework.Config.Casts.RoundTrip.{IsCast, elements_lem, entries_lem}

All-perm : {X : Type 0} (P : X → Type 0) {xs ys : List X} → Permᴰ xs ys → All P xs → All P ys
All-perm P Permᴰ.nil a = a
All-perm P (Permᴰ.cons e d) a = (subst P e a.0, All-perm P d a.1)
All-perm P (Permᴰ.swap e f) a = (subst P f a.1.0, (subst P e a.0, a.1.1))
All-perm P (Permᴰ.trans d e) a = All-perm P e (All-perm P d a)

module _ {X K : Type 0} (key : X → K) (H : Hashed key) where
  -- The elements of `s` have other keys than those of `xs`.
  abbrev AreApart : List X → List X → Type 0
  AreApart s xs = All (λ y. All (λ x. key y ≢ key x) xs) s

  heads : (s : List X) (x : X) (xs : List X) → AreApart s (x ∷ xs) → All (λ y. key y ≢ key x) s
  heads [] x xs a = tt
  heads (y ∷ s) x xs a = (a.0.0, heads s x xs a.1)

  tails : (s : List X) (x : X) (xs : List X) → AreApart s (x ∷ xs) → AreApart s xs
  tails [] x xs a = tt
  tails (y ∷ s) x xs a = (a.0.1, tails s x xs a.1)

  others : (x : X) (xs : List X) → All (λ k. key x ≢ k) (map key xs) → All (λ z. key x ≢ key z) xs
  others x [] a = tt
  others x (z ∷ xs) a = (a.0, others x xs a.1)

  foldl-insert :
      (s : H.State) (xs : List X)
      → AreApart (H.elements s) xs
      → AreDistinct (map key xs)
      → Permᴰ (H.elements (foldl H.insert s xs)) (H.elements s ++ xs)
  foldl-insert s [] a d = Permᴰ.symm (Permᴰ.append-nil (H.elements s))
  foldl-insert s (x ∷ xs) a d =
      let new = H.insert_new s x (heads (H.elements s) x xs a) in
      let apart : AreApart (H.elements (H.insert s x)) xs =
        All-perm (λ y. All (λ z. key y ≢ key z) xs) (Permᴰ.symm new)
          (others x xs d.0, tails (H.elements s) x xs a) in
      Permᴰ.trans (foldl-insert (H.insert s x) xs apart d.1)
        (Permᴰ.trans (Permᴰ.append_right xs new) (Permᴰ.symm (Permᴰ.middle x (H.elements s) xs)))

  rebuilt :
      (xs : List X) → AreDistinct (map key xs) → Permᴰ (H.elements (foldl H.insert H.empty xs)) xs
  rebuilt xs d =
      let apart : AreApart (H.elements (H.empty)) xs =
        subst (λ s. AreApart s xs) (sym (H.elements_empty)) tt in
      subst (λ s. Permᴰ (H.elements (foldl H.insert H.empty xs)) (s ++ xs)) (H.elements_empty)
        (foldl-insert (H.empty) xs apart d)

module _ (Y : YamlText) {T : Type 0} (from : Y.Text → Option T) (to : T → Option Y.Text) where
  -- A set or a map without an order, with distinct keys, whose elements have texts that are read as
  -- them again, has a text itself, which is read as a container of the same elements.
  pub unordered_lem :
      (H : Hashed (λ (x : T). x)) (s : H.State) (M : Hashed (λ (p : Bytes × T). p.0)) (m : M.State)
      → All (IsCast Y from to) (H.elements s)
      → AreDistinct (map (λ (x : T). x) (H.elements s))
      → All (λ p. IsCast Y from to p.1) (M.elements m)
      → AreDistinct (map (λ p. p.0) (M.elements m))
      → ((t : Y.Text) × (s' : H.State) × (unordered_set_to_text Y to H s ≡ some t)
          × (unordered_set_from_text Y from H t ≡ some s')
          × Permᴰ (H.elements s') (H.elements s))
        × ((t : Y.Text) × (m' : M.State) × (unordered_map_to_text Y to M m ≡ some t)
            × (unordered_map_from_text Y from M t ≡ some m')
            × Permᴰ (M.elements m') (M.elements m))
  unfolding unordered_set_to_text unordered_set_from_text unordered_map_to_text
      unordered_map_from_text
  unordered_lem H s M m a d b k =
      let xs = H.elements s in
      let (ns, w, back) = elements_lem Y from to xs (Y.null) a in
      let node = foldl Y.push_back Y.null ns in
      let ps = M.elements m in
      let (es, w', ks, back') = entries_lem Y from to ps (Y.null) b in
      let node' = foldl (λ n p. Y.assign n p.0 p.1) (Y.null) es in
      let keys = subst AreDistinct (sym ks) k in
      (
        (
          Y.print node,
          foldl H.insert H.empty xs,
          ground (arith, w),
          ground (arith, Y.load_print node, Y.elements_built ns, back H.State H.insert H.empty),
          rebuilt (λ x. x) H xs d,
        ),
        (
          Y.print node',
          foldl M.insert M.empty ps,
          ground (arith, w'),
          ground
              (arith, Y.load_print node', Y.entries_built es keys, back' M.State M.insert M.empty),
          rebuilt (λ p. p.0) M ps k,
        ),
      )
