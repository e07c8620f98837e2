-- ===== src/Log/Casts/Nodes.antt =====
-- What the keys of a node yield that has been put together.
use mathlib.Core.List.{foldl, foldl-append, append-nil, append_assoc}
use custom_net_framework.Prelude.{
  ◌≡◌, refl, sym, ap, ◌∙◌, arith, Bool, true, false, ◌&&◌, Option, none, some, List, [], ◌∷◌, ◌++◌,
  if◌then◌else◌, Bytes, ◌===◌, ===_refl,
}
use custom_net_framework.Config.Casts.{YamlText}
use custom_net_framework.Log.Casts.{built, last_of, YamlKeys, put, push_under}

last_of-append :
    {V : Type 0} (k j : Bytes) (v : V) (ps : List (Bytes × V))
    → last_of k (ps ++ ((j, v) ∷ [])) ≡ (if k === j then some v else last_of k ps)
last_of-append k j v [] = ground arith
last_of-append k j v ((i, w) ∷ ps) = ground (arith, last_of-append k j v ps)

module _ (Y : YamlText) (K : YamlKeys Y) where
  pub IsBuilt : Y.Node → Type 0
  IsBuilt n = (ps : List (Bytes × Y.Node)) × (n ≡ built Y ps)

  pub null-IsBuilt : IsBuilt (Y.null)
  unfolding IsBuilt
  null-IsBuilt = ([], refl)

  pub assign-IsBuilt : (n : Y.Node) (k : Bytes) (v : Y.Node) → IsBuilt n → IsBuilt (Y.assign n k v)
  unfolding IsBuilt
  assign-IsBuilt n k v (ps, e) = (
    ps ++ ((k, v) ∷ []),
    ap (λ m. Y.assign m k v) e
        ∙ sym (foldl-append (λ m p. Y.assign m p.0 p.1) (Y.null) ps ((k, v) ∷ [])),
  )

  pub get-assign :
      (n : Y.Node) (k j : Bytes) (v : Y.Node)
      → IsBuilt n
      → K.get (Y.assign n k v) j ≡ (if j === k then some v else K.get n j)
  unfolding IsBuilt assign-IsBuilt
  get-assign n k j v (ps, e) =
      let (qs, f) = assign-IsBuilt n k v (ps, e) in
      ap (λ m. K.get m j) f
      ∙ K.get_built qs j
      ∙ last_of-append j k v ps
      ∙ ap (λ o. if j === k then some v else o) (sym (ap (λ m. K.get m j) e ∙ K.get_built ps j))

  pub put-IsBuilt : (b : Bool) (n : Y.Node) (k s : Bytes) → IsBuilt n → IsBuilt (put Y K b n k s)
  unfolding put
  put-IsBuilt true n k s v = assign-IsBuilt n k (K.scalar s) v
  put-IsBuilt false n k s v = v

  pub get-put :
      (b : Bool) (n : Y.Node) (k s j : Bytes)
      → IsBuilt n
      → K.get (put Y K b n k s) j ≡ (if b && (j === k) then some (K.scalar s) else K.get n j)
  unfolding put
  get-put true n k s j v = get-assign n k j (K.scalar s) v
  get-put false n k s j v = refl

  pub get-null : (j : Bytes) → K.get (Y.null) j ≡ none
  get-null j = K.get_built [] j

  -- Texts put one after another, with their conditions and keys.
  abbrev pub puts : Y.Node → List (Bool × Bytes × Bytes) → Y.Node
  puts n [] = n
  puts n ((b, k, s) ∷ es) = puts (put Y K b n k s) es

  -- What stands at a key then, which had `o` before.
  abbrev pub written : Option Y.Node → Bytes → List (Bool × Bytes × Bytes) → Option Y.Node
  written o j [] = o
  written o j ((b, k, s) ∷ es) = written (if b && (j === k) then some (K.scalar s) else o) j es

  pub puts-IsBuilt :
      (n : Y.Node) (es : List (Bool × Bytes × Bytes)) → IsBuilt n → IsBuilt (puts n es)
  puts-IsBuilt n [] v = v
  puts-IsBuilt n ((b, k, s) ∷ es) v = puts-IsBuilt (put Y K b n k s) es (put-IsBuilt b n k s v)

  pub get-puts :
      (n : Y.Node) (es : List (Bool × Bytes × Bytes)) (j : Bytes)
      → IsBuilt n
      → K.get (puts n es) j ≡ written (K.get n j) j es
  get-puts n [] j v = refl
  get-puts n ((b, k, s) ∷ es) j v =
      get-puts (put Y K b n k s) es j (put-IsBuilt b n k s v)
      ∙ ap (λ o. written o j es) (get-put b n k s j v)

  pub get-new :
      (es : List (Bool × Bytes × Bytes)) (j : Bytes)
      → K.get (puts (Y.null) es) j ≡ written none j es
  get-new es j = get-puts (Y.null) es j null-IsBuilt ∙ ap (λ o. written o j es) (get-null j)

  pub new-takes_keys : (es : List (Bool × Bytes × Bytes)) → K.takes_keys (puts (Y.null) es) ≡ true
  unfolding IsBuilt
  new-takes_keys es =
      let (ps, e) = puts-IsBuilt (Y.null) es null-IsBuilt in
      ap (λ n. K.takes_keys n) e ∙ K.takes_keys_built ps

  -- The nodes that have been pushed under a key.
  abbrev pub pushed : List Y.Node → Option Y.Node
  pushed [] = none
  pushed (n ∷ ns) = some (foldl Y.push_back Y.null (n ∷ ns))

  unfoldable pub push_all : Y.Node → Bytes → List Y.Node → Y.Node
  push_all n key [] = n
  push_all n key (x ∷ xs) = push_all (push_under Y K n key x) key xs

  pushed-next :
      (ns : List Y.Node) (x : Y.Node)
      → some (Y.push_back (elim (pushed ns) [ none ↦ Y.null | some s ↦ s ]) x)
        ≡ pushed (ns ++ (x ∷ []))
  pushed-next [] x = refl
  pushed-next (n ∷ ns) x =
      ap (λ m. some m) (sym (foldl-append Y.push_back (Y.push_back Y.null n) ns (x ∷ [])))

  pub push_all_lem :
      (n : Y.Node) (key : Bytes) (done xs : List Y.Node)
      → IsBuilt n
      → K.get n key ≡ pushed done
      → (K.get (push_all n key xs) key ≡ pushed (done ++ xs))
        × ((j : Bytes) → (j === key) ≡ false → K.get (push_all n key xs) j ≡ K.get n j)
  unfolding push_all push_under
  push_all_lem n key done [] v e = (e ∙ ap pushed (sym (append-nil done)), λ j ne. refl)
  push_all_lem n key done (x ∷ xs) v e =
      let s : Y.Node = elim (K.get n key) [ none ↦ Y.null | some s ↦ s ] in
      let next = get-assign n key key (Y.push_back s x) v in
      let (a, b) =
        push_all_lem (Y.assign n key (Y.push_back s x)) key (done ++ (x ∷ [])) xs
          (assign-IsBuilt n key (Y.push_back s x) v)
          (ground (arith, next, ===_refl key, e) ∙ pushed-next done x) in
      (
        a ∙ ap pushed (append_assoc done (x ∷ []) xs),
        λ j ne. b j ne ∙ get-assign n key j (Y.push_back s x) v ∙ ground (arith, ne),
      )
