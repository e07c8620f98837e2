-- ===== src/Config/Load.antt =====
-- What LoadFromYaml leaves in a variable.
use custom_net_framework.Prelude.{
  ℕ, suc, ◌≡◌, ◌⊎◌, Bool, true, false, not, ◌&&◌, some, List, [], ◌∷◌, ◌++◌, is_empty, Bytes, ◌===◌,
  ===_refl, lookup, insert, lookup-insert, refl, sym, ap, subst, ◌∙◌, arith, inl, inr, Bool-cases,
  Option-cases,
}
use custom_net_framework.Config.{
  Values, Yaml, lower, list_all_member, ConfigVar, Notice, Table, notify, set_value, from_string,
  node_text, load_all, load_from_yaml,
}
use custom_net_framework.Config.Variables.{load_all-Keeps, from_string-kind}

module _ (S : Values) (Y : Yaml) where
  -- No member after it has this name.
  abbrev pub silent : Bytes → List (Bytes × Y.Node) → Bool
  silent name [] = true
  silent name ((k, n) ∷ ms) = not (name === lower k) && silent name ms

  load_all-append :
      (t : Table S) (ms ms' : List (Bytes × Y.Node))
      → (load_all S Y t (ms ++ ms')).1 ≡ (load_all S Y (load_all S Y t ms).1 ms').1
  unfolding load_all
  load_all-append t [] ms' = refl
  load_all-append t ((k, n) ∷ ms) ms' =
      let rest = load_all-append t ms ms' in
      elim (Bool-cases (is_empty k)) [
        | inl y ↦ ground (arith, y, rest)
        | inr o ↦ elim (Option-cases (lookup (lower k) t)) [
          | inl f ↦ ground (arith, o, f, rest)
          | inr (var, f) ↦
              let t' = insert (lower k) (from_string S var (node_text S Y n)).1 t in
              ground (arith, o, f, load_all-append t' ms ms')
        ]
      ]

  load_all-silent :
      (t : Table S) (name : Bytes) (ms : List (Bytes × Y.Node))
      → silent name ms ≡ true
      → lookup name (load_all S Y t ms).1 ≡ lookup name t
  unfolding load_all
  load_all-silent t name [] h = refl
  load_all-silent t name ((k, n) ∷ ms) h =
      let rest = load_all-silent t name ms (ground (arith, h)) in
      elim (Bool-cases (is_empty k)) [
        | inl y ↦ ground (arith, y, rest)
        | inr o ↦ elim (Option-cases (lookup (lower k) t)) [
          | inl f ↦ ground (arith, o, f, rest)
          | inr (var, f) ↦
              let var' = (from_string S var (node_text S Y n)).1 in
              ground (
                arith,
                o,
                f,
                h,
                load_all-silent (insert (lower k) var' t) name ms,
                lookup-insert (lower k) name var' t,
              )
        ]
      ]

  notify-calm :
      (cbs : List (ℕ × ℕ)) (old new : S.Value)
      → ((cb : ℕ) → S.throws cb old new ≡ false)
      → (notify S cbs old new).1 ≡ true
  unfolding notify
  notify-calm [] old new h = refl
  notify-calm ((key, cb) ∷ cbs) old new h = ground (arith, h cb, notify-calm cbs old new h)

  -- The value is the new one, or one that operator== takes for it.
  abbrev pub HasValue : ConfigVar S → S.Value → Type 0
  HasValue var v = (var.val ≡ v) ⊎ (S.same var.kind v var.val ≡ true)

  from_string-HasValue :
      (var : ConfigVar S) (s : Bytes) (v : S.Value)
      → S.from_str var.kind s ≡ some v
      → ((cb : ℕ) → S.throws cb var.val v ≡ false)
      → HasValue (from_string S var s).1 v
  unfolding from_string set_value
  from_string-HasValue var s v e h = elim (Bool-cases (S.same var.kind v var.val)) [
    | inl y ↦ inr (ground (arith, e, y))
    | inr n ↦ inl (ground (arith, e, n, notify-calm var.cbs var.val v h))
  ]

  load_all-first :
      (t : Table S) (key : Bytes) (n : Y.Node) (ms : List (Bytes × Y.Node)) (var : ConfigVar S)
      → is_empty key ≡ false
      → lookup (lower key) t ≡ some var
      → silent (lower key) ms ≡ true
      → lookup (lower key) (load_all S Y t ((key, n) ∷ ms)).1
        ≡ some (from_string S var (node_text S Y n)).1
  unfolding load_all
  load_all-first t key n ms var k f q =
      let var' = (from_string S var (node_text S Y n)).1 in
      let t' = insert (lower key) var' t in
      ground (
        arith,
        k,
        f,
        load_all-silent t' (lower key) ms q,
        lookup-insert (lower key) (lower key) var' t,
        ===_refl (lower key),
      )

  -- When a variable has the lower-case name of a member, no later member has that name, the member's
  -- text is read as a value of the variable's type, and no listener throws: LoadFromYaml leaves the
  -- variable with that value, or with one that operator== takes for it, and with its type.
  pub load_last :
      (t : Table S) (root : Y.Node) (ms ms' : List (Bytes × Y.Node)) (key : Bytes) (n : Y.Node)
      (var : ConfigVar S) (v : S.Value)
      → list_all_member Y (suc (Y.depth root)) [] root ≡ some (ms ++ (key, n) ∷ ms')
      → is_empty key ≡ false
      → silent (lower key) ms' ≡ true
      → lookup (lower key) t ≡ some var
      → S.from_str var.kind (node_text S Y n) ≡ some v
      → ((cb : ℕ) (old : S.Value) → S.throws cb old v ≡ false)
      → (ns : List (Notice S)) × (t' : Table S) × (var' : ConfigVar S) × (load_from_yaml S Y t root
          ≡ some (ns, t'))
        × (lookup (lower key) t' ≡ some var')
        × (var'.kind ≡ var.kind)
        × HasValue var' v
  unfolding load_from_yaml
  load_last t root ms ms' key n var v e k q f p h =
      let done = load_all S Y t (ms ++ (key, n) ∷ ms') in
      let t1 = (load_all S Y t ms).1 in
      let (w, g, l) = (load_all-Keeps S Y t ms).kept (lower key) var f in
      let w' = (from_string S w (node_text S Y n)).1 in
      (
        done.0,
        done.1,
        w',
        ground (arith, e),
        ap (λ x. lookup (lower key) x) (load_all-append t ms ((key, n) ∷ ms'))
            ∙ load_all-first t1 key n ms' w k g q,
        from_string-kind S Y w (node_text S Y n) ∙ l,
        from_string-HasValue w (node_text S Y n) v
            (subst (λ x. S.from_str x (node_text S Y n) ≡ some v) (sym l) p) (λ cb. h cb w.val),
      )
