-- ===== src/Config/Variables.antt =====
-- The variables of a table, in any order of calls.
use custom_net_framework.Prelude.{
  ℕ, suc, ◌≡◌, none, some, List, [], ◌∷◌, ◌==◌, ==_iff, if◌then◌else◌, is_empty, Bytes, ◌===◌,
  ===_iff, ===_refl, lookup, insert, lookup-insert, refl, subst, ◌∙◌, arith, inl, inr, Bool-cases,
  Option-cases,
}
use custom_net_framework.Config.{
  Values, Yaml, is_valid, lower, list_all_member, ConfigVar, Notice, Table, found, null, notify,
  set_value, from_string, lookup_or_add, lookup_typed, add_listener, del_listener, clear_listener,
  node_text, load_all, load_from_yaml,
}

module _ (S : Values) (Y : Yaml) where
  -- A call on the table.
  pub data Step : Table S → Table S → Type 1 where
    look :
        (t : Table S) (kind : ℕ) (name : Bytes) (v : S.Value)
        → Step t (lookup_or_add S t kind name v).0
    assign :
        (t : Table S) (name : Bytes) (var : ConfigVar S) (v : S.Value)
        → lookup name t ≡ some var
        → Step t (insert name (set_value S var v).1 t)
    listen :
        (t : Table S) (name : Bytes) (var : ConfigVar S) (key cb : ℕ)
        → lookup name t ≡ some var
        → Step t (insert name (add_listener S var key cb) t)
    forget :
        (t : Table S) (name : Bytes) (var : ConfigVar S) (key : ℕ)
        → lookup name t ≡ some var
        → Step t (insert name (del_listener S var key) t)
    clear :
        (t : Table S) (name : Bytes) (var : ConfigVar S)
        → lookup name t ≡ some var
        → Step t (insert name (clear_listener S var) t)
    load :
        (t : Table S) (root : Y.Node) (ns : List (Notice S)) (t' : Table S)
        → load_from_yaml S Y t root ≡ some (ns, t')
        → Step t t'

  pub data Steps (t : Table S) : Table S → Type 1 where
    stop : Steps t t
    more : {t' t'' : Table S} → Steps t t' → Step t' t'' → Steps t t''

  -- Every variable is still there, with its type.
  pub record Keeps (t t' : Table S) : Type 0 where
    pub kept :
        (name : Bytes) (var : ConfigVar S)
        → lookup name t ≡ some var
        → (var' : ConfigVar S) × (lookup name t' ≡ some var') × (var'.kind ≡ var.kind)

  Keeps-refl : (t : Table S) → Keeps t t
  Keeps-refl t = record { kept = λ name var e. (var, e, refl) }

  Keeps-trans : (t t' t'' : Table S) → Keeps t t' → Keeps t' t'' → Keeps t t''
  Keeps-trans t t' t'' a b = record {
    kept = λ name var e.
        let (v, f, k) = a.kept name var e in let (w, g, l) = b.kept name v f in (w, g, l ∙ k);
  }

  insert-Keeps :
      (t : Table S) (name : Bytes) (var var' : ConfigVar S)
      → lookup name t ≡ some var
      → var'.kind ≡ var.kind
      → Keeps t (insert name var' t)
  insert-Keeps t name var var' f k = record {
    kept = λ j w e. elim (Bool-cases (j === name)) [
      | inl y ↦ (
        var',
        ground (arith, y, lookup-insert name j var' t),
        ground (arith, y, e, f, k, ===_iff j name),
      )
      | inr n ↦ (w, ground (arith, n, e, lookup-insert name j var' t), refl)
    ];
  }

  fresh-Keeps :
      (t : Table S) (name : Bytes) (var : ConfigVar S)
      → lookup name t ≡ none
      → Keeps t (insert name var t)
  fresh-Keeps t name var f = record {
    kept = λ j w e. elim (Bool-cases (j === name)) [
      | inl y ↦ absurd (ground (arith, y, e, f, ===_iff j name))
      | inr n ↦ (w, ground (arith, n, e, lookup-insert name j var t), refl)
    ];
  }

  set_value-kind : (var : ConfigVar S) (v : S.Value) → (set_value S var v).1.kind ≡ var.kind
  unfolding set_value
  set_value-kind var v = elim (Bool-cases (S.same var.kind v var.val)) [
    | inl y ↦ ground (arith, y)
    | inr n ↦ elim (Bool-cases (notify S var.cbs var.val v).1) [
      | inl d ↦ ground (arith, n, d)
      | inr d ↦ ground (arith, n, d)
    ]
  ]

  pub from_string-kind : (var : ConfigVar S) (s : Bytes) → (from_string S var s).1.kind ≡ var.kind
  unfolding from_string
  from_string-kind var s = elim (Option-cases (S.from_str var.kind s)) [
    | inl n ↦ ground (arith, n)
    | inr (v, y) ↦ ground (arith, y, set_value-kind var v)
  ]

  pub load_all-Keeps :
      (t : Table S) (members : List (Bytes × Y.Node)) → Keeps t (load_all S Y t members).1
  unfolding load_all
  load_all-Keeps t [] = Keeps-refl t
  load_all-Keeps t ((key, n) ∷ members) =
      let rest = load_all-Keeps t members in
      elim (Bool-cases (is_empty key)) [
        | inl y ↦ rw y rest
        | inr o ↦ elim (Option-cases (lookup (lower key) t)) [
          | inl f ↦ rw (o, f) rest
          | inr (var, f) ↦
              let var' = (from_string S var (node_text S Y n)).1 in
              let t' = insert (lower key) var' t in
              rw (o, f)
                (Keeps-trans t t' (load_all S Y t' members).1
                  (insert-Keeps t (lower key) var var' f (from_string-kind var (node_text S Y n)))
                  (load_all-Keeps t' members))
        ]
      ]

  look-Keeps :
      (t : Table S) (kind : ℕ) (name : Bytes) (v : S.Value)
      → Keeps t (lookup_or_add S t kind name v).0
  unfolding lookup_or_add
  look-Keeps t kind name v = elim (Option-cases (lookup name t)) [
    | inr (var, y) ↦ rw (y, lookup_or_add) (Keeps-refl t)
    | inl n ↦ elim (Bool-cases (is_valid name)) [
      | inl y ↦
          rw (n, y, lookup_or_add)
            (fresh-Keeps t name (record { kind = kind; val = v; cbs = [] }) n)
      | inr o ↦ rw (n, o, lookup_or_add) (Keeps-refl t)
    ]
  ]

  Step-Keeps : {t t' : Table S} → Step t t' → Keeps t t'
  unfolding add_listener del_listener clear_listener load_from_yaml
  Step-Keeps (look t kind name v) = look-Keeps t kind name v
  Step-Keeps (assign t name var v e) =
      insert-Keeps t name var (set_value S var v).1 e (set_value-kind var v)
  Step-Keeps (listen t name var key cb e) =
      insert-Keeps t name var (add_listener S var key cb) e refl
  Step-Keeps (forget t name var key e) = insert-Keeps t name var (del_listener S var key) e refl
  Step-Keeps (clear t name var e) = insert-Keeps t name var (clear_listener S var) e refl
  Step-Keeps (load t root ns t' e) =
      elim (Option-cases (list_all_member Y (suc (Y.depth root)) [] root)) [
        | inl n ↦ absurd (ground (arith, n, e))
        | inr (out, y) ↦ subst (λ x. Keeps t x) (ground (arith, y, e)) (load_all-Keeps t out)
      ]

  Steps-Keeps : {t t' : Table S} → Steps t t' → Keeps t t'
  Steps-Keeps {t} stop = Keeps-refl t
  Steps-Keeps {t} (more {t'} {t''} s x) = Keeps-trans t t' t'' (Steps-Keeps s) (Step-Keeps x)

  found-lookup :
      (t t' : Table S) (kind : ℕ) (name : Bytes) (v : S.Value) (var : ConfigVar S)
      → lookup_or_add S t kind name v ≡ (t', found var)
      → (lookup name t' ≡ some var) × (var.kind ≡ kind)
  unfolding lookup_or_add
  found-lookup t t' kind name v var e = elim (Option-cases (lookup name t)) [
    | inr (w, y) ↦
        (ground (arith, e, y, ==_iff w.kind kind), ground (arith, e, y, ==_iff w.kind kind))
    | inl n ↦ elim (Bool-cases (is_valid name)) [
      | inl y ↦
          let made : ConfigVar S = record { kind = kind; val = v; cbs = [] } in
          (
            ground (arith, n, y, e, lookup-insert name name made t, ===_refl name),
            ground (arith, n, y, e),
          )
      | inr o ↦ absurd (ground (arith, n, o, e))
    ]
  ]

  -- Once Config::Lookup<T>(name, default_value) has returned a variable, then after any further calls
  -- of Lookup, setValue, LoadFromYaml and of the listeners' methods there is a variable of type T under
  -- this name, which every Lookup<T> of the name returns, whatever its default value; every Lookup of
  -- the name with another type returns nullptr. Neither changes the table.
  pub lookup_once :
      (t t' t'' : Table S) (kind : ℕ) (name : Bytes) (v : S.Value) (var : ConfigVar S)
      → lookup_or_add S t kind name v ≡ (t', found var)
      → Steps t' t''
      → (var' : ConfigVar S) × (var'.kind ≡ kind)
        × ((kind' : ℕ) (v' : S.Value)
            → (lookup_or_add S t'' kind' name v'
                ≡ (t'', if kind == kind' then found var' else null))
              × (lookup_typed S t'' kind' name ≡ (if kind == kind' then some var' else none)))
  unfolding lookup_or_add lookup_typed
  lookup_once t t' t'' kind name v var e s =
      let (f, k) = found-lookup t t' kind name v var e in
      let (w, g, l) = (Steps-Keeps s).kept name var f in
      (w, l ∙ k, λ kind' v'. (ground (arith, g, l, k), ground (arith, g, l, k)))
