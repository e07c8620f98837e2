-- ===== src/Config/Members.antt =====
-- `ListAllMember` against an inductive description of the members of a tree.
use mathlib.Core.List.Memᴰ
use mathlib.Core.List.{Memᴰ}
use custom_net_framework.Prelude.{
  ℕ, zero, suc, ◌<◌, ◌≤◌, ◌≡◌, inl, inr, true, false, ◌&&◌, Option, some, List, [], ◌∷◌, ◌++◌, leb,
  contains, Bytes, refl, sym, subst, arith, Bool-cases,
}
use custom_net_framework.Config.{
  children, Below, Yaml, is_valid, lower, allowed, join, gather, list_all_member,
}

-- A name of allowed characters has no upper-case letter.
allowed-lower : (c : ℕ) → contains c allowed ≡ true → (leb b'A' c && leb c b'Z') ≡ false
allowed-lower c h = ground (arith, h)

pub lower-valid : (s : Bytes) → is_valid s ≡ true → lower s ≡ s
unfolding is_valid lower
lower-valid [] v = refl
lower-valid (c ∷ s) v = ground (arith, v, allowed-lower c, lower-valid s)

module _ (Y : Yaml) where
  -- The members of a tree, by their dotted names: a node under a valid name, and the members of its
  -- entries.
  pub data Member (p : Bytes) (m : Y.Node) : Bytes → Y.Node → Type 0 where
    itself : is_valid p ≡ true → Member p m p m
    entry :
        {prefix : Bytes} {n : Y.Node} (x : Bytes × Y.Node)
        → is_valid prefix ≡ true
        → Memᴰ x (children (Y.view n))
        → Member p m (join Y prefix x.0) x.1
        → Member p m prefix n

  -- The output has just the members.
  pub record Lists (prefix : Bytes) (n : Y.Node) (out : List (Bytes × Y.Node)) : Type 0 where
    pub sound : (y : Bytes × Y.Node) → Memᴰ y out → Member y.0 y.1 prefix n
    pub complete : (y : Bytes × Y.Node) → Member y.0 y.1 prefix n → Memᴰ y out

  Below-le :
      (k n : ℕ) (kids : List (Bytes × Y.Node)) → k ≤ n → Below Y.depth k kids → Below Y.depth n kids
  Below-le k n [] h b = b
  Below-le k n (x ∷ kids) h b = (omega (arith, h, b.0), Below-le k n kids h b.1)

  -- What `gather` collects from the entries.
  record Gathers (prefix : Bytes) (kids : List (Bytes × Y.Node)) (outs : List (Bytes × Y.Node))
      : Type 0 where
    sound :
        (y : Bytes × Y.Node)
        → Memᴰ y outs
        → (x : Bytes × Y.Node) × Memᴰ x kids × Member y.0 y.1 (join Y prefix x.0) x.1
    complete :
        (x y : Bytes × Y.Node) → Memᴰ x kids → Member y.0 y.1 (join Y prefix x.0) x.1 → Memᴰ y outs

  gather-nil : (prefix : Bytes) → Gathers prefix [] []
  gather-nil prefix = record {
    sound = λ y m. absurd (Memᴰ.not-nil m);
    complete = λ x y m h. absurd (Memᴰ.not-nil m);
  }

  gather-cons :
      (prefix k : Bytes) (v : Y.Node) (kids out outs : List (Bytes × Y.Node))
      → Lists (join Y prefix k) v out
      → Gathers prefix kids outs
      → Gathers prefix ((k, v) ∷ kids) (out ++ outs)
  gather-cons prefix k v kids out outs l g = record {
    sound = λ y m. elim (Memᴰ.append_cases out m) [
      | inl a ↦ ((k, v), Memᴰ.head refl, l.sound y a)
      | inr b ↦ let (x, i, h) = g.sound y b in (x, Memᴰ.tail i, h)
    ];
    complete = λ x y m h. elim (Memᴰ.cases_cons m) [
      | inl e ↦
          Memᴰ.append_left outs
            (l.complete y (subst (λ z. Member y.0 y.1 (join Y prefix z.0) z.1) e h))
      | inr i ↦ Memᴰ.append_right out (g.complete x y i h)
    ];
  }

  gather-Gathers :
      (f : Bytes → Y.Node → Option (List (Bytes × Y.Node))) (n : ℕ) (prefix : Bytes)
      → ((q : Bytes) (v : Y.Node)
          → Y.depth v < n
          → (out : List (Bytes × Y.Node)) × (f q v ≡ some out) × Lists q v out)
      → (kids : List (Bytes × Y.Node)) → Below Y.depth n kids
      → (outs : List (Bytes × Y.Node)) × (gather Y f prefix kids ≡ some outs)
        × Gathers prefix kids outs
  gather-Gathers f n prefix each [] b = ([], refl, gather-nil prefix)
  gather-Gathers f n prefix each ((k, v) ∷ kids) b =
      let (out, e, l) = each (join Y prefix k) v b.0 in
      let (outs, es, g) = gather-Gathers f n prefix each kids b.1 in
      (out ++ outs, ground (arith, e, es), gather-cons prefix k v kids out outs l g)

  valid-Lists :
      (prefix : Bytes) (n : Y.Node) (outs : List (Bytes × Y.Node))
      → is_valid prefix ≡ true
      → Gathers prefix (children (Y.view n)) outs
      → Lists prefix n ((prefix, n) ∷ outs)
  valid-Lists prefix n outs v g = record {
    sound = λ y m. elim (Memᴰ.cases_cons m) [
      | inl e ↦ subst (λ z. Member z.0 z.1 prefix n) (sym e) (itself v)
      | inr i ↦ let (x, j, h) = g.sound y i in entry x v j h
    ];
    complete = λ y. listed y;
  }
    where
      listed : (y : Bytes × Y.Node) → Member y.0 y.1 prefix n → Memᴰ y ((prefix, n) ∷ outs)
      listed (p, m) (itself w) = Memᴰ.head refl
      listed (p, m) (entry x w i h) = Memᴰ.tail (g.complete x (p, m) i h)

  invalid-Lists : (prefix : Bytes) (n : Y.Node) → is_valid prefix ≡ false → Lists prefix n []
  invalid-Lists prefix n v = record {
    sound = λ y m. absurd (Memᴰ.not-nil m);
    complete = λ y. refused y;
  }
    where
      refused : (y : Bytes × Y.Node) → Member y.0 y.1 prefix n → Memᴰ y []
      refused (p, m) (itself w) = absurd (ground (arith, v, w))
      refused (p, m) (entry x w i h) = absurd (ground (arith, v, w))

  pub list_all_member-Lists :
      (fuel : ℕ) (prefix : Bytes) (n : Y.Node)
      → Y.depth n < fuel
      → (out : List (Bytes × Y.Node)) × (list_all_member Y fuel prefix n ≡ some out)
        × Lists prefix n out
  unfolding list_all_member
  list_all_member-Lists zero prefix n h = absurd (omega (arith, h))
  list_all_member-Lists (suc fuel) prefix n h =
      let (outs, e, g) =
        gather-Gathers (list_all_member Y fuel) fuel prefix
          (λ q v l. list_all_member-Lists fuel q v l) (children (Y.view n))
          (Below-le (Y.depth n) fuel (children (Y.view n)) (omega (arith, h)) (Y.finite n)) in
      elim (Bool-cases (is_valid prefix)) [
        | inl y ↦ ((prefix, n) ∷ outs, ground (arith, y, e), valid-Lists prefix n outs y g)
        | inr o ↦ ([], ground (arith, o, e), invalid-Lists prefix n o)
      ]

  Member-valid :
      {p : Bytes} {m : Y.Node} {prefix : Bytes} {n : Y.Node}
      → Member p m prefix n
      → is_valid p ≡ true
  Member-valid (itself v) = v
  Member-valid (entry x v i h) = Member-valid h

  -- ListAllMember ends on every tree, with fuel that exceeds its depth by one. Its output has the
  -- nodes that the tree has under a dotted name of which every prefix is valid, with that name, and
  -- no others. The lower-case form of each such name is the name itself.
  pub list_all_member_lem :
      (root : Y.Node)
      → (out : List (Bytes × Y.Node)) × (list_all_member Y (suc (Y.depth root)) [] root ≡ some out)
        × ((y : Bytes × Y.Node) → Memᴰ y out → Member y.0 y.1 [] root)
        × ((y : Bytes × Y.Node) → Member y.0 y.1 [] root → Memᴰ y out)
        × ((y : Bytes × Y.Node) → Memᴰ y out → lower y.0 ≡ y.0)
  list_all_member_lem root =
      let (out, e, l) = list_all_member-Lists (suc (Y.depth root)) [] root (omega arith) in
      (out, e, l.sound, l.complete, λ y m. lower-valid y.0 (Member-valid (l.sound y m)))
