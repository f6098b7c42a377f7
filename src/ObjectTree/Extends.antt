-- ===== src/ObjectTree/Extends.antt =====
-- What stays in a tree as nodes are added.
use mathlib.Core.Logic.{◌⊎◌, inl, inr, ◌≢◌}
use native.Mathlib.Decide.{ℕ_discrete}
use holder.Prelude.{ℕ, ◌^◌, ◌<◌, ◌≡◌, refl, Name, arith, ◌∙◌, sym}
use holder.ObjectTree.{
  NodeType, no_type, ok, name_not_found, ObjectTree, null, get_node, find_child, get_value,
  get_node_type,
}
use holder.ObjectTree.Valid.{NodePtr-cases}
use holder.ObjectTree.Adding.{Adds, find_child_ok, find_child_missing}

module _ {Val Metadata : Type 0} where
  -- The nodes of `t` are in `t'` with their types and values, and their names lead where they led.
  pub record Extends (t t' : ObjectTree Val Metadata) : Type 0 where
    pub names :
        (q x : ℕ) (name : Name) (id : ℕ)
        → q < 2 ^ 33
        → find_child t q name x ≡ (ok, id)
        → find_child t' q name x ≡ (ok, id)
    pub values : (q : ℕ) → q < 2 ^ 33 → get_node t q ≢ null → get_value t' q ≡ get_value t q
    pub types : (q : ℕ) → q < 2 ^ 33 → get_node t q ≢ null → get_node_type t' q ≡ get_node_type t q

  null_no_type :
      (t : ObjectTree Val Metadata) (q : ℕ) → get_node t q ≡ null → get_node_type t q ≡ no_type
  unfolding get_node_type
  null_no_type t q h = ground arith

  no_type_null :
      (t : ObjectTree Val Metadata) (q : ℕ) → get_node_type t q ≡ no_type → get_node t q ≡ null
  unfolding get_node_type
  no_type_null t q h = elim (NodePtr-cases (get_node t q)) [
    | inl e ↦ e
    | inr (inl (n, e)) ↦ absurd (ground arith)
    | inr (inr (n, e)) ↦ absurd (ground arith)
  ]

  pub alive-Extends :
      {t t' : ObjectTree Val Metadata} (q : ℕ)
      → Extends t t'
      → q < 2 ^ 33
      → get_node t q ≢ null
      → get_node t' q ≢ null
  alive-Extends {t} {t'} q e h k dead =
      k (no_type_null t q (sym (e.types q h k) ∙ null_no_type t' q dead))

  pub null-Extends :
      {t t' : ObjectTree Val Metadata} (q : ℕ)
      → Extends t t'
      → q < 2 ^ 33
      → get_node t' q ≡ null
      → get_node t q ≡ null
  null-Extends {t} {t'} q e h dead = elim (NodePtr-cases (get_node t q)) [
    | inl f ↦ f
    | inr (inl (n, f)) ↦ absurd (alive-Extends q e h (λ g. ground arith) dead)
    | inr (inr (n, f)) ↦ absurd (alive-Extends q e h (λ g. ground arith) dead)
  ]

  pub Extends-refl : (t : ObjectTree Val Metadata) → Extends t t
  Extends-refl t = record {
    names = λ q x name id h e. e;
    values = λ q h k. refl;
    types = λ q h k. refl;
  }

  pub Extends-trans :
      {t t' t'' : ObjectTree Val Metadata} → Extends t t' → Extends t' t'' → Extends t t''
  Extends-trans e f = record {
    names = λ q x name id h g. f.names q x name id h (e.names q x name id h g);
    values = λ q h k. f.values q h (alive-Extends q e h k) ∙ e.values q h k;
    types = λ q h k. f.types q h (alive-Extends q e h k) ∙ e.types q h k;
  }

  -- A name that is found is not the one that is missing.
  differs :
      (t : ObjectTree Val Metadata) (p x y : ℕ) (name : Name) (q z : ℕ) (other : Name) (i : ℕ)
      → find_child t p name x ≡ (name_not_found, y)
      → find_child t q other z ≡ (ok, i)
      → (q ≢ p) ⊎ (other ≢ name)
  differs t p x y name q z other i gone there =
      let (n, at, f) = find_child_ok t q z other i there in
      let (m, at', f') = find_child_missing t p x y name gone in
      elim (ℕ_discrete q p) [ no h ↦ inl h | yes e ↦ inr λ e'. ground arith ]

  pub Adds-Extends :
      {t t' : ObjectTree Val Metadata} (p x y : ℕ) {id : ℕ} {name : Name} {kind : NodeType}
      → find_child t p name x ≡ (name_not_found, y)
      → Adds t t' p name kind id
      → Extends t t'
  Adds-Extends {t} {t'} p x y {name = name} gone a = record {
    names = λ q z other i h g.
        let (n, at, f) = find_child_ok t q z other i g in
        a.others q z other h (λ e. ground arith) (differs t p x y name q z other i gone g) ∙ g;
    values = a.values;
    types = a.types;
  }
