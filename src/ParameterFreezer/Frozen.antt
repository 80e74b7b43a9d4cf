-- ===== src/ParameterFreezer/Frozen.antt =====
-- What a frozen configuration lets through.
use easy_navigation.Common.{
  ◌≡◌, ◌∙◌, refl, ap, subst, Bool, true, false, not, Option, none, some, String, List, [], ◌∷◌,
  if◌then◌else◌, str_eq, eq_iff, Bool-cases, inl, inr, arith,
}
use easy_navigation.NavState.{lookup, insert}
use easy_navigation.NavState.Laws.{lookup-insert}
use easy_navigation.ParameterFreezer.{
  ParameterValue, Parameters, Nodes, new, or_empty, freeze_values, freeze_nodes, freeze,
  accept_new_parameters, accepts_one, accepts_all, accepts,
}

-- No name stands twice in the list.
abbrev pub IsDistinct : {V : Type 0} → List (String × V) → Type 0
IsDistinct [] = Unit {0}
IsDistinct ((name, value) ∷ rest) = (lookup name rest ≡ none) × IsDistinct rest

-- Every parameter asked for has the value that is configured.
abbrev pub IsUnchanged : (ParameterValue → ParameterValue → Bool) → Parameters → Parameters → Type 0
IsUnchanged same configured [] = Unit {0}
IsUnchanged same configured ((name, value) ∷ ps) =
    ((old : ParameterValue) × (lookup name configured ≡ some old) × (same old value ≡ true))
    × IsUnchanged same configured ps

-- The first of two values.
abbrev first : {V : Type 0} → Option V → Option V → Option V
first none w = w
first (some v) w = some v

-- A name at the head of a list stands nowhere else in it.
lookup_head :
    {V : Type 0} (n name : String) (rest : List (String × V))
    → lookup n rest ≡ none
    → str_eq n name ≡ true
    → lookup name rest ≡ none
lookup_head n name rest a e = subst (λ k. lookup k rest ≡ none) ((eq_iff n name).0 e) a

freeze_values_lem :
    (ps frozen : Parameters) (name : String)
    → IsDistinct ps
    → lookup name (freeze_values ps frozen) ≡ first (lookup name ps) (lookup name frozen)
unfolding freeze_values lookup
freeze_values_lem [] frozen name d = refl
freeze_values_lem ((n, v) ∷ ps) frozen name (a, d) =
    freeze_values_lem ps (insert n v frozen) name d ∙ elim (Bool-cases (str_eq n name)) [
      | inl c ↦ rw (lookup-insert n name v frozen, lookup_head n name ps a c, c) refl
      | inr c ↦ rw (lookup-insert n name v frozen, c) refl
    ]

abbrev frozen_node : Option Parameters → Option Parameters → Option Parameters
frozen_node none old = old
frozen_node (some ps) old = some (freeze_values ps (or_empty old))

freeze_nodes_lem :
    (nodes frozen : Nodes) (node : String)
    → IsDistinct nodes
    → lookup node (freeze_nodes nodes frozen) ≡ frozen_node (lookup node nodes) (lookup node frozen)
unfolding freeze_nodes lookup
freeze_nodes_lem [] frozen node d = refl
freeze_nodes_lem ((n, ps) ∷ nodes) frozen node (a, d) =
    let new_values = freeze_values ps (or_empty (lookup n frozen)) in
    freeze_nodes_lem nodes (insert n new_values frozen) node d ∙ elim (Bool-cases (str_eq n node)) [
      | inl c ↦
          rw (lookup-insert n node new_values frozen, lookup_head n node nodes a c, c)
            (ap (λ k. some (freeze_values ps (or_empty (lookup k frozen)))) ((eq_iff n node).0 c))
      | inr c ↦ rw (lookup-insert n node new_values frozen, c) refl
    ]

first-none : {V : Type 0} (o : Option V) → first o none ≡ o
first-none none = refl
first-none (some v) = refl

both : (one rest : Bool) → (if not one then false else rest) ≡ true → (one ≡ true) × (rest ≡ true)
both one rest h = ground (arith, h)

module _ (same : ParameterValue → ParameterValue → Bool) where
  kept :
      (o : Option ParameterValue) (value : ParameterValue)
      → accepts_one same false o value ≡ true
      → (old : ParameterValue) × (o ≡ some old) × (same old value ≡ true)
  unfolding accepts_one
  kept none value h = absurd (ground (arith, h))
  kept (some old) value h = (old, refl, h)

  accepts_lem :
      (configured frozen ps : Parameters)
      → ((name : String) → lookup name frozen ≡ lookup name configured)
      → accepts_all same false frozen ps ≡ true
      → IsUnchanged same configured ps
  unfolding accepts_all
  accepts_lem configured frozen [] e h = tt
  accepts_lem configured frozen ((name, value) ∷ ps) e h =
      let (one, rest) = both (accepts_one same false (lookup name frozen) value) _ h in
      (
        kept (lookup name configured) value
            (subst (λ o. accepts_one same false o value ≡ true) (e name) one),
        accepts_lem configured frozen ps e rest,
      )

  -- Where no name stands twice among the nodes or a node's parameters: once a fresh freezer has
  -- frozen the nodes' configuration and accepts no new parameters, whatever a node's callback
  -- lets through asks each parameter to keep the value that it was frozen with.
  pub accepts-IsUnchanged :
      (nodes : Nodes) (node : String) (configured asked : Parameters)
      → IsDistinct nodes
      → lookup node nodes ≡ some configured
      → IsDistinct configured
      → accepts same node asked (accept_new_parameters false (freeze nodes new)) ≡ true
      → IsUnchanged same configured asked
  unfolding accepts accept_new_parameters freeze
  accepts-IsUnchanged nodes node configured asked d e c h =
      let frozen = freeze_nodes_lem nodes [] node d in
      accepts_lem configured (or_empty (lookup node (freeze_nodes nodes []))) asked
        (λ name.
          rw (frozen, e)
            (freeze_values_lem configured [] name c ∙ first-none (lookup name configured)))
        h
