-- ===== src/PluginSwitcher/Chain.antt =====
-- What it takes to create a plugin, by the calls of the node and of the class loader alone, and that
-- create() does so exactly where it is possible.
use easy_navigation.Common.{
  ◌≡◌, refl, sym, ap, subst, ◌∙◌, arith, Bool, true, false, Bool-cases, ◌⊎◌, inl, inr, Option, none,
  some, String, List, [], ◌∷◌, length, if◌then◌else◌,
}
use easy_navigation.NavState.{Outcome, ok, throws, Exec, return}
use easy_navigation.PluginSwitcher.{
  Host, Loaded, class_parameter, or_empty, resolve_plugin_class, initialized, created, declared,
  create,
}

module _ {World Plugin : Type 0} (host : Host World Plugin) where
  -- A parameter that is there, or is declared now; `w'` is the world after it.
  abbrev pub IsDeclared : Exec World (Unit {0}) → String → World → World → Type 0
  IsDeclared declare name w w' =
      ((host.has_parameter name w ≡ true) × (w' ≡ w))
      ⊎ ((host.has_parameter name w ≡ false) × (declare w ≡ (ok tt, w')))

  -- The class of an alias: its parameter's value, or else the override's, or else none.
  abbrev pub IsClass : String → World → String → Type 0
  IsClass alias w c =
      ((host.has_parameter (class_parameter alias) w ≡ true)
        × (host.get_class (class_parameter alias) w ≡ ok c))
      ⊎ ((host.has_parameter (class_parameter alias) w ≡ false)
          × (host.override_of (class_parameter alias) w ≡ some c))
      ⊎ ((host.has_parameter (class_parameter alias) w ≡ false)
          × (host.override_of (class_parameter alias) w ≡ none)
          × (c ≡ ""))

  -- An instance of the alias' class is created, and initialized under the alias, from `w` to `w'`.
  pub record Creates (alias : String) (w : World) (item : Loaded Plugin) (w' : World) : Type 0 where
    pub is_class : IsClass alias w item.plugin_class
    pub named : item.alias ≡ alias
    pub declared_world : World
    pub declares :
        IsDeclared
          (host.declare_class (class_parameter alias) item.plugin_class)
          (class_parameter alias)
          w
          declared_world
    pub created_world : World
    pub creates :
        host.create_shared_instance item.plugin_class declared_world
        ≡ (ok item.instance_of, created_world)
    pub initializes : host.initialize item.instance_of alias created_world ≡ (ok tt, w')

  -- The aliases' instances are created one after the other.
  abbrev pub Chain : List String → World → List (Loaded Plugin) → World → Type 0
  Chain [] w [] w' = w ≡ w'
  Chain (type ∷ types) w (item ∷ items) w' =
      (w₁ : World) × Creates type w item w₁ × Chain types w₁ items w'
  Chain _ w _ w' = ⊥

  pub length-Chain :
      (types : List String) (w : World) (items : List (Loaded Plugin)) (w' : World)
      → Chain types w items w'
      → length items ≡ length types
  length-Chain [] w [] w' c = refl
  length-Chain (type ∷ types) w (item ∷ items) w' (w₁, m, c) =
      omega (arith, length-Chain types w₁ items w' c)
  length-Chain [] w (item ∷ items) w' c = absurd c
  length-Chain (type ∷ types) w [] w' c = absurd c

  pub declared_lem :
      (declare : Exec World (Unit {0})) (name : String) (w w' : World)
      → IsDeclared declare name w w'
      → (if host.has_parameter name w then return tt w else declare w) ≡ (ok tt, w')
  declared_lem declare name w w' (inl (h, e)) = rw h (ap (λ v. (ok tt, v)) (sym e))
  declared_lem declare name w w' (inr (h, e)) = rw h e

  -- What declaring a parameter, if it is missing, gives.
  abbrev pub DeclaredAs :
      Exec World (Unit {0}) → String → World → Outcome (Unit {0}) × World → Type 0
  DeclaredAs declare name w (ok _, w') = IsDeclared declare name w w'
  DeclaredAs declare name w (throws e, w') = Unit {0}

  outcome-DeclaredAs :
      (declare : Exec World (Unit {0})) (name : String) (w : World) (r : Outcome (Unit {0}) × World)
      → host.has_parameter name w ≡ false
      → declare w ≡ r
      → DeclaredAs declare name w r
  outcome-DeclaredAs declare name w (ok _, w') h e = inr (h, e)
  outcome-DeclaredAs declare name w (throws x, w') h e = tt

  pub declaring-DeclaredAs :
      (declare : Exec World (Unit {0})) (name : String) (w : World)
      → DeclaredAs declare name w (if host.has_parameter name w then return tt w else declare w)
  declaring-DeclaredAs declare name w = elim (Bool-cases (host.has_parameter name w)) [
    | inl h ↦ rw h (inl (h, refl))
    | inr h ↦ rw h (outcome-DeclaredAs declare name w (declare w) h refl)
  ]

  class_lem :
      (b : Bool) (g : Outcome String) (o : Option String) (c : String)
      → (if b then g else ok (or_empty o)) ≡ ok c
      → ((b ≡ true) × (g ≡ ok c))
        ⊎ ((b ≡ false) × (o ≡ some c))
        ⊎ ((b ≡ false) × (o ≡ none) × (c ≡ ""))
  class_lem true g o c e = inl (refl, e)
  class_lem false g none c e = ground (arith, e)
  class_lem false g (some x) c e = ground (arith, e)

  pub resolve-IsClass :
      (alias : String) (w : World) (c : String)
      → resolve_plugin_class host alias w ≡ ok c
      → IsClass alias w c
  resolve-IsClass alias w c e = class_lem (host.has_parameter (class_parameter alias) w) _ _ c e

  pub resolve_lem :
      (alias : String) (w : World) (c : String)
      → IsClass alias w c
      → resolve_plugin_class host alias w ≡ ok c
  resolve_lem alias w c (inl (h, e)) = rw h e
  resolve_lem alias w c (inr (inl (h, e))) = rw (h, e) refl
  resolve_lem alias w c (inr (inr (h, o, e))) = rw (h, o) (ap ok (sym e))

  -- An item that was made from a world in which its class is declared.
  abbrev Made : String → String → World → Option (Loaded Plugin) × World → Type 0
  Made alias c w (none, w') = Unit {0}
  Made alias c w (some item, w') =
      (item.alias ≡ alias)
      × (item.plugin_class ≡ c)
      × (w₂ : World) × (host.create_shared_instance c w ≡ (ok item.instance_of, w₂))
      × (host.initialize item.instance_of alias w₂ ≡ (ok tt, w'))

  abbrev pub MadeFrom : String → World → Option (Loaded Plugin) × World → Type 0
  MadeFrom alias w (none, w') = Unit {0}
  MadeFrom alias w (some item, w') = Creates alias w item w'

  initialized-Made :
      (alias c : String) (p : Plugin) (w w₂ : World) (r : Outcome (Unit {0}) × World)
      → host.create_shared_instance c w ≡ (ok p, w₂)
      → host.initialize p alias w₂ ≡ r
      → Made alias c w (initialized host alias c p r)
  initialized-Made alias c p w w₂ (ok _, w') e i = (refl, refl, w₂, e, i)
  initialized-Made alias c p w w₂ (throws x, w') e i = tt

  created-Made :
      (alias c : String) (w : World) (r : Outcome Plugin × World)
      → host.create_shared_instance c w ≡ r
      → Made alias c w (created host alias c r)
  created-Made alias c w (ok p, w₂) e = initialized-Made alias c p w w₂ _ e refl
  created-Made alias c w (throws x, w₂) e = tt

  Made-MadeFrom :
      (alias c : String) (w w₁ : World) (o : Option (Loaded Plugin) × World)
      → IsClass alias w c
      → IsDeclared (host.declare_class (class_parameter alias) c) (class_parameter alias) w w₁
      → Made alias c w₁ o
      → MadeFrom alias w o
  Made-MadeFrom alias c w w₁ (none, w') k d m = tt
  Made-MadeFrom alias c w w₁ (some item, w') k d (n, q, w₂, e, i) = record {
    is_class = subst (IsClass alias w) (sym q) k;
    named = n;
    declared_world = w₁;
    declares =
        subst
          (λ x.
            IsDeclared (host.declare_class (class_parameter alias) x) (class_parameter alias) w w₁)
          (sym q) d;
    created_world = w₂;
    creates = ap (λ x. host.create_shared_instance x w₁) q ∙ e;
    initializes = i;
  }

  declared-MadeFrom :
      (alias c : String) (w : World) (r : Outcome (Unit {0}) × World)
      → IsClass alias w c
      → DeclaredAs (host.declare_class (class_parameter alias) c) (class_parameter alias) w r
      → MadeFrom alias w (declared host alias c r)
  declared-MadeFrom alias c w (ok _, w₁) k d =
      Made-MadeFrom alias c w w₁ _ k d (created-Made alias c w₁ _ refl)
  declared-MadeFrom alias c w (throws x, w₁) k d = tt

  pub create-MadeFrom :
      (alias c : String) (w : World) → IsClass alias w c → MadeFrom alias w (create host alias c w)
  unfolding create
  create-MadeFrom alias c w k = declared-MadeFrom alias c w _ k (
      declaring-DeclaredAs (host.declare_class (class_parameter alias) c) (class_parameter alias) w)

  pub create_lem :
      (alias : String) (w : World) (item : Loaded Plugin) (w' : World)
      → Creates alias w item w'
      → create host alias item.plugin_class w ≡ (some item, w')
  unfolding create
  create_lem alias w item w' m =
      rw
        (
          declared_lem (host.declare_class (class_parameter alias) item.plugin_class)
              (class_parameter alias) w m.declared_world m.declares,
          m.creates,
          m.initializes,
        )
        (λ k. (
          some (record {
            alias = sym m.named k;
            plugin_class = item.plugin_class;
            instance_of = item.instance_of;
          }),
          w',
        ))
