-- ===== src/PluginSwitcher/Configure.antt =====
-- What configure() loads: every listed plugin, where that is possible, or nothing.
use easy_navigation.Common.{
  ℕ, ◌≤◌, ◌≡◌, refl, sym, ap, subst, ◌∙◌, arith, Bool, true, false, Bool-cases, ◌⊎◌, inl, inr,
  Option, none, some, String, List, [], ◌∷◌, length, ◌==◌, append-nil, append_assoc,
}
use easy_navigation.Common.{◌++◌ as append}
use easy_navigation.NavState.{Outcome, ok, throws, bind_outcome}
use easy_navigation.PluginSwitcher.{
  Host, Loaded, PluginSwitcher, resolve_plugin_class, create, keep, load_one, load_all, replace,
  beside, load, configure, is_too_many,
}
use easy_navigation.PluginSwitcher.Chain.{
  IsDeclared, Creates, Chain, DeclaredAs, declared_lem, declaring-DeclaredAs, MadeFrom,
  resolve-IsClass, resolve_lem, create-MadeFrom, create_lem,
}

-- No more types than the maximum, of which 0 is none.
abbrev pub Fits : ℕ → List String → Type 0
Fits max_plugins types = (max_plugins ≡ 0) ⊎ (length types ≤ max_plugins)

is_too_many-Fits : (m : ℕ) (types : List String) → is_too_many m types ≡ false → Fits m types
is_too_many-Fits m types e = elim (Bool-cases (m == 0)) [
  | inl z ↦ inl (ground (arith, z))
  | inr z ↦ inr (ground (arith, e, z))
]

fits_lem : (m : ℕ) (types : List String) → Fits m types → is_too_many m types ≡ false
fits_lem m types (inl e) = ground (arith, e)
fits_lem m types (inr e) = ground (arith, e)

module _ {World Plugin : Type 0} (host : Host World Plugin) where
  -- Plugins can be loaded: the types parameter is read, they fit, and one plugin after the other is
  -- created and initialized, which makes these items.
  pub record CanLoad (s : PluginSwitcher Plugin) (w : World) (items : List (Loaded Plugin))
      : Type 0 where
    pub types : List String
    pub read_world : World
    pub declared :
        IsDeclared host (host.declare_types s.types_parameter) s.types_parameter w read_world
    pub listed : host.get_types s.types_parameter read_world ≡ ok types
    pub fits : Fits s.max_plugins types
    pub last_world : World
    pub chain : Chain host types read_world items last_world

  -- What a call of configure() in `w` leaves of the switcher `s`: the items that can be loaded if it
  -- returned true, and otherwise the switcher as it was, where none can be loaded.
  abbrev pub Becomes :
      PluginSwitcher Plugin → World → Outcome Bool × (PluginSwitcher Plugin × World) → Type 0
  Becomes s w (ok true, (s', w')) =
      CanLoad s w s'.plugins × (s' ≡ record s { plugins = s'.plugins })
  Becomes s w (ok false, (s', w')) =
      (s' ≡ s) × ((items : List (Loaded Plugin)) → ¬ CanLoad s w items)
  Becomes s w (throws e, (s', w')) =
      (s' ≡ s) × ((items : List (Loaded Plugin)) → ¬ CanLoad s w items)

  -- The items that the loop over the types gives.
  abbrev IsLoaded :
      List (Loaded Plugin)
      → List String
      → World
      → Outcome (Option (List (Loaded Plugin))) × World
      → Type 0
  IsLoaded loaded types w (ok (some l), w') =
      (items : List (Loaded Plugin)) × (l ≡ append loaded items) × Chain host types w items w'
  IsLoaded loaded types w (ok none, w') = Unit {0}
  IsLoaded loaded types w (throws e, w') = Unit {0}

  one_more :
      (loaded : List (Loaded Plugin)) (type : String) (types : List String) (w w₁ : World)
      (item : Loaded Plugin) (r : Outcome (Option (List (Loaded Plugin))) × World)
      → Creates host type w item w₁
      → IsLoaded (append loaded (item ∷ [])) types w₁ r
      → IsLoaded loaded (type ∷ types) w r
  one_more loaded type types w w₁ item (ok (some l), w') m (items, e, c) =
      (item ∷ items, e ∙ append_assoc loaded (item ∷ []) items, (w₁, m, c))
  one_more loaded type types w w₁ item (ok none, w') m h = tt
  one_more loaded type types w w₁ item (throws e, w') m h = tt

  keep-IsLoaded :
      (next : List (Loaded Plugin) → World → Outcome (Option (List (Loaded Plugin))) × World)
      (type : String) (types : List String) (loaded : List (Loaded Plugin)) (w : World)
      (r : Option (Loaded Plugin) × World)
      → ((items : List (Loaded Plugin)) (w' : World) → IsLoaded items types w' (next items w'))
      → MadeFrom host type w r
      → IsLoaded loaded (type ∷ types) w (keep host next loaded r)
  keep-IsLoaded next type types loaded w (none, w₁) later m = tt
  keep-IsLoaded next type types loaded w (some item, w₁) later m =
      one_more loaded type types w w₁ item _ m (later (append loaded (item ∷ [])) w₁)

  load_one-IsLoaded :
      (next : List (Loaded Plugin) → World → Outcome (Option (List (Loaded Plugin))) × World)
      (type : String) (types : List String) (loaded : List (Loaded Plugin)) (w : World)
      (r : Outcome String)
      → ((items : List (Loaded Plugin)) (w' : World) → IsLoaded items types w' (next items w'))
      → resolve_plugin_class host type w ≡ r
      → IsLoaded loaded (type ∷ types) w (load_one host next type loaded w r)
  load_one-IsLoaded next type types loaded w (throws e) later h = tt
  load_one-IsLoaded next type types loaded w (ok c) later h =
      keep-IsLoaded next type types loaded w (create host type c w) later
        (create-MadeFrom host type c w (resolve-IsClass host type w c h))

  load_all-IsLoaded :
      (types : List String) (loaded : List (Loaded Plugin)) (w : World)
      → IsLoaded loaded types w (load_all host types loaded w)
  unfolding load_all
  load_all-IsLoaded [] loaded w = ([], sym (append-nil loaded), refl)
  load_all-IsLoaded (type ∷ types) loaded w =
      load_one-IsLoaded (load_all host types) type types loaded w _ (load_all-IsLoaded types) refl

  -- Where the plugins can be created, the loop does so.
  load_all_lem :
      (types : List String) (loaded : List (Loaded Plugin)) (w : World)
      (items : List (Loaded Plugin)) (w' : World)
      → Chain host types w items w'
      → load_all host types loaded w ≡ (ok (some (append loaded items)), w')
  unfolding load_all
  load_all_lem [] loaded w [] w' e =
      ap (λ v. (ok (some loaded), v)) e ∙ ap (λ l. (ok (some l), w')) (sym (append-nil loaded))
  load_all_lem (type ∷ types) loaded w (item ∷ items) w' (w₁, m, c) =
      rw (resolve_lem host type w item.plugin_class m.is_class, create_lem host type w item w₁ m)
        (load_all_lem types (append loaded (item ∷ [])) w₁ items w' c
          ∙ ap (λ l. (ok (some l), w')) (append_assoc loaded (item ∷ []) items))
  load_all_lem [] loaded w (item ∷ items) w' c = absurd c
  load_all_lem (type ∷ types) loaded w [] w' c = absurd c

  -- What is true of the result without the question whether more was possible.
  abbrev Loads :
      PluginSwitcher Plugin → World → Outcome Bool × (PluginSwitcher Plugin × World) → Type 0
  Loads s w (ok true, (s', w')) = CanLoad s w s'.plugins × (s' ≡ record s { plugins = s'.plugins })
  Loads s w (ok false, (s', w')) = s' ≡ s
  Loads s w (throws e, (s', w')) = s' ≡ s

  replaced-Loads :
      (s : PluginSwitcher Plugin) (types : List String) (w w₁ : World)
      (r : Outcome (Option (List (Loaded Plugin))) × World)
      → IsDeclared host (host.declare_types s.types_parameter) s.types_parameter w w₁
      → host.get_types s.types_parameter w₁ ≡ ok types
      → Fits s.max_plugins types
      → IsLoaded [] types w₁ r
      → Loads s w (bind_outcome (beside host s r) (λ loaded (s', w'). replace host s' loaded w'))
  replaced-Loads s types w w₁ (throws e, w') d l f h = refl
  replaced-Loads s types w w₁ (ok none, w') d l f h = refl
  replaced-Loads s types w w₁ (ok (some loaded), w') d l f (items, e, c) = (
    record {
      types = types;
      read_world = w₁;
      declared = d;
      listed = l;
      fits = f;
      last_world = w';
      chain = subst (λ x. Chain host types w₁ x w') (sym e) c;
    },
    refl,
  )

  load-Loads :
      (s : PluginSwitcher Plugin) (types : List String) (w w₁ : World)
      → IsDeclared host (host.declare_types s.types_parameter) s.types_parameter w w₁
      → host.get_types s.types_parameter w₁ ≡ ok types
      → Loads s w (load host s types w₁)
  unfolding load
  load-Loads s types w w₁ d l = elim (Bool-cases (is_too_many s.max_plugins types)) [
    | inl e ↦ rw e refl
    | inr e ↦ rw e (
        replaced-Loads s types w w₁ (load_all host types [] w₁) d l
          (is_too_many-Fits s.max_plugins types e) (load_all-IsLoaded types [] w₁))
  ]

  read_lem :
      (s : PluginSwitcher Plugin) (w w₁ : World) (r : Outcome (List String))
      → IsDeclared host (host.declare_types s.types_parameter) s.types_parameter w w₁
      → host.get_types s.types_parameter w₁ ≡ r
      → Loads s w (bind_outcome (beside host s (r, w₁)) (λ types (s', w'). load host s' types w'))
  read_lem s w w₁ (throws e) d l = refl
  read_lem s w w₁ (ok types) d l = load-Loads s types w w₁ d l

  declared-Loads :
      (s : PluginSwitcher Plugin) (w : World) (r : Outcome (Unit {0}) × World)
      → DeclaredAs host (host.declare_types s.types_parameter) s.types_parameter w r
      → Loads s w (
          bind_outcome
            (beside host s (bind_outcome r (λ _ w'. (host.get_types s.types_parameter w', w'))))
            (λ types (s', w'). load host s' types w'))
  declared-Loads s w (throws e, w₁) d = refl
  declared-Loads s w (ok _, w₁) d = read_lem s w w₁ (host.get_types s.types_parameter w₁) d refl

  configure-Loads : (s : PluginSwitcher Plugin) (w : World) → Loads s w (configure host (s, w))
  unfolding configure
  configure-Loads s w =
      declared-Loads s w _
        (declaring-DeclaredAs host (host.declare_types s.types_parameter) s.types_parameter w)

  -- Where plugins can be loaded, they are.
  configure_lem :
      (s : PluginSwitcher Plugin) (w : World) (items : List (Loaded Plugin))
      → CanLoad s w items
      → (configure host (s, w)).0 ≡ ok true
  unfolding configure load
  configure_lem s w items c =
      rw
        (
          declared_lem host (host.declare_types s.types_parameter) s.types_parameter w c.read_world
              c.declared,
          c.listed,
          fits_lem s.max_plugins c.types c.fits,
          load_all_lem c.types [] c.read_world items c.last_world c.chain,
        )
        refl

  Loads-Becomes :
      (s : PluginSwitcher Plugin) (w : World) (r : Outcome Bool × (PluginSwitcher Plugin × World))
      → Loads s w r
      → ((items : List (Loaded Plugin)) → CanLoad s w items → r.0 ≡ ok true)
      → Becomes s w r
  Loads-Becomes s w (ok true, (s', w')) l possible = l
  Loads-Becomes s w (ok false, (s', w')) l possible =
      (l, λ items c. ground (arith, possible items c))
  Loads-Becomes s w (throws e, (s', w')) l possible =
      (l, λ items c. ground (arith, possible items c))

  -- For any parameters, and whichever plugins fail: configure() returns true exactly where the types
  -- parameter can be read, lists no more plugins than the maximum, and each of them in turn has a
  -- class, of which an instance can be created and initialized under its alias; the loaded plugins
  -- are then those instances. In every other case the switcher is as before.
  pub configure-Becomes :
      (s : PluginSwitcher Plugin) (w : World) → Becomes s w (configure host (s, w))
  configure-Becomes s w =
      Loads-Becomes s w (configure host (s, w)) (configure-Loads s w) (configure_lem s w)
