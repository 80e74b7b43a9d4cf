-- ===== src/PluginSwitcher/Held.antt =====
-- The instances that a switcher holds: none is left behind when a plugin cannot be loaded. A plugin
-- is a pointer here, told apart by its address.
use easy_navigation.Common.{
  ℕ, ◌==◌, ◌≡◌, refl, ◌∙◌, subst, fun_ext, arith, Bool, true, false, not, ◌&&◌, ◌||◌, Bool-cases,
  inl, inr, Option, none, some, String, List, [], ◌∷◌,
}
use easy_navigation.Common.{◌++◌ as append}
use easy_navigation.NavState.{Outcome, ok, throws, bind_outcome}
use easy_navigation.PluginSwitcher.{
  Host, Loaded, PluginSwitcher, class_parameter, resolve_plugin_class, initialized, created,
  declared, create, release_items, keep, load_one, load_all, replace, beside, load, is_too_many,
}

-- Whether an item has the instance at an address.
abbrev pub has_instance : ℕ → List (Loaded ℕ) → Bool
has_instance q [] = false
has_instance q (item ∷ items) = (item.instance_of == q) || has_instance q items

has-append :
    (q : ℕ) (xs ys : List (Loaded ℕ))
    → has_instance q (append xs ys) ≡ has_instance q xs || has_instance q ys
has-append q [] ys = refl
has-append q (x ∷ xs) ys = ground (arith, has-append q xs ys)

new_at : (before : ℕ → Bool) (p q : ℕ) → before p ≡ false → (p == q) ≡ true → before q ≡ false
new_at before p q new same =
    let e : p ≡ q = ground (arith, same) in subst (λ x. before x ≡ false) e new

module _ {World : Type 0} (alive : ℕ → World → Bool) where
  -- Of the instances alive before, `before` tells; an instance that is created is a new one.
  abbrev pub IsCreated : (ℕ → Bool) → Outcome ℕ × World → Type 0
  IsCreated before (ok p, w) = (before p ≡ false) × ((q : ℕ) → alive q w ≡ (p == q) || before q)
  IsCreated before (throws e, w) = (q : ℕ) → alive q w ≡ before q

-- The calls of the class loader and of the node: an instance begins when it is created, and ends
-- when the switcher's pointer to it is reset; the end of one that has ended changes nothing.
pub record Lives {World : Type 0} (host : Host World ℕ) (alive : ℕ → World → Bool) : Type 0 where
  pub types_declared :
      (name : String) (w : World) (q : ℕ) → alive q (host.declare_types name w).1 ≡ alive q w
  pub class_declared :
      (name plugin_class : String) (w : World) (q : ℕ)
      → alive q (host.declare_class name plugin_class w).1 ≡ alive q w
  pub creates :
      (plugin_class : String) (w : World)
      → IsCreated alive (λ q. alive q w) (host.create_shared_instance plugin_class w)
  pub initializes :
      (p : ℕ) (alias : String) (w : World) (q : ℕ)
      → alive q (host.initialize p alias w).1 ≡ alive q w
  pub resets : (p : ℕ) (w : World) (q : ℕ) → alive q (host.reset p w) ≡ alive q w && not (p == q)

module _ {World : Type 0} (host : Host World ℕ) (alive : ℕ → World → Bool) where
  -- The instances alive after create(), with those before it.
  abbrev CreatedOne : (ℕ → Bool) → Option (Loaded ℕ) × World → Type 0
  CreatedOne before (none, w) = (q : ℕ) → alive q w ≡ before q
  CreatedOne before (some item, w) =
      (before item.instance_of ≡ false)
      × ((q : ℕ) → alive q w ≡ (item.instance_of == q) || before q)

  -- The instances alive are the old ones and those of the items, which are new.
  abbrev IsAdded : (ℕ → Bool) → List (Loaded ℕ) → World → Type 0
  IsAdded old items w =
      (q : ℕ)
      → (alive q w ≡ old q || has_instance q items) × ((old q && has_instance q items) ≡ false)

  -- The instances alive after the loop over the types.
  abbrev CreatedAll : (ℕ → Bool) → Outcome (Option (List (Loaded ℕ))) × World → Type 0
  CreatedAll old (ok (some items), w) = IsAdded old items w
  CreatedAll old (ok none, w) = (q : ℕ) → alive q w ≡ old q
  CreatedAll old (throws e, w) = (q : ℕ) → alive q w ≡ old q

  -- The instances alive are exactly those that the switcher has loaded.
  abbrev pub IsHeld : PluginSwitcher ℕ × World → Type 0
  IsHeld (s, w) = (q : ℕ) → alive q w ≡ has_instance q s.plugins

module _ {World : Type 0} (host : Host World ℕ) (alive : ℕ → World → Bool)
    (lives : Lives host alive) where
  pub release_items_alive :
      (items : List (Loaded ℕ)) (w : World) (q : ℕ)
      → alive q (release_items host items w) ≡ alive q w && not (has_instance q items)
  unfolding release_items
  release_items_alive [] w q = ground arith
  release_items_alive (item ∷ items) w q = ground (
    arith,
    release_items_alive items (host.reset item.instance_of w) q,
    lives.resets item.instance_of w q,
  )

  initialized_alive :
      (alias c : String) (p : ℕ) (before : ℕ → Bool) (r : Outcome (Unit {0}) × World)
      → before p ≡ false
      → ((q : ℕ) → alive q r.1 ≡ (p == q) || before q)
      → CreatedOne host alive before (initialized host alias c p r)
  initialized_alive alias c p before (ok _, w) new h = (new, h)
  initialized_alive alias c p before (throws e, w) new h = λ q. elim (Bool-cases (p == q)) [
    | inl same ↦ ground (arith, lives.resets p w q, same, new_at before p q new same)
    | inr differs ↦ ground (arith, lives.resets p w q, h q, differs)
  ]

  created_alive :
      (alias c : String) (before : ℕ → Bool) (r : Outcome ℕ × World)
      → IsCreated alive before r
      → CreatedOne host alive before (created host alias c r)
  created_alive alias c before (throws e, w) h = h
  created_alive alias c before (ok p, w) (new, h) =
      initialized_alive alias c p before (host.initialize p alias w) new
        (λ q. lives.initializes p alias w q ∙ h q)

  declared_alive :
      (alias c : String) (w : World) (r : Outcome (Unit {0}) × World)
      → ((q : ℕ) → alive q r.1 ≡ alive q w)
      → CreatedOne host alive (λ q. alive q w) (declared host alias c r)
  declared_alive alias c w (throws e, w₁) h = h
  declared_alive alias c w (ok _, w₁) h =
      created_alive alias c (λ q. alive q w) (host.create_shared_instance c w₁)
        (subst (λ before. IsCreated alive before (host.create_shared_instance c w₁)) (fun_ext h)
          (lives.creates c w₁))

  create-CreatedOne :
      (alias c : String) (w : World)
      → CreatedOne host alive (λ q. alive q w) (create host alias c w)
  unfolding create
  create-CreatedOne alias c w = declared_alive alias c w _ (λ q.
      elim (Bool-cases (host.has_parameter (class_parameter alias) w)) [
        | inl e ↦ rw e refl
        | inr e ↦ rw e (lives.class_declared (class_parameter alias) c w q)
      ])

  dropped_alive :
      (old : ℕ → Bool) (items : List (Loaded ℕ)) (w w' : World)
      → IsAdded host alive old items w
      → ((q : ℕ) → alive q w' ≡ alive q w)
      → (q : ℕ) → alive q (release_items host items w') ≡ old q
  dropped_alive old items w w' h e q = ground (arith, release_items_alive items w' q, h q, e q)

  keep_alive :
      (next : List (Loaded ℕ) → World → Outcome (Option (List (Loaded ℕ))) × World) (old : ℕ → Bool)
      (loaded : List (Loaded ℕ)) (w : World) (r : Option (Loaded ℕ) × World)
      → ((items : List (Loaded ℕ)) (w' : World)
          → IsAdded host alive old items w'
          → CreatedAll host alive old (next items w'))
      → IsAdded host alive old loaded w
      → CreatedOne host alive (λ q. alive q w) r
      → CreatedAll host alive old (keep host next loaded r)
  keep_alive next old loaded w (none, w₁) later h c = dropped_alive old loaded w w₁ h c
  keep_alive next old loaded w (some item, w₁) later h (new, c) =
      later (append loaded (item ∷ [])) w₁ (λ q. elim (Bool-cases (item.instance_of == q)) [
        | inl same ↦ ground (
          arith,
          has-append q loaded (item ∷ []),
          c q,
          h q,
          same,
          new_at (λ x. alive x w) item.instance_of q new same,
        )
        | inr differs ↦ ground (arith, has-append q loaded (item ∷ []), c q, h q, differs)
      ])

  load_one_alive :
      (next : List (Loaded ℕ) → World → Outcome (Option (List (Loaded ℕ))) × World) (old : ℕ → Bool)
      (type : String) (loaded : List (Loaded ℕ)) (w : World) (r : Outcome String)
      → ((items : List (Loaded ℕ)) (w' : World)
          → IsAdded host alive old items w'
          → CreatedAll host alive old (next items w'))
      → IsAdded host alive old loaded w
      → CreatedAll host alive old (load_one host next type loaded w r)
  load_one_alive next old type loaded w (throws e) later h =
      dropped_alive old loaded w w h (λ q. refl)
  load_one_alive next old type loaded w (ok c) later h =
      keep_alive next old loaded w (create host type c w) later h (create-CreatedOne type c w)

  load_all-CreatedAll :
      (types : List String) (old : ℕ → Bool) (loaded : List (Loaded ℕ)) (w : World)
      → IsAdded host alive old loaded w
      → CreatedAll host alive old (load_all host types loaded w)
  unfolding load_all
  load_all-CreatedAll [] old loaded w h = h
  load_all-CreatedAll (type ∷ types) old loaded w h =
      load_one_alive (load_all host types) old type loaded w (resolve_plugin_class host type w)
        (load_all-CreatedAll types old) h

  -- The end of configure(), after the loop.
  replaced_alive :
      (s : PluginSwitcher ℕ) (r : Outcome (Option (List (Loaded ℕ))) × World)
      → CreatedAll host alive (λ q. has_instance q s.plugins) r
      → IsHeld host alive
          (bind_outcome (beside host s r) (λ loaded (s', w'). replace host s' loaded w')).1
  replaced_alive s (throws e, w) h = h
  replaced_alive s (ok none, w) h = h
  replaced_alive s (ok (some items), w) h =
      λ q. ground (arith, release_items_alive s.plugins w q, h q)

  pub load-IsHeld :
      (s : PluginSwitcher ℕ) (types : List String) (w : World)
      → IsHeld host alive (s, w)
      → IsHeld host alive (load host s types w).1
  unfolding load
  load-IsHeld s types w h = elim (Bool-cases (is_too_many s.max_plugins types)) [
    | inl e ↦ rw e h
    | inr e ↦ rw e (
        replaced_alive s (load_all host types [] w) (
          load_all-CreatedAll types (λ q. has_instance q s.plugins) [] w
            (λ q. ground (arith, h q))))
  ]
