-- ===== src/PluginSwitcher/History.antt =====
-- Histories of a switcher: configuring, releasing, and what others do to the parameters between.
use easy_navigation.Common.{
  ℕ, ◌≤◌, ◌≡◌, refl, sym, ap, ◌∙◌, subst, arith, Bool, true, false, ◌⊎◌, Bool-cases, inl, inr,
  String, List, [], ◌∷◌, length,
}
use easy_navigation.NavState.{Outcome, ok, throws, bind_outcome}
use easy_navigation.PluginSwitcher.{
  Host, PluginSwitcher, read_types, beside, load, configure, release, construct,
}
use easy_navigation.PluginSwitcher.Chain.{length-Chain}
use easy_navigation.PluginSwitcher.Held.{Lives, IsHeld, load-IsHeld, release_items_alive}
use easy_navigation.PluginSwitcher.Configure.{CanLoad, Becomes, configure-Becomes}

-- `others` is what happens to the world while the switcher is not called.
pub data Event (World : Type 0) : Type 0 where
  configuring releasing : Event World
  others : (World → World) → Event World

module _ {World : Type 0} (host : Host World ℕ) where
  abbrev pub apply : Event World → PluginSwitcher ℕ × World → PluginSwitcher ℕ × World
  apply configuring s = (configure host s).1
  apply releasing s = release host s
  apply (others f) (s, w) = (s, f w)

  unfoldable pub run : List (Event World) → PluginSwitcher ℕ × World → PluginSwitcher ℕ × World
  run [] s = s
  run (e ∷ es) s = run es (apply e s)

  -- No more plugins than the maximum `m`, of which 0 is none.
  abbrev pub IsWithin : ℕ → PluginSwitcher ℕ × World → Type 0
  IsWithin m (s, w) = (s.max_plugins ≡ m) × ((m ≡ 0) ⊎ (length s.plugins ≤ m))

  CanLoad-IsWithin :
      (m : ℕ) (s s' : PluginSwitcher ℕ) (w w' : World)
      → s.max_plugins ≡ m
      → CanLoad host s w s'.plugins
      → s' ≡ record s { plugins = s'.plugins }
      → IsWithin m (s', w')
  CanLoad-IsWithin m s s' w w' e c k =
      let n = length-Chain host c.types c.read_world s'.plugins c.last_world c.chain in
      (
        ap (λ x. x.max_plugins) k ∙ e,
        elim c.fits [ inl z ↦ inl (omega (arith, z, e)) | inr z ↦ inr (omega (arith, z, e, n)) ],
      )

  Becomes-IsWithin :
      (m : ℕ) (s : PluginSwitcher ℕ) (w : World) (r : Outcome Bool × (PluginSwitcher ℕ × World))
      → Becomes host s w r
      → IsWithin m (s, w)
      → IsWithin m r.1
  Becomes-IsWithin m s w (ok true, (s', w')) (c, k) (e, h) = CanLoad-IsWithin m s s' w w' e c k
  Becomes-IsWithin m s w (ok false, (s', w')) (k, n) h = subst (λ x. IsWithin m (x, w)) (sym k) h
  Becomes-IsWithin m s w (throws e, (s', w')) (k, n) h = subst (λ x. IsWithin m (x, w)) (sym k) h

module _ {World : Type 0} (host : Host World ℕ) (alive : ℕ → World → Bool)
    (lives : Lives host alive) where
  -- What others do leaves the instances that the switcher points to alone.
  abbrev pub Keep : List (Event World) → Type 0
  Keep [] = Unit {0}
  Keep (others f ∷ es) = ((w : World) (q : ℕ) → alive q (f w) ≡ alive q w) × Keep es
  Keep (e ∷ es) = Keep es

  abbrev pub IsSound : ℕ → PluginSwitcher ℕ × World → Type 0
  IsSound m s = IsHeld host alive s × IsWithin host m s

  loaded_alive :
      (s : PluginSwitcher ℕ) (r : Outcome (List String) × World)
      → IsHeld host alive (s, r.1)
      → IsHeld host alive
          (bind_outcome (beside host s r) (λ types (s', w'). load host s' types w')).1
  loaded_alive s (throws e, w) h = h
  loaded_alive s (ok types, w) h = load-IsHeld host alive lives s types w h

  bound_alive :
      (name : String) (q : ℕ) (r : Outcome (Unit {0}) × World)
      → alive q (bind_outcome r (λ _ w'. (host.get_types name w', w'))).1 ≡ alive q r.1
  bound_alive name q (ok _, w) = refl
  bound_alive name q (throws e, w) = refl

  read_types_alive :
      (name : String) (w : World) (q : ℕ) → alive q (read_types host name w).1 ≡ alive q w
  read_types_alive name w q = elim (Bool-cases (host.has_parameter name w)) [
    | inl e ↦ rw e refl
    | inr e ↦ rw e (bound_alive name q (host.declare_types name w) ∙ lives.types_declared name w q)
  ]

  configure-IsHeld :
      (s : PluginSwitcher ℕ) (w : World)
      → IsHeld host alive (s, w)
      → IsHeld host alive (configure host (s, w)).1
  unfolding configure
  configure-IsHeld s w h =
      loaded_alive s (read_types host s.types_parameter w)
        (λ q. read_types_alive s.types_parameter w q ∙ h q)

  configure-IsSound :
      (m : ℕ) (s : PluginSwitcher ℕ) (w : World)
      → IsSound m (s, w)
      → IsSound m (configure host (s, w)).1
  configure-IsSound m s w (h, i) = (
    configure-IsHeld s w h,
    Becomes-IsWithin host m s w (configure host (s, w)) (configure-Becomes host s w) i,
  )

  release-IsSound :
      (m : ℕ) (s : PluginSwitcher ℕ) (w : World)
      → IsSound m (s, w)
      → IsSound m (release host (s, w))
  unfolding release
  release-IsSound m s w (h, (e, i)) = (
    λ q. ground (arith, release_items_alive host alive lives s.plugins w q, h q),
    (e, inr (omega arith)),
  )

  run-IsSound :
      (m : ℕ) (es : List (Event World)) (s : PluginSwitcher ℕ × World)
      → Keep es
      → IsSound m s
      → IsSound m (run host es s)
  unfolding run
  run-IsSound m [] s k h = h
  run-IsSound m (configuring ∷ es) s k h = run-IsSound m es _ k (configure-IsSound m s.0 s.1 h)
  run-IsSound m (releasing ∷ es) s k h = run-IsSound m es _ k (release-IsSound m s.0 s.1 h)
  run-IsSound m (others f ∷ es) s (k, ks) h = run-IsSound m es _ ks (λ q. k s.1 q ∙ h.0 q, h.1)

  -- Where a created instance is a new one and lives until the switcher's pointer to it is reset:
  -- from the constructor on, with no instance alive before, over any history of configuring and
  -- releasing in which others leave the switcher's instances alone, and whichever plugins fail, an
  -- instance is alive exactly if the switcher has it loaded, and it has no more than its maximum.
  pub construct-run-IsSound :
      (types_parameter : String) (max_plugins : ℕ) (es : List (Event World)) (w : World)
      → Keep es
      → ((q : ℕ) → alive q w ≡ false)
      → IsSound max_plugins (run host es (construct types_parameter max_plugins, w))
  construct-run-IsSound types_parameter max_plugins es w k h =
      run-IsSound max_plugins es (construct types_parameter max_plugins, w) k
        (h, (refl, inr (omega arith)))
