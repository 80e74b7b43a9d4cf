-- ===== src/Tests/Switcher.antt =====
-- Runs of a plugin switcher.
use easy_navigation.Common.{
  ℕ, suc, ◌==◌, ltb, ◌≡◌, refl, subst, arith, Bool, true, false, not, ◌&&◌, ◌||◌, Bool-cases, inl,
  inr, none, String, List, [], ◌∷◌, str_eq, if◌then◌else◌,
}
use easy_navigation.NavState.{Outcome, ok, throws, runtime_error, return}
use easy_navigation.PluginSwitcher.{Host, PluginSwitcher, construct, configure, loaded_types}
use easy_navigation.PluginSwitcher.Held.{Lives, IsCreated}
use easy_navigation.PluginSwitcher.Configure.{Becomes, configure-Becomes}
use easy_navigation.PluginSwitcher.History.{
  Event, configuring, others, run, IsSound, construct-run-IsSound,
}

-- A node whose plugins initialize under any alias but "bad". Addresses are given in order; `ended`
-- are those whose instance has ended.
record World : Type 0 where
  types : List String
  next : ℕ
  ended : List ℕ

abbrev is_in : ℕ → List ℕ → Bool
is_in q [] = false
is_in q (x ∷ xs) = (x == q) || is_in q xs

abbrev create_next : Bool → World → Outcome ℕ × World
create_next true w = (throws runtime_error, w)
create_next false w = (ok w.next, record w { next = suc w.next })

abbrev host : Host World ℕ
host = record {
  has_parameter = λ name w. true;
  declare_types = λ name. return tt;
  get_types = λ name w. ok w.types;
  declare_class = λ name plugin_class. return tt;
  get_class = λ name w. ok name;
  override_of = λ name w. none;
  create_shared_instance = λ plugin_class w. create_next (is_in w.next w.ended) w;
  initialize = λ p alias w. (if str_eq alias "bad" then throws runtime_error else ok tt, w);
  reset = λ p w. record w { ended = p ∷ w.ended };
}

abbrev is_alive : ℕ → World → Bool
is_alive q w = ltb q w.next && not (is_in q w.ended)

alive_next :
    (w : World) (q : ℕ)
    → is_in w.next w.ended ≡ false
    → is_alive q (record w { next = suc w.next }) ≡ (w.next == q) || is_alive q w
alive_next w q h = elim (Bool-cases (w.next == q)) [
  | inl e ↦
      let same : w.next ≡ q = ground (arith, e) in
      let there = subst (λ x. is_in x w.ended ≡ false) same h in ground (arith, e, there)
  | inr e ↦ ground (arith, e)
]

create_next-IsCreated :
    (b : Bool) (w : World)
    → is_in w.next w.ended ≡ b
    → IsCreated is_alive (λ q. is_alive q w) (create_next b w)
create_next-IsCreated true w h = λ q. refl
create_next-IsCreated false w h = (ground arith, λ q. alive_next w q h)

host-Lives : Lives host is_alive
host-Lives = record {
  types_declared = λ name w q. refl;
  class_declared = λ name plugin_class w q. refl;
  creates = λ plugin_class w. create_next-IsCreated (is_in w.next w.ended) w refl;
  initializes = λ p alias w q. refl;
  resets = λ p w q. ground arith;
}

abbrev listed : List String → World → World
listed types w = record w { types = types }

abbrev start : World
start = record { types = "simple" ∷ []; next = 0; ended = [] }

-- The second call of configure() meets a plugin that fails.
abbrev events : List (Event World)
events = configuring ∷ others (listed ("other" ∷ "bad" ∷ [])) ∷ configuring ∷ []

abbrev after : PluginSwitcher ℕ × World
after = run host events (construct "controller_types" 2, start)

after_plugins : loaded_types after.0 ≡ "simple" ∷ []
unfolding run configure loaded_types
after_plugins = refl

construct-run-IsSound_example : IsSound host is_alive host-Lives 2 after
construct-run-IsSound_example =
    construct-run-IsSound host is_alive host-Lives "controller_types" 2 events start
      (λ w q. refl, tt) (λ q. ground arith)

configure-Becomes_example :
    Becomes host
      (construct "controller_types" 2)
      start
      (configure host (construct "controller_types" 2, start))
configure-Becomes_example = configure-Becomes host (construct "controller_types" 2) start
