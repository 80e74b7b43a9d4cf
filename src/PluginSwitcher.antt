-- ===== src/PluginSwitcher.antt =====
-- easynav_core PluginSwitcher.hpp: the plugin instances of a lifecycle node. The node's parameters
-- and the class loader are an argument (rclcpp, pluginlib), with `World` their state: what they
-- throw is a std::exception. A pointer that is copied out keeps its instance alive elsewhere;
-- here `reset` is the end of the switcher's own pointer to it. The libraries are never unloaded.
pub mod Chain
pub mod Held
pub mod Configure
pub mod History
use Prim.Native.String.{◌++◌}
use easy_navigation.Common.{
  ℕ, ◌==◌, ltb, Bool, true, false, not, ◌&&◌, Option, none, some, String, List, [], ◌∷◌, length,
  map, if◌then◌else◌,
}
use easy_navigation.Common.{◌++◌ as append}
use easy_navigation.NavState.{Outcome, ok, throws, Exec, return, bind_outcome}

pub record Host (World Plugin : Type 0) : Type 0 where
  pub has_parameter : String → World → Bool
  pub declare_types : String → Exec World (Unit {0})
  pub get_types : String → World → Outcome (List String)
  pub declare_class : String → String → Exec World (Unit {0})
  pub get_class : String → World → Outcome String
  pub override_of : String → World → Option String
  pub create_shared_instance : String → Exec World Plugin
  pub initialize : Plugin → String → Exec World (Unit {0})
  pub reset : Plugin → World → World

pub record Loaded (Plugin : Type 0) : Type 0 where
  pub alias : String
  pub plugin_class : String
  pub instance_of : Plugin

pub record PluginSwitcher (Plugin : Type 0) : Type 0 where
  pub types_parameter : String
  pub max_plugins : ℕ
  pub plugins : List (Loaded Plugin)

abbrev pub construct : {Plugin : Type 0} → String → ℕ → PluginSwitcher Plugin
construct types_parameter max_plugins = record {
  types_parameter = types_parameter;
  max_plugins = max_plugins;
  plugins = [];
}

abbrev pub first : {Plugin : Type 0} → List (Loaded Plugin) → Option Plugin
first [] = none
first (item ∷ items) = some item.instance_of

unfoldable pub get : {Plugin : Type 0} → PluginSwitcher Plugin → Option Plugin
get s = first s.plugins

unfoldable pub get_all : {Plugin : Type 0} → PluginSwitcher Plugin → List Plugin
get_all s = map (λ item. item.instance_of) s.plugins

abbrev pub aliases_of : {Plugin : Type 0} → List (Loaded Plugin) → List String
aliases_of items = map (λ item. item.alias) items

unfoldable pub loaded_types : {Plugin : Type 0} → PluginSwitcher Plugin → List String
loaded_types s = aliases_of s.plugins

abbrev pub class_parameter : String → String
class_parameter alias = alias ++ ".plugin"

abbrev pub or_empty : Option String → String
or_empty none = ""
or_empty (some text) = text

-- `max_plugins_ != 0 && types.size() > max_plugins_`.
abbrev pub is_too_many : ℕ → List String → Bool
is_too_many max_plugins types = not (max_plugins == 0) && ltb max_plugins (length types)

module _ {World Plugin : Type 0} (host : Host World Plugin) where
  -- The types parameter is declared when it is missing, and then read.
  abbrev pub read_types : String → Exec World (List String)
  read_types name w =
      bind_outcome (if host.has_parameter name w then return tt w else host.declare_types name w)
        (λ _ w'. (host.get_types name w', w'))

  abbrev pub resolve_plugin_class : String → World → Outcome String
  resolve_plugin_class alias w =
      let name = class_parameter alias in
      if host.has_parameter name w
      then host.get_class name w
      else ok (or_empty (host.override_of name w))

  -- The rest of create() once the instance exists, and once it was initialized.
  abbrev pub initialized :
      String → String → Plugin → Outcome (Unit {0}) × World → Option (Loaded Plugin) × World
  initialized alias plugin_class p (ok _, w) =
      (some (record { alias = alias; plugin_class = plugin_class; instance_of = p }), w)
  initialized alias plugin_class p (throws e, w) = (none, host.reset p w)

  abbrev pub created : String → String → Outcome Plugin × World → Option (Loaded Plugin) × World
  created alias plugin_class (ok p, w) =
      initialized alias plugin_class p (host.initialize p alias w)
  created alias plugin_class (throws e, w) = (none, w)

  abbrev pub declared :
      String → String → Outcome (Unit {0}) × World → Option (Loaded Plugin) × World
  declared alias plugin_class (ok _, w) =
      created alias plugin_class (host.create_shared_instance plugin_class w)
  declared alias plugin_class (throws e, w) = (none, w)

  -- What is thrown inside is caught.
  unfoldable pub create : String → String → World → Option (Loaded Plugin) × World
  create alias plugin_class w = declared alias plugin_class (
      if host.has_parameter (class_parameter alias) w
      then return tt w
      else host.declare_class (class_parameter alias) plugin_class w)

  unfoldable pub release_items : List (Loaded Plugin) → World → World
  release_items [] w = w
  release_items (item ∷ items) w = release_items items (host.reset item.instance_of w)

  -- The body of the loop over the types, `next` its later rounds and `loaded` the items so far,
  -- which are dropped on every way out that fails: by discard(), or with the vector when the class
  -- of an alias cannot be read.
  abbrev pub keep :
      (List (Loaded Plugin) → Exec World (Option (List (Loaded Plugin))))
      → List (Loaded Plugin)
      → Option (Loaded Plugin) × World
      → Outcome (Option (List (Loaded Plugin))) × World
  keep next loaded (none, w) = return none (release_items loaded w)
  keep next loaded (some item, w) = next (append loaded (item ∷ [])) w

  abbrev pub load_one :
      (List (Loaded Plugin) → Exec World (Option (List (Loaded Plugin))))
      → String
      → List (Loaded Plugin)
      → World
      → Outcome String
      → Outcome (Option (List (Loaded Plugin))) × World
  load_one next type loaded w (throws e) = (throws e, release_items loaded w)
  load_one next type loaded w (ok plugin_class) = keep next loaded (create type plugin_class w)

  unfoldable pub load_all :
      List String → List (Loaded Plugin) → Exec World (Option (List (Loaded Plugin)))
  unfolding create release_items
  load_all [] loaded w = return (some loaded) w
  load_all (type ∷ types) loaded w =
      load_one (load_all types) type loaded w (resolve_plugin_class type w)

  abbrev pub replace :
      PluginSwitcher Plugin
      → Option (List (Loaded Plugin))
      → World
      → Outcome Bool × (PluginSwitcher Plugin × World)
  replace s none w = return false (s, w)
  replace s (some loaded) w = return true (record s { plugins = loaded }, release_items s.plugins w)

  -- A step that changes the world only.
  abbrev pub beside :
      {A : Type 0}
      → PluginSwitcher Plugin
      → Outcome A × World
      → Outcome A × (PluginSwitcher Plugin × World)
  beside s (r, w) = (r, (s, w))

  unfoldable pub load :
      PluginSwitcher Plugin → List String → World → Outcome Bool × (PluginSwitcher Plugin × World)
  unfolding load_all
  load s types w =
      if is_too_many s.max_plugins types
      then return false (s, w)
      else bind_outcome (beside s (load_all types [] w)) (λ loaded (s', w'). replace s' loaded w')

  unfoldable pub configure : Exec (PluginSwitcher Plugin × World) Bool
  unfolding load
  configure (s, w) =
      bind_outcome (beside s (read_types s.types_parameter w)) (λ types (s', w'). load s' types w')

  unfoldable pub release : PluginSwitcher Plugin × World → PluginSwitcher Plugin × World
  unfolding release_items
  release (s, w) = (record s { plugins = [] }, release_items s.plugins w)
