-- ===== src/ParameterFreezer.antt =====
-- easynav_system safety/ParameterFreezer: the parameters of the nodes, which a reconfiguration may
-- no longer change. A node's parameters are a list of names and values, each name once, as the
-- node lists them; one that is declared without a value reads `not_set`. `handles` holds the nodes
-- whose callback is installed.
pub mod Frozen
use easy_navigation.Common.{
  ℤ, eqb_ℤ, Bool, true, false, not, ◌&&◌, Option, none, some, is_some, String, List, [], ◌∷◌, ◌++◌,
  is_empty, if◌then◌else◌, str_eq,
}
use easy_navigation.Double.{Double, eq}
use easy_navigation.NavState.{lookup, insert}

-- rclcpp::ParameterValue.
pub data ParameterValue : Type 0 where
  not_set : ParameterValue
  bool : Bool → ParameterValue
  integer : ℤ → ParameterValue
  double : Double → ParameterValue
  string : String → ParameterValue
  byte_array : List ℤ → ParameterValue
  bool_array : List Bool → ParameterValue
  integer_array : List ℤ → ParameterValue
  double_array : List Double → ParameterValue
  string_array : List String → ParameterValue

abbrev pub Parameters : Type 0
Parameters = List (String × ParameterValue)

abbrev pub Nodes : Type 0
Nodes = List (String × Parameters)

pub record ParameterFreezer : Type 0 where
  pub frozen : Nodes
  pub accept_new : Bool
  pub handles : List String

abbrev pub new : ParameterFreezer
new = record { frozen = []; accept_new = true; handles = [] }

abbrev pub is_frozen : ParameterFreezer → Bool
is_frozen f = not (is_empty f.handles)

unfoldable pub accept_new_parameters : Bool → ParameterFreezer → ParameterFreezer
accept_new_parameters accept f = record f { accept_new = accept }

abbrev pub or_empty : Option Parameters → Parameters
or_empty none = []
or_empty (some ps) = ps

-- The loop over a node's parameters: `frozen[parameter_name] = value`.
unfoldable pub freeze_values : Parameters → Parameters → Parameters
unfolding insert
freeze_values [] frozen = frozen
freeze_values ((name, value) ∷ ps) frozen = freeze_values ps (insert name value frozen)

-- The loop over the nodes; `frozen_[name]` creates a missing node.
unfoldable pub freeze_nodes : Nodes → Nodes → Nodes
unfolding freeze_values insert lookup
freeze_nodes [] frozen = frozen
freeze_nodes ((name, ps) ∷ nodes) frozen =
    freeze_nodes nodes (insert name (freeze_values ps (or_empty (lookup name frozen))) frozen)

abbrev names : Nodes → List String
names [] = []
names ((name, ps) ∷ nodes) = name ∷ names nodes

unfoldable pub freeze : Nodes → ParameterFreezer → ParameterFreezer
unfolding freeze_nodes
freeze nodes f = record f {
  frozen = freeze_nodes nodes f.frozen;
  handles = if is_frozen f then f.handles else f.handles ++ names nodes;
}

module _ (same : ParameterValue → ParameterValue → Bool) where
  -- One parameter that a callback is asked to set; `same` is rclcpp's `==`.
  unfoldable pub accepts_one : Bool → Option ParameterValue → ParameterValue → Bool
  accepts_one accept_new none value = accept_new
  accepts_one accept_new (some frozen) value = same frozen value

  unfoldable pub accepts_all : Bool → Parameters → Parameters → Bool
  unfolding accepts_one lookup
  accepts_all accept_new frozen [] = true
  accepts_all accept_new frozen ((name, value) ∷ ps) =
      let rest = accepts_all accept_new frozen ps in
      if not (accepts_one accept_new (lookup name frozen) value) then false else rest

  -- The callback of a node: whether the parameters may be set.
  unfoldable pub accepts : String → Parameters → ParameterFreezer → Bool
  unfolding accepts_all lookup
  accepts node parameters f = accepts_all f.accept_new (or_empty (lookup node f.frozen)) parameters
