-- ===== src/Didagle/Config.antt =====
-- GraphCluster as the construction of a graph reads it, and its ContainsConfigSetting
-- (didagle/graph.h, graph.cpp).
use myctk.Base.{Bool, false, ◌||◌, List, [], ◌∷◌, ◌==◌, if◌then◌else◌}
use myctk.Base.Name.{Name, ◌=s◌}

-- the part of GraphCluster that Build reads
pub record Cluster : Type 0 where
  pub name : Name
  pub strict_dsl : Bool
  pub default_expr_processor : Name
  pub config_setting : List Name

-- GraphCluster::ContainsConfigSetting
unfoldable pub setting_matches : Name → Name → Bool
setting_matches [] cfg = cfg =s []
setting_matches (c ∷ cs) cfg = if c == b'!' then cfg =s cs else cfg =s (c ∷ cs)

unfoldable pub contains_config_setting : List Name → Name → Bool
unfolding setting_matches
contains_config_setting [] name = false
contains_config_setting (cfg ∷ cfgs) name =
    setting_matches name cfg || contains_config_setting cfgs name
