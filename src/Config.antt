-- ===== src/Config.antt =====
-- src/utils/config.py: the nodes of the cluster.
use pynchronize.Prelude.{
  ℕ, Option, none, some, List, [], ◌∷◌, ◌==◌, String, string_key, if◌then◌else◌,
}

pub record NodeConfig : Type 0 where
  pub node_id : String
  pub host : String
  pub port : ℕ

-- `ClusterConfig` is the list `nodes`.
abbrev pub Cluster : Type 0
Cluster = List NodeConfig

unfoldable pub get_node : Cluster → String → Option NodeConfig
get_node [] node_id = none
get_node (n ∷ ns) node_id = if n.node_id == node_id then some n else get_node ns node_id

unfoldable pub get_other_nodes : Cluster → String → List NodeConfig
get_other_nodes [] node_id = []
get_other_nodes (n ∷ ns) node_id =
    let rest = get_other_nodes ns node_id in if n.node_id == node_id then rest else n ∷ rest
