-- ===== src/Start/Config.antt =====
-- src/core/Config.cpp: the configuration, which is set once. `Node` is YAML::Node.
use cosidia.Prelude.{Bool, true, false}

pub record Config (Node : Type 0) : Type 0 where
  pub global_config : Node
  pub is_set : Bool

module _ {Node : Type 0} where
  unfoldable pub set_global_config : Node → Config Node → Config Node
  set_global_config cfg c = elim c.is_set [
    | true ↦ c
    | false ↦ record { global_config = cfg; is_set = true }
  ]

  abbrev pub get_global_config : Config Node → Node
  get_global_config c = c.global_config
