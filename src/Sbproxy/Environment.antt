-- ===== src/Sbproxy/Environment.antt =====
-- AddPFlags of pkg/sbproxy/options.go and DefaultEnv of sbproxy.go. Flag sets and environments are
-- those of the pflag library and of the Service Manager.
use service_broker_proxy.Prelude.{String, List, [], ◌∷◌}
use service_broker_proxy.Exec.{Result}
use service_broker_proxy.Sbproxy.{Settings}

-- pflag.NewFlagSet, and env.CreatePFlags, env.CreatePFlagsForConfigFile and env.New of the Service
-- Manager. A function that adds flags to a set returns the set.
pub record Flags : Type 1 where
  pub FlagSet : Type 0
  pub Environment : Type 0
  pub new_flag_set : String → FlagSet
  pub create_pflags : Settings → FlagSet → FlagSet
  pub create_pflags_for_config_file : FlagSet → FlagSet
  pub new_environment : FlagSet → Result Environment

module _ (w : Flags) (defaults : Settings) where
  open w use {
    FlagSet, Environment, new_flag_set, create_pflags, create_pflags_for_config_file,
    new_environment,
  }

  -- AddPFlags; `defaults` is what DefaultSettings returns.
  unfoldable pub add_pflags : FlagSet → FlagSet
  add_pflags set = create_pflags_for_config_file (create_pflags defaults set)

  -- The loop of DefaultEnv.
  unfoldable pub add_all : List (FlagSet → FlagSet) → FlagSet → FlagSet
  add_all [] set = set
  add_all (add_flags ∷ rest) set = add_all rest (add_flags set)

  -- DefaultEnv
  unfoldable pub default_env : List (FlagSet → FlagSet) → Result Environment
  unfolding add_pflags add_all
  default_env additional =
      new_environment (add_all additional (add_pflags (new_flag_set "Configuration Flags")))
