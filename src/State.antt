-- ===== src/State.antt =====
-- uberbase/pkg/state: what a deployment remembers on the remote host.
pub mod Manager
pub mod Equality
use uberbase.Common.{String, Bool, Option, none, some, List, []}
use uberbase.Common.Dict.{Dict}
use uberbase.Traefik.Dynamic.{TraefikDynamicConfiguration}

-- compose.go. `Volume` and `Network` are `types.VolumeConfig` and `types.NetworkConfig` of
-- compose-go, which the program only stores.
pub record ComposeVolumeState (Volume : Type 0) : Type 0 where
  pub name : String
  pub config : Option Volume

pub record ComposeNetworkState (Network : Type 0) : Type 0 where
  pub name : String
  pub config : Option Network

pub record ComposeServiceState : Type 0 where
  pub service_name : String
  pub container_name : String
  pub hostname : String
  pub image : String
  pub tag : String

-- The entries of the three maps are pointers in Go; here they are never nil.
pub record ComposeState (Volume Network : Type 0) : Type 0 where
  pub services : Dict ComposeServiceState
  pub volumes : Dict (ComposeVolumeState Volume)
  pub networks : Dict (ComposeNetworkState Network)

-- traefik.go
pub record TraefikState : Type 0 where
  pub tag : String
  pub configs : Dict TraefikDynamicConfiguration

pub record DeploymentLock : Type 0 where
  pub acquired_at : String
  pub expires_at : String
  pub owner : String
  pub renewable : Bool

pub record DeploymentState (Volume Network : Type 0) : Type 0 where
  pub tag : String
  pub compose : Option (ComposeState Volume Network)
  pub traefik : Option TraefikState
  pub lock : Option DeploymentLock

module _ {Volume Network : Type 0} where
  -- DeploymentState{}
  abbrev pub zero_state : DeploymentState Volume Network
  zero_state = record { tag = ""; compose = none; traefik = none; lock = none }

  -- the state of a host without a state file
  abbrev pub empty_state : DeploymentState Volume Network
  empty_state = record {
    tag = "";
    compose = some (record { services = []; volumes = []; networks = [] });
    traefik = some (record { tag = ""; configs = [] });
    lock = none;
  }
