-- ===== src/Traefik/Dynamic.antt =====
-- uberbase/pkg/traefik/dynamicconfig.go: a dynamic configuration file of Traefik.
pub mod Services
pub mod Admission
pub mod Middlewares
pub mod Http
pub mod Tcp
pub mod Udp
pub mod Tls
use uberbase.Common.{Option}
use Http.{TraefikHttpConfiguration}
use Tcp.{TcpConfiguration}
use Udp.{UdpConfiguration}
use Tls.{TlsConfiguration}

pub record TraefikDynamicConfiguration : Type 0 where
  pub http : Option TraefikHttpConfiguration
  pub tcp : TcpConfiguration
  pub udp : UdpConfiguration
  pub tls : TlsConfiguration

-- `Copy` copies the struct. Its maps, slices and pointers are still those of the original, so a
-- write to an entry of a map of the copy is a write to the original.
unfoldable pub copy : TraefikDynamicConfiguration → TraefikDynamicConfiguration
copy t = t
