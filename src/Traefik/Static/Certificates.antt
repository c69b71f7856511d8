-- ===== src/Traefik/Static/Certificates.antt =====
-- uberbase/pkg/traefik/staticconfig.go: the certificates. The structs have no names in Go; here each is
-- named for the path that leads to it. With each record goes the zero value of Go.
use uberbase.Common.{String, Bool, false, List, []}
use uberbase.Common.Int.{ℤ, pos}

pub record StaticCertificatesResolversAcmeEab : Type 0 where
  pub kid : String
  pub hmac_encoded : String

unfoldable pub zero_certificates_resolvers_acme_eab : StaticCertificatesResolversAcmeEab
zero_certificates_resolvers_acme_eab = record { kid = ""; hmac_encoded = "" }

pub record StaticCertificatesResolversAcmeDnsChallengePropagation : Type 0 where
  pub disable_checks : Bool
  pub disable_ans_checks : Bool
  pub require_all_rns : Bool
  pub delay_before_checks : String

unfoldable pub zero_certificates_resolvers_acme_dns_challenge_propagation :
    StaticCertificatesResolversAcmeDnsChallengePropagation
zero_certificates_resolvers_acme_dns_challenge_propagation = record {
  disable_checks = false;
  disable_ans_checks = false;
  require_all_rns = false;
  delay_before_checks = "";
}

pub record StaticCertificatesResolversAcmeDnsChallenge : Type 0 where
  pub provider : String
  pub resolvers : List String
  pub propagation : StaticCertificatesResolversAcmeDnsChallengePropagation
  pub delay_before_check : String
  pub disable_propagation_check : Bool

unfoldable pub zero_certificates_resolvers_acme_dns_challenge :
    StaticCertificatesResolversAcmeDnsChallenge
zero_certificates_resolvers_acme_dns_challenge = record {
  provider = "";
  resolvers = [];
  propagation = zero_certificates_resolvers_acme_dns_challenge_propagation;
  delay_before_check = "";
  disable_propagation_check = false;
}

pub record StaticCertificatesResolversAcmeHttpChallenge : Type 0 where
  pub entry_point : String

unfoldable pub zero_certificates_resolvers_acme_http_challenge :
    StaticCertificatesResolversAcmeHttpChallenge
zero_certificates_resolvers_acme_http_challenge = record { entry_point = "" }

abbrev pub StaticCertificatesResolversAcmeTlsChallenge : Type 0
StaticCertificatesResolversAcmeTlsChallenge = Unit {0}

unfoldable pub zero_certificates_resolvers_acme_tls_challenge :
    StaticCertificatesResolversAcmeTlsChallenge
zero_certificates_resolvers_acme_tls_challenge = tt

pub record StaticCertificatesResolversAcme : Type 0 where
  pub email : String
  pub ca_server : String
  pub preferred_chain : String
  pub storage : String
  pub key_type : String
  pub eab : StaticCertificatesResolversAcmeEab
  pub certificates_duration : ℤ
  pub ca_certificates : List String
  pub ca_system_cert_pool : Bool
  pub ca_server_name : String
  pub dns_challenge : StaticCertificatesResolversAcmeDnsChallenge
  pub http_challenge : StaticCertificatesResolversAcmeHttpChallenge
  pub tls_challenge : StaticCertificatesResolversAcmeTlsChallenge

unfoldable pub zero_certificates_resolvers_acme : StaticCertificatesResolversAcme
zero_certificates_resolvers_acme = record {
  email = "";
  ca_server = "";
  preferred_chain = "";
  storage = "";
  key_type = "";
  eab = zero_certificates_resolvers_acme_eab;
  certificates_duration = pos 0;
  ca_certificates = [];
  ca_system_cert_pool = false;
  ca_server_name = "";
  dns_challenge = zero_certificates_resolvers_acme_dns_challenge;
  http_challenge = zero_certificates_resolvers_acme_http_challenge;
  tls_challenge = zero_certificates_resolvers_acme_tls_challenge;
}

pub record StaticCertificatesResolvers : Type 0 where
  pub acme : StaticCertificatesResolversAcme
  pub tailscale : Unit {0}

unfoldable pub zero_certificates_resolvers : StaticCertificatesResolvers
zero_certificates_resolvers = record { acme = zero_certificates_resolvers_acme; tailscale = tt }
