-- ===== src/Traefik/Dynamic/Tls.antt =====
-- uberbase/pkg/traefik/dynamicconfig.go: the TLS section. A struct without a name has one here for
-- the path that leads to it.
use uberbase.Common.{String, Bool, List}
use uberbase.Common.Dict.{Dict}

pub record TlsConfigurationCertificates : Type 0 where
  pub cert_file : String
  pub key_file : String
  pub stores : List String

pub record TlsConfigurationOptionsClientAuth : Type 0 where
  pub ca_files : List String
  pub client_auth_type : String

pub record TlsConfigurationOptions : Type 0 where
  pub min_version : String
  pub max_version : String
  pub cipher_suites : List String
  pub curve_preferences : List String
  pub client_auth : TlsConfigurationOptionsClientAuth
  pub sni_strict : Bool
  pub alpn_protocols : List String
  pub prefer_server_cipher_suites : Bool

pub record TlsConfigurationStoresDefaultCertificate : Type 0 where
  pub cert_file : String
  pub key_file : String

pub record TlsConfigurationStoresDefaultGeneratedCertDomain : Type 0 where
  pub main : String
  pub sans : List String

pub record TlsConfigurationStoresDefaultGeneratedCert : Type 0 where
  pub resolver : String
  pub domain : TlsConfigurationStoresDefaultGeneratedCertDomain

pub record TlsConfigurationStores : Type 0 where
  pub default_certificate : TlsConfigurationStoresDefaultCertificate
  pub default_generated_cert : TlsConfigurationStoresDefaultGeneratedCert

pub record TlsConfiguration : Type 0 where
  pub certificates : List TlsConfigurationCertificates
  pub options : Dict TlsConfigurationOptions
  pub stores : Dict TlsConfigurationStores
