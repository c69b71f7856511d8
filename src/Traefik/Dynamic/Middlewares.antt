-- ===== src/Traefik/Dynamic/Middlewares.antt =====
-- uberbase/pkg/traefik/dynamicconfig.go: the middlewares of HTTP. A struct without a name has one here for
-- the path that leads to it.
use uberbase.Common.{String, Bool, Option, List}
use uberbase.Common.Int.{ℤ}
use uberbase.Common.Dict.{Dict}
use uberbase.Traefik.Dynamic.Admission.{
  HttpMiddlewareIpAllowList, HttpMiddlewareIpWhiteList, HttpMiddlewareInFlightReq,
  HttpMiddlewareRateLimit,
}

pub record HttpMiddlewareAddPrefix : Type 0 where
  pub prefix : String

pub record HttpMiddlewareBasicAuth : Type 0 where
  pub users : List String
  pub users_file : String
  pub realm : String
  pub remove_header : Bool
  pub header_field : String

pub record HttpMiddlewareBuffering : Type 0 where
  pub max_request_body_bytes : ℤ
  pub mem_request_body_bytes : ℤ
  pub max_response_body_bytes : ℤ
  pub mem_response_body_bytes : ℤ
  pub retry_expression : String

pub record HttpMiddlewareChain : Type 0 where
  pub middlewares : List String

pub record HttpMiddlewareCircuitBreaker : Type 0 where
  pub expression : String
  pub check_period : String
  pub fallback_duration : String
  pub recovery_duration : String
  pub response_code : ℤ

pub record HttpMiddlewareCompress : Type 0 where
  pub excluded_content_types : List String
  pub included_content_types : List String
  pub min_response_body_bytes : ℤ
  pub encodings : List String
  pub default_encoding : String

pub record HttpMiddlewareContentType : Type 0 where
  pub auto_detect : Bool

pub record HttpMiddlewareDigestAuth : Type 0 where
  pub users : List String
  pub users_file : String
  pub remove_header : Bool
  pub realm : String
  pub header_field : String

pub record HttpMiddlewareErrors : Type 0 where
  pub status : List String
  pub service : String
  pub query : String

pub record HttpMiddlewareForwardAuthTls : Type 0 where
  pub ca : String
  pub cert : String
  pub key : String
  pub insecure_skip_verify : Bool
  pub ca_optional : Bool

pub record HttpMiddlewareForwardAuth : Type 0 where
  pub address : String
  pub tls : HttpMiddlewareForwardAuthTls
  pub trust_forward_header : Bool
  pub auth_response_headers : List String
  pub auth_response_headers_regex : String
  pub auth_request_headers : List String
  pub add_auth_cookies_to_response : List String
  pub header_field : String
  pub forward_body : Bool
  pub max_body_size : ℤ
  pub preserve_location_header : Bool

pub record HttpMiddlewareGrpcWeb : Type 0 where
  pub allow_origins : List String

pub record HttpMiddlewareHeaders : Type 0 where
  pub custom_request_headers : Dict String
  pub custom_response_headers : Dict String
  pub access_control_allow_credentials : Bool
  pub access_control_allow_headers : List String
  pub access_control_allow_methods : List String
  pub access_control_allow_origin_list : List String
  pub access_control_allow_origin_list_regex : List String
  pub access_control_expose_headers : List String
  pub access_control_max_age : ℤ
  pub add_vary_header : Bool
  pub allowed_hosts : List String
  pub hosts_proxy_headers : List String
  pub ssl_proxy_headers : Dict String
  pub sts_seconds : ℤ
  pub sts_include_subdomains : Bool
  pub sts_preload : Bool
  pub force_sts_header : Bool
  pub frame_deny : Bool
  pub custom_frame_options_value : String
  pub content_type_nosniff : Bool
  pub browser_xss_filter : Bool
  pub custom_browser_xss_value : String
  pub content_security_policy : String
  pub content_security_policy_report_only : String
  pub public_key : String
  pub referrer_policy : String
  pub permissions_policy : String
  pub is_development : Bool
  pub feature_policy : String
  pub ssl_redirect : Bool
  pub ssl_temporary_redirect : Bool
  pub ssl_host : String
  pub ssl_force_host : Bool

pub record HttpMiddlewarePassTlsClientCertInfoSubject : Type 0 where
  pub country : Bool
  pub province : Bool
  pub locality : Bool
  pub organization : Bool
  pub organizational_unit : Bool
  pub common_name : Bool
  pub serial_number : Bool
  pub domain_component : Bool

pub record HttpMiddlewarePassTlsClientCertInfoIssuer : Type 0 where
  pub country : Bool
  pub province : Bool
  pub locality : Bool
  pub organization : Bool
  pub common_name : Bool
  pub serial_number : Bool
  pub domain_component : Bool

pub record HttpMiddlewarePassTlsClientCertInfo : Type 0 where
  pub not_after : Bool
  pub not_before : Bool
  pub sans : Bool
  pub serial_number : Bool
  pub subject : HttpMiddlewarePassTlsClientCertInfoSubject
  pub issuer : HttpMiddlewarePassTlsClientCertInfoIssuer

pub record HttpMiddlewarePassTlsClientCert : Type 0 where
  pub pem : Bool
  pub info : HttpMiddlewarePassTlsClientCertInfo

pub record HttpMiddlewareRedirectRegex : Type 0 where
  pub regex : String
  pub replacement : String
  pub permanent : Bool

pub record HttpMiddlewareRedirectScheme : Type 0 where
  pub scheme : String
  pub port : String
  pub permanent : Bool

pub record HttpMiddlewareReplacePath : Type 0 where
  pub path : String

pub record HttpMiddlewareReplacePathRegex : Type 0 where
  pub regex : String
  pub replacement : String

pub record HttpMiddlewareRetry : Type 0 where
  pub attempts : ℤ
  pub initial_interval : String

pub record HttpMiddlewareStripPrefix : Type 0 where
  pub prefixes : List String
  pub force_slash : Bool

pub record HttpMiddlewareStripPrefixRegex : Type 0 where
  pub regex : List String

pub record HttpMiddleware : Type 0 where
  pub add_prefix : Option HttpMiddlewareAddPrefix
  pub basic_auth : Option HttpMiddlewareBasicAuth
  pub buffering : Option HttpMiddlewareBuffering
  pub chain : Option HttpMiddlewareChain
  pub circuit_breaker : Option HttpMiddlewareCircuitBreaker
  pub compress : Option HttpMiddlewareCompress
  pub content_type : Option HttpMiddlewareContentType
  pub digest_auth : Option HttpMiddlewareDigestAuth
  pub errors : Option HttpMiddlewareErrors
  pub forward_auth : Option HttpMiddlewareForwardAuth
  pub grpc_web : Option HttpMiddlewareGrpcWeb
  pub headers : Option HttpMiddlewareHeaders
  pub ip_allow_list : Option HttpMiddlewareIpAllowList
  pub ip_white_list : Option HttpMiddlewareIpWhiteList
  pub in_flight_req : Option HttpMiddlewareInFlightReq
  pub pass_tls_client_cert : Option HttpMiddlewarePassTlsClientCert
  pub plugin : Dict (Dict String)
  pub rate_limit : Option HttpMiddlewareRateLimit
  pub redirect_regex : Option HttpMiddlewareRedirectRegex
  pub redirect_scheme : Option HttpMiddlewareRedirectScheme
  pub replace_path : Option HttpMiddlewareReplacePath
  pub replace_path_regex : Option HttpMiddlewareReplacePathRegex
  pub retry : Option HttpMiddlewareRetry
  pub strip_prefix : Option HttpMiddlewareStripPrefix
  pub strip_prefix_regex : Option HttpMiddlewareStripPrefixRegex
