-- ===== src/Traefik/Static/Kubernetes.antt =====
-- uberbase/pkg/traefik/staticconfig.go: Kubernetes as a provider. The structs have no names in Go; here each is
-- named for the path that leads to it. With each record goes the zero value of Go.
use uberbase.Common.{String, Bool, false, List, []}

pub record StaticProvidersKubernetesIngressIngressEndpoint : Type 0 where
  pub ip : String
  pub hostname : String
  pub published_service : String

unfoldable pub zero_providers_kubernetes_ingress_ingress_endpoint :
    StaticProvidersKubernetesIngressIngressEndpoint
zero_providers_kubernetes_ingress_ingress_endpoint = record {
  ip = "";
  hostname = "";
  published_service = "";
}

pub record StaticProvidersKubernetesIngress : Type 0 where
  pub endpoint : String
  pub token : String
  pub cert_auth_file_path : String
  pub namespaces : List String
  pub label_selector : String
  pub ingress_class : String
  pub ingress_endpoint : StaticProvidersKubernetesIngressIngressEndpoint
  pub throttle_duration : String
  pub allow_empty_services : Bool
  pub allow_external_name_services : Bool
  pub disable_ingress_class_lookup : Bool
  pub disable_cluster_scope_resources : Bool
  pub native_lb_by_default : Bool

unfoldable pub zero_providers_kubernetes_ingress : StaticProvidersKubernetesIngress
zero_providers_kubernetes_ingress = record {
  endpoint = "";
  token = "";
  cert_auth_file_path = "";
  namespaces = [];
  label_selector = "";
  ingress_class = "";
  ingress_endpoint = zero_providers_kubernetes_ingress_ingress_endpoint;
  throttle_duration = "";
  allow_empty_services = false;
  allow_external_name_services = false;
  disable_ingress_class_lookup = false;
  disable_cluster_scope_resources = false;
  native_lb_by_default = false;
}

pub record StaticProvidersKubernetesCrd : Type 0 where
  pub endpoint : String
  pub token : String
  pub cert_auth_file_path : String
  pub namespaces : List String
  pub allow_cross_namespace : Bool
  pub allow_external_name_services : Bool
  pub label_selector : String
  pub ingress_class : String
  pub throttle_duration : String
  pub allow_empty_services : Bool
  pub native_lb_by_default : Bool
  pub disable_cluster_scope_resources : Bool

unfoldable pub zero_providers_kubernetes_crd : StaticProvidersKubernetesCrd
zero_providers_kubernetes_crd = record {
  endpoint = "";
  token = "";
  cert_auth_file_path = "";
  namespaces = [];
  allow_cross_namespace = false;
  allow_external_name_services = false;
  label_selector = "";
  ingress_class = "";
  throttle_duration = "";
  allow_empty_services = false;
  native_lb_by_default = false;
  disable_cluster_scope_resources = false;
}

pub record StaticProvidersKubernetesGatewayStatusAddressService : Type 0 where
  pub name : String
  pub namespace : String

unfoldable pub zero_providers_kubernetes_gateway_status_address_service :
    StaticProvidersKubernetesGatewayStatusAddressService
zero_providers_kubernetes_gateway_status_address_service = record { name = ""; namespace = "" }

pub record StaticProvidersKubernetesGatewayStatusAddress : Type 0 where
  pub ip : String
  pub hostname : String
  pub service : StaticProvidersKubernetesGatewayStatusAddressService

unfoldable pub zero_providers_kubernetes_gateway_status_address :
    StaticProvidersKubernetesGatewayStatusAddress
zero_providers_kubernetes_gateway_status_address = record {
  ip = "";
  hostname = "";
  service = zero_providers_kubernetes_gateway_status_address_service;
}

pub record StaticProvidersKubernetesGateway : Type 0 where
  pub endpoint : String
  pub token : String
  pub cert_auth_file_path : String
  pub namespaces : List String
  pub label_selector : String
  pub throttle_duration : String
  pub experimental_channel : Bool
  pub status_address : StaticProvidersKubernetesGatewayStatusAddress
  pub native_lb_by_default : Bool

unfoldable pub zero_providers_kubernetes_gateway : StaticProvidersKubernetesGateway
zero_providers_kubernetes_gateway = record {
  endpoint = "";
  token = "";
  cert_auth_file_path = "";
  namespaces = [];
  label_selector = "";
  throttle_duration = "";
  experimental_channel = false;
  status_address = zero_providers_kubernetes_gateway_status_address;
  native_lb_by_default = false;
}
