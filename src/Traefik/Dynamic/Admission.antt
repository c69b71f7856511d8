-- ===== src/Traefik/Dynamic/Admission.antt =====
-- uberbase/pkg/traefik/dynamicconfig.go: the middlewares that admit requests by their address, their
-- number or their rate. A struct without a name has one here for the path that leads to it.
use uberbase.Common.{String, Bool, List}
use uberbase.Common.Int.{ℤ}

pub record HttpMiddlewareIpAllowListIpStrategy : Type 0 where
  pub depth : ℤ
  pub excluded_ips : List String
  pub ipv6_subnet : ℤ

pub record HttpMiddlewareIpAllowList : Type 0 where
  pub source_range : List String
  pub ip_strategy : HttpMiddlewareIpAllowListIpStrategy
  pub reject_status_code : ℤ

pub record HttpMiddlewareIpWhiteListIpStrategy : Type 0 where
  pub depth : ℤ
  pub excluded_ips : List String
  pub ipv6_subnet : ℤ

pub record HttpMiddlewareIpWhiteList : Type 0 where
  pub source_range : List String
  pub ip_strategy : HttpMiddlewareIpWhiteListIpStrategy

pub record HttpMiddlewareInFlightReqSourceCriterionIpStrategy : Type 0 where
  pub depth : ℤ
  pub excluded_ips : List String
  pub ipv6_subnet : ℤ

pub record HttpMiddlewareInFlightReqSourceCriterion : Type 0 where
  pub ip_strategy : HttpMiddlewareInFlightReqSourceCriterionIpStrategy
  pub request_header_name : String
  pub request_host : Bool

pub record HttpMiddlewareInFlightReq : Type 0 where
  pub amount : ℤ
  pub source_criterion : HttpMiddlewareInFlightReqSourceCriterion

pub record HttpMiddlewareRateLimitSourceCriterionIpStrategy : Type 0 where
  pub depth : ℤ
  pub excluded_ips : List String
  pub ipv6_subnet : ℤ

pub record HttpMiddlewareRateLimitSourceCriterion : Type 0 where
  pub ip_strategy : HttpMiddlewareRateLimitSourceCriterionIpStrategy
  pub request_header_name : String
  pub request_host : Bool

pub record HttpMiddlewareRateLimit : Type 0 where
  pub average : ℤ
  pub period : String
  pub burst : ℤ
  pub source_criterion : HttpMiddlewareRateLimitSourceCriterion
