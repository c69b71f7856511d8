-- ===== src/LoadBalancer.antt =====
-- uberbase/pkg/loadbalancer/traffic.go: routing requests to the containers of a tag.
pub mod Url
pub mod Traffic
