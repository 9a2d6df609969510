-- ===== src/Upstream.antt =====
-- src/upstream: the load balancers, and the pool of named upstreams with its health checks.
pub mod Balancer
pub mod Pool
