-- ===== src/Tests.antt =====
-- The theorems at concrete inputs: the engine's, the host's, TCP's and the balancer's.
mod EngineTests
mod HostTests
mod BufferTests
mod SackTests
mod CongestionTests
mod BalancerTests
mod NetworkTests
mod RoutingTests
