-- ===== src/Traffic.antt =====
-- tc.go, and the cached status of main.go: the traffic control of a container's network namespace.
pub mod Status
pub mod Act
pub mod Host
pub mod Cache
pub mod Influx
pub mod Controls
pub mod Frame
pub mod NilCache
pub mod Steady
pub mod Together
pub mod Clear
pub mod Dropped
