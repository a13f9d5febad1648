-- ===== src/Tests.antt =====
-- A list cache that meets the laws of the externals, and the theorems at concrete inputs.
pub mod ListLru
pub mod Concrete
mod DirectTests
mod CacheTests
mod PollingTests
mod LookupTests
mod MetricsTests
pub mod ServiceTests
pub mod RequestTests
mod ControllerTests
