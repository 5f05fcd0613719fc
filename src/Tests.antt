-- ===== src/Tests.antt =====
-- Runs of the theorems at concrete inputs.
pub mod Data
pub mod EnclaveTests
pub mod HostTests
pub mod ServiceTests
pub mod ProxyTests
pub mod CryptoTests
pub mod RefreshTests
pub mod InstallTests
pub mod RouteTests
pub mod BridgeTests
