-- ===== src/Tests.antt =====
-- Runs of the modelled operations at concrete inputs, and the theorems at such inputs.
mod Codec
mod CircuitTests
mod BanTests
mod AdminTests
mod AuthTests
mod RateTests
mod RequestTests
mod StorageTests
mod FederationTests
mod ProxyTests
mod DatabaseTests
mod DriveTests
