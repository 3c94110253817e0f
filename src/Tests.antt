-- ===== src/Tests.antt =====
-- Runs of the modelled code on concrete inputs, and the theorems at such inputs.
mod CodecTests
mod ClientTests
mod EngineTests
mod DashboardTests
mod TunTests
mod MobileTests
mod RelayTests
mod DiscoveryTests
mod OfferTests
mod EnrollTests
mod IdentityTests
mod InfraTests
mod RadioTests
mod SignerTests
