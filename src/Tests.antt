-- ===== src/Tests.antt =====
-- Witnesses of the theorems at concrete inputs, and tests of the definitions.
mod AdvertisementsTests
mod Rationals
mod AllocatorCheckTests
mod AggregationTests
mod HistogramsTests
mod OldDatacapTests
mod IndexerTests
mod ClientCheckTests
mod TrancheTests
mod PaginationTests
mod ProvidersAndDealsTests
mod FilecoinPayTests
mod EpochsTests
mod ReportsTests
mod RetryingTests
mod CachingTests
mod AllocatorScoringTests
