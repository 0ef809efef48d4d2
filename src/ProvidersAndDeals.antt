-- ===== src/ProvidersAndDeals.antt =====
-- src/po-rep-indexer/runners/po-rep-providers-and-deals.runner.ts: the logs of the SP registry and of
-- the PoRep market, and the database operations that a batch of them makes. A bigint that is printed
-- for a decimal column is kept as the number. An exception is `none`.
pub mod Logs
pub mod Providers
pub mod Deals
pub mod Prepare
pub mod Rows
pub mod ProviderFold
pub mod DealFold
pub mod Batches
pub mod BatchSize
pub mod WholeBatch
pub mod WholeDeals
