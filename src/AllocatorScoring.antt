-- ===== src/AllocatorScoring.antt =====
-- src/service/allocator-scoring/allocator-scoring.service.ts: the scores of an allocator report. The
-- rows of a report are lists; the raw queries over all reports are parameters.
pub mod Report
pub mod Statistics
pub mod Results
pub mod Bands
pub mod Providers
pub mod Clients
pub mod Store
pub mod Ranges
pub mod Agreement
pub mod Entries
pub mod Metrics
