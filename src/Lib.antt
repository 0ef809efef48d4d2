-- ===== src/Lib.antt =====
-- The compliance data platform of the Filecoin network: a NestJS service (src/) that aggregates chain
-- data into tables, indexes the events of the proof of repair contracts, and writes compliance reports
-- on clients and allocators with their checks. The parts with logic of their own are modelled:
--
-- - Aggregation: src/aggregation/aggregation-tasks.service.ts. An hourly job (`runAggregationJob`,
--   `getHealth`: Aggregation/Job) runs the aggregation runners in rounds, each once the tables that it
--   depends on are filled (`runAggregations`: Aggregation, with Rounds, Order and Termination), each
--   with retries (`executeWithRetries`: Aggregation, Retries). Aggregation/Table is the enumeration
--   `AggregationTable`; Aggregation/Registered holds what the thirty runners of
--   src/aggregation/runners declare, in the order of src/app.module.ts.
-- - Indexer: src/po-rep-indexer/runners/abstract-po-rep-indexer.runner.ts. `execute` indexes one range
--   of blocks after the other and calls itself until it has caught up; its rows in po_rep_indexer_run
--   are its memory. Indexer/Tiling is on the ranges, Indexer/Progress on catching up.
-- - ProvidersAndDeals: src/po-rep-indexer/runners/po-rep-providers-and-deals.runner.ts, the
--   `prepareUpdates` that the indexer calls with the logs of a range of blocks. Logs holds the logs,
--   Providers and Deals the updates that the logs of one provider or one deal are folded into, Prepare
--   the database operations, Rows the rows of prisma/schema.prisma. ProviderFold and DealFold compare
--   an update with its logs one by one, Batches the updates with the rows, WholeBatch and WholeDeals all
--   the operations, BatchSize two batches with one. FieldUpdates is `mergeBigIntFieldUpdate` of
--   src/utils/prisma.ts (FieldUpdates/Merge on its sums), Tables the grouping of logs by a key and the
--   updates and creations of rows.
-- - FilecoinPay: src/po-rep-indexer/runners/filecoin-pay-indexer.runner.ts, the same for the rails and
--   payments of Filecoin Pay. Logs holds the logs, Rails the rows of rails and the update that a rail's
--   logs are folded into, Prepare the database operations. RailFold compares an update with its logs one
--   by one, Batches the operations with the rows, Payments the payments with the logs.
-- - ClientChecks: src/service/client-report-checks/client-report-checks.service.ts. The checks of a
--   client report, one function each (Providers, Retrievability, Declared, Replicas, Client), and
--   `storeReportChecks`, which runs them (Store). ClientReport holds the tables that they use
--   (prisma/schema.prisma), Numbers the arithmetic of src/utils/utils.ts that they call. Shapes and
--   Coverage are on the rows stored, DealShares on the check of provider deals, Locations on that of
--   their locations.
-- - AllocatorChecks: src/service/allocator-report-checks/allocator-report-checks.service.ts. The checks
--   of an allocator report on its clients (Clients), from the results of the checks of their client
--   reports (FromClients, with the texts in Texts), and on the tranche schedule (Schedule, which calls
--   `validateAllocations` in Tranche), run by `storeReportChecks` (Store). Store/Kinds is on the rows
--   stored, Store/Verdicts on when checks pass, Store/Activity on the clients that count,
--   Tranche/Schedule on the schedule itself.
-- - AllocatorScoring: src/service/allocator-scoring/allocator-scoring.service.ts. The eight scores of an
--   allocator report, on its providers (Providers) and on its clients (Clients), by the bands in Bands
--   and with the statistics in Statistics; `storeScore` (Results) and `storeScoring`, which runs them
--   (Store). Report holds what is read and written. Ranges and Agreement are on the ranges that are
--   stored with a score, Entries and Metrics on which metrics are stored.
-- - Reports: the generation of reports. Reports/OfClients is `generateReport` of
--   src/service/client-report/client-report.service.ts, with the choice of the main allocator and the
--   names and urls of clients in Reports; Reports/Distributions the distributions of
--   src/service/client/client.service.ts, src/service/storage-provider-report and
--   src/service/allocator-report; Reports/Applications the allocations and urls of the clients of an
--   allocator report; Reports/Jobs the jobs of src/jobs/client-report-generator-job and
--   src/jobs/allocator-report-generator-job. Generated is on what a client report leaves, Shares on the
--   shares of the replicas, Granted on the allocations, Counts on the jobs.
-- - Editions: src/utils/filplus-edition.ts, with Editions/Ranges on their bounds.
-- - Misreporting: src/service/ipni-misreporting-checker/ipni-misreporting-checker.service.ts, the IPNI
--   status of a storage provider and of all of them, with Misreporting/Totals on the counts.
-- - Advertisements: src/jobs/ipni-advertisement-fetcher-job/ipni-advertisement-fetcher-job.service.ts. The
--   process that stores the advertisements of a publisher (Advertisements), the job (Job), and the
--   methods of src/service/cid-contact/cid-contact.service.ts that it calls (CidContact). Backfill is on
--   one process, Keys on what the job adds and the keys of the table, Repeats on a second run.
-- - Histograms: src/service/histogram-helper/histogram-helper.service.ts. Buckets is on the buckets of a
--   week, Weeks on a whole result.
-- - OldDatacap: src/service/old-datacap/old-datacap.service.ts. Weeks is on the weeks, with
--   Tables/Ascending on their order, Drilldown on their drilldowns.
-- - Caching: src/utils/cacheable.ts, the interleavings of calls with one cache key as a step relation.
--   Caching/Exclusion is on which of them exclude each other.
-- - Retrying: src/utils/retryable.ts, the loop of a decorated method, with Retrying/Attempts on its calls.
-- - Epochs: the conversions between dates and block heights of src/utils/utils.ts, with
--   Epochs/RoundTrip.
-- - Pagination: the pages of src/controller/base/controller-base.ts (`validatePaginationInfo`,
--   `paginated`, `validateQueryPagination`, the number of pages). Pagination/Pages is on the pages.
--
-- Prelude holds the names that the parts share; Tests the concrete runs.
--
-- Correspondence. A promise that rejects is a result with an error, or `none`; awaits are in sequence
-- as in the source. A runner is known by its position in the list, as the source knows it by its
-- reference; a world that the runners change stands for the databases. Tests on `bigint` are on ℕ,
-- where the values are sizes and counts, and on ℤ for the difference of two sizes. A JavaScript
-- number is a parameter, `Double`, with the operations that the code uses; where a theorem needs
-- IEEE 754 arithmetic, it takes it as `IsFaithful`, for numbers below 2^50 only, or as `IsOrdered`, for
-- the order of finite numbers. The tables of a client report are lists of rows; a query is a filter of
-- a list. The tables that the indexers fill are functions of the key; Tables writes out what the
-- database does with `createMany`, `update` and `updateMany`, and the order of lodash's `groupBy`. What
-- it does with an increment or a decrement of a column is a parameter. What only the database or another
-- service can answer (a raw query, an order of rows, a client's requested amount) is a parameter.
--
-- Fuel and bounds. `while (pending.length > 0)` is recursion on one round more than there are
-- runners, since a round that does not end the loop finishes a runner. `execute` of the indexer
-- calls itself: `execute_until_done` takes the number of executions, and an execution that does not
-- finish indexes at least a block. The loop over the pages of an advertisement's entries takes fuel; one
-- step for each page is enough. So does the loop over the top values of a histogram, where a number
-- above the first of them is enough if the span is above 0; the queries give no other span. All other loops are structural.
--
-- Not modelled: logging, metrics, time-outs, the SQL of the runners and queries, the rest of the HTTP
-- controllers, the services that only call other systems (Lotus, Ethereum, GitHub, Google), the rest of
-- the generation of an allocator report, and the statistics of allocators and providers. The foreign
-- keys between the tables of the indexers are not modelled: Batches, WholeBatch and WholeDeals look at
-- one table at a time. The columns of type BigInt are unbounded integers: that the database refuses a
-- value beyond 64 bits is not modelled. Concurrent writers of a client report's tables are not modelled either: a check
-- sees the tables as the check before it left them. The unique key of a check's kind and its report is
-- not enforced either: a second run on the same report, which the database would refuse, would append
-- its rows; so would a second scoring of a report.
pub mod Advertisements
pub mod Aggregation
pub mod AllocatorChecks
pub mod AllocatorScoring
pub mod Caching
pub mod ClientChecks
pub mod ClientReport
pub mod Editions
pub mod Epochs
pub mod FieldUpdates
pub mod FilecoinPay
pub mod Histograms
pub mod Indexer
pub mod Misreporting
pub mod Numbers
pub mod OldDatacap
pub mod Pagination
pub mod Prelude
pub mod ProvidersAndDeals
pub mod Reports
pub mod Retrying
pub mod Tables
pub mod Tests
pub mod Tranche
