-- ===== src/FilecoinPay.antt =====
-- src/po-rep-indexer/runners/filecoin-pay-indexer.runner.ts: the logs of Filecoin Pay, and the database
-- operations that a batch of them makes on rails and payments. A bigint that is printed for a decimal
-- column is kept as the number.
pub mod Logs
pub mod Rails
pub mod Prepare
pub mod RailFold
pub mod Batches
pub mod Payments
