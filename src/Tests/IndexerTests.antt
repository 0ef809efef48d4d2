-- ===== src/Tests/IndexerTests.antt =====
-- An indexer of five blocks in batches of two, over a chain whose logs are the block numbers.
use compliance_data_platform.Prelude.{
  ℕ, suc, ◌+◌, ◌≡◌, refl, true, false, some, List, [], ◌∷◌, arith, if◌then◌else◌, leb, ltb, ◌&&◌,
}
use compliance_data_platform.Indexer.{
  Settings, Env, State, finished, execute, execute_until_done, default_archive_node_threshold,
  is_own, latest, later_of, find_last_run, from_block, to_block, should_use_archive_node, new_run,
  index_batch,
}
use compliance_data_platform.Indexer.Tiling.{
  own, next_block, times_indexed, Reach, here, next, execution, Reach-times_indexed,
}
use compliance_data_platform.Indexer.Progress.{IsUp, execute_until_done-finishes}

abbrev settings : Settings
settings = record {
  chain_id = 314;
  name = "filecoin-pay";
  version = 3;
  origin_block = 10;
  batch_block_size = 2;
  archive_node_threshold = default_archive_node_threshold;
}

abbrev chain : Env ℕ (List ℕ)
chain = record {
  get_block_number = some 14;
  get_logs = λ archive from to. some (from ∷ to ∷ []);
  sort = λ logs. logs;
  prepare_cleanup = λ tables. [];
  prepare_updates = λ logs. some (λ tables. logs);
  transaction_succeeds = true;
}

abbrev empty : State (List ℕ)
empty = record { is_running = false; runs = []; tables = [] }

indexer : Unit {0}
unfolding execute_until_done execute index_batch find_last_run latest later_of is_own from_block
    to_block should_use_archive_node new_run
indexer = tt

three_batches : (execute_until_done settings chain 9 suc 0 empty).1 ≡ finished
unfolding indexer
three_batches = refl

chain-IsUp : IsUp chain 14
chain-IsUp = record {
  height = refl;
  fetches = λ archive from to. (from ∷ to ∷ [], refl);
  prepares = λ logs. ((λ tables. logs), refl);
  commits = refl;
}

execute_until_done-finishes_example :
    let (t, outcome) = execute_until_done settings chain 9 suc 0 empty in
    (outcome ≡ finished) × (next_block 10 (own settings t.runs) ≡ 14 + 1)
execute_until_done-finishes_example =
    execute_until_done-finishes settings chain 14 suc 9 empty chain-IsUp (λ k. omega arith)
      (omega arith) refl (record { tiled = tt; dated = tt }) tt (omega arith) (omega arith)

first_batch : Reach ℕ settings [] (execute settings chain 1 empty).0
first_batch = next here (execution chain 1 empty tt (λ current e. ground arith))

Reach-times_indexed_example :
    times_indexed 11 (own settings (execute settings chain 1 empty).0.runs) ≡ (
      if leb 10 11 && ltb 11 (next_block 10 (own settings (execute settings chain 1 empty).0.runs))
      then 1
      else 0)
Reach-times_indexed_example = Reach-times_indexed settings 11 (omega arith) first_batch
