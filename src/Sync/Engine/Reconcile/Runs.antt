-- ===== src/Sync/Engine/Reconcile/Runs.antt =====
-- One name that opens the code of `reconcile`, for runs on concrete inputs.
use mkb.Text.Strings.{rsplit_once}
use mkb.Id
use mkb.Map
use mkb.Vault
use mkb.Conflict.{is_conflict_path}
use mkb.Sync.Exec.{lift}
use mkb.Sync.Files.{
  md_stem, block_file, insert_file, sort_files, read_block_files, conflict_file_names,
}
use mkb.Sync.Engine.{drop_block, drop_hash}
use mkb.Sync.Engine.Runs.{engine_code}
use mkb.Sync.Engine.Reconcile.{
  fill_hashes, is_recorded, seed, skip_file, take_file, take_files, forget, forget_all, missing,
  set_conflicts, reconcile, clear_memory, rebuild,
}

unfoldable pub reconcile_code : Unit {0}
unfolding engine_code rsplit_once lift Id.parse Id.id_eq is_conflict_path md_stem block_file
    insert_file sort_files read_block_files conflict_file_names fill_hashes is_recorded seed
    skip_file take_file take_files forget forget_all missing set_conflicts reconcile clear_memory
    rebuild drop_block drop_hash Vault.remove Map.remove
reconcile_code = tt
