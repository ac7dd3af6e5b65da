-- ===== src/Sync/Engine/Runs.antt =====
-- One name that opens the code of the engine's writes, for runs on concrete inputs.
use mkb.Map
use mkb.Vault
use mkb.Blockfile.Runs.{blockfile_code}
use mkb.Blockfile.Parse.{parse_block}
use mkb.Sync.Exec.{pure, gets, modify, ◌>>=◌}
use mkb.Sync.Engine.{
  require, persist, on_files, on_index, ingest, put_block, reindex, record_hash, put_hash,
  refresh_links, reindex_all,
}
use mkb.Sync.Engine.Writes.{resolved_title, set_lock, update_block}

unfoldable pub engine_code : Unit {0}
unfolding blockfile_code set_lock update_block resolved_title require persist on_files on_index
    ingest put_block reindex record_hash put_hash refresh_links reindex_all pure gets modify ◌>>=◌
    Vault.insert_source Vault.insert Vault.block Vault.blocks Vault.ids Vault.sort_keys
    Vault.str_leb Map.get Map.insert Map.keys parse_block
engine_code = tt
