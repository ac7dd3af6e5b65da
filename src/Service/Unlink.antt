-- ===== src/Service/Unlink.antt =====
-- `unlink_blocks` of crates/mkb-core/src/service.rs.
use mkb.Base.{Bool}
use mkb.Text.Chars.{Str}
use mkb.Id.{BlockId}
use mkb.Access.{RequestContext, write}
use mkb.Platform.{Platform}
use mkb.Sync.Host.{Host, unknown_source}
use mkb.Sync.Exec.{◌>>=◌, ◌>>◌}
use mkb.Sync.Engine.{Action, require}
use mkb.Sync.Engine.Unlink.{remove_directives_to}
use mkb.Service.{authorized, ensure_writable}

module _ (pf : Platform) (h : Host) where
  unfoldable pub unlink_blocks : Str → RequestContext → BlockId → BlockId → Action pf h Bool
  unlink_blocks now ctx source target = do
    authorized pf h ctx write
    ensure_writable pf h source
    b ← require pf h (unknown_source source) source
    remove_directives_to pf h now source target
