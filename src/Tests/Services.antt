-- ===== src/Tests/Services.antt =====
-- The theorems on the service and on who may call it, on the sample vault.
use mkb.Service.Version.{format_version-injective}
use mkb.Sync.Engine.{block_version}
use mkb.Base.{arith}
use mkb.Base.{all, ℕ, true, false, ◌≡◌, refl, List, [], ◌∷◌, none, some, err, is_ok}
use mkb.Text.Chars.{Str, codes}
use mkb.Text.Strings.{str_eq}
use mkb.Text.Runs.{text_code}
use mkb.Map
use mkb.Vault
use mkb.Access.{
  Capability, authorize, can, manage_locks, local_app_context, local_context, remote_context,
  unauthenticated,
}
use mkb.Access.Rights.{by_remote, authorize-Made}
use mkb.Edit.{emptied, destructive_update_reason, exact_replace, wrong_count}
use mkb.Sync.Engine.Framed.{view}
use mkb.Service.{format_version, is_stale, version_of}
use mkb.Service
use mkb.Service.Framed.{is_locked}
use mkb.Service.Locked.{Call, is_outside, made, mints_other, run_all, run_all-keeps_locked}
use mkb.Service.Locked
use mkb.Service.Refusals.{
  Untouched, is_applied, update_block-stale, update_block-destructive, replace_in_block-refused,
}
use mkb.Tests.Sample.{platform, host, engine, id_a, id_b, id_c, block_b}

abbrev calls : List Call
calls =
    record {
      now = codes "2026-06-24T02:30:00Z";
      ctx = local_context;
      request = Locked.update_block id_a none (codes "gone") true none;
    }
    ∷ record {
      now = codes "2026-06-24T02:31:00Z";
      ctx = local_context;
      request = Locked.carve_block id_c id_b none (codes "part");
    }
    ∷ []

outside_calls : all (is_outside id_a) calls ≡ true
unfolding is_outside can mints_other made str_eq
outside_calls = refl

locked_a : is_locked (Vault.block engine.vault id_a) ≡ true
unfolding is_locked Vault.block Map.get str_eq
locked_a = refl

run_all-keeps_locked_example :
    view platform host id_a (run_all platform host calls engine) ≡ view platform host id_a engine
run_all-keeps_locked_example =
    run_all-keeps_locked platform host id_a calls engine outside_calls locked_a

stale_a : is_stale (some (codes "0000000000000000")) (version_of platform host id_a engine) ≡ true
unfolding is_stale block_version Map.get str_eq format_version
stale_a = refl

update_block-stale_example : Untouched is_applied engine (
    Service.update_block platform host
      (codes "now")
      local_context
      id_a
      none
      (codes "new")
      true
      (some (codes "0000000000000000"))
      engine)
update_block-stale_example =
    update_block-stale platform host (codes "now") local_context id_a none (codes "new") true
      (some (codes "0000000000000000")) engine stale_a

known_b : Vault.block engine.vault id_b ≡ some block_b
unfolding Vault.block Map.get str_eq
known_b = refl

emptied_b : destructive_update_reason block_b.body [] ≡ some emptied
unfolding destructive_update_reason text_code
emptied_b = refl

update_block-destructive_example :
    Untouched is_applied engine (
      Service.update_block platform host (codes "now") local_context id_b none [] false none engine)
update_block-destructive_example =
    update_block-destructive platform host (codes "now") local_context id_b none [] none engine
      block_b emptied known_b emptied_b

twice_b : exact_replace block_b.body (codes "[") (codes "(") 1 ≡ err (wrong_count 1 2)
unfolding exact_replace text_code
twice_b = refl

replace_in_block-refused_example :
    Untouched
      (λ t. true)
      engine
      (Service.replace_in_block platform host
        (codes "now")
        local_context
        id_b
        (codes "[")
        (codes "(")
        1
        true
        engine)
replace_in_block-refused_example =
    replace_in_block-refused platform host (codes "now") local_context id_b (codes "[") (codes "(")
      1 true engine block_b (wrong_count 1 2) known_b twice_b

authorize-Made_example :
    (is_ok (authorize (remote_context (codes "eve")) manage_locks) ≡ true
      → remote_context (codes "eve") ≡ local_app_context)
    × ((id : Str) (cap : Capability)
        → remote_context (codes "eve") ≡ remote_context id
        → authorize (remote_context (codes "eve")) cap ≡ err (unauthenticated id))
authorize-Made_example = authorize-Made (remote_context (codes "eve")) (by_remote (codes "eve"))

abbrev hash : ℕ
hash = 255

format_version-injective_example : hash ≡ hash
format_version-injective_example =
    format_version-injective hash hash (omega arith) (omega arith) refl
