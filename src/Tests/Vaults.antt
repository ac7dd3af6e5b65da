-- ===== src/Tests/Vaults.antt =====
-- The theorems on the vault, the links and the engine's writes, on the sample vault.
use mkb.Sync.Engine.{block_version}
use mkb.Sync.Engine.Preserved.{update_block-version}
use mkb.Sync.Engine.Runs.{engine_code}
use mkb.Vault.Built.{start, inserted, Built-resolve}
use mkb.Vault.Search.{has-head}
use mkb.Base.{ap, ◌∙◌, any}
use mkb.Tests.Sample.{one_embed}
use mkb.Block.Views.{child_targets}
use mkb.Link.{extract_references, code_mask}
use mkb.Base.{true, false, ◌≡◌, ◌↔◌, refl, [], ◌∷◌, none, some, is_none, is_ok, arith}
use mkb.Text.Chars.{Str, codes}
use mkb.Text.Strings.{is_empty, str_eq}
use mkb.Text.Trim.{trim}
use mkb.Text.Runs.{text_code}
use mkb.Id
use mkb.Id.{id_eq}
use mkb.Map
use mkb.Vault
use mkb.Vault.{children, insert, remove, empty}
use mkb.Vault.Reach.{Steps, here, step, transclusion_reaches}
use mkb.Vault.Reached.{transclusion_reaches_iff}
use mkb.Blockfile.Write.{clean, write_block, is_bare}
use mkb.Blockfile.Runs.{blockfile_code}
use mkb.Blockfile.Parse.{parse_block}
use mkb.Blockfile.RoundTrip.Shape.{drop_newlines}
use mkb.Blockfile.RoundTrip.Tags.{IsTag}
use mkb.Blockfile.RoundTrip.Blocks.{IsStorable, stored, parse_block-write_block}
use mkb.Sync.Engine.Writes.{update_block, set_lock, resolved_title}
use mkb.Sync.Engine.Preserved.{update_block-preserves, set_lock-preserves}
use mkb.Access.{local_context}
use mkb.Service.Place.{place_link, append}
use mkb.Service.Links.{Instead, is_transclusion, place_link-acyclic}
use mkb.Tests.Sample.{platform, no_tags, host, engine, id_a, id_b, block_a}

ops-IsTag : IsTag (codes "ops")
unfolding text_code
ops-IsTag = record {
  filled = λ e. ground (arith, e);
  tight = refl;
  one_line = ground arith;
  no_comma = ground arith;
  no_open = ground arith;
  no_close = ground arith;
  no_quote = ground arith;
  no_apostrophe = ground arith;
}

block_a-IsStorable : IsStorable block_a.fm_tags block_a.props
unfolding blockfile_code
block_a-IsStorable = record {
  tags_ok = (ops-IsTag, tt);
  filled = (λ e. ground (arith, e), tt);
  distinct = (tt, tt);
}

abbrev now : Str
now = codes "2026-06-24T02:30:00Z"

stamped : is_empty (trim now) ≡ false
unfolding text_code
stamped = refl

written_a : is_bare (clean block_a.title block_a.fm_tags true (some now) block_a.props) ≡ false
unfolding blockfile_code
written_a = refl

parse_block-write_block_example :
    parse_block no_tags id_a
      (write_block block_a.title block_a.fm_tags true (some now) block_a.props block_a.body)
    ≡ stored no_tags id_a
        (clean block_a.title block_a.fm_tags true (some now) block_a.props)
        (drop_newlines block_a.body)
parse_block-write_block_example =
    parse_block-write_block no_tags id_a block_a.title block_a.fm_tags true (some now) block_a.props
      block_a.body block_a-IsStorable written_a

known_a : Vault.block engine.vault id_a ≡ some block_a
unfolding Vault.block Map.get str_eq
known_a = refl

unlocked : is_ok (set_lock platform host now id_a false engine).0 ≡ true
unfolding engine_code
unlocked = refl

updated : is_ok (update_block platform host now id_a none (codes "new") engine).0 ≡ true
unfolding engine_code
updated = refl

update_block-preserves_example :
    Vault.block (update_block platform host now id_a none (codes "new") engine).1.vault id_a
    ≡ some (
        stored no_tags id_a
          (clean block_a.title block_a.fm_tags true (some now) block_a.props)
          (drop_newlines (codes "new")))
update_block-preserves_example =
    update_block-preserves platform host now stamped id_a none (codes "new") engine block_a known_a
      block_a-IsStorable updated

set_lock-preserves_example :
    Vault.block (set_lock platform host now id_a false engine).1.vault id_a
    ≡ some (
        stored no_tags id_a
          (clean block_a.title block_a.fm_tags false (some now) block_a.props)
          (drop_newlines block_a.body))
set_lock-preserves_example =
    set_lock-preserves platform host now stamped id_a false engine block_a known_a
      block_a-IsStorable unlocked

children_b : children platform engine.vault id_b ≡ id_a ∷ []
unfolding text_code children Vault.block Map.get Vault.resolve Id.parse child_targets
    extract_references one_embed code_mask
children_b = refl

b_to_a : Steps (children platform engine.vault) id_b id_a
b_to_a = step here id_a (ap (any (id_eq id_a)) children_b ∙ has-head id_a [])

transclusion_reaches_iff_example :
    (transclusion_reaches platform engine.vault id_b id_a ≡ true)
    ↔ Steps (children platform engine.vault) id_b id_a
transclusion_reaches_iff_example = transclusion_reaches_iff platform engine.vault id_b id_a

place_link-acyclic_example :
    Instead is_transclusion
      (place_link platform host now local_context id_a id_b true append engine)
      (place_link platform host now local_context id_a id_b false append engine)
place_link-acyclic_example =
    place_link-acyclic platform host now local_context id_a id_b append engine b_to_a

resolved : Vault.resolve platform (insert platform empty block_a) (codes " RULES ") ≡ some id_a
unfolding text_code Vault.resolve Id.parse Map.get insert Vault.sort_keys Map.keys Map.insert
resolved = refl

Built-resolve_example : is_none (Vault.block (insert platform empty block_a) id_a) ≡ false
Built-resolve_example =
    Built-resolve platform (insert platform empty block_a) (codes " RULES ")
      (inserted block_a start) resolved

update_block-version_example :
    block_version platform host
      (update_block platform host now id_a none (codes "new") engine).1
      id_a
    ≡ some (
        host.hash_bytes (
          write_block
            (resolved_title none block_a.title)
            block_a.fm_tags
            true
            (some now)
            block_a.props
            (codes "new")))
update_block-version_example =
    update_block-version platform host now id_a none (codes "new") engine block_a known_a updated
