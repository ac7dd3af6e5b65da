-- ===== src/Tests/Reconciled.antt =====
-- The theorems on `reconcile` and `rebuild`, on a directory with one block file.
use mkb.Base.{true, false, ◌≡◌, refl, List, [], ◌∷◌, none, some, ok, is_ok, length}
use mkb.Text.Chars.{Str, codes}
use mkb.Id.{BlockId}
use mkb.Vault
use mkb.Vault.{insert_source}
use mkb.Blockfile.Parse.{parse_block}
use mkb.Sync.Host.{Host}
use mkb.Sync.Files.{read_block_files}
use mkb.Sync.Engine.{Engine}
use mkb.Sync.Engine.Framed.{view}
use mkb.Sync.Engine.Reconcile.{reconcile, rebuild}
use mkb.Sync.Engine.Reconcile.Spec.{source_of, Agrees, Mirrors}
use mkb.Sync.Engine.Reconcile.Runs.{reconcile_code}
use mkb.Sync.Engine.Reconcile.Whole.{reconcile-Mirrors, rebuild-Mirrors}
use mkb.Sync.Engine.Reconcile.Reached.{started, reconciled, Reached-Agrees}
use mkb.Tests.Sample.{platform, no_tags, id_a, id_b}

abbrev text_a : Str
text_a = codes "new\n"

abbrev text_b : Str
text_b = codes "gone\n"

-- A directory with a file for the first block, and one that is no block file.
abbrev disk : Host
disk = record {
  Store = Unit;
  Files = Unit;
  reindex_block = λ r ls s. (ok tt, s);
  remove_block = λ id s. (ok tt, s);
  set_content_hash = λ id v n s. (ok tt, s);
  clear = λ s. (ok tt, s);
  content_hashes = λ v s. ok [];
  list_dir = λ f. ok (
      some (
        (codes "readme.txt", some text_b)
        ∷ (codes "01J0000000000000000000000A.md", some text_a)
        ∷ []));
  record_of = λ id s. ok none;
  embed = λ r s. (ok tt, s);
  version = codes "noembed";
  hash_bytes = length;
  write_file = λ id t f. (ok tt, f);
  remove_file = λ id f. (ok tt, f);
}

abbrev new_engine : Engine disk
new_engine = record {
  vault = Vault.empty;
  index = tt;
  hashes = [];
  files = tt;
  conflicts = [];
  seeded = false;
}

-- The vault has a block whose file is gone.
abbrev old_engine : Engine disk
old_engine = record {
  vault = record { blocks = (id_b.as_str, parse_block no_tags id_b text_b) ∷ []; by_title = [] };
  index = tt;
  hashes = (id_b.as_str, 5) ∷ [];
  files = tt;
  conflicts = [];
  seeded = true;
}

abbrev files : List (BlockId × Str)
files = (id_a, text_a) ∷ []

read : read_block_files platform disk tt ≡ ok files
unfolding reconcile_code
read = refl

done : is_ok (reconcile platform disk old_engine).0 ≡ true
unfolding reconcile_code
done = refl

new_done : is_ok (reconcile platform disk new_engine).0 ≡ true
unfolding reconcile_code
new_done = refl

rebuilt_done : is_ok (rebuild platform disk old_engine).0 ≡ true
unfolding reconcile_code
rebuilt_done = refl

known_b : Agrees platform disk id_b (view platform disk id_b old_engine)
unfolding reconcile_code
known_b = (text_b, (refl, refl))

reconcile-Mirrors_example :
    Mirrors platform disk id_b
      (source_of id_b files)
      (view platform disk id_b (reconcile platform disk old_engine).1)
reconcile-Mirrors_example = reconcile-Mirrors platform disk id_b old_engine files read known_b done

rebuild-Mirrors_example :
    Mirrors platform disk id_a
      (source_of id_a files)
      (view platform disk id_a (rebuild platform disk old_engine).1)
rebuild-Mirrors_example = rebuild-Mirrors platform disk id_a old_engine files read rebuilt_done

Reached-Agrees_example :
    Agrees platform disk id_a (view platform disk id_a (reconcile platform disk new_engine).1)
Reached-Agrees_example =
    Reached-Agrees platform disk id_a (reconciled (started new_engine refl) new_done)
