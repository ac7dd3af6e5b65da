-- ===== src/Tests/Assets.antt =====
-- Importing an asset whose name is taken.
use mkb.Base.{false, ◌≡◌, refl, [], ◌∷◌, ok, some}
use mkb.Text.Chars.{Str, codes}
use mkb.Text.Strings.{rsplit_once}
use mkb.Text.Runs.{text_code}
use mkb.Sync.Assets.{
  AssetDir, end, file, dir, entry_names, exists, decimal_from, decimal, numbered, unique_from,
  unique_name, add_asset, collect_files_rel,
}
use mkb.Sync.Assets.Unique.{imported, add_asset-new}

-- A directory that nothing changes.
abbrev taken : AssetDir
taken = record {
  Files = Unit;
  create_dir_all = λ fs. (ok tt, fs);
  entries = λ fs.
      file (codes "a.png")
        (file (codes "a-1.png") (dir (codes "old") (file (codes "b.png") end) end));
  write = λ name bytes fs. (ok tt, fs);
  remove_file = λ name fs. (ok tt, fs);
}

third : unique_name (entry_names (taken.entries tt)) (codes "a.png") ≡ some (codes "a-2.png")
unfolding text_code rsplit_once unique_name unique_from numbered decimal decimal_from
third = refl

nested :
    collect_files_rel (codes "assets") (taken.entries tt)
    ≡ codes "assets/a.png" ∷ codes "assets/a-1.png" ∷ codes "assets/old/b.png" ∷ []
unfolding collect_files_rel
nested = refl

add_asset-new_example :
    (name : Str) × (exists (entry_names (taken.entries tt)) name ≡ false)
    × (add_asset taken (codes "a.png") (codes "data") tt
        ≡ imported taken (codes "a.png") (codes "data") tt name)
add_asset-new_example = add_asset-new taken (codes "a.png") (codes "data") tt
