-- ===== src/Conflict.antt =====
-- crates/mkb-core/src/conflict.rs: the copies that a cloud-sync service leaves behind.
use mkb.Base.{Bool, ◌||◌, List, [], ◌∷◌, any}
use mkb.Text.Chars.{Str, codes}
use mkb.Text.Strings.{contains}
use mkb.Paths.{last_component}
use mkb.Platform.{Platform}

abbrev pub conflict_markers : List Str
conflict_markers = codes "(conflicted copy" ∷ codes "conflicted copy" ∷ codes ".sync-conflict-" ∷ []

module _ (pf : Platform) where
  unfoldable pub is_conflict_path : Str → Bool
  is_conflict_path path =
      let file = last_component path in
      any (λ m. contains m (pf.to_lowercase file)) conflict_markers || pf.has_device_suffix file
