-- ===== src/Tests/Sample.antt =====
-- A small vault, and stand-ins for what the program takes from elsewhere.
use mkb.Base.{◌+◌, true, false, List, [], ◌∷◌, map, none, some, ok, length}
use mkb.Text.Chars.{Str, codes, to_ascii_lowercase}
use mkb.Text.Strings.{strip_prefix, split_once}
use mkb.Id.{BlockId}
use mkb.Block.{Block}
use mkb.Blockfile.Parse.{TagRegexes}
use mkb.Link.{RefMatch}
use mkb.Platform.{Platform}
use mkb.Sync.Host.{Host}
use mkb.Sync.Engine.{Engine}

-- A text that is one embed and no more is a match.
unfoldable pub one_embed : Str → List RefMatch
one_embed s = elim (strip_prefix (codes "![[") s) [
  | none ↦ []
  | some rest ↦ elim (split_once b']' rest) [
    | none ↦ []
    | some (inner, b) ↦
        record { start = 0; end = length inner + 5; bang = codes "!"; inner = inner } ∷ []
  ]
]

abbrev pub no_tags : TagRegexes
no_tags = record { drop_link_dests = λ s. s; tag_captures = λ s. [] }

abbrev pub platform : Platform
platform = record {
  to_lowercase = map to_ascii_lowercase;
  tag_regexes = no_tags;
  ref_captures = one_embed;
  created_rfc3339 = λ id. none;
  has_device_suffix = λ s. false;
}

abbrev pub host : Host
host = record {
  Store = Unit;
  Files = Unit;
  reindex_block = λ r ls s. (ok tt, s);
  remove_block = λ id s. (ok tt, s);
  set_content_hash = λ id v n s. (ok tt, s);
  clear = λ s. (ok tt, s);
  content_hashes = λ v s. ok [];
  list_dir = λ f. ok none;
  record_of = λ id s. ok none;
  embed = λ r s. (ok tt, s);
  version = codes "noembed";
  hash_bytes = length;
  write_file = λ id t f. (ok tt, f);
  remove_file = λ id f. (ok tt, f);
}

abbrev pub id_a : BlockId
id_a = record { as_str = codes "01J0000000000000000000000A" }

abbrev pub id_b : BlockId
id_b = record { as_str = codes "01J0000000000000000000000B" }

abbrev pub id_c : BlockId
id_c = record { as_str = codes "01J0000000000000000000000C" }

abbrev pub block_a : Block
block_a = record {
  id = id_a;
  title = some (codes "Rules");
  tags = codes "ops" ∷ [];
  fm_tags = codes "ops" ∷ [];
  langs = [];
  locked = true;
  props = (codes "source", codes "git") ∷ [];
  updated = none;
  body = codes "Keep this.\n";
}

-- Its body embeds the first block.
abbrev pub block_b : Block
block_b = record {
  id = id_b;
  title = none;
  tags = [];
  fm_tags = [];
  langs = [];
  locked = false;
  props = [];
  updated = none;
  body = codes "![[01J0000000000000000000000A]]";
}

abbrev pub engine : Engine host
engine = record {
  vault = record {
    blocks = (id_a.as_str, block_a) ∷ (id_b.as_str, block_b) ∷ [];
    by_title = (codes "rules", id_a) ∷ [];
  };
  index = tt;
  hashes = (id_a.as_str, 11) ∷ (id_b.as_str, 12) ∷ [];
  files = tt;
  conflicts = [];
  seeded = true;
}
