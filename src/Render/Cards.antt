-- ===== src/Render/Cards.antt =====
-- `render_block` of crates/mkb-core/src/render.rs: embeds become cards.
use mkb.Base.{
  ℕ, zero, suc, ◌-◌, Bool, List, [], ◌∷◌, ◌++◌, map, Option, none, some, if◌then◌else◌, length,
  take, drop,
}
use mathlib.Core.Option
use mkb.Text.Chars.{Str, codes, newline}
use mkb.Text.Strings.{is_empty, concat}
use mkb.Text.Lines.{lines}
use mkb.Id.{BlockId}
use mkb.Block.{Block}
use mkb.Block.Views.{display_title}
use mkb.Blockfile.Write.{Prop, is_nil}
use mkb.Link.{Reference, label, extract_references}
use mkb.Platform.{Platform}
use mkb.Vault
use mkb.Vault.{Vault}
use mkb.Vault.Search.{has}
use mkb.Render.Links.{escape_link_text, link_to, unresolved, render_reference}

-- The body with each directive replaced. What is put in place of one may depend on the text in
-- front of it, and may fail. The directives come in the order of the text and do not overlap.
unfoldable pub substitute :
    (Str → Reference → Option Str) → Str → ℕ → Str → List Reference → Option Str
substitute f body cursor out [] = some (out ++ drop cursor body)
substitute f body cursor out (r ∷ rs) =
    let before = out ++ take (r.start - cursor) (drop cursor body) in
    elim (f before r) [ none ↦ none | some t ↦ substitute f body r.end (before ++ t) rs ]

-- The lines of a card, in front of each the mark of a quotation.
abbrev quoted : Str → Str
quoted line = (if is_empty line then codes ">" else codes "> " ++ line) ++ newline ∷ []

unfoldable pub card : BlockId → Block → Str → Str
unfolding link_to escape_link_text
card id b body =
    codes "> ⧉ "
    ++ (link_to (escape_link_text (display_title b)) (codes "mkb:" ++ id.as_str)
        ++ (codes "\n>\n" ++ concat (map quoted (lines body))))

unfoldable pub no_target : Str → Str
unfolding link_to
no_target label = link_to (codes "⚠ " ++ label) unresolved ++ codes " *(unresolved embed)*"

unfoldable pub cycle_note : Str → BlockId → Str
unfolding link_to
cycle_note label id =
    link_to (codes "↻ " ++ label) (codes "mkb:" ++ id.as_str) ++ codes " *(transclusion cycle)*"

-- The block that a target leads to, unless it is among the visited ones.
pub data Embedded : Type 0 where
  dangling : Embedded
  cyclic : BlockId → Embedded
  found : BlockId → Block → Embedded

module _ (pf : Platform) (v : Vault) where
  unfoldable pub embedded : List BlockId → Str → Embedded
  embedded visited target = elim (Vault.resolve pf v target) [
    | none ↦ dangling
    | some id ↦
        if has id visited
        then cyclic id
        else elim (Vault.block v id) [ none ↦ dangling | some b ↦ found id b ]
  ]

  unfoldable pub resolve_embed :
      (Block → List BlockId → Option Str) → List BlockId → Str → Str → Option Str
  unfolding card no_target cycle_note
  resolve_embed render visited target label = elim (embedded visited target) [
    | dangling ↦ some (no_target (escape_link_text label))
    | cyclic id ↦ some (cycle_note (escape_link_text label) id)
    | found id b ↦ Option.map (card id b) (render b (id ∷ visited))
  ]

  -- What is put in place of a directive.
  unfoldable pub directive :
      (Block → List BlockId → Option Str) → List BlockId → Str → Reference → Option Str
  unfolding resolve_embed
  directive render visited out r =
      if r.embed
      then resolve_embed render visited r.target (label r)
      else some (render_reference pf v r.target (label r))

  -- The fuel bounds how deep embeds nest.
  unfoldable pub render_body : ℕ → Block → List BlockId → Option Str
  unfolding directive substitute
  render_body zero b visited = none
  render_body (suc fuel) b visited =
      let refs = extract_references pf.ref_captures b.body in
      if is_nil refs
      then some b.body
      else substitute (directive (render_body fuel) visited) b.body 0 [] refs

  abbrev pub depth : ℕ
  depth = suc (length (Vault.ids v))

  unfoldable pub render_block : BlockId → Option Str
  render_block id = elim (Vault.block v id) [ none ↦ none | some b ↦ render_body depth b (id ∷ []) ]

pub record RenderedBlock : Type 0 where
  pub id : BlockId
  pub title : Str
  pub tags : List Str
  pub fm_tags : List Str
  pub props : List Prop
  pub raw : Str
  pub rendered : Str
  pub locked : Bool

abbrev shown : BlockId → Block → Str → RenderedBlock
shown id b text = record {
  id = id;
  title = display_title b;
  tags = b.tags;
  fm_tags = b.fm_tags;
  props = b.props;
  raw = b.body;
  rendered = text;
  locked = b.locked;
}

module _ (pf : Platform) (v : Vault) where
  unfoldable pub rendered_block : BlockId → Option RenderedBlock
  rendered_block id = elim (Vault.block v id) [
    | none ↦ none
    | some b ↦ Option.map (shown id b) (render_body pf v (depth pf v) b (id ∷ []))
  ]
