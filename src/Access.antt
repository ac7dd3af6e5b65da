-- ===== src/Access.antt =====
-- Who may do what: `Caller`, `Capability`, `Scope` and `RequestContext` of
-- crates/mkb-core/src/service.rs.
pub mod Rights
use mkb.Base.{Bool, true, false, ◌≡◌, ◌↔◌, refl, Result, ok, err, arith, if◌then◌else◌}
use mkb.Text.Chars.{Str}

pub data Caller : Type 0 where
  local : Caller
  authenticated remote : Str → Caller

pub data Capability : Type 0 where
  read write manage_locks : Capability

pub record Scope : Type 0 where
  pub read : Bool
  pub write : Bool
  pub manage_locks : Bool

abbrev pub scope_none : Scope
scope_none = record { read = false; write = false; manage_locks = false }

abbrev pub read_only : Scope
read_only = record { read = true; write = false; manage_locks = false }

abbrev pub agent : Scope
agent = record { read = true; write = true; manage_locks = false }

abbrev pub app : Scope
app = record { read = true; write = true; manage_locks = true }

unfoldable pub can : Scope → Capability → Bool
can s Capability.read = s.read
can s Capability.write = s.write
can s Capability.manage_locks = s.manage_locks

pub record RequestContext : Type 0 where
  pub caller : Caller
  pub scope : Scope

abbrev pub local_context : RequestContext
local_context = record { caller = local; scope = agent }

abbrev pub local_app_context : RequestContext
local_app_context = record { caller = local; scope = app }

abbrev pub remote_context : Str → RequestContext
remote_context id = record { caller = remote id; scope = scope_none }

abbrev pub authenticated_context : Str → RequestContext
authenticated_context id = record { caller = authenticated id; scope = agent }

-- The texts of the three refusals.
pub data Denial : Type 0 where
  unauthenticated : Str → Denial
  human_only : Denial
  missing : Capability → Denial

unfoldable pub denial : Caller → Capability → Denial
denial (remote id) cap = unauthenticated id
denial local Capability.manage_locks = human_only
denial (authenticated id) Capability.manage_locks = human_only
denial local cap = missing cap
denial (authenticated id) cap = missing cap

unfoldable pub authorize : RequestContext → Capability → Result Denial Unit
unfolding can denial
authorize ctx cap = if can ctx.scope cap then ok tt else err (denial ctx.caller cap)
