-- ===== src/Access/Rights.antt =====
-- Which calls a context lets through.
use mkb.Base.{is_ok}
use mkb.Access.{unauthenticated}
use mkb.Base.{true, ◌≡◌, refl, err, arith}
use mkb.Text.Chars.{Str}
use mkb.Access.{
  authenticated_context, remote_context, local_context, local_app_context, Capability,
  RequestContext, authorize, manage_locks,
}

-- The contexts that the program itself makes for its callers.
pub data Made : RequestContext → Type 0 where
  by_local : Made local_context
  by_app : Made local_app_context
  by_remote : (id : Str) → Made (remote_context id)
  by_authenticated : (id : Str) → Made (authenticated_context id)

only_app :
    (ctx : RequestContext)
    → Made ctx
    → is_ok (authorize ctx manage_locks) ≡ true
    → ctx ≡ local_app_context
unfolding authorize
only_app ctx by_local h = ground arith
only_app ctx by_app h = refl
only_app ctx (by_remote id) h = ground arith
only_app ctx (by_authenticated id) h = ground arith

refused :
    (id : Str) (cap : Capability) → authorize (remote_context id) cap ≡ err (unauthenticated id)
unfolding authorize
refused id Capability.read = refl
refused id Capability.write = refl
refused id Capability.manage_locks = refl

-- Among the contexts that the program makes, only the app's may manage locks, and one of a remote
-- caller is refused every capability with the message for callers without identity.
pub authorize-Made :
    (ctx : RequestContext)
    → Made ctx
    → (is_ok (authorize ctx manage_locks) ≡ true → ctx ≡ local_app_context)
      × ((id : Str) (cap : Capability)
          → ctx ≡ remote_context id
          → authorize ctx cap ≡ err (unauthenticated id))
unfolding authorize
authorize-Made ctx m = (only_app ctx m, λ id cap e. rw (e) (refused id cap))
