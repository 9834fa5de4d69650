-- ===== src/Auth.antt =====
-- internal/api/auth.go: the key that a request was authenticated with, and what it may do.
pub mod Middleware
pub mod Revoked
use event_driven_notificatio.Prelude.{
  ℕ, Bool, false, String, str_eq, List, Option, none, some, any, if◌then◌else◌,
}
use Prim.Native.String.{◌++◌ as append}
use event_driven_notificatio.Http.{problem, write_problem_full, Response, refused}

-- authedKey
pub record AuthedKey : Type 0 where
  pub id : String
  pub name : String
  pub scopes : List String

abbrev pub scope_admin : String
scope_admin = "admin"

-- HasScope
unfoldable pub has_scope : String → AuthedKey → Bool
has_scope want k = any (λ s. str_eq s want) k.scopes

-- What the context of a request carries, and uuid.Parse.
pub record Context : Type 0 where
  pub authed_key : Option AuthedKey
  pub correlation_id : String
  pub parse_uuid : String → Option ℕ

abbrev pub admin_key : Option AuthedKey → Bool
unfolding has_scope
admin_key none = false
admin_key (some k) = has_scope scope_admin k

-- `k, ok := AuthedKeyFrom(ctx); ok && k.HasScope(ScopeAdmin)`
unfoldable pub is_admin : Context → Bool
is_admin ctx = admin_key ctx.authed_key

abbrev pub owner_of_key : (String → Option ℕ) → Option AuthedKey → Option ℕ
owner_of_key parse none = none
owner_of_key parse (some k) = parse k.id

-- ownerFromCtx
unfoldable pub owner_from_ctx : Context → Option ℕ
owner_from_ctx ctx = owner_of_key ctx.parse_uuid ctx.authed_key

abbrev pub scoped {ℓ} : {A : Type ℓ} → String → String → Response A → Option AuthedKey → Response A
scoped corr scope next none = refused (
    write_problem_full corr
      (problem "/problems/unauthorized" "Unauthorized" 401 "no authenticated key in context"))
scoped corr scope next (some k) =
    if has_scope scope k
    then next
    else refused (
        write_problem_full corr
          (problem "/problems/forbidden" "Forbidden" 403 (append "missing required scope: " scope)))

-- RequireScope
unfoldable pub require_scope {ℓ} : {A : Type ℓ} → Context → String → Response A → Response A
unfolding has_scope problem write_problem_full
require_scope ctx scope next = scoped ctx.correlation_id scope next ctx.authed_key
