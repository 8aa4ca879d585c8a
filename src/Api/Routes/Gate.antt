-- ===== src/Api/Routes/Gate.antt =====
-- control-plane/internal/api/router.go and its middleware: what a request has to show before a handler runs, and what the
-- audit log says of it.
use grid_token_util.Prelude.{
  ℕ, ◌≡◌, ◌≢◌, String, Bool, true, false, Option, none, some, List, Memᴰ, Memᴰ-All, All, arith,
  refl, sym, subst, Option-cases, inl, inr,
}
use grid_token_util.Prelude.Replies.{Reply, answer, refused}
use grid_token_util.Domain.{Uuid, Time}
use grid_token_util.Api.Context.{Context}
use grid_token_util.Api.Auth.{scope_required, has_scope}
use grid_token_util.Api.RateLimit.{Verdict, served, limited}
use grid_token_util.Api.Audit.{Verb, AuditEvent, is_mutating}
use grid_token_util.Api.Routes.{
  Action, Route, routes, run_route, matched, limit_and_route, serve_api,
}

-- A method that changes something needs a scope.
abbrev pub IsGuarded : Route → Type 0
IsGuarded r = is_mutating r.verb ≡ true → r.scope ≢ none

routes-IsGuarded : (has_store has_points : Bool) → All IsGuarded (routes has_store has_points)
unfolding routes is_mutating
routes-IsGuarded true true = ground arith
routes-IsGuarded true false = ground arith
routes-IsGuarded false has_points = ground arith

-- The scopes of the caller's key let it use a route with such a scope.
abbrev pub Grants : Option String → Option (List String) → Type 0
Grants none scopes = Unit
Grants (some s) none = ⊥
Grants (some s) (some scopes) = has_scope s scopes ≡ true

run_route-Grants :
    (handler : Action → Context → ℕ) (c : Context) (r : Route) (a : Action)
    → (run_route handler c r).1 ≡ some a
    → (r.action ≡ a) × Grants r.scope c.scopes
unfolding run_route scope_required
run_route-Grants handler c r a h = elim (Option-cases r.scope) [
  | inl e ↦ rw e (ground (arith, h, e), tt)
  | inr (s, e) ↦ elim (Option-cases c.scopes) [
    | inl f ↦ absurd (ground (arith, h, e, f))
    | inr (scopes, f) ↦ rw (e, f) (ground (arith, h, e, f))
  ]
]

-- A request on which a handler runs was let through by the authentication and by the limit, its route is the one of that
-- handler, and the scopes of its key meet the route's; where the route is one of the program's and the method changes
-- something, the route has a scope, so that every such handler is behind a scope.
pub serve_api-gate :
    (handler : Action → Context → ℕ) (event_id : Uuid) (now : Time) (reply : Reply Context)
    (told : Option AuditEvent) (limit : Verdict) (verb : Verb) (path : List String) (r : Route)
    (param : Option String) (a : Action) (has_store has_points : Bool)
    → Memᴰ r (routes has_store has_points)
    → r.verb ≡ verb
    → (serve_api handler event_id now reply told limit verb path (matched r param)).ran ≡ some a
    → (c : Context) × (reply ≡ answer c)
      × (limit ≡ served)
      × (r.action ≡ a)
      × Grants r.scope c.scopes
      × (is_mutating verb ≡ true → r.scope ≢ none)
unfolding serve_api limit_and_route
serve_api-gate handler event_id now (refused code text) told limit verb path r param a has_store
      has_points m v h =
    cc
serve_api-gate handler event_id now (answer c) told limited verb path r param a has_store has_points
      m v h =
    cc
serve_api-gate handler event_id now (answer c) told served verb path r param a has_store has_points
      m v h =
    let ran = run_route-Grants handler c r a h in
    let guard : IsGuarded r =
      Memᴰ-All IsGuarded (routes has_store has_points) m (routes-IsGuarded has_store has_points) in
    (c, refl, refl, ran.0, ran.1, λ e. guard (subst (λ w. is_mutating w ≡ true) (sym v) e))
