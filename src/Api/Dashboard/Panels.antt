-- ===== src/Api/Dashboard/Panels.antt =====
-- control-plane/internal/api/handlers/dashboard.go: the panels of the snapshot.
use grid_token_util.Prelude.{
  ℕ, ◌-◌, ◌≡◌, ◌==◌, refl, ap, subst, String, Bool, true, false, Option, some, List, [], ◌∷◌, take,
  drop, select, select-All, All, take-All, drop-All, All-map, All-All, arith, Option-cases, inl,
  inr,
}
use mathlib.Core.List.{Permᴰ}
use grid_token_util.Prelude.Order.{sort, sort-All}
use grid_token_util.Prelude.Results.{Result, ok, err}
use grid_token_util.Prelude.Replies.{answer}
use grid_token_util.Domain.{Uuid, Time, Worker, Task}
use grid_token_util.Store.Tasks.{newer, list_tasks_by_org}
use grid_token_util.Store.Workers.{older, list_workers}
use grid_token_util.Store.Leaderboard.{LeaderboardEntry, ahead, get_leaderboard}
use grid_token_util.Api.Context.{Context}
use grid_token_util.Api.Audit.{
  AuditEvent, Verb, audit, event_of, is_mutating, extract_resource, resource_from,
  newer as newer_event, in_range, query_audit_log, one_day,
}
use grid_token_util.Dashboard.Gather.{gather, gather-perm}
use grid_token_util.Api.Dashboard.{
  Query, workers, waiting, active, done, earners, security, queries, Snapshot, Source,
  is_active_worker, is_waiting, is_active_task, is_done, is_security, store, finish, blank,
  snapshot,
}

finish_commute :
    (src : Source) (org : Uuid) (now : Time) (p q : Query) (s : Snapshot)
    → finish src org now q (finish src org now p s) ≡ finish src org now p (finish src org now q s)
unfolding finish
finish_commute src org now p q s = ground arith

-- The answer is the same in whatever order the six goroutines finish, failures included.
pub snapshot-order :
    (src : Source) (now : Time) (c : Context) (qs : List Query)
    → Permᴰ qs queries
    → snapshot src now c qs ≡ snapshot src now c queries
unfolding snapshot
snapshot-order src now c qs perm = elim (Option-cases c.org_unit_id) [
  | inl e ↦ ground (arith, e)
  | inr (org, e) ↦
      rw e
        (ap answer (gather-perm (finish src org now) (finish_commute src org now) perm (blank now)))
]

-- What each panel may show of an organisation.
pub record IsOwn (org : Uuid) (s : Snapshot) : Type 0 where
  pub workers_own :
      All (λ (w : Worker). (w.org_unit_id ≡ org) × (is_active_worker w ≡ true)) s.active_workers
  pub queued_own : All (λ (t : Task). (t.org_unit_id ≡ org) × (is_waiting t ≡ true)) s.queued_tasks
  pub running_own :
      All (λ (t : Task). (t.org_unit_id ≡ org) × (is_active_task t ≡ true)) s.running_tasks
  pub completed_own :
      All (λ (t : Task). (t.org_unit_id ≡ org) × (is_done t ≡ true)) s.recent_completed
  pub earners_own : All (λ (e : LeaderboardEntry). e.org_unit_id ≡ org) s.top_brownie_earners
  pub events_own :
      All
        (λ (e : AuditEvent). (e.org_unit_id ≡ org) × (is_security e ≡ true))
        s.recent_security_events

-- The rows that a test on the organisation keeps, sorted and cut to a page.
page-All :
    {A : Type 0} (before : A → A → Bool) (p : A → Bool) (P : A → Type 0) (limit offset : ℕ)
    (rows : List A)
    → ((a : A) → p a ≡ true → P a)
    → All P (take limit (drop offset (sort before (select p rows))))
page-All before p P limit offset rows f =
    take-All P limit _
      (drop-All P offset _ (sort-All before P _ (select-All P p rows (All-All f rows))))

-- A filter on rows that have a property.
filter-All :
    {A : Type 0} (P : A → Type 0) (p : A → Bool) (rows : List A)
    → All P rows
    → All (λ a. P a × (p a ≡ true)) (select p rows)
filter-All P p rows all = select-All _ p rows (All-map (λ a h e. (h, e)) rows all)

tasks-All :
    (fault : Bool) (org : Uuid) (limit : ℕ) (rows ts : List Task)
    → list_tasks_by_org fault org limit 0 rows ≡ ok ts
    → All (λ (t : Task). t.org_unit_id ≡ org) ts
unfolding list_tasks_by_org
tasks-All true org limit rows ts e = cc
tasks-All false org limit rows ts e =
    subst (All (λ (t : Task). t.org_unit_id ≡ org)) (cc e)
      (page-All newer (λ t. t.org_unit_id == org) _ limit 0 rows (λ t h. ground (arith, h)))

workers-All :
    (fault : Bool) (org : Uuid) (rows ws : List Worker)
    → list_workers fault org rows ≡ ok ws
    → All (λ (w : Worker). w.org_unit_id ≡ org) ws
unfolding list_workers
workers-All true org rows ws e = cc
workers-All false org rows ws e = subst (All (λ (w : Worker). w.org_unit_id ≡ org)) (cc e) (
    sort-All older _ _
      (select-All _ (λ w. w.org_unit_id == org) rows (All-All (λ w h. ground (arith, h)) rows)))

entries-All :
    (fault : Bool) (org : Uuid) (limit : ℕ) (rows es : List LeaderboardEntry)
    → get_leaderboard fault org limit rows ≡ ok es
    → All (λ (e : LeaderboardEntry). e.org_unit_id ≡ org) es
unfolding get_leaderboard
entries-All true org limit rows es e = cc
entries-All false org limit rows es e =
    subst (All (λ (a : LeaderboardEntry). a.org_unit_id ≡ org)) (cc e)
      (page-All ahead (λ a. a.org_unit_id == org) _ limit 0 rows (λ a h. ground (arith, h)))

events-All :
    (fault : Bool) (org : Uuid) (from to : Time) (limit : ℕ) (rows es : List AuditEvent)
    → query_audit_log fault org from to limit 0 rows ≡ ok es
    → All (λ (e : AuditEvent). e.org_unit_id ≡ org) es
unfolding query_audit_log
events-All true org from to limit rows es e = cc
events-All false org from to limit rows es e =
    subst (All (λ (a : AuditEvent). a.org_unit_id ≡ org)) (cc e)
      (page-All newer_event (in_range org from to) _ limit 0 rows (λ a h. ground (arith, h)))

store-IsOwn :
    {A : Type 0} (org : Uuid) (r : Result A) (write : A → Snapshot) (s : Snapshot)
    → IsOwn org s
    → ((a : A) → r ≡ ok a → IsOwn org (write a))
    → IsOwn org (store r write s)
store-IsOwn org (ok a) write s o f = f a refl
store-IsOwn org (err x) write s o f = ground (arith, o)

module _ (src : Source) (org : Uuid) (now : Time) where
  finish-IsOwn : (q : Query) (s : Snapshot) → IsOwn org s → IsOwn org (finish src org now q s)
  unfolding finish
  finish-IsOwn workers s o =
      store-IsOwn org (list_workers (src.fails workers) org src.db.workers)
        (λ ws. record s { active_workers = select is_active_worker ws }) s o
        (λ ws e. ground (arith, o, filter-All _ is_active_worker ws (workers-All _ org _ ws e)))
  finish-IsOwn waiting s o =
      store-IsOwn org (list_tasks_by_org (src.fails waiting) org 50 0 src.db.tasks)
        (λ ts. record s { queued_tasks = select is_waiting ts }) s o
        (λ ts e. ground (arith, o, filter-All _ is_waiting ts (tasks-All _ org 50 _ ts e)))
  finish-IsOwn active s o =
      store-IsOwn org (list_tasks_by_org (src.fails active) org 50 0 src.db.tasks)
        (λ ts. record s { running_tasks = select is_active_task ts }) s o
        (λ ts e. ground (arith, o, filter-All _ is_active_task ts (tasks-All _ org 50 _ ts e)))
  finish-IsOwn done s o =
      store-IsOwn org (list_tasks_by_org (src.fails done) org 20 0 src.db.tasks)
        (λ ts. record s { recent_completed = select is_done ts }) s o
        (λ ts e. ground (arith, o, filter-All _ is_done ts (tasks-All _ org 20 _ ts e)))
  finish-IsOwn earners s o =
      store-IsOwn org (get_leaderboard (src.fails earners) org 10 src.view)
        (λ es. record s { top_brownie_earners = es }) s o
        (λ es e. ground (arith, o, entries-All _ org 10 _ es e))
  finish-IsOwn security s o =
      store-IsOwn org (query_audit_log (src.fails security) org (now - one_day) now 20 0 src.log)
        (λ es. record s { recent_security_events = select is_security es }) s o
        (λ es e. ground (arith, o, filter-All _ is_security es (events-All _ org _ _ 20 _ es e)))

  gather-IsOwn :
      (qs : List Query) (s : Snapshot) → IsOwn org s → IsOwn org (gather (finish src org now) qs s)
  unfolding gather
  gather-IsOwn [] s o = o
  gather-IsOwn (q ∷ qs) s o = gather-IsOwn qs (finish src org now q s) (finish-IsOwn q s o)

-- Whichever of the goroutines have finished and whatever fails, an answered snapshot shows only rows of the organisation of the
-- caller's key, and each panel only rows in its states: idle and busy workers, queued tasks, assigned and running ones,
-- completed and failed ones, and the events of failed authentications or about the type "api_key".
pub snapshot-IsOwn :
    (src : Source) (now : Time) (c : Context) (qs : List Query) (s : Snapshot)
    → snapshot src now c qs ≡ answer s
    → (org : Uuid) × (c.org_unit_id ≡ some org) × IsOwn org s
unfolding snapshot
snapshot-IsOwn src now c qs s h = elim (Option-cases c.org_unit_id) [
  | inl e ↦ absurd (ground (arith, h, e))
  | inr (org, e) ↦
      let start : IsOwn org (blank now) = record {
        workers_own = tt;
        queued_own = tt;
        running_own = tt;
        completed_own = tt;
        earners_own = tt;
        events_own = tt;
      } in
      let same : gather (finish src org now) qs (blank now) ≡ s = ground (arith, h, e) in
      (org, e, subst (IsOwn org) same (gather-IsOwn src org now qs (blank now) start))
]

-- The audit of a request on the API's keys says "api-keys", which the panel of security events does not look for: no such event is
-- ever shown, whatever the request's method, status and parameter.
pub audit-hidden :
    (id : Uuid) (now : Time) (c : Context) (verb : Verb) (rest : List String)
    (param : Option String) (status : ℕ) (e : AuditEvent)
    → audit id now c verb ("api" ∷ "v1" ∷ "api-keys" ∷ rest) param status ≡ some e
    → is_security e ≡ false
unfolding audit event_of is_mutating extract_resource resource_from
audit-hidden id now c verb rest param status e h =
    let same : event_of id now c verb ("api" ∷ "v1" ∷ "api-keys" ∷ rest) param status ≡ e =
      ground (arith, h) in
    subst (λ x. is_security x ≡ false) same refl
