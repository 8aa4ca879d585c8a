-- ===== src/Api/Audit/Log.antt =====
-- control-plane/internal/api/handlers/audit.go and control-plane/internal/store/postgres/audit.go: the pages of the log.
use grid_token_util.Prelude.{
  length-take, ℕ, zero, suc, ◌+◌, ◌-◌, ◌≤◌, ◌≡◌, Bool, true, false, Option, some, List, [], ◌∷◌,
  ◌++◌, take, drop, length, select, select-All, All, take-All, drop-All, All-map, All-All, arith,
  refl, sym, ap, ◌∙◌, subst, Option-cases, inl, inr,
}
use grid_token_util.Prelude.Int.{ℤ}
use grid_token_util.Prelude.Order.{IsOrder, IsSorted, sort, sort-All, sort-IsSorted}
use grid_token_util.Prelude.Results.{ok, Result-cases}
use grid_token_util.Prelude.Replies.{answer}
use grid_token_util.Domain.{Uuid, Time}
use grid_token_util.Api.Context.{Context}
use grid_token_util.Api.Audit.{
  AuditEvent, newer, in_range, query_audit_log, LogQuery, limit_of, offset_of, or_time, one_day,
  list_events,
}

zero_plus : (n : ℕ) → 0 + n ≡ n
zero_plus n = omega arith

plus_suc : (m n : ℕ) → suc m + n ≡ suc (m + n)
plus_suc m n = omega arith

module _ {ℓ} {A : Type ℓ} where
  take_nothing : (n : ℕ) → take {A = A} n [] ≡ []
  take_nothing zero = refl
  take_nothing (suc n) = refl

  drop_nothing : (n : ℕ) → drop {A = A} n [] ≡ []
  drop_nothing zero = refl
  drop_nothing (suc n) = refl

  take_more : (m n : ℕ) (xs : List A) → take (m + n) xs ≡ take m xs ++ take n (drop m xs)
  take_more zero n xs = ap (λ k. take k xs) (zero_plus n)
  take_more (suc m) n [] = rw (plus_suc m n) (sym (take_nothing n))
  take_more (suc m) n (x ∷ xs) = rw (plus_suc m n) (ap (λ l. x ∷ l) (take_more m n xs))

  drop-drop : (m n : ℕ) (xs : List A) → drop n (drop m xs) ≡ drop (m + n) xs
  drop-drop zero n xs = ap (λ k. drop k xs) (sym (zero_plus n))
  drop-drop (suc m) n [] = rw (plus_suc m n) (drop_nothing n)
  drop-drop (suc m) n (x ∷ xs) = rw (plus_suc m n) (drop-drop m n xs)

module _ {ℓ} {A : Type ℓ} (before : A → A → Bool) where
  take-IsSorted : (n : ℕ) (xs : List A) → IsSorted before xs → IsSorted before (take n xs)
  take-IsSorted zero xs s = tt
  take-IsSorted (suc n) [] s = tt
  take-IsSorted (suc n) (x ∷ xs) s = (take-All _ n xs s.0, take-IsSorted n xs s.1)

  drop-IsSorted : (n : ℕ) (xs : List A) → IsSorted before xs → IsSorted before (drop n xs)
  drop-IsSorted zero xs s = s
  drop-IsSorted (suc n) [] s = tt
  drop-IsSorted (suc n) (x ∷ xs) s = drop-IsSorted n xs s.1

newer-IsOrder : IsOrder newer
newer-IsOrder = record { asym = λ a b. ground arith; trans = λ a b c. ground arith }

-- What a page shows of one event.
abbrev pub IsShown : Uuid → Time → Time → AuditEvent → Type 0
IsShown org from to e = (e.org_unit_id ≡ org) × (from ≤ e.occurred_at) × (e.occurred_at ≤ to)

in_range-IsShown :
    (org : Uuid) (from to : Time) (e : AuditEvent)
    → in_range org from to e ≡ true
    → IsShown org from to e
in_range-IsShown org from to e h = ground (arith, h)

query-All :
    (org : Uuid) (from to : Time) (limit offset : ℕ) (rows events : List AuditEvent)
    → query_audit_log false org from to limit offset rows ≡ ok events
    → All (IsShown org from to) events × (length events ≤ limit)
unfolding query_audit_log
query-All org from to limit offset rows events e =
    let kept = select (in_range org from to) rows in
    let shown : All (IsShown org from to) (sort newer kept) =
      sort-All newer (IsShown org from to) kept (
        select-All (IsShown org from to) (in_range org from to) rows
          (All-All (in_range-IsShown org from to) rows)) in
    let page = take limit (drop offset (sort newer kept)) in
    let same : page ≡ events = cc (e) in
    subst (λ l. All (IsShown org from to) l × (length l ≤ limit)) same
      (
        take-All _ limit (drop offset (sort newer kept))
            (drop-All _ offset (sort newer kept) shown),
        length-take limit (drop offset (sort newer kept)),
      )

-- Two pages that follow each other, of any sizes, are one page: paging loses no event and shows none twice while the log stands.
pub query-pages :
    (org : Uuid) (from to : Time) (m n offset : ℕ) (rows one two : List AuditEvent)
    → query_audit_log false org from to m offset rows ≡ ok one
    → query_audit_log false org from to n (offset + m) rows ≡ ok two
    → query_audit_log false org from to (m + n) offset rows ≡ ok (one ++ two)
unfolding query_audit_log
query-pages org from to m n offset rows one two e f =
    let ordered = sort newer (select (in_range org from to) rows) in
    let first : take m (drop offset ordered) ≡ one = cc (e) in
    let second : take n (drop (offset + m) ordered) ≡ two = cc (f) in
    ap ok
      (take_more m n (drop offset ordered) ∙ rw (drop-drop offset m ordered, first, second) refl)

query-IsSorted :
    (org : Uuid) (from to : Time) (limit offset : ℕ) (rows events : List AuditEvent)
    → query_audit_log false org from to limit offset rows ≡ ok events
    → IsSorted newer events
unfolding query_audit_log
query-IsSorted org from to limit offset rows events e =
    let kept = select (in_range org from to) rows in
    let same : take limit (drop offset (sort newer kept)) ≡ events = cc (e) in
    subst (IsSorted newer) same (
      take-IsSorted newer limit _ (drop-IsSorted newer offset _ (sort-IsSorted newer-IsOrder kept)))

query-fault :
    (fault : Bool) (org : Uuid) (from to : Time) (limit offset : ℕ) (rows events : List AuditEvent)
    → query_audit_log fault org from to limit offset rows ≡ ok events
    → query_audit_log false org from to limit offset rows ≡ ok events
unfolding query_audit_log
query-fault true org from to limit offset rows events e = cc
query-fault false org from to limit offset rows events e = e

limit_of-le : (v : Option ℤ) → limit_of v ≤ 1000
unfolding limit_of
limit_of-le v = ground arith

-- Whatever the parameters of the query say, a page that is answered has at most 1000 events, the newest first, all of the
-- organisation of the caller's key.
pub list_events-page :
    (now : Time) (c : Context) (q : LogQuery) (fault : Bool) (rows events : List AuditEvent)
    → list_events fault now c q rows ≡ answer events
    → (org : Uuid) × (c.org_unit_id ≡ some org)
      × (length events ≤ 1000)
      × IsSorted newer events
      × All (λ (e : AuditEvent). e.org_unit_id ≡ org) events
unfolding list_events
list_events-page now c q fault rows events h = elim (Option-cases c.org_unit_id) [
  | inl e ↦ absurd (ground (arith, h, e))
  | inr (org, e) ↦
      let from = or_time q.from (now - one_day) in
      let to = or_time q.to now in
      let limit = limit_of q.limit in
      let offset = offset_of q.offset in
      elim (Result-cases (query_audit_log fault org from to limit offset rows)) [
        | inl (x, f) ↦ absurd (ground (arith, h, e, f))
        | inr (page, f) ↦
            let same : page ≡ events = ground (arith, h, e, f) in
            let g = query-fault fault org from to limit offset rows events (f ∙ ap ok same) in
            let shown = query-All org from to limit offset rows events g in
            (
              org,
              e,
              omega (arith, shown.1, limit_of-le q.limit),
              query-IsSorted org from to limit offset rows events g,
              All-map (λ (a : AuditEvent) s. s.0) events shown.0,
            )
      ]
]
