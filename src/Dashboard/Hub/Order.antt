-- ===== src/Dashboard/Hub/Order.antt =====
-- control-plane/internal/dashboard/hub.go: the events of one client, in the order in which they come.
use grid_token_util.Prelude.{
  ◌+◌, ◌≤◌, ◌≡◌, ◌==◌, ◌⊎◌, some, List, [], ◌∷◌, ◌++◌, if◌then◌else◌, ltb, length, length-append,
  find, arith, inl, inr, refl, sym, subst, ap, ◌∙◌,
}
use grid_token_util.Domain.{Uuid}
use grid_token_util.Dashboard.Hub.{
  Event, Client, Hub, returned, capacity, has_id, write_next, Call, joins, leaves, sends_to, serves,
  run,
}
use grid_token_util.Dashboard.Hub.Sends.{enqueue}
use grid_token_util.Dashboard.Hub.Invariant.{run_cons}
use grid_token_util.Dashboard.Hub.Delivery.{follow, follow_all, IsOther, IsIn, step-find}

-- The events that broadcasts send to a client.
unfoldable pub addressed : Uuid → List Call → List Event
addressed id [] = []
addressed id (sends_to j e ∷ calls) =
    let rest = addressed id calls in if id == j then e ∷ rest else rest
addressed id (_ ∷ calls) = addressed id calls

-- The events that a channel with room takes from them.
put : Event → Client → List Event
put e c = if ltb (length c.channel) capacity then e ∷ [] else []

taken : Call → Client → List Event
taken (sends_to id e) c = if c.id == id then put e c else []
taken _ c = []

accepted : List Call → Client → List Event
accepted [] c = []
accepted (call ∷ calls) c = taken call c ++ accepted calls (follow call c)

abbrev pub AreOther : Uuid → List Call → Type 0
AreOther id [] = Unit
AreOther id (call ∷ calls) = IsOther id call × AreOther id calls

-- The first list is the second with elements left out.
abbrev pub IsSub : List Event → List Event → Type 0
IsSub [] ys = Unit
IsSub (x ∷ xs) [] = ⊥
IsSub (x ∷ xs) (y ∷ ys) = ((x ≡ y) × IsSub xs ys) ⊎ IsSub (x ∷ xs) ys

abbrev pub stream : Client → List Event
stream c = c.written ++ c.channel

append_assoc : (xs ys zs : List Event) → (xs ++ ys) ++ zs ≡ xs ++ (ys ++ zs)
append_assoc [] ys zs = refl
append_assoc (x ∷ xs) ys zs = ap (λ l. x ∷ l) (append_assoc xs ys zs)

append-nil : (xs : List Event) → xs ++ [] ≡ xs
append-nil [] = refl
append-nil (x ∷ xs) = ap (λ l. x ∷ l) (append-nil xs)

List-cases : (xs : List Event) → (xs ≡ []) ⊎ ((x : Event) × (rest : List Event) × (xs ≡ x ∷ rest))
List-cases [] = inl refl
List-cases (x ∷ xs) = inr (x, xs, refl)

enqueue-stream : (e : Event) (c : Client) → stream (enqueue e c) ≡ stream c ++ put e c
unfolding enqueue put
enqueue-stream e c =
    ground (arith, append_assoc c.written c.channel (e ∷ []), append-nil (c.written ++ c.channel))

write_next-stream : (c : Client) → stream (write_next c) ≡ stream c
unfolding write_next
write_next-stream c = elim (List-cases c.channel) [
  | inl h ↦ ground (arith, h)
  | inr (e, rest, h) ↦ ground (arith, h, append_assoc c.written (e ∷ []) rest)
]

follow-stream : (call : Call) (c : Client) → stream (follow call c) ≡ stream c ++ taken call c
unfolding follow taken
follow-stream (joins _ _ _ _) c = sym (append-nil (stream c))
follow-stream (leaves _) c = sym (append-nil (stream c))
follow-stream (sends_to id e) c = ground (arith, enqueue-stream e c, append-nil (stream c))
follow-stream (serves id) c = ground (arith, write_next-stream c, append-nil (stream c))

follow_all-stream :
    (calls : List Call) (c : Client) → stream (follow_all calls c) ≡ stream c ++ accepted calls c
unfolding follow_all accepted
follow_all-stream [] c = sym (append-nil (stream c))
follow_all-stream (call ∷ calls) c =
    follow_all-stream calls (follow call c)
    ∙ ap (λ l. l ++ accepted calls (follow call c)) (follow-stream call c)
    ∙ append_assoc (stream c) (taken call c) (accepted calls (follow call c))

follow-org :
    (call : Call) (c : Client)
    → ((follow call c).org ≡ c.org)
      × ((follow call c).id ≡ c.id)
      × ((follow call c).is_registered ≡ c.is_registered)
unfolding follow enqueue write_next
follow-org (joins _ _ _ _) c = (refl, refl, refl)
follow-org (leaves _) c = (refl, refl, refl)
follow-org (sends_to id e) c = ground arith
follow-org (serves id) c = ground arith

IsSub-skip : (y : Event) (xs ys : List Event) → IsSub xs ys → IsSub xs (y ∷ ys)
IsSub-skip y [] ys s = tt
IsSub-skip y (x ∷ xs) ys s = inr s

taken-IsSub :
    (call : Call) (calls : List Call) (c : Client) (more : List Event)
    → IsSub more (addressed c.id calls)
    → IsSub (taken call c ++ more) (addressed c.id (call ∷ calls))
unfolding taken put addressed
taken-IsSub (joins _ _ _ _) calls c more s = s
taken-IsSub (leaves _) calls c more s = s
taken-IsSub (sends_to id e) calls c more s =
    ground (arith, s, IsSub-skip e more (addressed c.id calls) s)
taken-IsSub (serves _) calls c more s = s

accepted-IsSub : (calls : List Call) (c : Client) → IsSub (accepted calls c) (addressed c.id calls)
unfolding accepted
accepted-IsSub [] c = tt
accepted-IsSub (call ∷ calls) c = taken-IsSub call calls c (accepted calls (follow call c)) (
    subst (λ id. IsSub (accepted calls (follow call c)) (addressed id calls)) (follow-org call c).1
      (accepted-IsSub calls (follow call c)))

length-follow :
    (call : Call) (c : Client)
    → length (follow call c).channel ≤ length c.channel + length (taken call c)
unfolding follow enqueue write_next taken put
length-follow (joins _ _ _ _) c = omega arith
length-follow (leaves _) c = omega arith
length-follow (sends_to id e) c = ground (arith, length-append c.channel (e ∷ []))
length-follow (serves id) c = ground arith

taken-all :
    (call : Call) (calls : List Call) (c : Client)
    → length c.channel + length (addressed c.id (call ∷ calls)) ≤ capacity
    → (taken call c ++ addressed c.id calls ≡ addressed c.id (call ∷ calls))
      × (length (taken call c) + length (addressed c.id calls)
          ≡ length (addressed c.id (call ∷ calls)))
unfolding taken put addressed
taken-all (joins _ _ _ _) calls c h = (refl, omega arith)
taken-all (leaves _) calls c h = (refl, omega arith)
taken-all (sends_to id e) calls c h = ground arith
taken-all (serves _) calls c h = (refl, omega arith)

accepted-all :
    (calls : List Call) (c : Client)
    → length c.channel + length (addressed c.id calls) ≤ capacity
    → accepted calls c ≡ addressed c.id calls
unfolding accepted addressed
accepted-all [] c h = refl
accepted-all (call ∷ calls) c h =
    let (split, sizes) = taken-all call calls c h in
    let same = (follow-org call c).1 in
    let room : length (follow call c).channel + length (addressed (follow call c).id calls)
        ≤ capacity =
      rw same (omega (arith, sizes, length-follow call c, h)) in
    ap (λ l. taken call c ++ l)
      (accepted-all calls (follow call c) room ∙ ap (λ id. addressed id calls) same)
    ∙ split

run-follow :
    (calls : List Call) (h k : Hub) (c : Client)
    → IsIn c h
    → AreOther c.id calls
    → run calls h ≡ returned k
    → find (has_id c.id) k.clients ≡ some (follow_all calls c)
unfolding run follow_all
run-follow [] h k c here other r = ground (arith, here.0, r)
run-follow (call ∷ calls) h k c here other r =
    let (m, now, rest) = run_cons call calls h k r in
    let (org, id, registered) = follow-org call c in
    let found = step-find h m c here call other.0 now in
    let there : IsIn (follow call c) m = (
      subst (λ n. find (has_id n) m.clients ≡ some (follow call c)) (sym id) found,
      registered ∙ here.1,
    ) in
    subst (λ n. find (has_id n) k.clients ≡ some (follow_all calls (follow call c))) id
      (run-follow calls m k (follow call c) there (subst (λ n. AreOther n calls) (sym id) other.1)
        rest)

-- A client that is in the map is found after any run of calls that ends without a panic, unregisters other clients only and gives those
-- that join other identifiers, however the sends of broadcasts are interleaved with one another and with what other clients do. What it has been written, followed by
-- what waits in its channel, has grown by events that broadcasts sent to it, in the order in which they were sent, none twice and
-- some perhaps left out; none is left out where those that wait and those that are sent come to at most 32.
pub run-stream :
    (calls : List Call) (h k : Hub) (c : Client)
    → IsIn c h
    → AreOther c.id calls
    → run calls h ≡ returned k
    → (d : Client) × (new : List Event) × (find (has_id c.id) k.clients ≡ some d)
      × (stream d ≡ stream c ++ new)
      × IsSub new (addressed c.id calls)
      × (length c.channel + length (addressed c.id calls) ≤ capacity → new ≡ addressed c.id calls)
run-stream calls h k c here other r = (
  follow_all calls c,
  accepted calls c,
  run-follow calls h k c here other r,
  follow_all-stream calls c,
  accepted-IsSub calls c,
  accepted-all calls c,
)
