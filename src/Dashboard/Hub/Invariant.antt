-- ===== src/Dashboard/Hub/Invariant.antt =====
-- control-plane/internal/dashboard/hub.go: what every call keeps.
use grid_token_util.Prelude.{
  ℕ, ◌≤◌, ◌≡◌, Bool, true, false, not, ◌&&◌, some, List, [], ◌∷◌, ◌++◌, exists, exists-All, ◌⊎◌,
  update, update-All, All, All-map, arith, Option-cases, Bool-cases, inl, inr, refl, ap,
}
use grid_token_util.Domain.{Uuid}
use grid_token_util.Dashboard.Hub.{
  Event, Client, Hub, Outcome, returned, panicked, new_hub, total, register, has_id, serve_sse,
  unregister, send_where, with_clients, send_later, write_next, serve_next, and_then,
  broadcast_from, first_gap, other_gaps, Gap, Call, joins, leaves, sends_to, serves, step, run,
}
use grid_token_util.Dashboard.Hub.Sends.{IsSound, send_where-IsSound, send_where-returns}

pub record Inv (h : Hub) : Type 0 where
  pub sound : All IsSound h.clients
  pub few : total h.clients ≤ h.max_clients

with_clients-Inv :
    (h k : Hub) (o : Outcome (List Client))
    → ((ds : List Client) → o ≡ returned ds → All IsSound ds × (total ds ≤ h.max_clients))
    → with_clients h o ≡ returned k
    → Inv k
with_clients-Inv h k panicked f r = cc
with_clients-Inv h k (returned ds) f r = ground (arith, f ds refl)

sending-Inv :
    (p : Client → Bool) (e : Event) (h k : Hub)
    → Inv h
    → with_clients h (send_where p e h.clients) ≡ returned k
    → Inv k
sending-Inv p e h k i r =
    with_clients-Inv h k (send_where p e h.clients)
      (λ ds s. ground (arith, send_where-IsSound p e h.clients ds i.sound s, i.few)) r

total-update :
    (p : Client → Bool) (f : Client → Client) (cs : List Client)
    → ((c : Client) → c.is_registered ≡ false → (f c).is_registered ≡ false)
    → total (update p f cs) ≤ total cs
unfolding total
total-update p f [] stays = omega arith
total-update p f (c ∷ cs) stays = ground (arith, stays c, total-update p f cs stays)

-- Changing clients neither adds to the map nor breaks a channel.
update-Inv :
    (p : Client → Bool) (f : Client → Client) (h : Hub)
    → ((c : Client) → IsSound c → IsSound (f c))
    → ((c : Client) → c.is_registered ≡ false → (f c).is_registered ≡ false)
    → Inv h
    → Inv (record h { clients = update p f h.clients })
update-Inv p f h keeps stays i = record {
  sound = update-All p f h.clients (λ c s e. keeps c s) (λ c s e. s) i.sound;
  few = omega (arith, total-update p f h.clients stays, i.few);
}

register-Inv : (id org : Uuid) (h k : Hub) → Inv h → register id org h ≡ some k → Inv k
unfolding register total
register-Inv id org h k i e = ground (arith, i.few, i.sound)

serve_sse-Inv :
    (can_flush : Bool) (id org : Uuid) (connected : Event) (h : Hub)
    → Inv h
    → Inv (serve_sse can_flush id org connected h).0
unfolding serve_sse
serve_sse-Inv can_flush id org connected h i = elim (Option-cases (register id org h)) [
  | inl e ↦ ground (arith, e, i)
  | inr (k, e) ↦
      let greet : Client → Client = λ c. record c { written = c.written ++ (connected ∷ []) } in
      let greeted =
        update-Inv (has_id id) greet k
          (λ c s. record { open_iff = s.open_iff; bounded = s.bounded }) (λ c r. r)
          (register-Inv id org h k i e) in
      ground (arith, e, i, greeted)
]

unregister-Inv : (id : Uuid) (h k : Hub) → Inv h → unregister id h ≡ returned k → Inv k
unfolding unregister
unregister-Inv id h k i r =
    let gone : Client → Client = λ c. record c { is_open = false; is_registered = false } in
    let left =
      update-Inv (has_id id) gone h (λ c s. record { open_iff = refl; bounded = s.bounded })
        (λ c e. refl) i in
    ground (arith, left)

write_next-IsSound : (c : Client) → IsSound c → IsSound (write_next c)
unfolding write_next
write_next-IsSound c s = ground (arith, s.bounded, s.open_iff)

-- Every call keeps the limit of clients, the bound of the channels, and the agreement of the map with the open channels.
pub step-Inv : (call : Call) (h k : Hub) → Inv h → step call h ≡ returned k → Inv k
unfolding step send_later serve_next write_next
step-Inv (joins can_flush id org connected) h k i r =
    ground (arith, serve_sse-Inv can_flush id org connected h i)
step-Inv (leaves id) h k i r = unregister-Inv id h k i r
step-Inv (sends_to id e) h k i r = sending-Inv (has_id id) e h k i r
step-Inv (serves id) h k i r =
    let served =
      update-Inv (has_id id) write_next h write_next-IsSound (λ c e. ground (arith, e)) i in
    ground (arith, served)

-- The client that a call closes is not closed already: `ServeSSE` unregisters its own client, once. The client that a broadcast
-- sends to has not left.
abbrev pub IsPermitted : Call → Hub → Type 0
IsPermitted (leaves id) h = exists (λ c. has_id id c && not c.is_open) h.clients ≡ false
IsPermitted (sends_to id e) h = exists (λ c. has_id id c && not c.is_open) h.clients ≡ false
IsPermitted _ h = Unit

permitted-open :
    (id : Uuid) (cs : List Client)
    → exists (λ c. has_id id c && not c.is_open) cs ≡ false
    → All (λ (c : Client). has_id id c ≡ true → c.is_open ≡ true) cs
permitted-open id cs h =
    All-map (λ c s e. ground (arith, s, e)) cs (exists-All (λ c. has_id id c && not c.is_open) cs h)

pub step-returns :
    (call : Call) (h : Hub) → Inv h → IsPermitted call h → (k : Hub) × (step call h ≡ returned k)
unfolding step send_later unregister
step-returns (joins can_flush id org connected) h i p = (_, refl)
step-returns (leaves id) h i p =
    let gone : Client → Client = λ c. record c { is_open = false; is_registered = false } in
    (record h { clients = update (has_id id) gone h.clients }, rw p refl)
step-returns (sends_to id e) h i p =
    let (ds, r) = send_where-returns (has_id id) e h.clients (permitted-open id h.clients p) in
    (record h { clients = ds }, ap (with_clients h) r)
step-returns (serves id) h i p = (_, refl)

-- Each call is permitted where it comes.
unfoldable pub ArePermitted : List Call → Hub → Type 0
ArePermitted [] h = Unit
ArePermitted (call ∷ calls) h =
    IsPermitted call h × ((k : Hub) → step call h ≡ returned k → ArePermitted calls k)

with_clients-max :
    (h k : Hub) (o : Outcome (List Client))
    → with_clients h o ≡ returned k
    → k.max_clients ≡ h.max_clients
with_clients-max h k panicked r = cc
with_clients-max h k (returned ds) r = ground (arith, r)

step-max : (call : Call) (h k : Hub) → step call h ≡ returned k → k.max_clients ≡ h.max_clients
unfolding step serve_sse register unregister send_later serve_next
step-max (joins can_flush id org connected) h k r = ground (arith, r)
step-max (leaves id) h k r = ground (arith, r)
step-max (sends_to id e) h k r = with_clients-max h k _ r
step-max (serves id) h k r = ground (arith, r)

pub run-Inv_from :
    (calls : List Call) (h : Hub)
    → Inv h
    → ArePermitted calls h
    → (k : Hub) × (run calls h ≡ returned k) × Inv k × (k.max_clients ≡ h.max_clients)
unfolding run ArePermitted
run-Inv_from [] h i p = (h, refl, i, refl)
run-Inv_from (call ∷ calls) h i p =
    let (next, r) = step-returns call h i p.0 in
    let (k, e, j, same) = run-Inv_from calls next (step-Inv call h next i r) (p.1 next r) in
    (k, rw (r, run) e, j, omega (arith, same, step-max call h next r))

Outcome-cases : (o : Outcome Hub) → (o ≡ panicked) ⊎ ((k : Hub) × (o ≡ returned k))
Outcome-cases panicked = inl refl
Outcome-cases (returned k) = inr (k, refl)

pub run_cons :
    (call : Call) (calls : List Call) (h k : Hub)
    → run (call ∷ calls) h ≡ returned k
    → (m : Hub) × (step call h ≡ returned m) × (run calls m ≡ returned k)
unfolding run
run_cons call calls h k r = elim (Outcome-cases (step call h)) [
  | inl e ↦ cc (rw (e, run) at r)
  | inr (m, e) ↦ (m, e, rw (e, run) at r)
]

run-Inv : (calls : List Call) (h k : Hub) → Inv h → run calls h ≡ returned k → Inv k
unfolding run
run-Inv [] h k i r = ground (arith, i, r)
run-Inv (call ∷ calls) h k i r =
    let (m, now, rest) = run_cons call calls h k r in
    run-Inv calls m k (step-Inv call h m i now) rest

and_then_returned :
    (o : Outcome Hub) (f : Hub → Outcome Hub) (k : Hub)
    → and_then o f ≡ returned k
    → (m : Hub) × (o ≡ returned m) × (f m ≡ returned k)
and_then_returned panicked f k r = cc
and_then_returned (returned m) f k r = (m, refl, r)

sent-Inv : (id : Uuid) (e : Event) (h k : Hub) → Inv h → send_later id e h ≡ returned k → Inv k
unfolding send_later
sent-Inv id e h k i r = sending-Inv (has_id id) e h k i r

-- A broadcast that does not panic leaves a sound hub sound, whatever runs in between.
pub broadcast_from-Inv :
    (e : Event) (ids : List Uuid) (gaps : List Gap) (h k : Hub)
    → Inv h
    → broadcast_from e ids gaps h ≡ returned k
    → Inv k
unfolding broadcast_from
broadcast_from-Inv e [] gaps h k i r = ground (arith, i, r)
broadcast_from-Inv e (id ∷ ids) gaps h k i r =
    let (m, first, rest) = and_then_returned (run (first_gap gaps).before h) _ k r in
    let j = run-Inv (first_gap gaps).before h m i first in
    elim (Bool-cases (exists (λ c. has_id id c && c.is_registered) m.clients)) [
      | inr f ↦ broadcast_from-Inv e ids (other_gaps gaps) m k j (rw f at rest)
      | inl f ↦
          let (n, second, later) =
            and_then_returned (run (first_gap gaps).between m) _ k (rw f at rest) in
          let (o, sent, more) = and_then_returned (send_later id e n) _ k later in
          broadcast_from-Inv e ids (other_gaps gaps) o k
            (sent-Inv id e n o (run-Inv (first_gap gaps).between m n j second) sent) more
    ]

-- From an empty hub every run in which no client is unregistered twice, and no send of a broadcast is to a client that has left
-- since the loop reached it, goes on without a panic, and after it the map has at most the
-- configured number of clients, its clients are those with an open channel, and no channel holds more than 32 events.
pub run_bounded :
    (calls : List Call) (n : ℕ)
    → ArePermitted calls (new_hub n)
    → (k : Hub) × (run calls (new_hub n) ≡ returned k)
      × (total k.clients ≤ n)
      × All IsSound k.clients
unfolding total
run_bounded calls n p =
    let start : Inv (new_hub n) = record { sound = tt; few = omega arith } in
    let (k, e, i, same) = run-Inv_from calls (new_hub n) start p in
    (k, e, omega (arith, i.few, same), i.sound)
