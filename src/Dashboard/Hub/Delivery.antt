-- ===== src/Dashboard/Hub/Delivery.antt =====
-- control-plane/internal/dashboard/hub.go: what one client gets, whatever the other clients do.
use grid_token_util.Prelude.{
  ◌≡◌, ◌≢◌, ◌==◌, Bool, true, false, some, some-injective, List, [], ◌∷◌, ◌++◌, if◌then◌else◌, find,
  update, arith, Bool-cases, inl, inr, refl, ap, ◌∙◌,
}
use grid_token_util.Domain.{Uuid}
use grid_token_util.Dashboard.Hub.{
  Event, Client, Hub, Outcome, returned, panicked, register, has_id, serve_sse, unregister, send,
  send_if, send_where, with_clients, send_later, write_next, serve_next, Call, joins, leaves,
  sends_to, serves, step,
}
use grid_token_util.Dashboard.Hub.Sends.{both_returned, enqueue}

-- What a call does to one client that it neither registers nor unregisters.
unfoldable pub follow : Call → Client → Client
follow (joins _ _ _ _) c = c
follow (leaves _) c = c
follow (sends_to id e) c = if c.id == id then enqueue e c else c
follow (serves id) c = if c.id == id then write_next c else c

unfoldable pub follow_all : List Call → Client → Client
follow_all [] c = c
follow_all (call ∷ calls) c = follow_all calls (follow call c)

-- The call is not about the client `id` itself; a new identifier is not one that is there.
abbrev pub IsOther : Uuid → Call → Type 0
IsOther id (joins _ j _ _) = j ≢ id
IsOther id (leaves j) = j ≢ id
IsOther id _ = Unit

-- A search finds a client that is changed, where its identifier is not.
cons_find :
    (id : Uuid) (a c : Client) (cs ds : List Client) (g : Client → Client)
    → ((c : Client) → (g c).id ≡ c.id)
    → find (has_id id) (a ∷ cs) ≡ some c
    → (find (has_id id) cs ≡ some c → find (has_id id) ds ≡ some (g c))
    → find (has_id id) (g a ∷ ds) ≡ some (g c)
cons_find id a c cs ds g keeps f rest = elim (Bool-cases (has_id id a)) [
  | inl t ↦
      rw (ap (λ n. n == id) (keeps a) ∙ t) (ap (λ x. some (g x)) (some-injective _ _ (rw t at f)))
  | inr t ↦ rw (ap (λ n. n == id) (keeps a) ∙ t) (rest (rw t at f))
]

enqueue-id : (e : Event) (c : Client) → (enqueue e c).id ≡ c.id
unfolding enqueue
enqueue-id e c = ground arith

sent-same :
    (b : Bool) (e : Event) (c d : Client)
    → send_if b e c ≡ returned d
    → d ≡ (if b then enqueue e c else c)
unfolding send enqueue
sent-same b e c d r = ground (arith, r)

send_where-find :
    (p : Client → Bool) (e : Event) (id : Uuid) (cs ds : List Client) (c : Client)
    → send_where p e cs ≡ returned ds
    → find (has_id id) cs ≡ some c
    → find (has_id id) ds ≡ some (if p c then enqueue e c else c)
unfolding send_where
send_where-find p e id [] ds c r f = cc
send_where-find p e id (a ∷ cs) ds c r f =
    let (d, more, rd, rmore, same) = both_returned _ (send_where p e cs) ds r in
    let g : Client → Client = λ c. if p c then enqueue e c else c in
    rw (same, sent-same (p a) e a d rd)
      (cons_find id a c cs more g (λ c. ground (arith, enqueue-id e c)) f
        (send_where-find p e id cs more c rmore))

pub update-find :
    (q : Client → Bool) (g : Client → Client) (id : Uuid) (cs : List Client) (c : Client)
    → ((c : Client) → (g c).id ≡ c.id)
    → find (has_id id) cs ≡ some c
    → find (has_id id) (update q g cs) ≡ some (if q c then g c else c)
update-find q g id [] c keeps f = cc
update-find q g id (a ∷ cs) c keeps f =
    cons_find id a c cs (update q g cs) (λ c. if q c then g c else c) (λ c. ground (arith, keeps c))
      f (update-find q g id cs c keeps)

with_clients-returned :
    (h k : Hub) (o : Outcome (List Client))
    → with_clients h o ≡ returned k
    → o ≡ returned (k.clients)
with_clients-returned h k panicked r = cc
with_clients-returned h k (returned ds) r = ground (arith, r)

-- The client that a search by identifier finds in the map.
abbrev pub IsIn : Client → Hub → Type 0
IsIn c h = (find (has_id c.id) h.clients ≡ some c) × (c.is_registered ≡ true)

module _ (h k : Hub) (c : Client) (here : IsIn c h) where
  sending-find :
      (p : Client → Bool) (e : Event)
      → with_clients h (send_where p e h.clients) ≡ returned k
      → find (has_id c.id) k.clients ≡ some (if p c then enqueue e c else c)
  sending-find p e r =
      send_where-find p e c.id h.clients k.clients c (with_clients-returned h k _ r) here.0

  join-find :
      (can_flush : Bool) (id org : Uuid) (connected : Event)
      → id ≢ c.id
      → find (has_id c.id) (serve_sse can_flush id org connected h).0.clients ≡ some c
  unfolding serve_sse register
  join-find can_flush id org connected other =
      let greet : Client → Client = λ c. record c { written = c.written ++ (connected ∷ []) } in
      ground
        (arith, here.0, other, update-find (has_id id) greet c.id h.clients c (λ c. refl) here.0)

  leave-find :
      (id : Uuid) → id ≢ c.id → unregister id h ≡ returned k → find (has_id c.id) k.clients ≡ some c
  unfolding unregister
  leave-find id other r =
      let gone : Client → Client = λ c. record c { is_open = false; is_registered = false } in
      ground
        (arith, here.0, other, r, update-find (has_id id) gone c.id h.clients c (λ c. refl) here.0)

  pub step-find :
      (call : Call)
      → IsOther c.id call
      → step call h ≡ returned k
      → find (has_id c.id) k.clients ≡ some (follow call c)
  unfolding step send_later serve_next follow write_next
  step-find (joins can_flush id org connected) other r =
      ground (arith, r, join-find can_flush id org connected other)
  step-find (leaves id) other r = leave-find id other r
  step-find (sends_to id e) other r = ground (arith, sending-find (has_id id) e r)
  step-find (serves id) other r =
      ground
        (arith, r, update-find (has_id id) write_next c.id h.clients c (λ c. ground arith) here.0)
