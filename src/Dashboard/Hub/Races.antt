-- ===== src/Dashboard/Hub/Races.antt =====
-- control-plane/internal/dashboard/hub.go: a broadcast whose loop is interrupted, and the admission of clients.
use grid_token_util.Prelude.{
  suc, ◌≤◌, ◌≡◌, ◌⊎◌, Bool, true, false, none, some, some-injective, List, [], ◌∷◌, ◌++◌, find,
  update, arith, Bool-cases, inl, inr, refl, ap, ◌∙◌,
}
use grid_token_util.Domain.{Uuid}
use grid_token_util.Dashboard.Hub.{
  Event, Client, Hub, returned, panicked, total, has_id, register, serve_sse, unregister, send,
  send_where, with_clients, send_later,
}
use grid_token_util.Dashboard.Hub.Delivery.{IsIn, update-find}

-- A loop that reaches a closed channel panics.
send_where-panics :
    (id : Uuid) (e : Event) (cs : List Client) (c : Client)
    → find (has_id id) cs ≡ some c
    → c.is_open ≡ false
    → send_where (has_id id) e cs ≡ panicked
unfolding send_where send
send_where-panics id e [] c f closed = cc
send_where-panics id e (a ∷ cs) c f closed = elim (Bool-cases (has_id id a)) [
  | inl t ↦
      let same : a ≡ c = some-injective _ _ (rw t at f) in
      let shut : a.is_open ≡ false = ap (λ (x : Client). x.is_open) same ∙ closed in
      rw t (ground (arith, shut))
  | inr t ↦ rw (t, send_where-panics id e cs c (rw t at f) closed) refl
]

-- Where a broadcast has read a client from the map and the client's connection ends before the send, the send is to a closed
-- channel and the whole program panics.
pub send_later-panics :
    (h k : Hub) (c : Client) (e : Event)
    → IsIn c h
    → unregister c.id h ≡ returned k
    → send_later c.id e k ≡ panicked
unfolding unregister send_later
send_later-panics h k c e here r =
    let gone : Client → Client = λ c. record c { is_open = false; is_registered = false } in
    let found : find (has_id c.id) k.clients ≡ some (gone c) =
      ground (arith, r, update-find (has_id c.id) gone c.id h.clients c (λ c. refl) here.0) in
    ap (with_clients k) (send_where-panics c.id e k.clients (gone c) found refl)

total-same :
    (p : Client → Bool) (f : Client → Client) (cs : List Client)
    → ((c : Client) → (f c).is_registered ≡ c.is_registered)
    → total (update p f cs) ≡ total cs
unfolding total
total-same p f [] same = refl
total-same p f (c ∷ cs) same = ground (arith, same c, total-same p f cs same)

-- A connection is admitted exactly where it can be flushed and the map has fewer clients than the limit, and then the map has one
-- more; otherwise the hub stays as it is and the answer is 500 or 503.
pub serve_sse-total :
    (can_flush : Bool) (id org : Uuid) (connected : Event) (h : Hub)
    → let (k, refusal) = serve_sse can_flush id org connected h in
      ((refusal ≡ none)
        × (can_flush ≡ true)
        × (suc (total h.clients) ≤ h.max_clients)
        × (total k.clients ≡ suc (total h.clients)))
      ⊎ ((refusal ≡ some 500) × (can_flush ≡ false) × (k ≡ h))
      ⊎ ((refusal ≡ some 503) × (can_flush ≡ true) × (h.max_clients ≤ total h.clients) × (k ≡ h))
unfolding serve_sse register total
serve_sse-total can_flush id org connected h =
    let greet : Client → Client = λ c. record c { written = c.written ++ (connected ∷ []) } in
    ground (arith, total-same (has_id id) greet h.clients (λ c. refl))
