-- ===== src/Dashboard/Hub/Sends.antt =====
-- control-plane/internal/dashboard/hub.go: one send, and the loop over the clients.
use grid_token_util.Prelude.{
  ◌≤◌, ◌≡◌, Bool, true, List, [], ◌∷◌, ◌++◌, if◌then◌else◌, ltb, length, length-append, All, arith,
  refl,
}
use grid_token_util.Dashboard.Hub.{
  Event, Client, Outcome, returned, panicked, total, capacity, send, send_if, both, send_where,
}

-- A client in the map has an open channel and the others a closed one, and no channel holds more than its capacity.
pub record IsSound (c : Client) : Type 0 where
  pub open_iff : c.is_open ≡ c.is_registered
  pub bounded : length c.channel ≤ capacity

pub both_returned :
    (o : Outcome Client) (rest : Outcome (List Client)) (ds : List Client)
    → both o rest ≡ returned ds
    → (d : Client) × (more : List Client) × (o ≡ returned d)
      × (rest ≡ returned more)
      × (ds ≡ d ∷ more)
both_returned panicked rest ds r = cc
both_returned (returned d) panicked ds r = cc
both_returned (returned d) (returned more) ds r = (d, more, refl, refl, cc)

send_if-IsSound :
    (b : Bool) (e : Event) (c d : Client)
    → IsSound c
    → send_if b e c ≡ returned d
    → IsSound d × (d.is_registered ≡ c.is_registered)
unfolding send
send_if-IsSound b e c d s r = ground (arith, length-append c.channel (e ∷ []))

pub send_where-IsSound :
    (p : Client → Bool) (e : Event) (cs ds : List Client)
    → All IsSound cs
    → send_where p e cs ≡ returned ds
    → All IsSound ds × (total ds ≡ total cs)
unfolding send_where total
send_where-IsSound p e [] [] all r = (tt, refl)
send_where-IsSound p e [] (d ∷ ds) all r = cc
send_where-IsSound p e (c ∷ cs) ds all r =
    let (d, more, rd, rmore, same) = both_returned _ (send_where p e cs) ds r in
    let now = send_if-IsSound (p c) e c d all.0 rd in
    let rest = send_where-IsSound p e cs more all.1 rmore in
    rw same ((now.0, rest.0), ground (arith, now.1, rest.1))

-- A send to an open channel, with its drop.
unfoldable pub enqueue : Event → Client → Client
enqueue e c =
    if ltb (length c.channel) capacity then record c { channel = c.channel ++ (e ∷ []) } else c

pub send_if-enqueue :
    (b : Bool) (e : Event) (c : Client)
    → (b ≡ true → c.is_open ≡ true)
    → send_if b e c ≡ returned (if b then enqueue e c else c)
unfolding send enqueue
send_if-enqueue b e c h = ground (arith, h)

-- A loop that sends only to open channels does not panic.
pub send_where-returns :
    (p : Client → Bool) (e : Event) (cs : List Client)
    → All (λ (c : Client). p c ≡ true → c.is_open ≡ true) cs
    → (ds : List Client) × (send_where p e cs ≡ returned ds)
unfolding send_where
send_where-returns p e [] all = ([], refl)
send_where-returns p e (c ∷ cs) all =
    let (ds, r) = send_where-returns p e cs all.1 in
    ((if p c then enqueue e c else c) ∷ ds, rw (r, send_if-enqueue (p c) e c all.0) refl)
