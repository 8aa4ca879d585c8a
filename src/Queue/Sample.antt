-- ===== src/Queue/Sample.antt =====
-- A list of members and scores, no member twice: one way to meet the interface of the queue.
use grid_token_util.Prelude.{
  ℕ, ◌≡◌, refl, sym, ◌==◌, Bool, false, Option, none, some, List, [], ◌∷◌, if◌then◌else◌, arith,
  inl, inr, length, All, Memᴰ, Bool-cases, some-injective, ◌∙◌, ap, subst,
}
use grid_token_util.Prelude.Int.{ℤ, pos, ltb_ℤ, ◌≤ℤ◌}
use grid_token_util.Prelude.Order.{IsOrder, first, first-least, first-none, first-Memᴰ}
use grid_token_util.Domain.{Uuid}
use grid_token_util.Queue.{SortedSet, score}

abbrev Entry : Type 0
Entry = Uuid × ℤ

lookup : Uuid → List Entry → Option ℤ
lookup n [] = none
lookup n ((m, x) ∷ s) = if m == n then some x else lookup n s

remove : Uuid → List Entry → List Entry
remove n [] = []
remove n ((m, x) ∷ s) = let rest = remove n s in if n == m then rest else (m, x) ∷ rest

lookup-remove :
    (m n : Uuid) (s : List Entry) → lookup n (remove m s) ≡ (if m == n then none else lookup n s)
unfolding lookup remove
lookup-remove m n [] = ground arith
lookup-remove m n ((k, x) ∷ s) = ground (arith, lookup-remove m n s)

abbrev IsFresh : List Entry → Type 0
IsFresh [] = Unit {0}
IsFresh ((m, x) ∷ s) = (lookup m s ≡ none) × IsFresh s

remove-IsFresh : (m : Uuid) (s : List Entry) → IsFresh s → IsFresh (remove m s)
unfolding remove
remove-IsFresh m [] f = tt
remove-IsFresh m ((k, x) ∷ s) f = elim (Bool-cases (m == k)) [
  | inl e ↦ rw e (remove-IsFresh m s f.1)
  | inr e ↦ rw e (ground (arith, lookup-remove m k s), remove-IsFresh m s f.1)
]

abbrev greater : Entry → Entry → Bool
greater a b = ltb_ℤ b.1 a.1

greater-IsOrder : IsOrder greater
greater-IsOrder = record { asym = λ a b h. ground arith; trans = λ a b c h k. ground arith }

abbrev Members : Type 0
Members = record { entries : List Entry; fresh : IsFresh entries }

lookup-All :
    (P : Entry → Type 0) (n : Uuid) (y : ℤ) (s : List Entry)
    → All P s
    → lookup n s ≡ some y
    → P (n, y)
unfolding lookup
lookup-All P n y [] all h = cc
lookup-All P n y ((m, x) ∷ s) all h = elim (Bool-cases (m == n)) [
  | inl e ↦ subst (λ k. P (k, y)) (ground arith) (subst (λ z. P (m, z)) (ground arith) all.0)
  | inr e ↦ lookup-All P n y s all.1 (ground arith)
]

lookup-Memᴰ : (m : Uuid) (x : ℤ) (s : List Entry) → IsFresh s → Memᴰ (m, x) s → lookup m s ≡ some x
unfolding lookup
lookup-Memᴰ m x [] f i = elim i [ ]
lookup-Memᴰ m x ((k, y) ∷ s) f (Memᴰ.head e) = ground arith
lookup-Memᴰ m x ((k, y) ∷ s) f (Memᴰ.tail i) = ground (arith, lookup-Memᴰ m x s f.1 i)

popped : Members → Option Entry → Option (Uuid × Members)
popped s none = none
popped s (some (m, x)) =
    some (m, record { entries = remove m s.entries; fresh = remove-IsFresh m s.entries s.fresh })

popped-none : (s : Members) (o : Option Entry) → popped s o ≡ none → o ≡ none
unfolding popped
popped-none s none h = refl
popped-none s (some e) h = cc

popped-some :
    (s t : Members) (m : Uuid) (o : Option Entry)
    → popped s o ≡ some (m, t)
    → (x : ℤ) × (o ≡ some (m, x)) × (t.entries ≡ remove m s.entries)
unfolding popped
popped-some s t m none h = cc
popped-some s t m (some (k, x)) h =
    let p = some-injective _ _ h in
    let q = ap (λ z. z.0) p in
    (x, ap (λ z. some (z, x)) q, sym (ap (λ z. z.1.entries) p) ∙ ap (λ z. remove z s.entries) q)

pop : Members → Option (Uuid × Members)
pop s = popped s (first greater s.entries)

pop-none : (s : Members) (n : Uuid) → pop s ≡ none → lookup n s.entries ≡ none
unfolding pop lookup
pop-none s n h = rw (first-none greater s.entries (popped-none s (first greater s.entries) h)) refl

pop-rest :
    (s t : Members) (m n : Uuid)
    → pop s ≡ some (m, t)
    → lookup n t.entries ≡ (if m == n then none else lookup n s.entries)
unfolding pop
pop-rest s t m n h =
    rw ((popped-some s t m (first greater s.entries) h).2) (lookup-remove m n s.entries)

not_greater : (x y : ℤ) → ltb_ℤ x y ≡ false → y ≤ℤ x
not_greater x y h = ground arith

pop-greatest :
    (s t : Members) (m n : Uuid) (y : ℤ)
    → pop s ≡ some (m, t)
    → lookup n s.entries ≡ some y
    → (x : ℤ) × (lookup m s.entries ≡ some x) × (y ≤ℤ x)
unfolding pop
pop-greatest s t m n y h k =
    let (x, p, q) = popped-some s t m (first greater s.entries) h in
    (
      x,
      lookup-Memᴰ m x s.entries s.fresh (first-Memᴰ greater s.entries (m, x) p),
      not_greater x y (
          lookup-All (λ e. greater e (m, x) ≡ false) n y s.entries
            (first-least greater-IsOrder s.entries (m, x) p) k),
    )

test-same : {A : Type 0} (m : ℕ) (a b : A) → (if m == m then a else b) ≡ a
test-same m a b = ground arith

test-under :
    {A : Type 0} (m n : ℕ) (a b c : A)
    → (if m == n then a else if m == n then b else c) ≡ (if m == n then a else c)
test-under m n a b c = ground arith

put : Uuid → ℤ → Members → Members
put m x s = record {
  entries = (m, x) ∷ remove m s.entries;
  fresh = (
    lookup-remove m m s.entries ∙ test-same m none (lookup m s.entries),
    remove-IsFresh m s.entries s.fresh,
  );
}

lookup-put :
    (s : Members) (m n : Uuid) (x : ℤ)
    → lookup n (put m x s).entries ≡ (if m == n then some x else lookup n s.entries)
unfolding put lookup
lookup-put s m n x =
    rw (lookup-remove m n s.entries) (test-under m n (some x) none (lookup n s.entries))

-- The empty set; the interface; two tasks that wait, the first with priority 1 and the second with 0.
abbrev no_members : Members
no_members = record { entries = []; fresh = tt }

pub sample_queue : SortedSet
unfolding lookup put remove pop
sample_queue = record {
  Carrier = Members;
  score_of = λ s n. lookup n s.entries;
  zadd = λ s m x. put m x s;
  zrem = λ s m. record { entries = remove m s.entries; fresh = remove-IsFresh m s.entries s.fresh };
  zpopmax = pop;
  zcard = λ s. length s.entries;
  round = λ n. n;
  round-exact = λ n low high. refl;
  score_of-zadd = lookup-put;
  score_of-zrem = λ s m n. lookup-remove m n s.entries;
  zpopmax-none = pop-none;
  zpopmax-greatest = pop-greatest;
  zpopmax-rest = pop-rest;
}

pub two_waiting : sample_queue.Carrier
unfolding sample_queue put remove
two_waiting =
    put 2 (score sample_queue (pos 0) 0) (put 1 (score sample_queue (pos 1) 20000000000) no_members)

pub two_waiting-first :
    sample_queue.score_of two_waiting 1 ≡ some (score sample_queue (pos 1) 20000000000)
unfolding two_waiting sample_queue score lookup put remove
two_waiting-first = refl

pub two_waiting-second : sample_queue.score_of two_waiting 2 ≡ some (score sample_queue (pos 0) 0)
unfolding two_waiting sample_queue score lookup put remove
two_waiting-second = refl
