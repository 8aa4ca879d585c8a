-- ===== src/Worker/Monitor/Consecutive.antt =====
-- Which measurements make grid-worker/internal/executor/monitor.go kill a task.
use grid_token_util.Prelude.{
  ℕ, ◌≡◌, refl, Bool, true, false, not, ◌&&◌, ◌||◌, Option, none, some, List, [], ◌∷◌,
  if◌then◌else◌, arith, Bool-cases, inl, inr,
}
use grid_token_util.Prelude.Int.{ℤ, pos, ltb_ℤ, leb_ℤ}
use grid_token_util.Worker.Monitor.{Limits, Sample, check_cpu, check_ram, kills_from, kills}

-- Whether a measurement leaves one violation behind, and whether it is the second one: a failed one counts for
-- nothing.
abbrev pub is_over : ℤ → Bool → Option ℤ → Bool
is_over limit last none = last
is_over limit last (some x) = if leb_ℤ limit (pos 0) then last else ltb_ℤ limit x

abbrev pub is_second : ℤ → Bool → Option ℤ → Bool
is_second limit last none = false
is_second limit last (some x) = last && not (leb_ℤ limit (pos 0)) && ltb_ℤ limit x

-- Two adjacent measurements over a limit that is set; `last` tells whether the one before was over it.
unfoldable pub twice_over : ℤ → Bool → List (Option ℤ) → Bool
twice_over limit last [] = false
twice_over limit last (x ∷ xs) =
    let rest = twice_over limit (is_over limit last x) xs in is_second limit last x || rest

abbrev pub cpus : List Sample → List (Option ℤ)
cpus [] = []
cpus (s ∷ ss) = s.cpu ∷ cpus ss

abbrev pub rams : List Sample → List (Option ℤ)
rams [] = []
rams (s ∷ ss) = s.ram ∷ rams ss

abbrev count : Bool → ℕ
count false = 0
count true = 1

check_cpu-step :
    (limit : ℤ) (last : Bool) (x : Option ℤ)
    → is_second limit last x ≡ false
    → check_cpu limit x (count last) ≡ (count (is_over limit last x), true)
unfolding check_cpu
check_cpu-step limit true none h = refl
check_cpu-step limit false none h = refl
check_cpu-step limit true (some x) h = ground arith
check_cpu-step limit false (some x) h = ground arith

check_cpu-second :
    (limit : ℤ) (last : Bool) (x : Option ℤ)
    → is_second limit last x ≡ true
    → (check_cpu limit x (count last)).1 ≡ false
unfolding check_cpu
check_cpu-second limit true none h = cc
check_cpu-second limit false none h = cc
check_cpu-second limit true (some x) h = ground arith
check_cpu-second limit false (some x) h = ground arith

-- Both checks are the same function.
check_ram-check_cpu : (limit : ℤ) (x : Option ℤ) (n : ℕ) → check_ram limit x n ≡ check_cpu limit x n
unfolding check_cpu check_ram
check_ram-check_cpu limit none n = refl
check_ram-check_cpu limit (some x) n = refl

kills_from-twice_over :
    (l : Limits) (ss : List Sample) (c r : Bool)
    → kills_from l (count c) (count r) ss
      ≡ (twice_over l.max_cpu_percent c (cpus ss) || twice_over l.max_ram_mb r (rams ss))
unfolding kills_from twice_over
kills_from-twice_over l [] c r = refl
kills_from-twice_over l (s ∷ ss) c r =
    rw (check_ram-check_cpu l.max_ram_mb s.ram (count r))
      (elim (Bool-cases (is_second l.max_cpu_percent c s.cpu)) [
        | inl h ↦ rw h (rw (check_cpu-second l.max_cpu_percent c s.cpu h) refl)
        | inr h ↦ rw h (
            rw (check_cpu-step l.max_cpu_percent c s.cpu h)
              (elim (Bool-cases (is_second l.max_ram_mb r s.ram)) [
                | inl k ↦ rw k (rw (check_cpu-second l.max_ram_mb r s.ram k) (ground arith))
                | inr k ↦
                    rw k
                      (rw (check_cpu-step l.max_ram_mb r s.ram k) (kills_from-twice_over l ss _ _))
              ]))
      ])

-- A task is killed exactly when its processor or its memory is over the limit at two measurements with no
-- successful one between them; a limit of 0 or less is none.
pub kills-twice_over :
    (l : Limits) (ss : List Sample)
    → kills l ss
      ≡ (twice_over l.max_cpu_percent false (cpus ss) || twice_over l.max_ram_mb false (rams ss))
unfolding kills
kills-twice_over l ss = kills_from-twice_over l ss false false
