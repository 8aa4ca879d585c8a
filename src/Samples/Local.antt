-- ===== src/Samples/Local.antt =====
-- Runs of the control socket, the preflight checks and the configurations.
use grid_token_util.Prelude.{
  length, length-append, ◌+◌, ap, ◌∙◌, ℕ, zero, suc, ◌<◌, ◌≤◌, ◌≡◌, ◌⊎◌, ◌↔◌, refl, true, false,
  Option, none, some, [], ◌∷◌, ◌++◌, arith,
}
use grid_token_util.Prelude.Int.{pos}
use grid_token_util.Worker.Control.{
  Bytes, Command, Response, success, failure, Outcome, Codec, Handlers, frame, put_u32, dispatch,
  handler_of, respond_to, send_command, answered, no_response_length, Link, length_not_written,
  command_not_written,
}
use grid_token_util.Worker.Control.Exchange.{send_command-dispatch, send_command-refused}
use grid_token_util.Worker.Client.{Exchange}
use grid_token_util.Worker.Preflight.{System, Config, run_all, has_failures}
use grid_token_util.Worker.Preflight.Git.{is_space, git_verdict, recent}
use grid_token_util.Worker.Preflight.Version.{version_text, git_verdict-version}
use grid_token_util.Worker.Preflight.Verdict.{IsReady, has_failures-IsReady}

-- A codec whose commands are their payloads, under the type "ping".
abbrev out : Response → Bytes
out (success none) = 0 ∷ []
out (success (some body)) = 1 ∷ body
out (failure f) = []

abbrev unmarshal_response : Bytes → Option Response
unmarshal_response (zero ∷ []) = some (success none)
unmarshal_response (suc zero ∷ body) = some (success (some body))
unmarshal_response _ = none

abbrev codec : Codec ℕ
codec = record {
  marshal_command = λ c. some c.payload;
  unmarshal_command = λ bytes. some (record { kind = "ping"; payload = bytes });
  marshal_value = λ n. some (n ∷ []);
  marshal_response = λ r. some (out r);
  unmarshal_response = unmarshal_response;
}

abbrev handlers : Handlers ℕ ℕ
handlers = ("ping", λ bytes s. (suc s, Outcome.value s)) ∷ []

abbrev ping : Command
ping = record { kind = "ping"; payload = 9 ∷ [] }

abbrev whole : Link
whole = record { writes_length = true; writes_command = true; arriving = 5 }

send_command-dispatch_example :
    send_command codec handlers whole (some 5) ping ≡ (some 6, answered (success (some (5 ∷ []))))
unfolding dispatch handler_of respond_to frame put_u32
send_command-dispatch_example =
    send_command-dispatch codec handlers out whole (9 ∷ []) ping 5 (λ cmd s. refl)
      (refl, refl, omega arith) refl (omega arith, omega arith, refl) (omega arith) refl

-- A payload of 2^20 + 1 bytes, by doubling.
unfoldable twice : ℕ → Bytes → Bytes
twice zero bytes = bytes
twice (suc n) bytes = twice n (bytes ++ bytes)

-- The doubled length, by the same recursion.
unfoldable doubled : ℕ → ℕ → ℕ
doubled zero k = k
doubled (suc n) k = doubled n (k + k)

length-twice : (n : ℕ) (bytes : Bytes) → length (twice n bytes) ≡ doubled n (length bytes)
unfolding twice doubled
length-twice zero bytes = refl
length-twice (suc n) bytes =
    length-twice n (bytes ++ bytes) ∙ ap (doubled n) (length-append bytes bytes)

unfoldable large : Bytes
large = 9 ∷ twice 20 (9 ∷ [])

length-large : length large ≡ 1048577
unfolding large doubled
length-large = ap (λ k. suc k) (length-twice 20 (9 ∷ []))

abbrev long : Command
long = record { kind = "ping"; payload = large }

abbrev cut : Link
cut = record { writes_length = true; writes_command = false; arriving = 5 }

send_command-refused_example :
    ((send_command codec handlers cut (some 5) long).0 ≡ some 5)
    × (((send_command codec handlers cut (some 5) long).1 ≡ length_not_written)
        ⊎ (((send_command codec handlers cut (some 5) long).1 ≡ command_not_written)
            ⊎ ((true ≡ true)
                × (false ≡ true)
                × ((send_command codec handlers cut (some 5) long).1 ≡ no_response_length))))
send_command-refused_example =
    send_command-refused codec handlers cut large long 5 refl (omega (arith, length-large))
      (omega (arith, length-large))

-- "git version 2.43".
git_verdict-version_example :
    (git_verdict true (
        some (
          (103 ∷ 105 ∷ 116 ∷ [])
          ++ (32 ∷ ((118 ∷ []) ++ (32 ∷ (version_text (2 ∷ []) (4 ∷ 3 ∷ []) [] ++ (10 ∷ [])))))))
      ≡ recent)
    ↔ ((2 < 2) ⊎ ((◌≡◌ {A = ℕ} 2 2) × (30 ≤ 43)))
unfolding is_space
git_verdict-version_example =
    git_verdict-version 103 118 2 4 (105 ∷ 116 ∷ []) [] [] (3 ∷ []) [] (refl, (refl, (refl, tt)))
      (refl, tt) (omega arith, tt) (omega arith, (omega arith, tt)) tt (omega arith) (omega arith)

abbrev system : System
system = record {
  key_answer = Exchange.unsent;
  org_answer = Exchange.unsent;
  can_build_request = true;
  head_status = some 200;
  can_mkdir = true;
  can_write = true;
  read_back = none;
  disk_free = some 5;
  look_path = λ s. true;
  git_version = none;
  custom_rules = none;
  default_rules = 30;
  drift = some 1;
  cpu_count = some 4;
  ram_total = some 8;
}

abbrev config : Config
config = record {
  api_key = "k";
  url = "u";
  base_path = "w";
  disk_quota = 3;
  max_jobs = pos 2;
  agents = "claude" ∷ [];
  scan_enabled = true;
  ruleset_path = "";
}

has_failures-IsReady_example :
    (has_failures (run_all system config).1 ≡ false) ↔ IsReady system config
has_failures-IsReady_example = has_failures-IsReady system config
