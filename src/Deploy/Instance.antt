-- ===== src/Deploy/Instance.antt =====
-- `wait_for` and the class `Deployment` in tools/release/smoke-macos.py.
use laya_rs.Base.{
  ℕ, zero, suc, ◌+◌, ◌*◌, Bool, true, false, Option, none, some, List, [], ◌∷◌, ◌++◌, String, ◌<>◌,
  ◌==◌, not, string_eq, ltb, length,
}
use laya_rs.Base.Int.{pos, int_eq}
use laya_rs.Base.Raises.{ok, raise, assertion_error}
use laya_rs.Base.Action.{Action}
use laya_rs.Base.Steps.{◌>>=◌, ◌>>◌, pure, reading, demand, each}
use laya_rs.Base.Text.{decimal, has_part}
use laya_rs.Deploy.{Host, Result}
use laya_rs.Deploy.Candidate.{sha}

-- The world beside a deployment's `processes`.
pub record Deploying (W : Type 0) : Type 0 where
  pub world : W
  pub processes : List ℕ

-- A call that leaves the deployment as it is.
unfoldable pub outside : {W A : Type 0} → Action W A → Action (Deploying W) A
outside call s = let (result, w) = call s.world in (result, record s { world = w })

-- `assert (result.returncode != 0) == fails`
abbrev pub is_expected : Bool → Result → Bool
is_expected true result = not (result.returncode == pos 0)
is_expected false result = result.returncode == pos 0

-- `if marker:`
abbrev pub given : Option String → Option String
given none = none
given (some String.[]) = none
given (some marker) = some marker

abbrev pub seconds : ℕ
seconds = 240

abbrev pub logs : String → String
logs root = root <> "-logs"

abbrev pub bash_args : String → String → List String → List String
bash_args root action args =
    "/bin/bash" ∷ (logs root <> "/laya-macos.sh") ∷ action ∷ "--root" ∷ root ∷ args

abbrev pub log_of : {W : Type 0} → String → Deploying W → String
log_of root s = logs root <> ("/command-" <> (decimal (length s.processes) <> ".log"))

module _ {W : Type 0} (host : Host W) where
  open host use {
    read_text, read_bytes, write_bytes, mkdir, exists, run, start_process, poll_process,
    wait_process, terminate, clock, sleep,
  }

  abbrev pub now : Action W ℕ
  now w = let (t, w') = clock w in (ok t, w')

  abbrev pub pause : ℕ → Action W (Unit {0})
  pause d w = (ok tt, sleep d w)

  -- `if process.poll() is not None: raise`
  unfoldable pub require_alive : ℕ → Action W (Unit {0})
  require_alive process = do
    returncode ← poll_process process
    demand (elim returncode [ none ↦ true | some code ↦ false ])

  -- The rounds, on fuel. Times are nanoseconds.
  unfoldable pub wait_until : ℕ → ℕ → Action W Bool → ℕ → Action W (Unit {0})
  unfolding require_alive
  wait_until zero end check process = reading (raise assertion_error)
  wait_until (suc fuel) end check process = do
    t ← now
    demand (ltb t end)
    found ← check
    elim found [
      | true ↦ pure tt
      | false ↦ do require_alive process; pause 100_000_000; wait_until fuel end check process
    ]

  -- Ten rounds for each second, and one more.
  unfoldable pub wait_for : Action W Bool → ℕ → Action W (Unit {0})
  unfolding wait_until
  wait_for check process = do
    t ← now
    wait_until (suc (10 * seconds)) (t + 1_000_000_000 * seconds) check process

  -- `assert test, log.read_text()`
  unfoldable pub insist : Bool → String → Action W (Unit {0})
  insist true log = pure tt
  insist false log = do text ← read_text log; reading (raise assertion_error)

  -- `marker in log.read_text()`
  unfoldable pub is_marked : String → String → Action W Bool
  unfolding has_part
  is_marked marker log = do text ← read_text log; pure (has_part marker text)

  -- What `foreground` waits for.
  unfoldable pub await_marker : Option String → String → ℕ → Action W (Unit {0})
  unfolding wait_for is_marked require_alive
  await_marker marker log process = elim (given marker) [
    | none ↦ pure tt
    | some m ↦ do wait_for (is_marked m log) process; require_alive process
  ]

  module _ (root : String) where
    -- The constructor.
    unfoldable pub deployment : Action W (Unit {0})
    deployment = do
      mkdir (logs root)
      script ← read_bytes (host.root <> "/scripts/laya-macos.sh")
      write_bytes (logs root <> "/laya-macos.sh") script
      shown ← sha host (logs root <> "/laya-macos.sh")
      pure tt

    unfoldable pub command : String → List String → Bool → Action W Result
    command action args fails = do
      result ← run (bash_args root action args) none (some 300)
      demand (is_expected fails result)
      pure result

    -- `self.processes.append(process)`
    unfoldable pub append_process : ℕ → Action (Deploying W) (Unit {0})
    append_process process s = (ok tt, record s { processes = s.processes ++ (process ∷ []) })

    unfoldable pub next_log : Action (Deploying W) String
    unfolding decimal
    next_log s = (ok (log_of root s), s)

    unfoldable pub foreground :
        String → List String → Option String → Action (Deploying W) (ℕ × String)
    unfolding outside append_process next_log await_marker
    foreground action args marker = do
      log ← next_log
      process ← outside (start_process (bash_args root action args) log)
      append_process process
      outside (await_marker marker log process)
      pure (process, log)

    unfoldable pub stop_running : Action W (Unit {0})
    unfolding command
    stop_running = do
      running ← exists (root <> "/process.env")
      elim running [
        | false ↦ pure tt
        | true ↦ do
          busy ← exists (root <> "/transaction")
          elim busy [ true ↦ pure tt | false ↦ do result ← command "stop" [] false; pure tt ]
      ]

    -- The end of one process.
    unfoldable pub reap : ℕ → Action W (Unit {0})
    reap process = do
      returncode ← poll_process process
      elim returncode [ none ↦ terminate process | some code ↦ pure tt ]
      code ← wait_process process 150
      pure tt

    unfoldable pub reap_all : Action (Deploying W) (Unit {0})
    unfolding outside reap
    reap_all s = outside (each reap s.processes) s

    unfoldable pub close : Action (Deploying W) (Unit {0})
    unfolding outside stop_running reap_all
    close = do outside stop_running; reap_all
