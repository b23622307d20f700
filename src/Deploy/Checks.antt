-- ===== src/Deploy/Checks.antt =====
-- `check_running`, `check_updates` and `check_interruption` in tools/release/smoke-macos.py.
use laya_rs.Base.{
  ℕ, Bool, true, false, none, some, List, [], ◌∷◌, String, ◌<>◌, ◌==◌, not, nat_eq, string_eq,
  if◌then◌else◌,
}
use laya_rs.Base.Int.{int_eq}
use laya_rs.Base.Action.{Action}
use laya_rs.Base.Steps.{◌>>=◌, ◌>>◌, pure, demand, each, finally}
use laya_rs.Base.Text.{decimal, has_part}
use laya_rs.Deploy.{Host, Result}
use laya_rs.Deploy.Candidate.{archive_name, ascii, fields, make_candidate}
use laya_rs.Deploy.Instance.{Deploying, outside, wait_for, command, foreground}
use laya_rs.Deploy.Demands.{
  replace, pid_line, kept_keys, faults, restored, current_env, process_env, is_sound, marker_of,
  field_of, require_missing, require_bytes, expect_code, require_kept, check_current,
}

module _ {W : Type 0} (host : Host W) (root : String) where
  open host use {
    read_text, read_bytes, write_text, append_bytes, mkdir, exists, wait_process, terminate,
    open_socket, listen, close_socket, process_id,
  }

  -- `assert fields(root / "process.env")["PID"] == pid`
  unfoldable pub require_pid : String → Action W (Unit {0})
  unfolding field_of
  require_pid pid = do found ← field_of host "PID" (process_env root); demand (found == pid)

  -- A command that must fail.
  unfoldable pub refuse : String → List String → Action W Result
  unfolding command
  refuse action args = command host root action args true

  unfoldable pub succeed : String → List String → Action W Result
  unfolding command
  succeed action args = command host root action args false

  -- The start while another program listens.
  unfoldable pub check_conflict : Action W (Unit {0})
  unfolding refuse require_missing
  check_conflict = do
    conflict ← open_socket
    finally
        (do
          listen conflict "127.0.0.1" 18087
          result ← refuse "start" []
          require_missing host (process_env root))
        (close_socket conflict)

  -- A start that is terminated.
  unfoldable pub check_terminated : List ℕ → Action (Deploying W) (Unit {0})
  unfolding outside foreground wait_for expect_code require_missing require_bytes
  check_terminated original = do
    started ← foreground host root "start" [] none
    outside (wait_for host (exists (process_env root)) started.0)
    outside (terminate started.0)
    outside (expect_code host started.0 started.1 143)
    outside (require_missing host (process_env root))
    outside (require_bytes host (current_env root) original)

  -- A stop with the identity of another process.
  unfoldable pub check_ownership : String → Action W (Unit {0})
  unfolding replace decimal refuse has_part
  check_ownership before = do
    saved ← read_text (process_env root)
    own ← process_id
    write_text (process_env root) (replace (pid_line before) (pid_line (decimal own)) saved)
    result ← refuse "stop" []
    demand (has_part "ownership cannot be confirmed" result.stderr)
    write_text (process_env root) saved

  -- An update from an archive that is not the announced one.
  unfoldable pub check_corrupt : String → String → String → List ℕ → Action W (Unit {0})
  unfolding make_candidate refuse require_pid require_bytes
  check_corrupt release bad before original = do
    mkdir bad
    make_candidate host release bad "api"
    append_bytes (bad <> ("/" <> archive_name)) (ascii "corrupt download")
    result ← refuse "update" ("--release-directory" ∷ bad ∷ [])
    require_pid before
    require_bytes host (current_env root) original

  -- A second start beside a running service.
  unfoldable pub check_duplicate : Action W String
  unfolding field_of refuse require_pid
  check_duplicate = do
    before ← field_of host "PID" (process_env root)
    result ← refuse "start" []
    require_pid before
    pure before

  unfoldable pub check_running : String → String → Action (Deploying W) (Unit {0})
  unfolding outside check_conflict check_terminated foreground check_duplicate check_ownership
      check_corrupt
  check_running release scratch = do
    original ← outside (read_bytes (current_env root))
    outside check_conflict
    check_terminated original
    started ← foreground host root "start" [] (some "Validated.")
    before ← outside check_duplicate
    outside (check_ownership before)
    outside (check_corrupt release (scratch <> "/bad") before original)

  unfoldable pub check_update : String → String → String → Action (Deploying W) (Unit {0})
  unfolding outside make_candidate fields foreground check_current require_kept succeed expect_code
  check_update release scratch fault = do
    outside (mkdir (scratch <> ("/" <> fault)))
    outside (make_candidate host release (scratch <> ("/" <> fault)) fault)
    old ← outside (fields host (current_env root))
    started ←
        foreground host root "update" ("--release-directory" ∷ (scratch <> ("/" <> fault)) ∷ [])
          (some (marker_of fault))
    now ← outside (fields host (current_env root))
    outside (check_current host fault now old started.1)
    outside (each (require_kept host now old) kept_keys)
    stopped ← outside (succeed "stop" [])
    outside (expect_code host started.0 started.1 (if is_sound fault then 0 else 1))
    again ← foreground host root "start" [] (some "Validated.")
    pure tt

  unfoldable pub check_updates : String → String → Action (Deploying W) (Unit {0})
  unfolding check_update
  check_updates release scratch = each (check_update release scratch) faults

  -- The switch has begun: the service of the candidate runs.
  unfoldable pub is_switching : String → Action W Bool
  unfolding field_of
  is_switching before = do
    begun ← exists (root <> "/transaction")
    elim begun [
      | false ↦ pure false
      | true ↦ do
        running ← exists (process_env root)
        elim running [
          | false ↦ pure false
          | true ↦ do pid ← field_of host "PID" (process_env root); pure (not (pid == before))
        ]
    ]

  unfoldable pub check_lock : String → Action W (Unit {0})
  unfolding refuse has_part
  check_lock release = do
    result ← refuse "update" ("--release-directory" ∷ release ∷ [])
    demand (has_part "Operation lock" result.stderr)

  -- The update that is terminated.
  unfoldable pub check_reclaimed : ℕ × String → List ℕ → Action W (Unit {0})
  unfolding expect_code require_bytes require_missing refuse
  check_reclaimed started old = do
    terminate started.0
    expect_code host started.0 started.1 143
    require_bytes host (root <> "/transaction/old.env") old
    require_missing host (process_env root)
    result ← refuse "start" []
    pure tt

  unfoldable pub check_interruption : String → Action (Deploying W) (Unit {0})
  unfolding outside field_of foreground wait_for is_switching check_lock require_bytes
      check_reclaimed
  check_interruption release = do
    before ← outside (field_of host "PID" (process_env root))
    old ← outside (read_bytes (current_env root))
    started ← foreground host root "update" ("--release-directory" ∷ release ∷ []) none
    outside (wait_for host (is_switching before) started.0)
    outside (check_lock release)
    outside (require_bytes host (current_env root) old)
    outside (check_reclaimed started old)
    recovered ← foreground host root "update" ("--recover" ∷ []) (some restored)
    outside (require_bytes host (current_env root) old)
