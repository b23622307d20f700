-- ===== src/Deploy/Preserved.antt =====
-- What it means that `check_interruption` raises nothing.
use laya_rs.Base.{ℕ, ◌≡◌, refl, subst, nat_eq, true, false, none, some, List, [], ◌∷◌, ◌<>◌, String}
use laya_rs.Base.Int.{pos, int_eq}
use laya_rs.Base.Steps.{Runs, >>=-Runs, last_demand-Runs, pure-Runs}
use laya_rs.Base.Text.{has_part}
use laya_rs.Deploy.{Host, Result}
use laya_rs.Deploy.Instance.{Deploying}
use laya_rs.Deploy.Demands.{current_env, process_env, field_of, restored}
use laya_rs.Deploy.Checks.{is_switching, check_lock, check_reclaimed, check_interruption}
use laya_rs.Deploy.Waiting.{
  outside-Runs, IsLaunched, foreground-IsLaunched, IsMarked, launched-IsMarked, wait_for-Runs,
}
use laya_rs.Deploy.Refused.{require_bytes-Runs, require_missing-Runs, IsRefused, refuse-IsRefused}
use laya_rs.Deploy.Updates.{expect_code-Runs}

module _ {W : Type 0} (host : Host W) where
  module _ (root : String) where
    -- The terminated update, from `s` to `t`, each part from where the one before has ended: the
    -- signal, the end with the code 143, the old settings in the transaction, no service, and the
    -- refusal of a start.
    pub record IsReclaimed (process : ℕ) (old : List ℕ) (s t : W) : Type 0 where
      pub sent : W
      pub ended : W
      pub kept : W
      pub gone : W
      pub result : Result
      pub sent_eq : Runs (host.terminate process) s tt sent
      pub code_eq : Runs (host.wait_process process 150) sent (pos 143) ended
      pub transaction_eq : Runs (host.read_bytes (root <> "/transaction/old.env")) ended old kept
      pub stopped : Runs (host.exists (process_env root)) kept false gone
      pub refused : IsRefused host root "start" [] result gone t

    check_reclaimed-IsReclaimed :
        (started : ℕ × String) (old : List ℕ) {s t : W}
        → Runs (check_reclaimed host root started old) s tt t
        → IsReclaimed started.0 old s t
    unfolding check_reclaimed
    check_reclaimed-IsReclaimed started old {s} {t} r = >>=-Runs r (λ _ s1 sent r1.
        >>=-Runs r1 (λ _ s2 ended r2. >>=-Runs r2 (λ _ s3 same r3. >>=-Runs r3 (λ _ s4 gone r4.
          >>=-Runs r4 (λ result s5 started_again last. record {
            sent = s1;
            ended = s2;
            kept = s3;
            gone = s4;
            result = result;
            sent_eq = sent;
            code_eq = expect_code-Runs host started.0 started.1 143 ended;
            transaction_eq = require_bytes-Runs host (root <> "/transaction/old.env") old same;
            stopped = require_missing-Runs host (process_env root) gone;
            refused =
                subst (IsRefused host root "start" [] result s4) (pure-Runs last).1
                  (refuse-IsRefused host root "start" [] started_again);
          })))))

    -- An interrupted update, from `s` to `t`, each part from where the one before has ended. The update
    -- was started and its switch was seen; a second one was refused by the lock, and current.env was as
    -- before; after the signal it ended as `IsReclaimed` says; the recovery wrote its marker, and
    -- current.env is as before.
    pub record IsRecovered (release : String) (s t : Deploying W) : Type 0 where
      pub pid : String
      pub old : List ℕ
      pub known : W
      pub first : Deploying W
      pub launched : Deploying W
      pub switched : Deploying W
      pub refused : Deploying W
      pub kept : Deploying W
      pub reclaimed : Deploying W
      pub ended : Deploying W
      pub started : ℕ × String
      pub second : Result
      pub recovered : ℕ × String
      pub pid_eq : Runs (field_of host "PID" (process_env root)) s.world pid known
      pub old_eq : Runs (host.read_bytes (current_env root)) known old first.world
      pub update :
          IsLaunched host root "update"
            ("--release-directory" ∷ release ∷ [])
            none
            started
            first
            launched
      pub switch : (w : W) × Runs (is_switching host root pid) w true switched.world
      pub locked :
          IsRefused host root "update"
            ("--release-directory" ∷ release ∷ [])
            second
            switched.world
            refused.world
      pub lock_eq : has_part "Operation lock" second.stderr ≡ true
      pub kept_eq : Runs (host.read_bytes (current_env root)) refused.world old kept.world
      pub ending : IsReclaimed started.0 old kept.world reclaimed.world
      pub recovery :
          IsLaunched host root "update" ("--recover" ∷ []) (some restored) recovered reclaimed ended
      pub marked : IsMarked host restored recovered ended.world
      pub restored_eq : Runs (host.read_bytes (current_env root)) ended.world old t.world

    -- When `check_interruption` raises nothing, all this was seen.
    pub check_interruption-IsRecovered :
        (release : String) {s t : Deploying W}
        → Runs (check_interruption host root release) s tt t
        → IsRecovered release s t
    unfolding check_interruption check_lock
    check_interruption-IsRecovered release {s} {t} r = >>=-Runs r (λ pid s1 read r1.
        >>=-Runs r1 (λ old s2 bytes r2. >>=-Runs r2 (λ started s3 launched r3.
          >>=-Runs r3 (λ _ s4 waited r4. >>=-Runs r4 (λ _ s5 lock r5. >>=-Runs r5 (λ _ s6 same r6.
            >>=-Runs r6 (λ _ s7 reclaimed r7. >>=-Runs r7 (λ recovered s8 restoring last.
              >>=-Runs (outside-Runs lock) (λ second v refused demanded.
                let (w, switching) =
                  wait_for-Runs host (is_switching host root pid) started.0 (outside-Runs waited) in
                let relaunched = foreground-IsLaunched host {marker = some restored} restoring in
                let (message, final) = last_demand-Runs demanded in
                record {
                  pid = pid;
                  old = old;
                  known = s1.world;
                  first = s2;
                  launched = s3;
                  switched = s4;
                  refused = s5;
                  kept = s6;
                  reclaimed = s7;
                  ended = s8;
                  started = started;
                  second = second;
                  recovered = recovered;
                  pid_eq = outside-Runs read;
                  old_eq = outside-Runs bytes;
                  update = foreground-IsLaunched host {marker = none} launched;
                  switch = (w, switching);
                  locked =
                      subst
                        (IsRefused host root "update" ("--release-directory" ∷ release ∷ []) second
                          s4.world)
                        final (refuse-IsRefused host root "update" _ refused);
                  lock_eq = message;
                  kept_eq = require_bytes-Runs host (current_env root) old (outside-Runs same);
                  ending = check_reclaimed-IsReclaimed started old (outside-Runs reclaimed);
                  recovery = relaunched;
                  marked = launched-IsMarked host restored refl relaunched;
                  restored_eq = require_bytes-Runs host (current_env root) old (outside-Runs last);
                })))))))))
