-- ===== src/Deploy/Undisturbed.antt =====
-- What it means that `check_running` raises nothing.
use laya_rs.Base.{
  ℕ, ◌≡◌, refl, subst₂, nat_eq, true, false, none, some, List, [], ◌∷◌, ◌<>◌, String,
}
use laya_rs.Base.Int.{pos, int_eq}
use laya_rs.Base.Steps.{Runs, >>=-Runs, demand-Runs, pure-Runs, finally-Runs}
use laya_rs.Base.Text.{has_part, decimal}
use laya_rs.Deploy.{Host, Result}
use laya_rs.Deploy.Candidate.{archive_name, ascii, make_candidate}
use laya_rs.Deploy.Instance.{Deploying}
use laya_rs.Deploy.Demands.{current_env, process_env, field_of, replace, pid_line}
use laya_rs.Deploy.Checks.{
  check_conflict, check_terminated, check_duplicate, check_ownership, check_corrupt, check_running,
}
use laya_rs.Deploy.Waiting.{
  outside-Runs, IsLaunched, foreground-IsLaunched, IsMarked, launched-IsMarked, wait_for-Runs,
}
use laya_rs.Deploy.Refused.{
  require_bytes-Runs, require_missing-Runs, require_pid-Runs, IsRefused, refuse-IsRefused,
}
use laya_rs.Deploy.Updates.{expect_code-Runs}

module _ {W : Type 0} (host : Host W) where
  module _ (root : String) where
    -- A start beside another program that listens, from `s` to `t`: it was refused and left no service,
    -- and then the socket was closed.
    pub record IsConflicted (s t : W) : Type 0 where
      pub socket : ℕ
      pub opened : W
      pub listening : W
      pub refused : W
      pub gone : W
      pub result : Result
      pub opened_eq : Runs host.open_socket s socket opened
      pub listening_eq : Runs (host.listen socket "127.0.0.1" 18087) opened tt listening
      pub refused_eq : IsRefused host root "start" [] result listening refused
      pub gone_eq : Runs (host.exists (process_env root)) refused false gone
      pub closed_eq : Runs (host.close_socket socket) gone tt t

    check_conflict-IsConflicted :
        {s t : W} → Runs (check_conflict host root) s tt t → IsConflicted s t
    unfolding check_conflict
    check_conflict-IsConflicted {s} {t} r = >>=-Runs r (λ socket s1 opened r1.
        finally-Runs r1 (λ u body closed. >>=-Runs body (λ _ s2 listening r2.
          >>=-Runs r2 (λ result s3 refused last. record {
            socket = socket;
            opened = s1;
            listening = s2;
            refused = s3;
            gone = u;
            result = result;
            opened_eq = opened;
            listening_eq = listening;
            refused_eq = refuse-IsRefused host root "start" [] refused;
            gone_eq = require_missing-Runs host (process_env root) last;
            closed_eq = closed;
          }))))

    -- A start that is terminated, from `s` to `t`: its process.env was seen, after the signal it ended
    -- with the code 143 and left no service, and current.env has the bytes of before.
    pub record IsTerminated (original : List ℕ) (s t : Deploying W) : Type 0 where
      pub started : ℕ × String
      pub launched : Deploying W
      pub appeared : Deploying W
      pub sent : W
      pub ended : W
      pub gone : W
      pub launch : IsLaunched host root "start" [] none started s launched
      pub appeared_eq : (w : W) × Runs (host.exists (process_env root)) w true appeared.world
      pub sent_eq : Runs (host.terminate started.0) appeared.world tt sent
      pub code_eq : Runs (host.wait_process started.0 150) sent (pos 143) ended
      pub gone_eq : Runs (host.exists (process_env root)) ended false gone
      pub current_eq : Runs (host.read_bytes (current_env root)) gone original t.world

    check_terminated-IsTerminated :
        (original : List ℕ) {s t : Deploying W}
        → Runs (check_terminated host root original) s tt t
        → IsTerminated original s t
    unfolding check_terminated
    check_terminated-IsTerminated original {s} {t} r = >>=-Runs r (λ started s1 launched r1.
        >>=-Runs r1 (λ _ s2 waited r2. >>=-Runs r2 (λ _ s3 sent r3. >>=-Runs r3 (λ _ s4 ended r4.
          >>=-Runs r4 (λ _ s5 gone last. record {
            started = started;
            launched = s1;
            appeared = s2;
            sent = s3.world;
            ended = s4.world;
            gone = s5.world;
            launch = foreground-IsLaunched host {marker = none} launched;
            appeared_eq =
                wait_for-Runs host (host.exists (process_env root)) started.0 (outside-Runs waited);
            sent_eq = outside-Runs sent;
            code_eq = expect_code-Runs host started.0 started.1 143 (outside-Runs ended);
            gone_eq = require_missing-Runs host (process_env root) (outside-Runs gone);
            current_eq = require_bytes-Runs host (current_env root) original (outside-Runs last);
          })))))

    -- A second start beside the service, from `s` to `t`: it was refused, and the process is the same.
    pub record IsSingle (pid : String) (s t : W) : Type 0 where
      pub known : W
      pub refused : W
      pub result : Result
      pub pid_eq : Runs (field_of host "PID" (process_env root)) s pid known
      pub refused_eq : IsRefused host root "start" [] result known refused
      pub pid_kept : Runs (field_of host "PID" (process_env root)) refused pid t

    check_duplicate-IsSingle :
        {pid : String} {s t : W} → Runs (check_duplicate host root) s pid t → IsSingle pid s t
    unfolding check_duplicate
    check_duplicate-IsSingle {pid} {s} {t} r = >>=-Runs r (λ before s1 read r1.
        >>=-Runs r1 (λ result s2 again r2. >>=-Runs r2 (λ _ s3 same last.
          subst₂ (λ p z. IsSingle p s z) (pure-Runs last).0 (pure-Runs last).1
            (record {
              known = s1;
              refused = s2;
              result = result;
              pid_eq = read;
              refused_eq = refuse-IsRefused host root "start" [] again;
              pid_kept = require_pid-Runs host root before same;
            }))))

    -- A stop while process.env names the process of the test, from `s` to `t`: it was refused for its
    -- owner, and then process.env was written back.
    pub record IsForeign (pid : String) (s t : W) : Type 0 where
      pub saved : String
      pub own : ℕ
      pub read : W
      pub asked : W
      pub changed : W
      pub refused : W
      pub result : Result
      pub saved_eq : Runs (host.read_text (process_env root)) s saved read
      pub own_eq : Runs host.process_id read own asked
      pub changed_eq :
          Runs
            (host.write_text
              (process_env root)
              (replace (pid_line pid) (pid_line (decimal own)) saved))
            asked
            tt
            changed
      pub refused_eq : IsRefused host root "stop" [] result changed refused
      pub message_eq : has_part "ownership cannot be confirmed" result.stderr ≡ true
      pub restored_eq : Runs (host.write_text (process_env root) saved) refused tt t

    check_ownership-IsForeign :
        (pid : String) {s t : W} → Runs (check_ownership host root pid) s tt t → IsForeign pid s t
    unfolding check_ownership
    check_ownership-IsForeign pid {s} {t} r = >>=-Runs r (λ saved s1 read r1.
        >>=-Runs r1 (λ own s2 asked r2. >>=-Runs r2 (λ _ s3 wrote r3.
          >>=-Runs r3 (λ result s4 stop r4.
            let (message, last) = demand-Runs r4 in
            record {
              saved = saved;
              own = own;
              read = s1;
              asked = s2;
              changed = s3;
              refused = s4;
              result = result;
              saved_eq = read;
              own_eq = asked;
              changed_eq = wrote;
              refused_eq = refuse-IsRefused host root "stop" [] stop;
              message_eq = message;
              restored_eq = last;
            }))))

    -- An update from a candidate whose archive was changed behind its release.env, from `s` to `t`: it
    -- was refused, the process is the same, and current.env has the bytes of before.
    pub record IsCorruptRefused (release bad pid : String) (original : List ℕ) (s t : W)
        : Type 0 where
      pub placed : W
      pub made : W
      pub spoiled : W
      pub refused : W
      pub kept : W
      pub result : Result
      pub placed_eq : Runs (host.mkdir bad) s tt placed
      pub made_eq : Runs (make_candidate host release bad "api") placed tt made
      pub spoiled_eq :
          Runs
            (host.append_bytes (bad <> ("/" <> archive_name)) (ascii "corrupt download"))
            made
            tt
            spoiled
      pub refused_eq :
          IsRefused host root "update" ("--release-directory" ∷ bad ∷ []) result spoiled refused
      pub pid_eq : Runs (field_of host "PID" (process_env root)) refused pid kept
      pub current_eq : Runs (host.read_bytes (current_env root)) kept original t

    check_corrupt-IsCorruptRefused :
        (release bad pid : String) (original : List ℕ) {s t : W}
        → Runs (check_corrupt host root release bad pid original) s tt t
        → IsCorruptRefused release bad pid original s t
    unfolding check_corrupt
    check_corrupt-IsCorruptRefused release bad pid original {s} {t} r = >>=-Runs r (λ _ s1 dir r1.
        >>=-Runs r1 (λ _ s2 made r2. >>=-Runs r2 (λ _ s3 spoiled r3.
          >>=-Runs r3 (λ result s4 updated r4. >>=-Runs r4 (λ _ s5 same last. record {
            placed = s1;
            made = s2;
            spoiled = s3;
            refused = s4;
            kept = s5;
            result = result;
            placed_eq = dir;
            made_eq = made;
            spoiled_eq = spoiled;
            refused_eq = refuse-IsRefused host root "update" _ updated;
            pid_eq = require_pid-Runs host root pid same;
            current_eq = require_bytes-Runs host (current_env root) original last;
          })))))

    -- The checks of a running service, from `s` to `t`, each from where the one before has ended.
    pub record IsUndisturbed (release scratch : String) (s t : Deploying W) : Type 0 where
      pub original : List ℕ
      pub pid : String
      pub first : Deploying W
      pub conflicted : Deploying W
      pub terminated : Deploying W
      pub up : Deploying W
      pub single : Deploying W
      pub foreign : Deploying W
      pub started : ℕ × String
      pub original_eq : Runs (host.read_bytes (current_env root)) s.world original first.world
      pub conflict : IsConflicted first.world conflicted.world
      pub terminated_eq : IsTerminated original conflicted terminated
      pub launch : IsLaunched host root "start" [] (some "Validated.") started terminated up
      pub marked : IsMarked host "Validated." started up.world
      pub single_eq : IsSingle pid up.world single.world
      pub foreign_eq : IsForeign pid single.world foreign.world
      pub corrupt : IsCorruptRefused release (scratch <> "/bad") pid original foreign.world t.world

    -- When `check_running` raises nothing, all this was seen.
    pub check_running-IsUndisturbed :
        (release scratch : String) {s t : Deploying W}
        → Runs (check_running host root release scratch) s tt t
        → IsUndisturbed release scratch s t
    unfolding check_running
    check_running-IsUndisturbed release scratch {s} {t} r = >>=-Runs r (λ original s1 read r1.
        >>=-Runs r1 (λ _ s2 conflict r2. >>=-Runs r2 (λ _ s3 terminated r3.
          >>=-Runs r3 (λ started s4 starting r4. >>=-Runs r4 (λ pid s5 duplicate r5.
            >>=-Runs r5 (λ _ s6 owned last.
              let launched = foreground-IsLaunched host {marker = some "Validated."} starting in
              record {
                original = original;
                pid = pid;
                first = s1;
                conflicted = s2;
                terminated = s3;
                up = s4;
                single = s5;
                foreign = s6;
                started = started;
                original_eq = outside-Runs read;
                conflict = check_conflict-IsConflicted (outside-Runs conflict);
                terminated_eq = check_terminated-IsTerminated original terminated;
                launch = launched;
                marked = launched-IsMarked host "Validated." refl launched;
                single_eq = check_duplicate-IsSingle (outside-Runs duplicate);
                foreign_eq = check_ownership-IsForeign pid (outside-Runs owned);
                corrupt =
                    check_corrupt-IsCorruptRefused release (scratch <> "/bad") pid original
                      (outside-Runs last);
              }))))))
