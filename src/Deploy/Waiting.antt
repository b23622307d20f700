-- ===== src/Deploy/Waiting.antt =====
-- What a run of `wait_for` or `foreground` that returns has seen.
use laya_rs.Base.{
  ℕ, zero, suc, ◌*◌, ◌≡◌, ◌≢◌, refl, sym, ap, subst, subst₂, Bool, true, false, Option, none, some,
  List, [], ◌∷◌, ◌++◌, String,
}
use laya_rs.Base.Int.{ℤ}
use laya_rs.Base.Raises.{Raises, ok, raise, assertion_error}
use laya_rs.Base.Action.{Action}
use laya_rs.Base.Steps.{
  ◌>>=◌, ◌>>◌, pure, Runs, >>=-Runs, demand-Runs, last_demand-Runs, pure-Runs, reading-Runs,
}
use laya_rs.Base.Text.{has_part}
use laya_rs.Deploy.{Host}
use laya_rs.Deploy.Instance.{
  Deploying, outside, require_alive, wait_until, wait_for, insist, is_marked, await_marker, given,
  append_process, next_log, foreground, bash_args, log_of, seconds,
}

outside_cases :
    {W A : Type 0} (call : Action W A) (s : Deploying W) (a : A) (t : Deploying W)
    → outside call s ≡ (ok a, t)
    → call s.world ≡ (ok a, t.world)
unfolding outside
outside_cases call s a t h = ap (λ p. (p.0, p.1.world)) h

pub outside-Runs :
    {W A : Type 0} {call : Action W A} {s : Deploying W} {a : A} {t : Deploying W}
    → Runs (outside call) s a t
    → Runs call s.world a t.world
outside-Runs {W} {A} {call} {s} {a} {t} r = record {
  result_eq = outside_cases call s a t r.result_eq;
}

never : {u : Unit {0}} → ◌≢◌ {A = Raises (Unit {0})} (raise assertion_error) (ok u)
never h = cc

processes_cases :
    {W A : Type 0} (call : Action W A) (s : Deploying W) (a : A) (t : Deploying W)
    → outside call s ≡ (ok a, t)
    → s.processes ≡ t.processes
unfolding outside
processes_cases call s a t h = ap (λ p. p.1.processes) h

pub outside-processes :
    {W A : Type 0} (call : Action W A) {s : Deploying W} {a : A} {t : Deploying W}
    → Runs (outside call) s a t
    → s.processes ≡ t.processes
outside-processes {W} {A} call {s} {a} {t} r = processes_cases call s a t r.result_eq

module _ {W : Type 0} (host : Host W) where
  insist_cases :
      (test : Bool) (log : String) (s : W) (t : W)
      → Runs (insist host test log) s tt t
      → (test ≡ true) × (s ≡ t)
  unfolding insist
  insist_cases true log s t r = (refl, (pure-Runs r).1)
  insist_cases false log s t r =
      >>=-Runs r (λ text u first rest. absurd (never (reading-Runs rest).0))

  pub insist-Runs :
      {test : Bool} (log : String) {s t : W}
      → Runs (insist host test log) s tt t
      → (test ≡ true) × (s ≡ t)
  insist-Runs {test} log {s} {t} r = insist_cases test log s t r

  module _ (check : Action W Bool) (process : ℕ) where
    settled :
        (next : Action W (Unit {0})) (found : Bool) (u w t : W)
        → Runs check u found w
        → Runs (elim found [ true ↦ pure tt | false ↦ next ]) w tt t
        → (Runs next w tt t → (v : W) × Runs check v true t)
        → (v : W) × Runs check v true t
    settled next true u w t checked last later =
        (u, subst (Runs check u true) (pure-Runs last).1 checked)
    settled next false u w t checked last later = later last

    wait_until_found :
        (fuel end : ℕ) (s t : W)
        → Runs (wait_until host fuel end check process) s tt t
        → (w : W) × Runs check w true t
    unfolding wait_until
    wait_until_found zero end s t r = absurd (never (reading-Runs r).0)
    wait_until_found (suc fuel) end s t r = >>=-Runs r (λ time u first rest.
        >>=-Runs (demand-Runs rest).1 (λ found w checked last.
          settled _ found u w t checked last (λ onward. >>=-Runs onward (λ _ v alive slept.
            >>=-Runs slept (λ _ v' paused again. wait_until_found fuel end v' t again)))))

    -- When `wait_for` returns, the last thing done is a check that found what it waits for.
    pub wait_for-Runs :
        {s t : W} → Runs (wait_for host check process) s tt t → (w : W) × Runs check w true t
    unfolding wait_for
    wait_for-Runs {s} {t} r =
        >>=-Runs r (λ time u first rest. wait_until_found (suc (10 * seconds)) _ u t rest)

  require_alive-Runs :
      (process : ℕ) {s t : W}
      → Runs (require_alive host process) s tt t
      → Runs (host.poll_process process) s none t
  unfolding require_alive
  require_alive-Runs process {s} {t} r = >>=-Runs r (λ code u polled rest.
      let (e, q) = last_demand-Runs rest in
      subst (Runs (host.poll_process process) s none) q
        (subst (λ c. Runs (host.poll_process process) s c u) (is_none code e) polled))
    where
      is_none :
          (code : Option ℤ)
          → elim code as (λ c. Bool) [ none ↦ true | some c ↦ false ] ≡ true
          → code ≡ none
      is_none none h = refl
      is_none (some c) h = cc

  is_marked-Runs :
      (marker log : String) {s t : W}
      → Runs (is_marked host marker log) s true t
      → (written : String) × Runs (host.read_text log) s written t
        × (has_part marker written ≡ true)
  unfolding is_marked
  is_marked-Runs marker log {s} {t} r = >>=-Runs r (λ written u read rest.
      let (e, q) = pure-Runs rest in
      (written, subst (Runs (host.read_text log) s written) q read, e))

  await_marker-parts :
      (marker : Option String) (m log : String) (process : ℕ) {s t : W}
      → given marker ≡ some m
      → Runs (await_marker host marker log process) s tt t
      → Runs
          (wait_for host (is_marked host m log) process >>= λ _. require_alive host process)
          s
          tt
          t
  unfolding await_marker
  await_marker-parts marker m log process {s} {t} h r =
      subst
        (λ g.
          Runs
            (elim g as (λ x. Action W (Unit {0})) [
              | none ↦ pure tt
              | some m ↦ do wait_for host (is_marked host m log) process; require_alive host process
            ])
            s tt t)
        h r

  next_log_cases :
      (root : String) (s : Deploying W) (log : String) (t : Deploying W)
      → next_log host root s ≡ (ok log, t)
      → (log_of root s ≡ log) × (s ≡ t)
  unfolding next_log
  next_log_cases root s log t h =
      let e : ok (log_of root s) ≡ ok log = ap (λ p. p.0) h in (cc, ap (λ p. p.1) h)

  append_cases :
      (root : String) (process : ℕ) (s t : Deploying W)
      → append_process host root process s ≡ (ok tt, t)
      → (s.world ≡ t.world) × (s.processes ++ (process ∷ []) ≡ t.processes)
  unfolding append_process
  append_cases root process s t h = (ap (λ p. p.1.world) h, ap (λ p. p.1.processes) h)

  -- The service script was started in the background, with its output in `started.1`, and the wait for
  -- its marker has ended.
  pub record IsLaunched (root action : String) (args : List String) (marker : Option String)
      (started : ℕ × String) (s t : Deploying W) : Type 0 where
    pub running : W
    pub log_eq : log_of root s ≡ started.1
    pub launched :
        Runs (host.start_process (bash_args root action args) started.1) s.world started.0 running
    pub awaited : Runs (await_marker host marker started.1 started.0) running tt t.world

  pub foreground-IsLaunched :
      {root action : String} {args : List String} {marker : Option String} {started : ℕ × String}
      {s t : Deploying W}
      → Runs (foreground host root action args marker) s started t
      → IsLaunched root action args marker started s t
  unfolding foreground
  foreground-IsLaunched {root} {action} {args} {marker} {started} {s} {t} r =
      >>=-Runs r (λ log u named r1.
        let (log_eq, same) = next_log_cases root s log u named.result_eq in
        >>=-Runs r1 (λ process v launched r2. >>=-Runs r2 (λ _ w added r3.
          >>=-Runs r3 (λ _ x awaited last.
            let (result, final) = pure-Runs last in
            subst₂ (λ st t. IsLaunched root action args marker st s t) result final
              (record {
                running = v.world;
                log_eq = log_eq;
                launched =
                    subst
                      (λ z.
                        Runs (host.start_process (bash_args root action args) log) z.world process
                          v.world)
                      (sym same) (outside-Runs launched);
                awaited =
                    subst (λ z. Runs (await_marker host marker log process) z tt x.world)
                      (sym (append_cases root process v w added.result_eq).0)
                      (outside-Runs awaited);
              })))))

  -- The marker was found in what a background command wrote, and the command ran on.
  pub record IsMarked (marker : String) (started : ℕ × String) (after : W) : Type 0 where
    pub before : W
    pub read : W
    pub written : String
    pub log_eq : Runs (host.read_text started.1) before written read
    pub marked : has_part marker written ≡ true
    pub alive : Runs (host.poll_process started.0) read none after

  pub launched-IsMarked :
      {root action : String} {args : List String} {marker : Option String} {started : ℕ × String}
      {s t : Deploying W} (m : String)
      → given marker ≡ some m
      → IsLaunched root action args marker started s t
      → IsMarked m started t.world
  launched-IsMarked {root} {action} {args} {marker} {started} {s} {t} m h l =
      >>=-Runs (await_marker-parts marker m started.1 started.0 h l.awaited) (λ _ u waited rest.
        let (w, checked) = wait_for-Runs (is_marked host m started.1) started.0 waited in
        let (written, read, found) = is_marked-Runs m started.1 checked in
        record {
          before = w;
          read = u;
          written = written;
          log_eq = read;
          marked = found;
          alive = require_alive-Runs started.0 rest;
        })
