-- ===== src/Smoke/Stopped.antt =====
-- What it means that `stop_scenarios` of docs/validation/docker-smoke.py raises nothing.
use laya_rs.Base.{ℕ, ◌≡◌, sym, ap, false, not, some, [], String, subst, nat_eq}
use laya_rs.Base.Raises.{ok, require}
use laya_rs.Base.Action.{reading, ◌>>=◌, always}
use laya_rs.Base.Steps.{Runs, has_run, returned, plain-Runs, plain_always-Runs, refuted-Runs}
use laya_rs.Base.Json.{Json}
use laya_rs.Smoke.{Host}
use laya_rs.Smoke.Service.{ready, create_args, base_url, exit_code}
use laya_rs.Smoke.Threads.{
  Pool, Mode, drain, expire, ending, stop_options, status_is, check_drained, start_active,
  start_queued, start_stop, finish, threads, joined, stopping, scenario, long_request,
  stop_scenarios, shows,
}
use laya_rs.Smoke.Cleanup.{Ran, container-Ran}
use laya_rs.Smoke.Loaded.{
  IsCreation, create_args-IsCreation, Answers, status_is-Answers, ActiveAnswer, active_answer,
  IsActive, start_active-IsActive, IsQueued, start_queued-IsQueued, IsStopping,
  start_stop-IsStopping,
}

module _ {W : Type 0} (host : Host W) (pool : Pool W) where
  open pool use {Future, result}

  -- How a container was stopped under load, from `s` to `t`, each part from where the one before has
  -- ended: a request was active and another in the queue, the container was stopped, the queued request
  -- was refused with 503 and the active one answered by the mode; the container ended with the code of
  -- its mode, and then the service was not ready.
  pub record IsStopped (mode : Mode) (long : Json) (cid : String) (s t : W) : Type 0 where
    pub base : String
    pub active : Future (ℕ × String)
    pub queued : Future (ℕ × String)
    pub stopped : Future String
    pub output : String
    pub located : W
    pub loaded : W
    pub waiting : W
    pub draining : W
    pub refused : W
    pub emptied : W
    pub halted : W
    pub answered : W
    pub closed : W
    pub ended : W
    pub base_eq : Runs (base_url host cid) s base located
    pub active_eq : IsActive host pool mode base long active located loaded
    pub queued_eq : IsQueued host pool base long queued loaded waiting
    pub stopped_eq : IsStopping host pool mode cid base stopped waiting draining
    pub refused_eq : Runs (status_is 503 (result queued)) draining tt refused
    pub emptied_eq : Runs (shows host base "laya_queue_size 0") refused tt emptied
    pub halted_eq : Runs (result stopped) emptied output halted
    pub answered_eq : Runs (check_drained host pool mode active) halted tt answered
    pub closed_eq : Runs (joined host pool) answered tt closed
    pub ended_eq : Runs (exit_code host cid (ending mode)) closed tt ended
    pub gone : Runs (ready host base) ended false t
    pub active_answer_eq : ActiveAnswer host pool mode active
    pub queued_answer_eq : Answers host pool 503 (result queued)

  stopping-IsStopped :
      (mode : Mode) (long : Json) (cid : String) {s t : W}
      → Runs (stopping host pool mode long cid) s tt t
      → IsStopped mode long cid s t
  unfolding stopping threads finish
  stopping-IsStopped mode long cid {s} {t} r =
      let run =
        λ (base : String). always (threads host pool mode long cid base) (joined host pool) in
      let code = exit_code host cid (ending mode) in
      let after = λ (base : String). ready host base >>= λ up. reading (λ w. require (not up)) in
      plain-Runs (base_url host cid) (λ base. run base >>= λ _. code >>= λ _. after base) r
        (λ base s1 located r1.
          plain-Runs (run base) (λ _. code >>= λ _. after base) r1
            (λ _ s2 ran r2.
              plain-Runs code (λ _. after base) r2
                (λ _ s3 coded last.
                  plain_always-Runs (threads host pool mode long cid base) (joined host pool) ran
                    (λ u body closing.
                      let refusal =
                        λ (queued : Future (ℕ × String)). status_is 503 (result queued) in
                      let final = λ (active : Future (ℕ × String)) (stopped : Future String).
                        finish host pool mode base active stopped in
                      let stop = start_stop host pool mode cid base in
                      let queue = start_queued host pool base long in
                      plain-Runs (start_active host pool mode base long)
                        (λ active. queue >>= λ queued.
                          stop >>= λ stopped. refusal queued >>= λ _. final active stopped)
                        body
                        (λ active a1 activated b1.
                          plain-Runs queue
                            (λ queued.
                              stop >>= λ stopped. refusal queued >>= λ _. final active stopped)
                            b1
                            (λ queued a2 queueing b2.
                              plain-Runs stop
                                (λ stopped. refusal queued >>= λ _. final active stopped) b2
                                (λ stopped a3 stopping_run b3.
                                  plain-Runs (refusal queued) (λ _. final active stopped) b3
                                    (λ _ a4 refusing b4.
                                      plain-Runs (shows host base "laya_queue_size 0")
                                        (λ _. result stopped >>= λ out.
                                          check_drained host pool mode active)
                                        b4
                                        (λ _ a5 empty b5.
                                          plain-Runs (result stopped)
                                            (λ out. check_drained host pool mode active) b5
                                            (λ out a6 halted drained.
                                              let begun =
                                                start_active-IsActive host pool mode base long
                                                  activated in
                                              record {
                                                base = base;
                                                active = active;
                                                queued = queued;
                                                stopped = stopped;
                                                output = out;
                                                located = s1;
                                                loaded = a1;
                                                waiting = a2;
                                                draining = a3;
                                                refused = a4;
                                                emptied = a5;
                                                halted = a6;
                                                answered = u;
                                                closed = s2;
                                                ended = s3;
                                                base_eq = located;
                                                active_eq = begun;
                                                queued_eq =
                                                    start_queued-IsQueued host pool base long
                                                      queueing;
                                                stopped_eq =
                                                    start_stop-IsStopping host pool mode cid base
                                                      stopping_run;
                                                refused_eq = refusing;
                                                emptied_eq = empty;
                                                halted_eq = halted;
                                                answered_eq = drained;
                                                closed_eq = closing;
                                                ended_eq = coded;
                                                gone = refuted-Runs (ready host base) last;
                                                active_answer_eq =
                                                    active_answer host pool mode base active
                                                      begun.seen a6 (returned begun.checked)
                                                      (returned drained);
                                                queued_answer_eq =
                                                    status_is-Answers host pool 503 (result queued)
                                                      a3 (returned refusing);
                                              }))))))))))

  -- A scenario from `s`: a container was created from the image, started, stopped under load, and
  -- removed.
  pub record IsScenario (image bundle : String) (long : Json) (mode : Mode) (s : W) : Type 0 where
    pub ran :
        Ran host image (some bundle) (stop_options mode) [] (stopping host pool mode long) s tt
    pub created :
        IsCreation image
          (stop_options mode)
          (create_args image (some bundle) (stop_options mode) [])
    pub last : W
    pub stopped : IsStopped mode long ran.cid ran.running last

  scenario-IsScenario :
      (image bundle : String) (long : Json) (mode : Mode) {s t : W}
      → Runs (scenario host pool image bundle long mode) s tt t
      → IsScenario image bundle long mode s
  unfolding scenario
  scenario-IsScenario image bundle long mode {s} r =
      let parts =
        container-Ran host image (some bundle) (stop_options mode) [] (stopping host pool mode long)
          s tt (returned r) in
      record {
        ran = parts;
        created = create_args-IsCreation image (some bundle) (stop_options mode) [];
        last = (stopping host pool mode long parts.cid parts.running).1;
        stopped =
            stopping-IsStopped mode long parts.cid
              (has_run (stopping host pool mode long parts.cid) parts.running tt parts.body_eq);
      }

  -- When `stop_scenarios` raises nothing: with the long request of the fixture, a scenario with time to
  -- drain and then one without went as they have to.
  pub record AreStopped (image bundle : String) (s : W) : Type 0 where
    pub long : Json
    pub between : W
    pub long_eq : long_request host ≡ ok long
    pub drained : IsScenario image bundle long drain s
    pub drained_eq : Runs (scenario host pool image bundle long drain) s tt between
    pub expired : IsScenario image bundle long expire between

  pub stop_scenarios-AreStopped :
      (image bundle : String) {s t : W}
      → Runs (stop_scenarios host pool image bundle) s tt t
      → AreStopped image bundle s
  unfolding stop_scenarios
  stop_scenarios-AreStopped image bundle {s} {t} r =
      let run = λ (mode : Mode) (long : Json). scenario host pool image bundle long mode in
      plain-Runs (reading (λ w. long_request host))
        (λ long. run drain long >>= λ _. run expire long) r
        (λ long s1 read r1.
          let same : s ≡ s1 = ap (λ p. p.1) read.result_eq in
          let r1' =
            subst (λ z. Runs (run drain long >>= λ _. run expire long) z tt t) (sym same) r1 in
          plain-Runs (run drain long) (λ _. run expire long) r1'
            (λ _ s2 first second. record {
              long = long;
              between = s2;
              long_eq = returned read;
              drained = scenario-IsScenario image bundle long drain first;
              drained_eq = first;
              expired = scenario-IsScenario image bundle long expire second;
            }))
