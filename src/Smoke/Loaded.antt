-- ===== src/Smoke/Loaded.antt =====
-- A container under load, and the answers to its requests, in `stop_scenarios` of
-- docs/validation/docker-smoke.py.
use laya_rs.Base.{
  ℕ, ◌+◌, ◌≡◌, sym, ap, ◌∙◌, Option, none, List, [], ◌∷◌, ◌++◌, String, subst₂, arith, ◌==◌, nat_eq,
}
use laya_rs.Base.Raises.{ok, require, is_required}
use laya_rs.Base.Action.{Action, pure, reading, ◌>>=◌, >>=-value}
use laya_rs.Base.Steps.{Runs, returned, plain-Runs, plain_pure-Runs}
use laya_rs.Base.Text.{decimal}
use laya_rs.Base.Json.{Json}
use laya_rs.Smoke.{Host}
use laya_rs.Smoke.Service.{
  docker, request, create_args, bundle_mount, flatten_mounts, metric, wait_for,
}
use laya_rs.Smoke.Acceptance.{body_of}
use laya_rs.Smoke.Threads.{
  Pool, Mode, limit, drain, expire, status_is, check_expired, check_drained, start_active,
  start_queued, start_stop, shows, submitted, is_draining, ask_long,
}
use mathlib.Core.List.{append_assoc}

-- The image stands in front of the program's own arguments, and the options behind them.
pub record IsCreation (image : String) (options args : List String) : Type 0 where
  pub front : List String
  pub args_eq :
      args
      ≡ front
        ++ (image ∷ "--model" ∷ "/models/multilingual" ∷ "--threads" ∷ "1" ∷ "--max-concurrency"
            ∷ "1" ∷ options)

pub create_args-IsCreation :
    (image : String) (bundle : Option String) (options mounts : List String)
    → IsCreation image options (create_args image bundle options mounts)
unfolding create_args
create_args-IsCreation image bundle options mounts = record {
  front = (limits ++ bundle_mount bundle) ++ flatten_mounts mounts;
  args_eq = sym (
      append_assoc (limits ++ bundle_mount bundle) (flatten_mounts mounts) rest
      ∙ append_assoc limits (bundle_mount bundle) (flatten_mounts mounts ++ rest));
}
  where
    limits : List String
    limits =
        "create" ∷ "--label" ∷ "laya.validation=18" ∷ "--platform" ∷ "linux/arm64" ∷ "--cpus" ∷ "8"
        ∷ "--memory" ∷ "12g" ∷ "--memory-swap" ∷ "12g" ∷ "--read-only" ∷ "--cap-drop" ∷ "ALL"
        ∷ "--security-opt" ∷ "no-new-privileges" ∷ "--env" ∷ "LAYA_API_TOKEN" ∷ "-p"
        ∷ "127.0.0.1::8080" ∷ []

    rest : List String
    rest =
        image ∷ "--model" ∷ "/models/multilingual" ∷ "--threads" ∷ "1" ∷ "--max-concurrency" ∷ "1"
        ∷ options

module _ {W : Type 0} (host : Host W) (pool : Pool W) where
  open pool use {Future, result}

  -- The call returned the status.
  pub Answers : ℕ → Action W (ℕ × String) → Type 0
  Answers status call = (w : W) × (body : String) × ((call w).0 ≡ ok (status, body))

  pub status_is-Answers :
      (status : ℕ) (call : Action W (ℕ × String)) (w : W)
      → (status_is status call w).0 ≡ ok tt
      → Answers status call
  unfolding status_is Answers
  status_is-Answers status call w h =
      let (reply, returned, h1) =
        >>=-value call (λ reply. reading (λ w. require (reply.0 == status))) w tt h in
      let tested = is_required (reply.0 == status) h1 in
      let same : reply.0 ≡ status = ground arith in
      (w, reply.1, returned ∙ ap (λ n. ok (n, reply.1)) same)

  -- The active request was answered with 200 when the time was enough and with 504 when it was not.
  pub ActiveAnswer : Mode → Future (ℕ × String) → Type 0
  ActiveAnswer drain active = Answers 200 (result active)
  ActiveAnswer expire active = Answers 504 (result active)

  pub active_answer :
      (mode : Mode) (base : String) (active : Future (ℕ × String)) (before after : W)
      → (check_expired host pool mode base active before).0 ≡ ok tt
      → (check_drained host pool mode active after).0 ≡ ok tt
      → ActiveAnswer mode active
  unfolding check_expired check_drained ActiveAnswer
  active_answer drain base active before after h k = status_is-Answers 200 (result active) after k
  active_answer expire base active before after h k =
      let (_, timed_out, _) =
        >>=-value (status_is 504 (result active)) (λ _. shows host base "laya_inference_inflight 1")
          before tt h in
      status_is-Answers 504 (result active) before timed_out

  -- The request that loads the service.
  abbrev question : String → Json → Action W (ℕ × String)
  question base long =
      reading (λ w. body_of long) >>= λ sent. request host base "/v1/system-one" sent

  -- The first request, from `s` to `t`: a thread of the pool has sent it, and it was seen in the metrics.
  pub record IsActive (mode : Mode) (base : String) (long : Json) (active : Future (ℕ × String))
      (s t : W) : Type 0 where
    pub sent : W
    pub seen : W
    pub sent_eq : Runs (submitted host pool (question base long)) s active sent
    pub seen_eq :
        Runs (wait_for host (metric host base "laya_inference_inflight 1") 90) sent tt seen
    pub checked : Runs (check_expired host pool mode base active) seen tt t

  pub start_active-IsActive :
      (mode : Mode) (base : String) (long : Json) {active : Future (ℕ × String)} {s t : W}
      → Runs (start_active host pool mode base long) s active t
      → IsActive mode base long active s t
  unfolding start_active ask_long
  start_active-IsActive mode base long {active} {s} {t} r =
      let wait = wait_for host (metric host base "laya_inference_inflight 1") 90 in
      let check = check_expired host pool mode base in
      let rest : Future (ℕ × String) → Action W (Future (ℕ × String)) =
        λ f. check f >>= λ _. pure f in
      plain-Runs (submitted host pool (question base long)) (λ f. wait >>= λ _. rest f) r
        (λ f s1 sent r1.
          plain-Runs wait (λ _. rest f) r1
            (λ _ s2 seen r2.
              plain-Runs (check f) (λ _. pure f) r2
                (λ _ s3 checked last.
                  let (same, final) = plain_pure-Runs f last in
                  subst₂ (λ g z. IsActive mode base long g s z) same final
                    (record {
                      sent = s1;
                      seen = s2;
                      sent_eq = sent;
                      seen_eq = seen;
                      checked = checked;
                    }))))

  -- The second request, which was seen in the queue.
  pub record IsQueued (base : String) (long : Json) (queued : Future (ℕ × String)) (s t : W)
      : Type 0 where
    pub sent : W
    pub sent_eq : Runs (submitted host pool (question base long)) s queued sent
    pub seen_eq : Runs (wait_for host (metric host base "laya_queue_size 1") 90) sent tt t

  pub start_queued-IsQueued :
      (base : String) (long : Json) {queued : Future (ℕ × String)} {s t : W}
      → Runs (start_queued host pool base long) s queued t
      → IsQueued base long queued s t
  unfolding start_queued ask_long
  start_queued-IsQueued base long {queued} {s} {t} r =
      let wait = wait_for host (metric host base "laya_queue_size 1") 90 in
      plain-Runs (submitted host pool (question base long)) (λ f. wait >>= λ _. pure f) r
        (λ f s1 sent r1.
          plain-Runs wait (λ _. pure f) r1
            (λ _ s2 seen last.
              let (same, final) = plain_pure-Runs f last in
              subst₂ (λ g z. IsQueued base long g s z) same final
                (record { sent = s1; sent_eq = sent; seen_eq = seen })))

  -- The stop, in a thread of the pool: the service was seen to drain, and was alive.
  pub record IsStopping (mode : Mode) (cid base : String) (stopped : Future String) (s t : W)
      : Type 0 where
    pub sent : W
    pub seen : W
    pub sent_eq :
        Runs
          (submitted host pool
            (docker host ("stop" ∷ "--timeout" ∷ decimal (limit mode + 10) ∷ cid ∷ [])))
          s
          stopped
          sent
    pub seen_eq : Runs (wait_for host (is_draining host base) 3) sent tt seen
    pub alive : Runs (status_is 200 (request host base "/healthz" none)) seen tt t

  pub start_stop-IsStopping :
      (mode : Mode) (cid base : String) {stopped : Future String} {s t : W}
      → Runs (start_stop host pool mode cid base) s stopped t
      → IsStopping mode cid base stopped s t
  unfolding start_stop
  start_stop-IsStopping mode cid base {stopped} {s} {t} r =
      let stop =
        submitted host pool
          (docker host ("stop" ∷ "--timeout" ∷ decimal (limit mode + 10) ∷ cid ∷ [])) in
      let wait = wait_for host (is_draining host base) 3 in
      let alive = status_is 200 (request host base "/healthz" none) in
      plain-Runs stop (λ f. wait >>= λ _. alive >>= λ _. pure f) r
        (λ f s1 sent r1.
          plain-Runs wait (λ _. alive >>= λ _. pure f) r1
            (λ _ s2 seen r2.
              plain-Runs alive (λ _. pure f) r2
                (λ _ s3 lives last.
                  let (same, final) = plain_pure-Runs f last in
                  subst₂ (λ g z. IsStopping mode cid base g s z) same final
                    (record {
                      sent = s1;
                      seen = s2;
                      sent_eq = sent;
                      seen_eq = seen;
                      alive = lives;
                    }))))
