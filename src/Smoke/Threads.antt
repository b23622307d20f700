-- ===== src/Smoke/Threads.antt =====
-- `stop_scenarios` in docs/validation/docker-smoke.py: a container that is stopped while requests are under
-- way in the threads of a pool.
use laya_rs.Base.{ℕ, ◌+◌, Bool, not, none, some, List, [], ◌∷◌, String, ◌==◌, nat_eq}
use laya_rs.Base.Text.{decimal}
use laya_rs.Base.Raises
use laya_rs.Base.Raises.{Raises, ok, raise, require}
use laya_rs.Base.Action.{Action, pure, reading, ◌>>=◌, always}
use laya_rs.Base.Json.{Json, get}
use laya_rs.Smoke.{Host}
use laya_rs.Smoke.Service.{docker, request, wait_for, ready, metric, container, base_url, exit_code}
use laya_rs.Smoke.Acceptance.{body_of}

-- A pool of threads. `result` waits for a call's end and gives what it returned or raised; `shutdown`
-- waits for all.
pub record Pool (W : Type 0) : Type 1 where
  pub Future : Type 0 → Type 0
  pub submit : {A : Type 0} → Action W A → W → Future A × W
  pub result : {A : Type 0} → Future A → Action W A
  pub shutdown : W → W

pub data Mode : Type 0 where
  drain expire : Mode

-- `grace` and `inference` of a mode, and the code that the container ends with
abbrev pub limit : Mode → ℕ
limit drain = 120
limit expire = 1

abbrev pub ending : Mode → ℕ
ending drain = 0
ending expire = 1

abbrev pub stop_options : Mode → List String
stop_options mode =
    "--shutdown-grace" ∷ decimal (limit mode) ∷ "--inference-timeout" ∷ decimal (limit mode) ∷ []

module _ {W : Type 0} where
  -- `assert call[0] == status`
  unfoldable pub status_is : ℕ → Action W (ℕ × String) → Action W (Unit {0})
  status_is status call = call >>= λ reply. reading (λ w. require (reply.0 == status))

module _ {W : Type 0} (host : Host W) where
  -- `assert metric(base, line)`
  unfoldable pub shows : String → String → Action W (Unit {0})
  unfolding metric
  shows base line = metric host base line >>= λ shown. reading (λ w. require shown)

  -- `request(base, "/v1/system-one", long)`
  unfoldable pub ask_long : String → Json → Action W (ℕ × String)
  unfolding body_of request
  ask_long base long =
      reading (λ w. body_of long) >>= λ sent. request host base "/v1/system-one" sent

  unfoldable pub is_draining : String → Action W Bool
  unfolding request
  is_draining base = request host base "/readyz" none >>= λ reply. pure (reply.0 == 503)

  -- The request of the long fixture.
  unfoldable pub long_request : Raises Json
  unfolding get
  long_request =
      Raises.◌>>=◌ (host.read_text "tests/fixtures/system-one/long-padding.json")
        λ raw. Raises.◌>>=◌ (host.loads raw) λ fixture. get "request_json" fixture

module _ {W : Type 0} (host : Host W) (pool : Pool W) where
  open pool use {Future, submit, result, shutdown}

  abbrev pub submitted : {A : Type 0} → Action W A → Action W (Future A)
  submitted m w = let (f, w') = submit m w in (ok f, w')

  -- What is asserted before the second request, and at the end.
  unfoldable pub check_expired : Mode → String → Future (ℕ × String) → Action W (Unit {0})
  unfolding status_is shows
  check_expired drain base active = pure tt
  check_expired expire base active =
      status_is 504 (result active) >>= λ _. shows host base "laya_inference_inflight 1"

  unfoldable pub check_drained : Mode → Future (ℕ × String) → Action W (Unit {0})
  unfolding status_is
  check_drained drain active = status_is 200 (result active)
  check_drained expire active = pure tt

  -- The first request, until it is seen in the metrics.
  unfoldable pub start_active : Mode → String → Json → Action W (Future (ℕ × String))
  unfolding ask_long wait_for metric check_expired
  start_active mode base long = submitted (ask_long host base long) >>= λ active.
      wait_for host (metric host base "laya_inference_inflight 1") 90 >>= λ _.
      check_expired mode base active >>= λ _. pure active

  -- The second request, until it is seen in the queue.
  unfoldable pub start_queued : String → Json → Action W (Future (ℕ × String))
  unfolding ask_long wait_for metric
  start_queued base long = submitted (ask_long host base long) >>= λ queued.
      wait_for host (metric host base "laya_queue_size 1") 90 >>= λ _. pure queued

  -- The stop of the container, until the service is seen to drain.
  unfoldable pub start_stop : Mode → String → String → Action W (Future String)
  unfolding docker wait_for is_draining status_is request
  start_stop mode cid base =
      submitted (docker host ("stop" ∷ "--timeout" ∷ decimal (limit mode + 10) ∷ cid ∷ []))
      >>= λ stopped. wait_for host (is_draining host base) 3 >>= λ _.
          status_is 200 (request host base "/healthz" none) >>= λ _. pure stopped

  unfoldable pub finish : Mode → String → Future (ℕ × String) → Future String → Action W (Unit {0})
  unfolding shows check_drained
  finish mode base active stopped = shows host base "laya_queue_size 0" >>= λ _.
      result stopped >>= λ out. check_drained mode active

  unfoldable pub threads : Mode → Json → String → String → Action W (Unit {0})
  unfolding start_active start_queued start_stop status_is finish
  threads mode long cid base = start_active mode base long >>= λ active.
      start_queued base long >>= λ queued. start_stop mode cid base >>= λ stopped.
      status_is 503 (result queued) >>= λ _. finish mode base active stopped

  abbrev pub joined : Action W (Unit {0})
  joined w = (ok tt, shutdown w)

  -- The body of `with container(...)`.
  unfoldable pub stopping : Mode → Json → String → Action W (Unit {0})
  unfolding base_url threads exit_code ready
  stopping mode long cid = base_url host cid >>= λ base.
      always (threads mode long cid base) joined >>= λ _. exit_code host cid (ending mode) >>= λ _.
      ready host base >>= λ up. reading (λ w. require (not up))

  unfoldable pub scenario : String → String → Json → Mode → Action W (Unit {0})
  unfolding container stopping
  scenario image bundle long mode =
      container host image (some bundle) (stop_options mode) [] (stopping mode long)

  unfoldable pub stop_scenarios : String → String → Action W (Unit {0})
  unfolding long_request scenario
  stop_scenarios image bundle = reading (λ w. long_request host) >>= λ long.
      scenario image bundle long drain >>= λ _. scenario image bundle long expire
