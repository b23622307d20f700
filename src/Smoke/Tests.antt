-- ===== src/Smoke/Tests.antt =====
-- Runs of the acceptance on a small host, whose state is the time in nanoseconds.
use laya_rs.Base.{
  ℕ, zero, suc, ◌+◌, ◌*◌, ◌≤◌, ◌≡◌, ◌⊎◌, refl, Bool, true, false, Option, none, some, List, [], ◌∷◌,
  String, ◌<>◌, ◌==◌, string_eq, arith, if◌then◌else◌, All, contains,
}
use laya_rs.Base.Int.{pos}
use laya_rs.Base.Raises.{Raises, Exception, ok, raise, value_error, assertion_error}
use laya_rs.Base.Action.{Action, pure, ◌>>=◌}
use laya_rs.Base.Text.{ends_with}
use laya_rs.Base.Json.{
  Json, Items, null, nil, item, end, field, boolean, number, text, array, object, finite, get, keys,
  same_keys,
}
use laya_rs.Smoke.{Host, Request, Reply, response, http_error}
use laya_rs.Smoke.Answer.{check_answer}
use laya_rs.Smoke.Service.{docker, inspect, now, wait_until, wait_for, container, create_args}
use laya_rs.Smoke.Acceptance.{fixtures}
use laya_rs.Smoke.Cleanup.{container-removes}
use laya_rs.Smoke.Closeness.{HasClose, check_answer-Close}
use laya_rs.Smoke.Secret.{NoToken, env_of, inspect-NoToken}
use laya_rs.Smoke.Waiting.{IsTimely, wait_for-fuel}

-- Answers with one question, answered with a probability in millionths.
abbrev pub answers_with : ℕ → Json
answers_with p = object (
    field "answers"
      (object (
        field "q1"
          (object (
            field "value" (boolean true) (
              field "rl_agent" (object (field "act_probability" (number (finite (pos p))) end))
                end)))
          end))
      (field "usage" null end))

abbrev pub fixture : Json
fixture = object (
    field "kind" (text "official_model")
      (field "request_json" (text "ask") (field "response" (answers_with 500_000) end)))

-- `n` entries of the same fixture.
abbrev entries : ℕ → Items
entries zero = nil
entries (suc n) = item (object (field "path" (text "one.json") end)) (entries n)

abbrev pub container_state : Json
container_state = object (
    field "Config"
      (object
        (field "Env" (array (item (text "PATH=/bin") (item (text "LAYA_API_TOKEN=t") nil))) end))
      (field "State"
        (object (field "OOMKilled" (boolean false) (field "Running" (boolean false) end)))
        (field "NetworkSettings"
          (object (
            field "Ports"
              (object (
                field "8080/tcp" (array (item (object (field "HostPort" (text "4000") end)) nil))
                  end))
              end))
          end)))

abbrev pub loaded : String → Raises Json
loaded s =
    if s == "answer"
    then ok (answers_with 500_001)
    else if s == "fixture"
    then ok fixture
    else if s == "manifest"
    then ok (object (field "files" (array (entries 21)) end))
    else if s == "[state]"
    then ok (array (item container_state nil))
    else raise (value_error "no JSON")

abbrev metrics_text : String
metrics_text =
    "laya_requests_total 21\nlaya_inference_duration_seconds_count 21\nlaya_inference_inflight 0\nlaya_queue_size 0\n"

abbrev pub answered : Request → Reply
answered r =
    if ends_with "/v1/system-one" r.url
    then response 200 (ok "answer")
    else if ends_with "/metrics" r.url
    then response 200 (ok metrics_text)
    else if ends_with "/readyz" r.url
    then response 200 (ok "")
    else http_error 404 (ok "")

abbrev pub printed : List String → String
printed args =
    if contains args "create"
    then "c1\n"
    else if contains args "inspect"
    then "[state]\n"
    else if contains args "wait"
    then "0\n"
    else ""

abbrev pub host : Host ℕ
host = record {
  urlopen = λ r w. (answered r, w + 1);
  process =
      λ args env w. (ok (record { returncode = 0; stdout = printed args; stderr = "" }), w + 1);
  clock = λ w. (w, w + 1);
  sleep = λ d w. w + d;
  loads = loaded;
  read_text = λ path. if ends_with "manifest.json" path then ok "manifest" else ok "fixture";
  show = λ j. "";
  api_token = "t";
  unit = 1_000_000;
}

abbrev host_IsTimely : IsTimely host
host_IsTimely = record {
  time = λ w. w;
  read = λ w. (omega arith, omega arith);
  slept = λ d w. omega arith;
}

accepts : check_answer 1_000_000 (answers_with 500_001) (answers_with 500_000) ≡ ok tt
unfolding check_answer string_eq laya_rs.Base.ℕ_discrete
accepts = refl

all_pass : (fixtures host "http://127.0.0.1:4000" 0).0 ≡ ok tt
unfolding fixtures string_eq ends_with laya_rs.Base.ℕ_discrete
all_pass = refl

check_answer-Close_example :
    (answers : Json) × (official : Json) × (ks : List String) × (ls : List String) × (get "answers"
        (answers_with 500_001)
      ≡ ok answers)
    × (get "answers" (answers_with 500_000) ≡ ok official)
    × (keys answers ≡ ok ks)
    × (keys official ≡ ok ls)
    × (same_keys ks ls ≡ true)
    × All (HasClose 1_000_000 (answers_with 500_001) (answers_with 500_000)) ls
check_answer-Close_example =
    check_answer-Close 1_000_000 (answers_with 500_001) (answers_with 500_000) accepts

-- The body of a `with` statement that asks for the time.
abbrev body : String → Action ℕ ℕ
body cid = now host

abbrev made : Action ℕ String
made = docker host (create_args "laya" (some "/b") [] [])

container-removes_example :
    ((e : Exception) × ((made 0).0 ≡ raise e)
      × (container host "laya" (some "/b") [] [] body 0 ≡ (raise e, (made 0).1)))
    ⊎ ((cid : String) × (w' : ℕ) × ((made 0).0 ≡ ok cid)
        × ((container host "laya" (some "/b") [] [] body 0).1
            ≡ (docker host ("rm" ∷ "-f" ∷ cid ∷ []) w').1))
container-removes_example = container-removes host "laya" (some "/b") [] [] body 0

container_returns : (container host "laya" (some "/b") [] [] body 0).0 ≡ ok 2
unfolding container string_eq laya_rs.Base.ℕ_discrete
container_returns = refl

abbrev volume_made : Action ℕ String
volume_made = docker host ("volume" ∷ "create" ∷ "--label" ∷ "laya.validation=18" ∷ [])

-- A check that is never satisfied.
abbrev unready : Action ℕ Bool
unready = pure false

deadline : (wait_for host unready 2 0).0 ≡ raise assertion_error
unfolding wait_for
deadline = refl

wait_for-fuel_example :
    wait_for host unready 2 0
    ≡ (now host >>= λ t. wait_until host (suc (20 * 2) + 5) (t + 1_000_000_000 * 2) unready) 0
wait_for-fuel_example = wait_for-fuel host host_IsTimely unready (λ w. omega arith) 2 5 0

inspect_returns : (state : Json) × ((inspect host "c1" 0).0 ≡ ok state)
unfolding inspect string_eq laya_rs.Base.ℕ_discrete
inspect_returns = (_, refl)

inspect-NoToken_example :
    (values : Items) × (env_of inspect_returns.0 ≡ ok (array values)) × NoToken values
inspect-NoToken_example = inspect-NoToken host "c1" 0 inspect_returns.0 inspect_returns.1
