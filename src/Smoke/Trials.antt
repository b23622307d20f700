-- ===== src/Smoke/Trials.antt =====
-- A run of the whole acceptance on a host that gives prepared replies and exit codes in turn.
use laya_rs.Base.{
  ℕ, ◌+◌, ◌≡◌, refl, Bool, true, false, Option, none, some, List, [], ◌∷◌, ◌++◌, String, ◌<>◌, ◌==◌,
  string_eq, if◌then◌else◌, contains, replicate,
}
use laya_rs.Base.Raises.{Raises, ok, os_error}
use laya_rs.Base.Action.{pure}
use laya_rs.Base.Text.{ends_with}
use laya_rs.Base.Json.{Json, nil, item, end, field, boolean, text, array, object}
use laya_rs.Smoke.{Host, Reply, response, http_error, unanswered, Process}
use laya_rs.Smoke.Tests.{loaded}
use laya_rs.Smoke.Threads.{Pool, stop_scenarios}
use laya_rs.Smoke.Main.{Machine, main}
use laya_rs.Smoke.Accepted.{IsAccepted, main-IsAccepted}

-- The replies and the exit codes that are still to come.
abbrev Script : Type 0
Script = List Reply × List String

abbrev next_reply : Script → Reply × Script
next_reply ([], codes) = (unanswered os_error, ([], codes))
next_reply (r ∷ replies, codes) = (r, (replies, codes))

abbrev next_code : Script → String × Script
next_code (replies, []) = ("0", (replies, []))
next_code (replies, c ∷ codes) = (c, (replies, codes))

abbrev messages : String
messages =
    "existing local directory; native ONNX Runtime load or ABI check failed; bundle file is missing or unreadable; SHA-256 differs from manifest"

abbrev output_of : List String → String
output_of args =
    if contains args "create"
    then "c1"
    else if contains args "inspect"
    then "[served]"
    else if contains args "exec"
    then "/opt/onnxruntime/lib/libonnxruntime.so.1.28.0"
    else ""

abbrev run_process : List String → Script → Raises Process × Script
run_process args s =
    if contains args "wait"
    then (let (code, s') = next_code s in
        (ok (record { returncode = 0; stdout = code; stderr = "" }), s'))
    else (ok (record { returncode = 0; stdout = output_of args; stderr = messages }), s)

abbrev served_state : Json
served_state = object (
    field "Config" (object (field "Env" (array nil) end)) (
      field "State"
        (object (field "OOMKilled" (boolean false) (field "Running" (boolean false) end)))
        (field "HostConfig" (object (field "ReadonlyRootfs" (boolean true) end)) (
          field "Mounts" (array (item (object (field "RW" (boolean false) end)) nil)) (
            field "NetworkSettings"
              (object (
                field "Ports"
                  (object (
                    field "8080/tcp"
                      (array (item (object (field "HostPort" (text "4000") end)) nil)) end))
                  end))
              end)))))

abbrev script_host : Host Script
script_host = record {
  urlopen = λ r. next_reply;
  process = λ args env. run_process args;
  clock = λ s. (0, s);
  sleep = λ d s. s;
  loads = λ s. if s == "[served]" then ok (array (item served_state nil)) else loaded s;
  read_text = λ path. if ends_with "manifest.json" path then ok "manifest" else ok "fixture";
  show = λ j. "";
  api_token = "t";
  unit = 1_000_000;
}

-- A pool that runs a call when it is submitted.
abbrev eager : Pool Script
eager = record {
  Future = λ A. Raises A;
  submit = λ m s. m s;
  result = λ f s. (f, s);
  shutdown = λ s. s;
}

abbrev machine : Machine Script
machine = record {
  temporary_directory = λ prefix. pure "/tmp/laya-docker-1";
  remove_directory = λ path. pure tt;
  chmod = λ path mode. pure tt;
  mkdir = λ path mode. pure tt;
  read_bytes = λ path. pure (8 ∷ 7 ∷ []);
  write_bytes = λ path bytes. pure tt;
  file_digest = λ path. pure "";
  resolve = λ path. pure path;
  lower = λ s. s;
}

abbrev status : ℕ → Reply
status n = response n (ok "")

abbrev figures : Reply
figures = response 200 (
    ok
      "laya_requests_total 21\nlaya_inference_duration_seconds_count 21\nlaya_inference_inflight 0\nlaya_inference_inflight 1\nlaya_queue_size 0\nlaya_queue_size 1\n")

abbrev drain_replies : List Reply
drain_replies =
    status 200
    ∷ status 200
    ∷ figures
    ∷ http_error 503 (ok "")
    ∷ figures
    ∷ status 503
    ∷ status 200
    ∷ figures
    ∷ status 503
    ∷ []

abbrev expire_replies : List Reply
expire_replies =
    status 200
    ∷ status 504
    ∷ figures
    ∷ figures
    ∷ http_error 503 (ok "")
    ∷ figures
    ∷ status 503
    ∷ status 200
    ∷ figures
    ∷ status 503
    ∷ []

abbrev stop_script : Script
stop_script = (drain_replies ++ expire_replies, "0" ∷ "1" ∷ [])

stops : (stop_scenarios script_host eager "laya" "/b" stop_script).0 ≡ ok tt
unfolding stop_scenarios string_eq laya_rs.Base.ℕ_discrete laya_rs.Base.Text.decimal
    laya_rs.Base.Text.ends_with
stops = refl

-- The replies to a whole run.
abbrev main_script : Script
main_script = (
  (status 200 ∷ response 200 (ok "{\"status\":\"ok\"}") ∷ replicate 21 (response 200 (ok "answer")))
      ++ (replicate 5 figures ++ (status 503 ∷ (drain_replies ++ expire_replies))),
  "2" ∷ "1" ∷ "1" ∷ "1" ∷ "1" ∷ "0" ∷ "0" ∷ "1" ∷ [],
)

accepts : (main script_host machine eager "laya" "/b" main_script).0 ≡ ok tt
unfolding main string_eq laya_rs.Base.ℕ_discrete laya_rs.Base.Text.decimal
    laya_rs.Base.Text.ends_with
accepts = refl

main-IsAccepted_example : IsAccepted script_host machine eager "laya" "/b" main_script
main-IsAccepted_example = main-IsAccepted script_host machine eager "laya" "/b" main_script accepts
