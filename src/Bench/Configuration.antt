-- ===== src/Bench/Configuration.antt =====
-- `inventory` and `configuration` in docs/validation/benchmark.py: a container, its groups and what is
-- kept of it.
use laya_rs.Base.{
  ℕ, ◌-◌, Bool, false, ◌&&◌, Option, none, some, List, [], ◌∷◌, String, ◌<>◌, ◌==◌, nat_eq, all,
  if◌then◌else◌,
}
use laya_rs.Base.Text.{decimal}
use laya_rs.Base.Raises.{Raises, ok, raise, runtime_error}
use laya_rs.Base.Action.{Action, pure, reading, ◌>>=◌, ◌>>◌, always}
use laya_rs.Base.Json.{Json, get}
use laya_rs.Smoke.{Host}
use laya_rs.Smoke.Service.{docker, inspect, container, base_url, exit_code, now}
use laya_rs.Bench.Summary.{Row, Ratio, Report, is_success}
use laya_rs.Bench.Station.{
  Sample, cold, state, environment, Station, write_json, mkdir, station_host,
}
use laya_rs.Bench.Invoke.{invoke}
use laya_rs.Bench.Group.{group}

pub record Arguments : Type 0 where
  pub image : String
  pub bundle : String
  pub output : String

abbrev pub inventory_command : String
inventory_command =
    "uname -a; cat /proc/cpuinfo; cat /sys/fs/cgroup/cpu.max; cat /sys/fs/cgroup/cpuset.cpus.effective; cat /sys/fs/cgroup/memory.max; cat /sys/fs/cgroup/memory.swap.max; cat /sys/fs/cgroup/memory.events; sha256sum /usr/local/bin/laya-server /opt/onnxruntime/lib/libonnxruntime.so; dpkg-query -W"

-- `r['error_rate'] == 0`, where None is not 0
unfoldable pub is_zero : Option Ratio → Bool
is_zero none = false
is_zero (some r) = r.num == 0

-- `r['protocol_met'] and r['error_rate'] == 0`
abbrev pub is_met : Report → Bool
is_met r = r.protocol_met && is_zero r.error_rate

abbrev pub server_options : ℕ → ℕ → List String
server_options threads slots =
    "--threads"
    ∷ decimal threads
    ∷ "--max-concurrency"
    ∷ decimal slots
    ∷ "--inter-op-threads"
    ∷ "1"
    ∷ "--queue-capacity"
    ∷ "32"
    ∷ "--queue-timeout"
    ∷ "30"
    ∷ "--inference-timeout"
    ∷ "120"
    ∷ "--shutdown-grace"
    ∷ "120"
    ∷ []

abbrev pub directory_of : Arguments → ℕ → ℕ → String
directory_of args threads slots =
    args.output <> ("/t" <> (decimal threads <> ("-s" <> decimal slots)))

unfoldable pub demand_success : Row → Raises (Unit {0})
demand_success row = if is_success row then ok tt else raise (runtime_error "first request failed")

module _ {W : Type 0} (host : Host W) where
  unfoldable pub inventory : String → String → Action (Station W) (Unit {0})
  unfolding inspect write_json docker
  inventory cid directory = do
    found ← inspect (station_host host) cid
    write_json directory "container.json" (state found)
    out ← docker (station_host host) ("exec" ∷ cid ∷ "sh" ∷ "-ec" ∷ inventory_command ∷ [])
    write_json directory "environment.log" (environment (out <> "\n"))

  -- The first request to a container that was not asked before.
  unfoldable pub first_request : String → Json → String → ℕ → Action (Station W) (Unit {0})
  unfolding invoke write_json demand_success
  first_request base fixture directory started = do
    up ← now (station_host host)
    epoch ← now (station_host host)
    row ← invoke (station_host host) base fixture epoch
    write_json directory "cold.json" (cold (up - started) row)
    reading (λ w. demand_success row)

  unfoldable pub stop : String → List Report → Action (Station W) (List Report)
  unfolding docker
  stop cid reports =
      docker (station_host host) ("stop" ∷ "--timeout" ∷ "130" ∷ cid ∷ []) >>= λ out. pure reports

  unfoldable pub write_exit : String → String → Action (Station W) (Unit {0})
  unfolding inspect get write_json
  write_exit directory cid = do
    found ← inspect (station_host host) cid
    exit ← reading (λ w. get "State" found)
    write_json directory "exit.json" (state exit)

module _ {W : Type 0} (host : Host W)
    (measure : String
      → String
      → Json
      → ℕ
      → ℕ
      → String
      → Action (Station W) (List Row × List Sample)) where
  -- `[group(...) for c in ...]`
  unfoldable pub groups :
      String → String → Json → String → List ℕ → Action (Station W) (List Report)
  unfolding group
  groups cid base fixture directory [] = pure []
  groups cid base fixture directory (c ∷ clients) =
      group host measure cid base fixture c (directory <> ("/c" <> decimal c)) >>= λ report.
      groups cid base fixture directory clients >>= λ reports. pure (report ∷ reports)

  -- What `try` guards.
  unfoldable pub trial : Json → String → ℕ → String → Action (Station W) (List Report)
  unfolding base_url first_request inventory groups stop
  trial fixture directory started cid = base_url (station_host host) cid >>= λ base.
      first_request host base fixture directory started >>= λ _.
      inventory host cid directory >>= λ _.
      groups cid base fixture directory (1 ∷ 2 ∷ 4 ∷ 8 ∷ []) >>= stop host cid

  -- The body of the `with` statement.
  unfoldable pub observed : Json → String → ℕ → String → Action (Station W) (List Report)
  unfolding trial write_exit exit_code
  observed fixture directory started cid =
      always (trial fixture directory started cid) (write_exit host directory cid) >>= λ reports.
      exit_code (station_host host) cid 0 >>= λ _. pure reports

  unfoldable pub configuration : Arguments → ℕ → ℕ → Json → Action (Station W) Bool
  unfolding mkdir container observed
  configuration args threads slots fixture = mkdir (directory_of args threads slots) >>= λ _.
      now (station_host host) >>= λ started.
      container (station_host host) args.image (some args.bundle) (server_options threads slots) []
        (observed fixture (directory_of args threads slots) started)
      >>= λ reports. pure (all is_met reports)
