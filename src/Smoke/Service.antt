-- ===== src/Smoke/Service.antt =====
-- A container and the service in it, in docs/validation/docker-smoke.py: each call runs against the
-- state of the world.
use laya_rs.Base.{
  ℕ, zero, suc, ◌+◌, ◌*◌, Bool, true, false, Option, none, some, List, [], ◌∷◌, ◌++◌, String, ◌<>◌,
  ◌==◌, ltb, contains, nat_eq, string_eq, if◌then◌else◌,
}
use laya_rs.Base.Int.{pos, int_eq}
use laya_rs.Base.Raises.{
  Raises, ok, raise, require, assertion_error, url_error, connection_error, called_process_error,
}
use laya_rs.Base.Action.{Action, pure, reading, ◌>>=◌, ◌>>◌, always, handle}
use laya_rs.Base.Text.{strip, split_lines}
use laya_rs.Base.Json.{Json, text, get, first_item, is_falsy, int_of}
use laya_rs.Smoke.{Host, Request, Reply, response, http_error, unanswered, Process}
use laya_rs.Smoke.Metadata.{state_of}

-- `result.check_returncode()`
unfoldable pub checked : Process → Raises String
checked p = if p.returncode == 0 then ok p.stdout else raise (called_process_error p.returncode)

abbrev pub needs_token : String → Bool
needs_token path = contains ("/v1/system-one" ∷ "/metrics" ∷ []) path

-- The status and the body. An HTTPError is a response like another.
unfoldable pub read_reply : Reply → Raises (ℕ × String)
read_reply (response status body) = elim body [ ok s ↦ ok (status, s) | raise e ↦ raise e ]
read_reply (http_error status body) = elim body [ ok s ↦ ok (status, s) | raise e ↦ raise e ]
read_reply (unanswered e) = raise e

abbrev pub flatten_mounts : List String → List String
flatten_mounts [] = []
flatten_mounts (mount ∷ mounts) = "--mount" ∷ mount ∷ flatten_mounts mounts

abbrev pub bundle_mount : Option String → List String
bundle_mount none = []
bundle_mount (some bundle) =
    "--mount" ∷ ("type=bind,source=" <> (bundle <> ",target=/models/multilingual,readonly")) ∷ []

-- The arguments of `docker create`.
unfoldable pub create_args : String → Option String → List String → List String → List String
create_args image bundle options mounts =
    ("create" ∷ "--label" ∷ "laya.validation=18" ∷ "--platform" ∷ "linux/arm64" ∷ "--cpus" ∷ "8"
      ∷ "--memory" ∷ "12g" ∷ "--memory-swap" ∷ "12g" ∷ "--read-only" ∷ "--cap-drop" ∷ "ALL"
      ∷ "--security-opt" ∷ "no-new-privileges" ∷ "--env" ∷ "LAYA_API_TOKEN" ∷ "-p"
      ∷ "127.0.0.1::8080" ∷ [])
    ++ (bundle_mount bundle
        ++ (flatten_mounts mounts
            ++ (image ∷ "--model" ∷ "/models/multilingual" ∷ "--threads" ∷ "1" ∷ "--max-concurrency"
                ∷ "1" ∷ options)))

-- `inspect(cid)["NetworkSettings"]["Ports"]["8080/tcp"][0]["HostPort"]`
unfoldable pub host_port : Json → Raises Json
unfolding get first_item
host_port state = elim (get "NetworkSettings" state) [
  | raise e ↦ raise e
  | ok network ↦ elim (get "Ports" network) [
    | raise e ↦ raise e
    | ok ports ↦ elim (get "8080/tcp" ports) [
      | raise e ↦ raise e
      | ok bindings ↦ elim (first_item bindings) [
        | raise e ↦ raise e
        | ok binding ↦ get "HostPort" binding
      ]
    ]
  ]
]

module _ {W : Type 0} (host : Host W) where
  open host use {urlopen, process, clock, sleep, loads, show, api_token}

  unfoldable pub docker : List String → Action W String
  unfolding checked strip
  docker args = do
    p ← process ("docker" ∷ args) (("LAYA_API_TOKEN", api_token) ∷ [])
    out ← reading (λ w. checked p)
    pure (strip out)

  -- The state of a container, without the token.
  unfoldable pub inspect : String → Action W Json
  unfolding docker state_of
  inspect container = do
    out ← docker ("inspect" ∷ container ∷ [])
    reading (λ w. state_of loads out)

  unfoldable pub make_request : String → String → Option String → Request
  make_request base path body = record {
    url = base <> path;
    body = body;
    headers =
        ("Content-Type", "application/json")
        ∷ (if needs_token path then ("Authorization", "Bearer " <> api_token) ∷ [] else []);
  }

  unfoldable pub request : String → String → Option String → Action W (ℕ × String)
  unfolding make_request read_reply
  request base path body w =
      let (reply, w') = urlopen (make_request base path body) w in (read_reply reply, w')

  abbrev pub now : Action W ℕ
  now w = let (t, w') = clock w in (ok t, w')

  -- What a round of `wait_for` does with the check's result: 50 milliseconds of sleep, in nanoseconds,
  -- stand before the next round.
  unfoldable pub poll : (W → Raises (Unit {0}) × W) → Raises Bool × W → Raises (Unit {0}) × W
  poll next (ok true, w) = (ok tt, w)
  poll next (ok false, w) = next (sleep 50_000_000 w)
  poll next (raise e, w) = (raise e, w)

  -- The rounds, on fuel.
  unfoldable pub wait_until : ℕ → ℕ → Action W Bool → Action W (Unit {0})
  unfolding poll
  wait_until zero end check w = (raise assertion_error, w)
  wait_until (suc fuel) end check w = elim (ltb (clock w).0 end) [
    | false ↦ (raise assertion_error, (clock w).1)
    | true ↦ poll (wait_until fuel end check) (check (clock w).1)
  ]

  unfoldable pub wait_for : Action W Bool → ℕ → Action W (Unit {0})
  unfolding wait_until
  wait_for check seconds = do
    t ← now
    wait_until (suc (20 * seconds)) (t + 1_000_000_000 * seconds) check

  unfoldable pub ready : String → Action W Bool
  unfolding request
  ready base =
      handle (do (status, body) ← request base "/readyz" none; pure (status == 200))
        (λ e. elim e [
          | url_error reason ↦ pure false
          | connection_error ↦ pure false
          | other ↦ reading (λ w. raise other)
        ])

  unfoldable pub metric : String → String → Action W Bool
  unfolding request split_lines
  metric base line = do
    (status, body) ← request base "/metrics" none
    reading (λ w. require (status == 200))
    pure (contains (split_lines body) line)

  -- The logs of a container, printed as they are.
  unfoldable pub logs : String → Action W Process
  unfolding checked
  logs cid = do
    p ← process ("docker" ∷ "logs" ∷ cid ∷ []) []
    out ← reading (λ w. checked p)
    pure p

  -- What ends a container, whatever became of it.
  unfoldable pub clean_up : String → Action W (Unit {0})
  unfolding logs inspect docker
  clean_up cid =
      always
        (do p ← logs cid; state ← inspect cid; shown ← reading (λ w. get "State" state); pure tt)
        (do out ← docker ("rm" ∷ "-f" ∷ cid ∷ []); pure tt)

  -- `with container(...) as cid: body`
  unfoldable pub container :
      {A : Type 0}
      → String
      → Option String
      → List String
      → List String
      → (String → Action W A)
      → Action W A
  unfolding docker create_args clean_up
  container image bundle options mounts body = do
    cid ← docker (create_args image bundle options mounts)
    always (do out ← docker ("start" ∷ cid ∷ []); body cid) (clean_up cid)

  -- `f"{port}"`
  unfoldable pub formatted : Json → String
  formatted (text s) = s
  formatted j = show j

  unfoldable pub base_url : String → Action W String
  unfolding inspect host_port formatted wait_for ready
  base_url cid = do
    state ← inspect cid
    port ← reading (λ w. host_port state)
    let base = "http://127.0.0.1:" <> formatted port
    wait_for (ready base) 90
    pure base

  unfoldable pub exit_code : String → ℕ → Action W (Unit {0})
  unfolding docker int_of inspect get is_falsy
  exit_code cid expected = do
    out ← docker ("wait" ∷ cid ∷ [])
    code ← reading (λ w. int_of out)
    reading (λ w. require (code == pos expected))
    found ← inspect cid
    state ← reading (λ w. get "State" found)
    killed ← reading (λ w. get "OOMKilled" state)
    elim (is_falsy killed) [
      | false ↦ reading (λ w. raise assertion_error)
      | true ↦ do
        running ← reading (λ w. get "Running" state)
        reading (λ w. require (is_falsy running))
    ]
