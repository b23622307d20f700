-- ===== src/Smoke/Acceptance.antt =====
-- The checks of the acceptance, in docs/validation/docker-smoke.py.
use laya_rs.Base.{
  ℕ, ◌+◌, Bool, true, false, Option, none, some, List, [], ◌∷◌, String, ◌<>◌, ◌==◌, nat_eq,
  string_eq,
}
use laya_rs.Base.Raises
use laya_rs.Base.Raises.{Raises, ok, raise, require, attribute_error}
use laya_rs.Base.Action.{Action, pure, reading, ◌>>=◌, ◌>>◌, always}
use laya_rs.Base.Text.{has_part}
use laya_rs.Base.Json.{Json, Items, nil, item, null, text, get, json_eq, iterate, text_of}
use laya_rs.Smoke.{Host}
use laya_rs.Smoke.Answer.{check_answer}
use laya_rs.Smoke.Service.{docker, request, metric, container, exit_code, logs}

-- The body of a request, where None sends nothing and only a text has `encode`.
unfoldable pub body_of : Json → Raises (Option String)
body_of null = ok none
body_of (text s) = ok (some s)
body_of _ = raise attribute_error

abbrev pub fixture_root : String
fixture_root = "tests/fixtures/system-one/"

unfoldable pub entry_path : Json → Raises String
unfolding get text_of
entry_path entry = elim (get "path" entry) [ raise e ↦ raise e | ok path ↦ text_of path ]

-- A row of `cases` in `failures`.
pub record Case : Type 0 where
  pub model : Option String
  pub args : List String
  pub mounts : List String
  pub expected : ℕ
  pub message : String

-- The cases for a bundle, an empty directory and a corrupted copy of the graph.
unfoldable pub cases : String → String → String → List Case
cases bundle empty bad =
    record {
      model = none;
      args = [];
      mounts = [];
      expected = 2;
      message = "existing local directory";
    }
    ∷ record {
      model = some bundle;
      args = "--ort-library" ∷ "/lib/aarch64-linux-gnu/libc.so.6" ∷ [];
      mounts = [];
      expected = 1;
      message = "native ONNX Runtime load or ABI check failed";
    }
    ∷ record {
      model = some empty;
      args = [];
      mounts = [];
      expected = 1;
      message = "bundle file is missing or unreadable";
    }
    ∷ record {
      model = some bundle;
      args = [];
      mounts =
          ("type=bind,source=" <> (bad <> ",target=/models/multilingual/laya.onnx,readonly")) ∷ [];
      expected = 1;
      message = "SHA-256 differs from manifest";
    }
    ∷ []

abbrev pub unreadable_script : String
unreadable_script = "touch /models/multilingual/laya.onnx; chmod 000 /models/multilingual/laya.onnx"

-- What is sent for a fixture.
unfoldable pub sent_for : Json → Raises (Option String)
unfolding get body_of
sent_for fixture = Raises.◌>>=◌ (get "request_json" fixture) body_of

-- The lines that `fixtures` wants among the metrics.
abbrev pub metric_lines : List String
metric_lines =
    "laya_requests_total 21" ∷ "laya_inference_duration_seconds_count 21"
    ∷ "laya_inference_inflight 0" ∷ "laya_queue_size 0" ∷ []

module _ {W : Type 0} (host : Host W) where
  open host use {loads, read_text, unit}

  -- What is done with the reply.
  unfoldable pub check_reply : Json → ℕ × String → Raises (Unit {0})
  unfolding get check_answer
  check_reply fixture (status, body) = Raises.◌>>◌ (require (status == 200)) (
      Raises.◌>>=◌ (loads body) λ actual.
        Raises.◌>>=◌ (get "response" fixture) λ expected. check_answer unit actual expected)

  -- One official fixture against the service.
  unfoldable pub check_fixture : String → Json → Action W (Unit {0})
  unfolding sent_for request check_reply
  check_fixture base fixture = do
    sent ← reading (λ w. sent_for fixture)
    reply ← request host base "/v1/system-one" sent
    reading (λ w. check_reply fixture reply)

  unfoldable pub is_official : Json → Bool
  unfolding json_eq
  is_official kind = json_eq unit kind (text "official_model")

  -- The fixture of an entry, with its kind.
  unfoldable pub entry_fixture : Json → Raises (Json × Json)
  unfolding entry_path get
  entry_fixture entry = Raises.◌>>=◌ (entry_path entry) λ path.
      Raises.◌>>=◌ (read_text (fixture_root <> path)) λ raw.
        Raises.◌>>=◌ (loads raw)
          λ fixture. Raises.◌>>=◌ (get "kind" fixture) λ kind. ok (fixture, kind)

  -- A round of the loop, before the next ones.
  unfoldable pub visit : String → (ℕ → Action W ℕ) → ℕ → Json × Json → Action W ℕ
  unfolding is_official check_fixture
  visit base next count (fixture, kind) = elim (is_official kind) [
    | false ↦ next count
    | true ↦ check_fixture base fixture >>= λ _. next (count + 1)
  ]

  -- The loop over the manifest's files, with the count so far.
  unfoldable pub check_files : String → Items → ℕ → Action W ℕ
  unfolding entry_fixture visit
  check_files base nil count = pure count
  check_files base (item entry entries) count =
      reading (λ w. entry_fixture entry) >>= visit base (check_files base entries) count

  -- `assert metric(base, line)` for each line
  unfoldable pub check_metrics : String → List String → Action W (Unit {0})
  unfolding metric
  check_metrics base [] = pure tt
  check_metrics base (line ∷ lines) = do
    shown ← metric host base line
    reading (λ w. require shown)
    check_metrics base lines

  -- The entries of the manifest.
  unfoldable pub manifest_files : Raises Items
  unfolding get iterate
  manifest_files =
      Raises.◌>>=◌ (read_text (fixture_root <> "manifest.json"))
        λ raw. Raises.◌>>=◌ (loads raw) λ manifest. Raises.◌>>=◌ (get "files" manifest) iterate

  -- What comes after the loop.
  unfoldable pub check_count : String → ℕ → Action W (Unit {0})
  unfolding check_metrics request
  check_count base count = do
    reading (λ w. require (count == 21))
    check_metrics base metric_lines
    reply ← request host base "/metrics" none
    pure tt

  unfoldable pub fixtures : String → Action W (Unit {0})
  unfolding manifest_files check_files check_count
  fixtures base =
      reading (λ w. manifest_files) >>= λ entries. check_files base entries 0 >>= check_count base

  -- The loop over the cases.
  unfoldable pub check_failures : String → List Case → Action W (Unit {0})
  unfolding container exit_code logs has_part
  check_failures image [] = pure tt
  check_failures image (c ∷ rest) = do
    container host image c.model c.args c.mounts (λ cid. do
      exit_code host cid c.expected
      p ← logs host cid
      reading (λ w. require (has_part c.message (p.stdout <> p.stderr))))
    check_failures image rest

  -- What is done with the volume.
  unfoldable pub use_volume : String → String → Action W (Unit {0})
  unfolding docker container exit_code logs has_part
  use_volume image volume = do
    let mount = "type=volume,source=" <> (volume <> ",target=/models/multilingual")
    out ← docker host (
        "run" ∷ "--rm" ∷ "--user" ∷ "0:0" ∷ "--mount" ∷ mount ∷ "--entrypoint" ∷ "sh" ∷ image ∷ "-c"
        ∷ unreadable_script ∷ [])
    container host image none [] ((mount <> ",readonly") ∷ []) (λ cid. do
      exit_code host cid 1
      p ← logs host cid
      reading (λ w. require (has_part "bundle file is missing or unreadable" p.stderr)))

  unfoldable pub remove_volume : String → Action W (Unit {0})
  unfolding docker
  remove_volume volume = do out ← docker host ("volume" ∷ "rm" ∷ volume ∷ []); pure tt

  unfoldable pub unreadable : String → Action W (Unit {0})
  unfolding docker use_volume remove_volume
  unreadable image = do
    volume ← docker host ("volume" ∷ "create" ∷ "--label" ∷ "laya.validation=18" ∷ [])
    always (use_volume image volume) (remove_volume volume)
