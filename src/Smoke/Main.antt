-- ===== src/Smoke/Main.antt =====
-- `failures` and `main` in docs/validation/docker-smoke.py.
use laya_rs.Base.{
  ℕ, ◌+◌, ◌-◌, ◌%◌, Bool, not, ◌&&◌, none, some, List, [], ◌∷◌, String, ◌<>◌, ◌==◌, nat_eq,
  string_eq, if◌then◌else◌,
}
use laya_rs.Base.Raises.{Raises, ok, raise, require, index_error}
use laya_rs.Base.Action.{Action, pure, reading, ◌>>=◌, ◌>>◌, always}
use laya_rs.Smoke.{Host}
use laya_rs.Smoke.Service.{docker, request, ready, container, base_url, exit_code}
use laya_rs.Smoke.Acceptance.{cases, check_failures, unreadable, fixtures}
use laya_rs.Smoke.Inventory.{runtime_inventory}
use laya_rs.Smoke.Threads.{Pool, stop_scenarios}

-- The files of the machine: temporary directories, bytes and digests.
pub record Machine (W : Type 0) : Type 0 where
  pub temporary_directory : String → Action W String
  pub remove_directory : String → Action W (Unit {0})
  pub chmod : String → ℕ → Action W (Unit {0})
  pub mkdir : String → ℕ → Action W (Unit {0})
  pub read_bytes : String → Action W (List ℕ)
  pub write_bytes : String → List ℕ → Action W (Unit {0})
  pub file_digest : String → Action W String
  pub resolve : String → Action W String
  pub lower : String → String

-- `data[0] ^= 1`
unfoldable pub flip : List ℕ → Raises (List ℕ)
flip [] = raise index_error
flip (b ∷ bytes) = ok ((if b % 2 == 0 then b + 1 else b - 1) ∷ bytes)

-- The files whose digests are printed.
abbrev pub digested : String → List String
digested bundle =
    "Cargo.lock"
    ∷ "docs/model-manifest.json"
    ∷ (bundle <> "/laya.onnx")
    ∷ (bundle <> "/laya.onnx.data")
    ∷ []

abbrev pub is_alive : ℕ × String → Bool
is_alive (status, body) = (status == 200) && (body == "{\"status\":\"ok\"}")

module _ {W : Type 0} (host : Host W) (machine : Machine W) where
  open machine use {
    temporary_directory, remove_directory, chmod, mkdir, read_bytes, write_bytes, file_digest,
    resolve, lower,
  }

  -- An empty directory, and a copy of the graph whose first byte is another.
  unfoldable pub spoil : String → String → Action W (Unit {0})
  unfolding flip
  spoil bundle root = do
    chmod root 493
    mkdir (root <> "/empty") 493
    graph ← read_bytes (bundle <> "/laya.onnx")
    write_bytes (root <> "/laya.onnx") graph
    bytes ← read_bytes (root <> "/laya.onnx")
    changed ← reading (λ w. flip bytes)
    write_bytes (root <> "/laya.onnx") changed

  unfoldable pub failures : String → String → Action W (Unit {0})
  unfolding spoil cases check_failures unreadable
  failures image bundle = temporary_directory "laya-docker-" >>= λ root.
      always
        (spoil bundle root >>= λ _.
          check_failures host image (cases bundle (root <> "/empty") (root <> "/laya.onnx")))
        (remove_directory root)
      >>= λ _. unreadable host image

  unfoldable pub print_digests : List String → Action W (Unit {0})
  print_digests [] = pure tt
  print_digests (path ∷ paths) = file_digest path >>= λ digest. print_digests paths

  unfoldable pub check_alive : String → Action W (Unit {0})
  unfolding request
  check_alive base =
      request host base "/healthz" none >>= λ reply. reading (λ w. require (is_alive reply))

  -- The end of the container that served the fixtures.
  unfoldable pub check_stop : String → String → Action W (Unit {0})
  unfolding docker exit_code ready
  check_stop cid base = do
    out ← docker host ("stop" ∷ "--timeout" ∷ "130" ∷ cid ∷ [])
    exit_code host cid 0
    up ← ready host base
    reading (λ w. require (not up))

  unfoldable pub serving : String → Action W (Unit {0})
  unfolding base_url runtime_inventory check_alive fixtures check_stop
  serving cid = base_url host cid >>= λ base. runtime_inventory host lower cid >>= λ _.
      check_alive base >>= λ _. fixtures host base >>= λ _. check_stop cid base

  -- `main()` with the arguments IMAGE and BUNDLE
  unfoldable pub main : Pool W → String → String → Action W (Unit {0})
  unfolding docker print_digests failures container serving stop_scenarios
  main pool image model = resolve model >>= λ bundle.
      docker host ("image" ∷ "inspect" ∷ image ∷ []) >>= λ shown.
      print_digests (digested bundle) >>= λ _. failures image bundle >>= λ _.
      container host image (some bundle) [] [] serving >>= λ _.
      stop_scenarios host pool image bundle
