-- ===== src/Deploy/Main.antt =====
-- `main` in tools/release/smoke-macos.py.
use laya_rs.Base.{Option, none, some, List, [], ◌∷◌, ◌++◌, String, ◌<>◌, ◌==◌, string_eq}
use laya_rs.Base.Int.{ℤ, int_eq}
use laya_rs.Base.Action.{Action}
use laya_rs.Base.Steps.{◌>>=◌, ◌>>◌, pure, reading, demand, finally}
use laya_rs.Deploy.{Host}
use laya_rs.Deploy.Fields.{entry}
use laya_rs.Deploy.Candidate.{sha, fields}
use laya_rs.Deploy.Instance.{Deploying, outside, deployment, close}
use laya_rs.Deploy.Checks.{succeed, check_running, check_updates, check_interruption}
use laya_rs.Deploy.Demands.{current_env, process_env, require_missing}

-- `Path(directory) / name`
abbrev pub under : String → String → String
under String.[] name = name
under directory name = directory <> ("/" <> name)

abbrev pub token_path : String → String
token_path root = root <> "/token"

-- The arguments of the command line.
pub record Args : Type 0 where
  pub release_directory : String
  pub root : String
  pub model_directory : Option String

module _ {W : Type 0} (host : Host W) where
  open host use {mtime_ns, resolve, temporary_directory, remove_directory}

  -- The arguments that name the directory of the model.
  unfoldable pub model_args : Option String → Action W (List String)
  model_args none = pure []
  model_args (some directory) = do path ← resolve directory; pure ("--model-directory" ∷ path ∷ [])

  module _ (root release : String) where
    abbrev install_args : List String → List String
    install_args extra =
        ("--release-directory" ∷ release ∷ "--listen" ∷ "127.0.0.1:18087" ∷ []) ++ extra

    unfoldable pub install : Option String → Action W (Unit {0})
    unfolding model_args succeed require_missing
    install model_directory = do
      extra ← model_args model_directory
      result ← succeed host root "install" (install_args extra)
      require_missing host (process_env root)

    -- What the deployment must not change: the digest of the token, and the path and the time of the
    -- model.
    unfoldable pub identity : Action W (String × String × ℤ)
    unfolding fields entry
    identity = do
      token_hash ← sha host (token_path root)
      config ← fields host (current_env root)
      directory ← reading (entry "MODEL" config)
      stamp ← mtime_ns (under directory "laya.onnx.data")
      pure (token_hash, under directory "laya.onnx.data", stamp)

    unfoldable pub require_identity : String × String × ℤ → Action W (Unit {0})
    require_identity known = do
      token_hash ← sha host (token_path root)
      demand (token_hash == known.0)
      stamp ← mtime_ns known.1
      demand (stamp == known.2)

    -- The checks, in a temporary directory.
    unfoldable pub exercise : Action (Deploying W) (Unit {0})
    unfolding outside check_running check_updates check_interruption
    exercise = do
      scratch ← outside (temporary_directory "laya-candidates-")
      finally
          (do
            check_running host root release scratch
            check_updates host root release scratch
            check_interruption host root release)
          (outside (remove_directory scratch))

    -- The stop, and the update of a deployment that does not run.
    unfoldable pub update_stopped : Action W (Unit {0})
    unfolding succeed require_missing
    update_stopped = do
      stopped ← succeed host root "stop" []
      result ← succeed host root "update" ("--release-directory" ∷ release ∷ [])
      require_missing host (process_env root)

    unfoldable pub acceptance : Option String → Action (Deploying W) (Unit {0})
    unfolding outside install identity exercise update_stopped require_identity
    acceptance model_directory = do
      outside (install model_directory)
      known ← outside identity
      exercise
      outside update_stopped
      outside (require_identity known)

  abbrev pub deploying : W → Deploying W
  deploying w = record { world = w; processes = [] }

  unfoldable pub main : Args → Action (Deploying W) (Unit {0})
  unfolding outside deployment acceptance close
  main args = do
    release ← outside (resolve args.release_directory)
    root ← outside (resolve args.root)
    outside (deployment host root)
    finally (acceptance root release args.model_directory) (close host root)
