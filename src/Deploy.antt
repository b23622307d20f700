-- ===== src/Deploy.antt =====
-- tools/release/smoke-macos.py: the acceptance of a deployment on macOS. Processes, files, sockets,
-- archives and the clock are the host's.
pub mod Fields
pub mod Candidate
pub mod Instance
pub mod Demands
pub mod Checks
pub mod Main
pub mod Waiting
pub mod Timely
pub mod Updates
pub mod Refused
pub mod Undisturbed
pub mod Preserved
pub mod Accepted
pub mod Printing
pub mod Parsed
pub mod Announced
mod Tests
use laya_rs.Base.{ℕ, Bool, Option, List, String}
use laya_rs.Base.Int.{ℤ}
use laya_rs.Base.Action.{Action}

-- A process that has ended.
pub record Result : Type 0 where
  pub returncode : ℤ
  pub stdout : String
  pub stderr : String

-- `W` is the state of everything outside the program. Anything may change there between two calls. A
-- process that runs, and a socket, is a number.
pub record Host (W : Type 0) : Type 0 where
  pub read_text : String → Action W String
  pub read_bytes : String → Action W (List ℕ)
  pub write_text : String → String → Action W (Unit {0})
  pub write_bytes : String → List ℕ → Action W (Unit {0})
  pub append_bytes : String → List ℕ → Action W (Unit {0})
  pub exists : String → Action W Bool
  pub mkdir : String → Action W (Unit {0})
  pub unlink : String → Action W (Unit {0})
  pub file_digest : String → Action W String
  pub byte_size : String → Action W ℕ
  pub mtime_ns : String → Action W ℤ
  pub resolve : String → Action W String
  -- The files below a directory, each with the parts of its path from there.
  pub files_below : String → Action W (List (List String))
  pub temporary_directory : String → Action W String
  pub remove_directory : String → Action W (Unit {0})
  -- An archive, and the directory that takes its members.
  pub extract : String → String → Action W (Unit {0})
  -- An archive, and its members: each a file and the name that it gets.
  pub pack : String → List (String × String) → Action W (Unit {0})
  -- The arguments, the text that is fed in, and the seconds that it may take. It raises when they are over.
  pub run : List String → Option String → Option ℕ → Action W Result
  -- The arguments, and the file that takes what it prints.
  pub start_process : List String → String → Action W ℕ
  pub poll_process : ℕ → Action W (Option ℤ)
  pub wait_process : ℕ → ℕ → Action W ℤ
  pub terminate : ℕ → Action W (Unit {0})
  pub open_socket : Action W ℕ
  pub listen : ℕ → String → ℕ → Action W (Unit {0})
  pub close_socket : ℕ → Action W (Unit {0})
  pub process_id : Action W ℕ
  pub clock : W → ℕ × W
  pub sleep : ℕ → W → W
  -- The directory of the repository.
  pub root : String
