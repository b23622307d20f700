-- ===== src/Build.antt =====
-- tools/release/build-macos.py. Commands and files are the host's.
pub mod Words
pub mod Macho
pub mod Catalog
pub mod Licenses
pub mod Assemble
pub mod Main
pub mod Assembled
pub mod Built
pub mod Inspected
pub mod Cataloged
mod Tests
mod Trials
use laya_rs.Base.{ℕ, Bool, List, ◌∷◌, String}
use laya_rs.Base.Action.{Action}
use laya_rs.Base.Steps.{◌>>=◌, pure}
use laya_rs.Base.Text.{strip}

-- `W` is the state of everything outside the program.
pub record Host (W : Type 0) : Type 0 where
  -- the output of a command in the repository; it raises when the command fails
  pub check_output : List String → Action W String
  pub is_file : String → Action W Bool
  pub is_symlink : String → Action W Bool
  pub file_digest : String → Action W String
  pub byte_size : String → Action W ℕ
  -- what `rglob("*")` gives below a directory, each with the parts of its path from there
  pub paths_below : String → Action W (List (List String))
  pub write_text : String → String → Action W (Unit {0})

module _ {W : Type 0} (host : Host W) where
  -- `run(*args)`
  unfoldable pub output_of : List String → Action W String
  unfolding strip
  output_of args = do output ← host.check_output args; pure (strip output)
