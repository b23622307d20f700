-- ===== src/Build/Catalog.antt =====
-- `catalog` in tools/release/build-macos.py.
use laya_rs.Base.{ℕ, true, false, not, ◌||◌, List, [], ◌∷◌, String, ◌<>◌}
use laya_rs.Base.Action.{Action}
use laya_rs.Base.Steps.{◌>>=◌, ◌>>◌, pure, reading}
use laya_rs.Base.Text.{decimal, join}
use laya_rs.Deploy.Candidate.{sort_paths}
use laya_rs.Build.{Host}
use laya_rs.Build.Words.{is_safe_name}
use laya_rs.Build.Macho.{refuse_if}

-- A file of the package, with what the catalog says of it.
pub record Listed : Type 0 where
  pub name : String
  pub digest : String
  pub bytes : ℕ

-- A line, without its end.
unfoldable pub listed_line : Listed → String
unfolding decimal
listed_line f = f.digest <> ("\t" <> (decimal f.bytes <> ("\t" <> f.name)))

unfoldable pub lines_text : List Listed → String
unfolding listed_line
lines_text [] = ""
lines_text (f ∷ files) = listed_line f <> ("\n" <> lines_text files)

module _ {W : Type 0} (host : Host W) (root : String) where
  -- A file: its name is checked.
  unfoldable pub list_file : String → Action W Listed
  unfolding refuse_if is_safe_name
  list_file name = do
    linked ← host.is_symlink (root <> ("/" <> name))
    reading (refuse_if (linked || not (is_safe_name name)) ("Unsafe package file: " <> name))
    digest ← host.file_digest (root <> ("/" <> name))
    size ← host.byte_size (root <> ("/" <> name))
    pure (record { name = name; digest = digest; bytes = size })

  -- The loop over the paths, in order. What is no file is left out.
  unfoldable pub list_files : List (List String) → Action W (List Listed)
  unfolding list_file join
  list_files [] = pure []
  list_files (parts ∷ paths) = do
    found ← host.is_file (root <> ("/" <> join "/" parts))
    elim found [
      | false ↦ list_files paths
      | true ↦ do file ← list_file (join "/" parts); files ← list_files paths; pure (file ∷ files)
    ]

  unfoldable pub catalog : Action W (Unit {0})
  unfolding list_files sort_paths lines_text
  catalog = do
    paths ← host.paths_below root
    files ← list_files (sort_paths paths)
    host.write_text (root <> "/program-files.tsv") (lines_text files)
