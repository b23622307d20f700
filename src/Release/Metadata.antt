-- ===== src/Release/Metadata.antt =====
-- The first half of `release`: the checks of the archives, and the lines of release.env.
use laya_rs.Base.{ℕ, Bool, true, false, List, [], ◌∷◌, ◌++◌, String, ◌<>◌, ◌==◌, string_eq}
use laya_rs.Base.Dict
use laya_rs.Base.Dict.{Dict}
use laya_rs.Base.Raises.{Raises, ok, raise, value_error, ◌>>=◌, ◌>>◌}
use laya_rs.Base.Text.{strip, decimal}
use laya_rs.Release.{Host, read, model_id}
use laya_rs.Release.Version.{is_version}

-- `if not test: raise ValueError(message)`
abbrev pub demand : Bool → String → Raises (Unit {0})
demand true message = ok tt
demand false message = raise (value_error message)

abbrev pub windows_archive : String
windows_archive = "laya-server-windows-x86_64.zip"

abbrev pub macos_archive : String
macos_archive = "laya-server-macos-aarch64.tar.gz"

abbrev pub linux_archive : String → String
linux_archive arch = "laya-server-linux-" <> (arch <> ".tar.gz")

abbrev pub model_archive : String → String
model_archive id = "model-" <> (id <> ".tar.gz")

-- What an archive is checked for, and the names and messages that go with its platform.
pub record Platform : Type 0 where
  pub archive : String
  pub version_member : String
  pub id_member : String
  pub wrong_version : String
  pub wrong_id : String
  pub label : String

abbrev pub linux : String → Platform
linux arch = record {
  archive = linux_archive arch;
  version_member = "./VERSION";
  id_member = "./MODEL_ID";
  wrong_version = "Wrong program version: " <> arch;
  wrong_id = "Wrong model version: " <> arch;
  label = "RUNTIME_" <> arch;
}

abbrev pub windows : Platform
windows = record {
  archive = windows_archive;
  version_member = "VERSION";
  id_member = "MODEL_ID";
  wrong_version = "Wrong Windows program version";
  wrong_id = "Wrong Windows model version";
  label = "WINDOWS_x86_64";
}

abbrev pub macos : Platform
macos = record {
  archive = macos_archive;
  version_member = "./VERSION";
  id_member = "./MODEL_ID";
  wrong_version = "Wrong macOS program version";
  wrong_id = "Wrong macOS model version";
  label = "MACOS_aarch64";
}

module _ {B : Type 0} (host : Host B) where
  open host use {sha256, size}

  -- One archive: both members name this release, or the call raises.
  unfoldable pub archive_lines :
      (String → B → Raises String)
      → Platform
      → String
      → Dict String B
      → Dict String B
      → Raises (List String)
  unfolding read model_id strip decimal
  archive_lines member p version root files = do
    content ← read p.archive files
    found ← member p.version_member content
    demand (strip found == version) p.wrong_version
    found_id ← member p.id_member content
    id ← model_id host root
    demand (strip found_id == id) p.wrong_id
    ok (
        (p.label <> ("_SHA256=" <> sha256 content))
        ∷ (p.label <> ("_BYTES=" <> decimal (size content)))
        ∷ [])

  -- An archive that may be left out.
  unfoldable pub optional_lines :
      (String → B → Raises String)
      → Platform
      → String
      → Dict String B
      → Dict String B
      → Raises (List String)
  unfolding archive_lines
  optional_lines member p version root files = elim (Dict.contains_key p.archive files) [
    | true ↦ archive_lines member p version root files
    | false ↦ ok []
  ]

  unfoldable pub model_lines : String → Dict String B → Dict String B → Raises (List String)
  unfolding read model_id decimal
  model_lines version root files = do
    id ← model_id host root
    content ← read (model_archive id) files
    ok (
        ("VERSION=" <> version)
        ∷ ("MODEL_ID=" <> id)
        ∷ ("MODEL_SHA256=" <> sha256 content)
        ∷ ("MODEL_BYTES=" <> decimal (size content))
        ∷ [])

  -- The lines of release.env.
  unfoldable pub metadata :
      (ℕ → Bool) → String → Dict String B → Dict String B → Raises (List String)
  unfolding is_version model_lines archive_lines optional_lines
  metadata is_digit version root files = do
    demand (is_version is_digit version) "Invalid release version"
    model ← model_lines version root files
    x86_64 ← archive_lines host.tar_member (linux "x86_64") version root files
    aarch64 ← archive_lines host.tar_member (linux "aarch64") version root files
    on_windows ← optional_lines host.zip_member windows version root files
    on_macos ← optional_lines host.tar_member macos version root files
    ok (model ++ x86_64 ++ aarch64 ++ on_windows ++ on_macos)
