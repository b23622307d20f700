-- ===== src/Release.antt =====
-- tools/release/package.py: the metadata of a release, and the files published with it. The
-- repository is read only; the output directory is the state, its files by name. Hashes, sizes and
-- the members of archives come from the host.
pub mod Version
pub mod Metadata
pub mod Publish
pub mod Safety
pub mod Assets
pub mod Summed
pub mod Checksums
pub mod Checks
pub mod Model
pub mod Pack
pub mod Packed
mod Tests
use laya_rs.Base.{ℕ, String, ◌<>◌, Option, none, some, List, [], ◌∷◌}
use laya_rs.Base.Dict
use laya_rs.Base.Dict.{Dict}
use laya_rs.Base.Raises.{Raises, ok, raise, file_not_found, ◌>>=◌}
use laya_rs.Base.Text.{take_text}
use laya_rs.Base.{string_eq}

pub record Host (B : Type 0) : Type 0 where
  pub sha256 : B → String
  pub size : B → ℕ
  pub encode : String → B
  -- `extractfile(name).read().decode()` of a tar archive, and `read(name).decode()` of a zip archive
  pub tar_member : String → B → Raises String
  pub zip_member : String → B → Raises String

module _ {B : Type 0} where
  -- Opening a file that is not there raises.
  unfoldable pub read : String → Dict String B → Raises B
  unfolding Dict.lookup
  read name files = elim (Dict.lookup name files) [ none ↦ raise file_not_found | some b ↦ ok b ]

module _ {B : Type 0} (host : Host B) where
  open host use {sha256}

  unfoldable pub digest : String → Dict String B → Raises String
  unfolding read
  digest name files = do content ← read name files; ok (sha256 content)

  -- `root` holds the files of the repository.
  unfoldable pub model_id : Dict String B → Raises String
  unfolding digest take_text
  model_id root = do sha ← digest "docs/model-manifest.json" root; ok (take_text 16 sha)

  -- The lines of SHA256SUMS.
  unfoldable pub checksums : List String → Dict String B → Raises (List String)
  unfolding digest
  checksums [] files = ok []
  checksums (name ∷ names) files = do
    sha ← digest name files
    lines ← checksums names files
    ok ((sha <> ("  " <> (name <> "\n"))) ∷ lines)
