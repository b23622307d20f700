-- ===== src/Release/Publish.antt =====
-- The second half of `release`: the files that are written, and the checksums of all assets.
use laya_rs.Base.{
  ℕ, Bool, true, false, none, some, List, [], ◌∷◌, ◌++◌, map, select, String, ◌<>◌, string_eq,
  if◌then◌else◌,
}
use text.Mathlib.Text.{is_le}
use Prim.Native.String.{compare}
use laya_rs.Base.Dict
use laya_rs.Base.Dict.{Dict}
use laya_rs.Base.Raises.{ok, raise}
use laya_rs.Base.Text.{join, behind, ends_with}
use laya_rs.Release.{Host, read, checksums}
use laya_rs.Release.Metadata.{windows_archive, macos_archive, metadata}
use laya_rs.Base.Action.{Action, pure, reading, ◌>>=◌, ◌>>◌}

-- Whether `prefix*end` matches a name.
unfoldable pub matches : String → String → String → Bool
unfolding behind ends_with
matches prefix end name = elim (behind prefix name) [
  | none ↦ false
  | some rest ↦ ends_with end rest
]

unfoldable pub insert_name : String → List String → List String
insert_name s [] = s ∷ []
insert_name s (t ∷ names) =
    let rest = insert_name s names in if is_le (compare s t) then s ∷ t ∷ names else t ∷ rest

-- `sorted(names)`
unfoldable pub sort_names : List String → List String
unfolding insert_name
sort_names [] = []
sort_names (s ∷ names) = insert_name s (sort_names names)

module _ {B : Type 0} where
  -- `sorted(out.glob(prefix*end))`, as names
  unfoldable pub glob : String → String → Dict String B → List String
  unfolding matches sort_names
  glob prefix end files = sort_names (select (matches prefix end) (map (λ p. p.0) files))

module _ {B : Type 0} (host : Host B) (root : Dict String B) where
  open host use {sha256, encode}

  -- `(out / name).write_text(text)`
  unfoldable pub write : String → String → Action (Dict String B) (Unit {0})
  unfolding Dict.insert
  write name text files = (ok tt, Dict.insert name (encode text) files)

  -- `shutil.copyfile(ROOT / source, out / name)`
  unfoldable pub copyfile : String → String → Action (Dict String B) (Unit {0})
  unfolding Dict.insert read
  copyfile source name files = elim (read source root) [
    | ok content ↦ (ok tt, Dict.insert name content files)
    | raise e ↦ (raise e, files)
  ]

  -- A script goes with an archive that is there: the assets that both add.
  unfoldable pub copy_with : String → String → String → Action (Dict String B) (List String)
  unfolding copyfile
  copy_with archive source name files = elim (Dict.contains_key archive files) [
    | true ↦ (copyfile source name >> pure (archive ∷ name ∷ [])) files
    | false ↦ (ok [], files)
  ]

  -- The end of `release`: find the archives and sign all assets.
  unfoldable pub seal : List String → Action (Dict String B) (Unit {0})
  unfolding write glob checksums join
  seal extra = do
    runtimes ← reading (λ files. ok (glob "laya-server-linux-" ".tar.gz" files))
    sources ← reading (λ files. ok (glob "runtime-sources-" ".tar.gz" files))
    let assets = "release.env" ∷ "install.sh" ∷ (extra ++ runtimes ++ sources)
    sums ← reading (checksums host assets)
    write "SHA256SUMS" (join "" sums)

  unfoldable pub publish : List String → Action (Dict String B) (Unit {0})
  unfolding write copyfile copy_with seal join
  publish lines = do
    write "release.env" (join "\n" lines <> "\n")
    copyfile "scripts/install.sh" "install.sh"
    on_windows ← copy_with windows_archive "scripts/laya.ps1" "laya.ps1"
    on_macos ← copy_with macos_archive "scripts/laya-macos.sh" "laya-macos.sh"
    seal (on_windows ++ on_macos)

  unfoldable pub release : (ℕ → Bool) → String → Action (Dict String B) (Unit {0})
  unfolding metadata publish
  release is_digit version = do lines ← reading (metadata host is_digit version root); publish lines
