-- ===== src/Release/Pack.antt =====
-- `pack_model` and `main` in tools/release/package.py.
use laya_rs.Base.{ℕ, Bool, none, some, Option, List, [], ◌∷◌, ◌++◌, map, String, ◌<>◌, string_eq}
use laya_rs.Base.Dict
use laya_rs.Base.Dict.{Dict, lookup-insert}
use laya_rs.Base.Raises.{Raises, ok, raise}
use laya_rs.Base.Action.{Action}
use laya_rs.Base.Checked.{◌>>=◌, ◌>>◌}
use laya_rs.Release.{Host, read, model_id}
use laya_rs.Release.Model.{ManifestEntry, verify_files}
use laya_rs.Release.Publish.{release}

-- A member of the archive.
pub record Member (B : Type 0) : Type 0 where
  pub name : String
  pub uid : ℕ
  pub gid : ℕ
  pub mtime : ℕ
  pub uname : String
  pub gname : String
  pub mode : ℕ
  pub content : B

-- The JSON of the manifest, and the archive: `partial` is what is left of it when a file cannot be read.
pub record Packing (B : Type 0) : Type 0 where
  pub entries_of : B → Raises (List ManifestEntry)
  pub tar_gz : List (Member B) → B
  pub partial : List (Member B) → B

-- A file to be packed: where it is, its path there, and the name that it gets.
pub record PackSource (B : Type 0) : Type 0 where
  pub place : Dict String B
  pub path : String
  pub name : String

-- Owner, time and mode are the same for every member: 0o644 is 420.
abbrev pub member_of : {B : Type 0} → String → B → Member B
member_of name content = record {
  name = name;
  uid = 0;
  gid = 0;
  mtime = 0;
  uname = "root";
  gname = "root";
  mode = 420;
  content = content;
}

-- The loop that adds the members: those that were added, and whether it ended.
unfoldable pub add_members :
    {B : Type 0} → List (PackSource B) → Raises (Unit {0}) × List (Member B)
unfolding read
add_members [] = (ok tt, [])
add_members (s ∷ sources) = elim (read s.path s.place) [
  | raise e ↦ (raise e, [])
  | ok content ↦
      let (result, members) = add_members sources in (result, member_of s.name content ∷ members)
]

abbrev pub target_of : String → String
target_of id = "model-" <> (id <> ".tar.gz")

abbrev pub repository_manifest : String
repository_manifest = "docs/model-manifest.json"

-- The files that are packed.
unfoldable pub sources_of :
    {B : Type 0} → Dict String B → Dict String B → List ManifestEntry → List (PackSource B)
sources_of root directory entries =
    map (λ (e : ManifestEntry). record { place = directory; path = e.path; name = e.path }) entries
    ++ (record { place = root; path = repository_manifest; name = "model-manifest.json" }
        ∷ record { place = root; path = "tools/release/MODEL-NOTICE.md"; name = "MODEL-NOTICE.md" }
        ∷ [])

-- The actions of the command line.
pub data Command : Type 0 where
  pack release_all show_id : Command

module _ {B : Type 0} (host : Host B) (packing : Packing B) (is_symlink : String → Bool)
    (root directory : Dict String B) where
  open packing use {entries_of, tar_gz, partial}

  -- The entries of the manifest, once every file is verified, and the model's identity.
  unfoldable pub prepare_pack : Raises (List ManifestEntry × String)
  unfolding read verify_files model_id
  prepare_pack = do
    content ← read repository_manifest root
    entries ← entries_of content
    verify_files host is_symlink entries directory
    id ← model_id host root
    ok (entries, id)

  -- The archive, which is opened first.
  unfoldable pub write_archive :
      String → Raises (Unit {0}) × List (Member B) → Action (Dict String B) (Unit {0})
  unfolding Dict.insert
  write_archive target (ok u, members) out = (ok tt, Dict.insert target (tar_gz members) out)
  write_archive target (raise e, members) out = (raise e, Dict.insert target (partial members) out)

  unfoldable pub pack_prepared :
      Raises (List ManifestEntry × String) → Action (Dict String B) (Unit {0})
  unfolding write_archive add_members sources_of
  pack_prepared (raise e) out = (raise e, out)
  pack_prepared (ok (entries, id)) out =
      write_archive (target_of id) (add_members (sources_of root directory entries)) out

  unfoldable pub pack_model : Action (Dict String B) (Unit {0})
  unfolding pack_prepared prepare_pack
  pack_model out = pack_prepared prepare_pack out

  -- `main`, with the action of the command line. What `id` prints is its result.
  unfoldable pub perform : (ℕ → Bool) → Command → String → Action (Dict String B) (Option String)
  unfolding model_id pack_model release
  perform is_digit show_id version out = elim (model_id host root) [
    | raise e ↦ (raise e, out)
    | ok id ↦ (ok (some id), out)
  ]
  perform is_digit pack version out =
      let (result, left) = pack_model out in
      (elim result [ raise e ↦ raise e | ok u ↦ ok none ], left)
  perform is_digit release_all version out =
      let (result, left) = release host root is_digit version out in
      (elim result [ raise e ↦ raise e | ok u ↦ ok none ], left)
