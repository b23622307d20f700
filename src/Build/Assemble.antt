-- ===== src/Build/Assemble.antt =====
-- `assemble` in tools/release/build-macos.py.
use laya_rs.Base.{
  ℕ, true, false, not, ◌||◌, none, some, List, [], ◌∷◌, map, String, ◌<>◌, ◌==◌, nat_eq, string_eq,
  if◌then◌else◌,
}
use laya_rs.Base.Raises.{Raises, ok, raise}
use laya_rs.Base.Action.{Action}
use laya_rs.Base.Steps.{◌>>=◌, ◌>>◌, pure, reading, each, map_each}
use laya_rs.Base.Text.{take_text, join}
use laya_rs.Base.Json.{
  Json, Fields, Items, nil, item, end, field, text, boolean, object, get, iterate,
}
use laya_rs.Deploy.Candidate.{sort_paths}
use laya_rs.Build.{Host, output_of}
use laya_rs.Build.Words.{name_of, is_dylib}
use laya_rs.Build.Macho.{inspect_macho}
use laya_rs.Build.Catalog.{catalog}
use laya_rs.Build.Licenses.{Builder, licenses_of}

abbrev pub binaries : List String
binaries = "laya-server" ∷ "libonnxruntime.dylib" ∷ []

-- `f"{e['sha256']}\t{e['bytes']}\t{e['path']}\n"`, with the text of a value
unfoldable pub entry_line : (Json → String) → Json → Raises String
unfolding get
entry_line show e = elim (get "sha256" e) [
  | raise x ↦ raise x
  | ok sha256 ↦ elim (get "bytes" e) [
    | raise x ↦ raise x
    | ok bytes ↦ elim (get "path" e) [
      | raise x ↦ raise x
      | ok path ↦ ok (show sha256 <> ("\t" <> (show bytes <> ("\t" <> (show path <> "\n")))))
    ]
  ]
]

unfoldable pub entry_lines : (Json → String) → Items → Raises String
unfolding entry_line
entry_lines show nil = ok ""
entry_lines show (item e entries) = elim (entry_line show e) [
  | raise x ↦ raise x
  | ok line ↦ elim (entry_lines show entries) [ raise x ↦ raise x | ok rest ↦ ok (line <> rest) ]
]

-- 0o755 and 0o644
unfoldable pub mode_of : String → ℕ
unfolding name_of is_dylib
mode_of path = if name_of path == "laya-server" || is_dylib path then 493 else 420

-- The fields of a dict of digests.
abbrev digests_json : List (String × String) → Fields
digests_json [] = end
digests_json ((path, digest) ∷ digests) = field path (text digest) (digests_json digests)

pub record BuildArgs : Type 0 where
  pub version : String
  pub ort : String
  pub out : String

abbrev pub packed_path : BuildArgs → String
packed_path args = args.out <> "/laya-server-macos-aarch64.tar.gz"

module _ {W : Type 0} (host : Host W) where
  unfoldable pub inspect_binaries : String → Action W (Unit {0})
  unfolding inspect_macho join
  inspect_binaries root = do
    inspections ← map_each (λ name. inspect_macho host (root <> ("/" <> name)) root) binaries
    host.write_text (root <> "/macho-signatures.txt") (join "\n" inspections)

  -- The files among the paths, in order, with the names and the modes that they get.
  unfoldable pub members_in : String → List (List String) → Action W (List (String × String × ℕ))
  unfolding mode_of join
  members_in root [] = pure []
  members_in root (parts ∷ paths) = do
    found ← host.is_file (root <> ("/" <> join "/" parts))
    elim found [
      | false ↦ members_in root paths
      | true ↦ do
        rest ← members_in root paths
        pure (
            (
              root <> ("/" <> join "/" parts),
              "./" <> join "/" parts,
              mode_of (root <> ("/" <> join "/" parts)),
            )
            ∷ rest)
    ]

module _ {W : Type 0} (host : Host W) (builder : Builder W) (show : Json → String) where
  open builder use {copy_file, read_text, loads, dumps, pack, environ}

  -- The server below `os.environ.get("CARGO_TARGET_DIR", ROOT / "target")`
  abbrev built_server : String
  built_server = elim (environ "CARGO_TARGET_DIR") [
    | none ↦ builder.root <> "/target/aarch64-apple-darwin/release/laya-server"
    | some s ↦
        if s == ""
        then "aarch64-apple-darwin/release/laya-server"
        else s <> "/aarch64-apple-darwin/release/laya-server"
  ]

  -- The copies of the built files and the records of the runtime.
  unfoldable pub copy_inputs : String → String → Action W (Unit {0})
  unfolding licenses_of
  copy_inputs ort root = do
    copy_file built_server (root <> "/laya-server")
    copy_file (ort <> "/libonnxruntime.dylib") (root <> "/libonnxruntime.dylib")
    copy_file (ort <> "/build-record.txt") (root <> "/ort-build.txt")
    copy_file (ort <> "/SHA256SUMS") (root <> "/ort-sha256.txt")
    licenses_of host builder root ort
    each (λ name. copy_file (builder.root <> ("/tools/release/" <> name)) (root <> ("/" <> name)))
        ("smoke.json" ∷ "response-macos.js" ∷ [])
    copy_file (builder.root <> "/docs/model-manifest.json") (root <> "/model-manifest.json")

  -- MODEL_ID, VERSION and model-files.tsv.
  unfoldable pub write_identity : String → String → Action W (Unit {0})
  unfolding take_text get iterate entry_lines
  write_identity version root = do
    digest ← host.file_digest (builder.root <> "/docs/model-manifest.json")
    host.write_text (root <> "/MODEL_ID") (take_text 16 digest <> "\n")
    host.write_text (root <> "/VERSION") (version <> "\n")
    content ← read_text (builder.root <> "/docs/model-manifest.json")
    manifest ← reading (loads content)
    found ← reading (get "files" manifest)
    entries ← reading (iterate found)
    lines ← reading (entry_lines show entries)
    host.write_text (root <> "/model-files.tsv") lines

  -- A source of the build, with its digest.
  unfoldable pub source_digest : String → Action W (String × String)
  source_digest path = do
    digest ← host.file_digest (builder.root <> ("/" <> path))
    pure (path, digest)

  -- build.json
  unfoldable pub write_record : String → Action W (Unit {0})
  unfolding sort_paths source_digest output_of
  write_record root = do
    paths ← builder.rust_sources
    head ← output_of host ("git" ∷ "rev-parse" ∷ "HEAD" ∷ [])
    status ← output_of host ("git" ∷ "status" ∷ "--porcelain" ∷ [])
    rust ← output_of host ("rustc" ∷ "-Vv" ∷ [])
    xcode ← output_of host ("xcodebuild" ∷ "-version" ∷ [])
    sdk ← output_of host ("xcrun" ∷ "--show-sdk-version" ∷ [])
    os ← output_of host ("sw_vers" ∷ [])
    digests ← map_each source_digest (
        "Cargo.toml"
        ∷ "Cargo.lock"
        ∷ "rust-toolchain.toml"
        ∷ map (λ parts. "src/" <> join "/" parts) (sort_paths paths))
    host.write_text (root <> "/build.json") (
        dumps (
          object (
            field "Source" (text head) (
              field "Dirty" (boolean (not (status == ""))) (
                field "Rust" (text rust) (
                  field "Xcode" (text xcode) (
                    field "SDK" (text sdk) (
                      field "OS" (text os) (
                        field "Target" (text "aarch64-apple-darwin") (
                          field "DeploymentTarget" (text "14.0") (
                            field "ORT" (text "1.28.0 CPU source build") (
                              field "Notarized" (boolean false)
                                (field "Files" (object (digests_json digests)) end))))))))))))
        <> "\n")

  unfoldable pub assemble_package : BuildArgs → String → Action W (Unit {0})
  unfolding copy_inputs write_identity inspect_binaries write_record catalog output_of members_in
      sort_paths
  assemble_package args root = do
    copy_inputs args.ort root
    write_identity args.version root
    inspect_binaries host root
    write_record root
    catalog host root
    help ← output_of host ((root <> "/laya-server") ∷ "--help" ∷ [])
    paths ← host.paths_below root
    members ← members_in host root (sort_paths paths)
    pack (packed_path args) members
