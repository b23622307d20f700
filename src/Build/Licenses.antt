-- ===== src/Build/Licenses.antt =====
-- `licenses` in tools/release/build-macos.py.
use Prim.Native.Char.{code}
use laya_rs.Base.{
  ℕ, ◌+◌, Bool, true, false, not, ◌&&◌, ◌||◌, Option, none, some, List, [], ◌∷◌, String, ◌<>◌, ◌==◌,
  nat_eq, string_eq, if◌then◌else◌, leb, contains, any,
}
use laya_rs.Base.Raises.{Raises}
use laya_rs.Base.Action.{Action}
use laya_rs.Base.Steps.{◌>>=◌, ◌>>◌, pure, reading, each}
use laya_rs.Base.Text.{behind_last, join}
use laya_rs.Base.Json.{Json, Items, nil, item, get, iterate, is_falsy, text_of}
use laya_rs.Build.{Host, output_of}
use laya_rs.Build.Words.{name_of}

-- What else the build takes from outside: files, the environment, JSON and archives.
pub record Builder (W : Type 0) : Type 0 where
  pub copy_file : String → String → Action W (Unit {0})
  pub copy_tree : String → String → Action W (Unit {0})
  pub make_directory : String → Action W (Unit {0})
  -- with its parents, where it may be there
  pub make_directories : String → Action W (Unit {0})
  pub read_text : String → Action W String
  -- the paths of the files `*.rs` below src
  pub rust_sources : Action W (List (List String))
  pub loads : String → Raises Json
  pub dumps : Json → String
  -- the paths of a directory that a pattern matches, as names
  pub glob : String → String → Action W (List String)
  -- an archive, and its members: the file, the name and the mode of each
  pub pack : String → List (String × String × ℕ) → Action W (Unit {0})
  pub extract : String → String → Action W (Unit {0})
  pub temporary_directory : String → String → Action W String
  pub remove_directory : String → Action W (Unit {0})
  pub resolve : String → Action W String
  pub environ : String → Option String
  pub set_environ : String → String → Action W (Unit {0})
  -- a command in the repository; it raises when the command fails
  pub run_command : List String → Action W (Unit {0})
  pub system : String
  pub machine : String
  -- the directory of the repository
  pub root : String

-- A character without its case, as the pattern's letters see it.
unfoldable pub fold : ℕ → ℕ
fold c =
    if leb 65 c && leb c 90
    then c + 32
    else if contains (304 ∷ 305 ∷ []) c
    then 105
    else if c == 383
    then 115
    else c

-- Whether a text begins with lower-case letters, without regard to case.
unfoldable pub folded_behind : String → String → Option String
unfolding fold
folded_behind String.[] s = some s
folded_behind (String.◌∷◌ c p) String.[] = none
folded_behind (String.◌∷◌ c p) (String.◌∷◌ d s) =
    let rest = folded_behind p s in if code c == fold (code d) then rest else none

abbrev is_some : Option String → Bool
is_some none = false
is_some (some s) = true

unfoldable pub has_word : String → String → Bool
unfolding folded_behind
has_word word String.[] = is_some (folded_behind word "")
has_word word (String.◌∷◌ c s) =
    let later = has_word word s in is_some (folded_behind word (String.◌∷◌ c s)) || later

-- `^Cargo.toml$`: any character but a line feed stands for the point.
unfoldable pub is_cargo : String → Bool
unfolding folded_behind
is_cargo name = elim (folded_behind "cargo" name) [
  | none ↦ false
  | some String.[] ↦ false
  | some (String.◌∷◌ c rest) ↦ not (code c == 10) && elim (folded_behind "toml" rest) [
    | none ↦ false
    | some end ↦ contains ("" ∷ "\n" ∷ []) end
  ]
]

-- `re.search(r"license|copying|copyright|notice|^Cargo.toml$", name, re.I)`
unfoldable pub is_license : String → Bool
unfolding has_word is_cargo
is_license name =
    any (λ word. has_word word name) ("license" ∷ "copying" ∷ "copyright" ∷ "notice" ∷ [])
    || is_cargo name

-- `path.parent`, of a path in a directory that is not the root
unfoldable pub parent_of : String → String
unfolding behind_last
parent_of String.[] = ""
parent_of (String.◌∷◌ c s) =
    let rest = parent_of s in elim (behind_last 47 s) [ some name ↦ String.◌∷◌ c rest | none ↦ "" ]

-- The directory of a path with more parts, without the last one.
abbrev pub without_name : List String → List String
without_name [] = []
without_name (a ∷ []) = []
without_name (a ∷ b ∷ parts) = a ∷ without_name (b ∷ parts)

abbrev pub last_part : List String → String
last_part [] = ""
last_part (a ∷ []) = a
last_part (a ∷ b ∷ parts) = last_part (b ∷ parts)

module _ {W : Type 0} (host : Host W) (builder : Builder W) where
  open builder use {copy_file, copy_tree, make_directory, make_directories, glob}

  -- One path below a crate.
  unfoldable pub copy_license : String → String → List String → Action W (Unit {0})
  unfolding is_license name_of
  copy_license source destination parts = do
    found ← host.is_file (source <> ("/" <> join "/" parts))
    elim (found && is_license (last_part parts)) [
      | false ↦ pure tt
      | true ↦ do
        make_directories
            (join "/" ((destination <> ("/crates/" <> name_of source)) ∷ without_name parts))
        copy_file (source <> ("/" <> join "/" parts))
            (destination <> ("/crates/" <> (name_of source <> ("/" <> join "/" parts))))
    ]

  -- One crate of the metadata. What has no source is the repository's own.
  unfoldable pub copy_crate : String → Json → Action W (Unit {0})
  unfolding get is_falsy text_of parent_of copy_license
  copy_crate destination crate = do
    source ← reading (get "source" crate)
    elim (is_falsy source) [
      | true ↦ pure tt
      | false ↦ do
        manifest ← reading (get "manifest_path" crate)
        path ← reading (text_of manifest)
        paths ← host.paths_below (parent_of path)
        each (copy_license (parent_of path) destination) paths
    ]

  unfoldable pub copy_crates : String → Items → Action W (Unit {0})
  unfolding copy_crate
  copy_crates destination nil = pure tt
  copy_crates destination (item crate crates) = do
    copy_crate destination crate
    copy_crates destination crates

  unfoldable pub licenses_of : String → String → Action W (Unit {0})
  unfolding output_of copy_crates get iterate
  licenses_of root ort = do
    make_directory (root <> "/licenses")
    each (λ name. copy_file (builder.root <> ("/" <> name)) (root <> ("/licenses/" <> name)))
        ("LICENSE" ∷ "NOTICE.md" ∷ "Cargo.lock" ∷ [])
    copy_tree (builder.root <> "/licenses") (root <> "/licenses/project")
    each (λ name. copy_file (ort <> ("/" <> name)) (root <> ("/licenses/ORT-" <> name)))
        ("LICENSE" ∷ "ThirdPartyNotices.txt" ∷ [])
    output ← host.check_output ("cargo" ∷ "metadata" ∷ "--locked" ∷ "--format-version" ∷ "1" ∷ [])
    metadata ← reading (builder.loads output)
    found ← reading (get "packages" metadata)
    crates ← reading (iterate found)
    copy_crates (root <> "/licenses") crates
    sysroot ← output_of host ("rustc" ∷ "--print" ∷ "sysroot" ∷ [])
    copy_tree (sysroot <> "/share/doc/rust/licenses") (root <> "/licenses/rust")
    names ← glob (sysroot <> "/share/doc/rust") "COPYRIGHT*.html"
    each
        (λ name.
          copy_file (sysroot <> ("/share/doc/rust/" <> name)) (root <> ("/licenses/rust/" <> name)))
        names
