-- ===== src/Deploy/Candidate.antt =====
-- `sha` and `make_candidate` in tools/release/smoke-macos.py.
use Prim.Native.Char.{code}
use Prim.Native.Nat.{Ordering}
use Prim.Native.String.{compare}
use laya_rs.Base.{
  ℕ, zero, suc, Bool, true, false, none, some, List, [], ◌∷◌, map, String, ◌<>◌, ◌==◌, string_eq,
  if◌then◌else◌,
}
use laya_rs.Base.Int.{pos, negsuc}
use laya_rs.Base.Raises.{Raises, ok, raise, called_process_error, other_error}
use laya_rs.Base.Action.{Action}
use laya_rs.Base.Steps.{◌>>=◌, ◌>>◌, pure, map_each, reading}
use laya_rs.Base.Dict.{Dict, insert}
use laya_rs.Base.Text.{join, decimal}
use laya_rs.Deploy.{Host, Result}
use laya_rs.Deploy.Fields.{parse_fields, print_fields}

abbrev pub archive_name : String
archive_name = "laya-server-macos-aarch64.tar.gz"

-- A bytes literal.
abbrev pub ascii : String → List ℕ
ascii String.[] = []
ascii (String.◌∷◌ c s) = code c ∷ ascii s

-- `p <= q` of two paths, which compares their parts
unfoldable pub is_path_le : List String → List String → Bool
is_path_le [] q = true
is_path_le (a ∷ p) [] = false
is_path_le (a ∷ p) (b ∷ q) =
    let rest = is_path_le p q in
    elim (compare a b) [ Ordering.lt ↦ true | Ordering.eq ↦ rest | Ordering.gt ↦ false ]

unfoldable pub insert_path : List String → List (List String) → List (List String)
unfolding is_path_le
insert_path p [] = p ∷ []
insert_path p (q ∷ paths) =
    let rest = insert_path p paths in if is_path_le p q then p ∷ q ∷ paths else q ∷ rest

-- `sorted(paths)`
unfoldable pub sort_paths : List (List String) → List (List String)
unfolding insert_path
sort_paths [] = []
sort_paths (p ∷ paths) = insert_path p (sort_paths paths)

-- `check=True`
unfoldable pub check_return : Result → Raises (Unit {0})
check_return r = elim r.returncode [
  | pos zero ↦ ok tt
  | pos (suc n) ↦ raise (called_process_error (suc n))
  | negsuc n ↦ raise (other_error "CalledProcessError")
]

-- What the arguments of `clang` are.
abbrev clang_args : String → List String
clang_args out =
    "/usr/bin/clang" ∷ "-arch" ∷ "x86_64" ∷ "-mmacosx-version-min=14.0" ∷ "-dynamiclib" ∷ "-x" ∷ "c"
    ∷ "-" ∷ "-o" ∷ out ∷ []

abbrev pub version_of : String → String
version_of fault = "v0.1.2-test-" <> fault

-- The metadata of the candidate.
unfoldable pub updated : String → String → ℕ → Dict String String → Dict String String
unfolding insert decimal
updated version digest bytes meta =
    insert "MACOS_aarch64_BYTES" (decimal bytes)
      (insert "MACOS_aarch64_SHA256" digest (insert "VERSION" version meta))

module _ {W : Type 0} (host : Host W) where
  open host use {
    read_text, write_text, write_bytes, mkdir, unlink, file_digest, byte_size, files_below, extract,
    pack, run,
  }

  abbrev pub sha : String → Action W String
  sha path = file_digest path

  unfoldable pub fields : String → Action W (Dict String String)
  unfolding parse_fields
  fields path = do text ← read_text path; reading (parse_fields text)

  -- A line of program-files.tsv.
  unfoldable pub catalog_line : String → List String → Action W String
  catalog_line program parts = do
    digest ← sha (program <> ("/" <> join "/" parts))
    size ← byte_size (program <> ("/" <> join "/" parts))
    pure (digest <> ("\t" <> (decimal size <> ("\t" <> (join "/" parts <> "\n")))))

  -- What the fault does to the program.
  unfoldable pub spoil_program : String → String → Action W (Unit {0})
  unfolding check_return
  spoil_program program fault =
      if fault == "startup"
      then write_bytes (program <> "/libonnxruntime.dylib")
          (ascii "intentional invalid native library")
      else if fault == "api"
      then write_text (program <> "/smoke.json") "{}"
      else if fault == "architecture"
      then (do
        result ←
            run (clang_args (program <> "/libonnxruntime.dylib"))
              (some "int wrong_architecture_fixture(void) { return 0; }\n") none
        reading (check_return result))
      else pure tt

  -- program-files.tsv is made anew.
  unfoldable pub make_catalog : String → Action W (Unit {0})
  unfolding catalog_line sort_paths
  make_catalog program = do
    unlink (program <> "/program-files.tsv")
    paths ← files_below program
    lines ← map_each (catalog_line program) (sort_paths paths)
    write_text (program <> "/program-files.tsv") (join "" lines)

  unfoldable pub make_archive : String → String → Action W (Unit {0})
  unfolding sort_paths
  make_archive program archive = do
    paths ← files_below program
    pack archive (
        map (λ parts. (program <> ("/" <> join "/" parts), "./" <> join "/" parts))
          (sort_paths paths))

  -- release.env of the candidate.
  unfoldable pub announce : String → String → String → Action W (Unit {0})
  unfolding fields updated print_fields
  announce source out version = do
    meta ← fields (source <> "/release.env")
    digest ← sha (out <> ("/" <> archive_name))
    size ← byte_size (out <> ("/" <> archive_name))
    write_text (out <> "/release.env") (print_fields (updated version digest size meta))
    shown ← sha (out <> ("/" <> archive_name))
    pure tt

  unfoldable pub make_candidate : String → String → String → Action W (Unit {0})
  unfolding spoil_program make_catalog make_archive announce
  make_candidate source out fault = do
    mkdir (out <> "/program")
    extract (source <> ("/" <> archive_name)) (out <> "/program")
    write_text (out <> "/program/VERSION") (version_of fault <> "\n")
    spoil_program (out <> "/program") fault
    make_catalog (out <> "/program")
    make_archive (out <> "/program") (out <> ("/" <> archive_name))
    announce source out (version_of fault)
