-- ===== src/Build/Main.antt =====
-- `main` in tools/release/build-macos.py. What it prints is left out.
use Prim.Native.Char.{code}
use laya_rs.Base.{
  ℕ, Bool, true, false, not, ◌&&◌, ◌||◌, Option, none, some, List, [], ◌∷◌, String, ◌<>◌, ◌==◌,
  nat_eq, string_eq, leb, contains, any,
}
use laya_rs.Base.Raises.{Raises, ok, raise, other_error}
use laya_rs.Base.Action.{Action}
use laya_rs.Base.Steps.{◌>>=◌, ◌>>◌, pure, reading, each, finally}
use laya_rs.Base.Text.{behind}
use laya_rs.Base.Json.{Json}
use laya_rs.Build.{Host, output_of}
use laya_rs.Build.Words.{is_letter}
use laya_rs.Build.Licenses.{Builder}
use laya_rs.Build.Assemble.{BuildArgs, binaries, packed_path, assemble_package}

-- A character of `[A-Za-z0-9.+-]`
abbrev is_version_char : ℕ → Bool
is_version_char c = is_letter c || (leb 48 c && leb c 57) || contains (46 ∷ 43 ∷ 45 ∷ []) c

-- What `[A-Za-z0-9.+-]*` leaves nothing of.
unfoldable pub is_version_tail : String → Bool
is_version_tail String.[] = true
is_version_tail (String.◌∷◌ c s) = is_version_char (code c) && is_version_tail s

-- Further digits, and the tail from any place among them.
unfoldable pub is_digits_then : (ℕ → Bool) → String → Bool
unfolding is_version_tail
is_digits_then is_digit String.[] = true
is_digits_then is_digit (String.◌∷◌ c s) =
    is_version_tail (String.◌∷◌ c s) || (is_digit (code c) && is_digits_then is_digit s)

-- `re.fullmatch(r"v\d+[A-Za-z0-9.+-]*", version)`, where `is_digit` are the characters of `\d`
unfoldable pub is_release_version : (ℕ → Bool) → String → Bool
unfolding behind is_digits_then
is_release_version is_digit version = elim (behind "v" version) [
  | none ↦ false
  | some String.[] ↦ false
  | some (String.◌∷◌ c rest) ↦ is_digit (code c) && is_digits_then is_digit rest
]

-- The variables that carry flags of a compiler.
abbrev pub flag_names : List String
flag_names = "RUSTFLAGS" ∷ "CARGO_ENCODED_RUSTFLAGS" ∷ "CFLAGS" ∷ "CXXFLAGS" ∷ []

-- `os.environ.get(v)`, as a condition
abbrev pub is_set : Option String → Bool
is_set none = false
is_set (some value) = not (value == "")

-- `parser.error(...)` ends the program.
abbrev usage_error : Raises (Unit {0})
usage_error = raise (other_error "SystemExit")

abbrev pub fail_unless : Bool → Raises (Unit {0})
fail_unless true = ok tt
fail_unless false = usage_error

module _ {W : Type 0} (host : Host W) (builder : Builder W) (show : Json → String) where
  -- The signature of an unpacked file.
  unfoldable pub verify_unpacked : String → String → Action W (Unit {0})
  unfolding output_of
  verify_unpacked root name = do
    report ←
        output_of host
          ("codesign" ∷ "--verify" ∷ "--strict" ∷ (root <> ("/unpacked/" <> name)) ∷ [])
    pure tt

  -- What is done in the temporary directory.
  unfoldable pub package_and_verify : BuildArgs → String → Action W (Unit {0})
  unfolding assemble_package verify_unpacked
  package_and_verify args root = do
    assemble_package host builder show args root
    builder.extract (packed_path args) (root <> "/unpacked")
    each (verify_unpacked root) binaries

  module _ (is_digit : ℕ → Bool) where
    -- The machine and the version.
    abbrev pub is_buildable : BuildArgs → Bool
    is_buildable args =
        builder.system == "Darwin"
        && (builder.machine == "arm64" && is_release_version is_digit args.version)

    abbrev pub has_flags : Bool
    has_flags = any (λ name. is_set (builder.environ name)) flag_names

    unfoldable pub main : BuildArgs → Action W (Unit {0})
    unfolding is_release_version package_and_verify
    main args = do
      reading (fail_unless (is_buildable args))
      builder.set_environ "MACOSX_DEPLOYMENT_TARGET" "14.0"
      reading (fail_unless (not has_flags))
      ort ← builder.resolve args.ort
      out ← builder.resolve args.out
      builder.make_directories out
      builder.run_command
          ("cargo" ∷ "build" ∷ "--release" ∷ "--locked" ∷ "--target" ∷ "aarch64-apple-darwin" ∷ [])
      temp ← builder.temporary_directory "macos-build-" out
      finally (package_and_verify (record { version = args.version; ort = ort; out = out }) temp)
          (builder.remove_directory temp)
