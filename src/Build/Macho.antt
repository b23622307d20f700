-- ===== src/Build/Macho.antt =====
-- `inspect_macho` in tools/release/build-macos.py.
use laya_rs.Base.{
  Bool, true, false, not, ◌||◌, none, some, List, [], ◌∷◌, String, ◌<>◌, ◌==◌, string_eq,
  if◌then◌else◌,
}
use laya_rs.Base.Int.{pos}
use laya_rs.Base.Raises.{Raises, ok, raise, value_error}
use laya_rs.Base.Action.{Action}
use laya_rs.Base.Steps.{◌>>=◌, ◌>>◌, pure, reading, each}
use laya_rs.Base.Text.{strip, starts_with, split_lines}
use laya_rs.Build.{Host, output_of}
use laya_rs.Build.Words.{
  find_minos, split_dots, ints_of, is_tuple_gt, before_parenthesis, behind_stroke, is_dylib, joined,
  drop,
}

-- `if test: raise ValueError(message)`
unfoldable pub refuse_if : Bool → String → Raises (Unit {0})
refuse_if false message = ok tt
refuse_if true message = raise (value_error message)

-- `not minimum or tuple(map(int, ...)) > (14, 0)`
unfoldable pub exceeds : String → Raises Bool
unfolding find_minos split_dots ints_of is_tuple_gt
exceeds build = elim (find_minos build) [
  | none ↦ ok true
  | some minimum ↦ elim (ints_of (split_dots "" minimum)) [
    | raise e ↦ raise e
    | ok version ↦ ok (is_tuple_gt version (pos 14 ∷ pos 0 ∷ []))
  ]
]

-- The lines of the dependencies.
unfoldable pub dependency_lines : String → String → List String
unfolding split_lines is_dylib
dependency_lines path output = drop (if is_dylib path then 2 else 1) (split_lines output)

unfoldable pub dependency_of : String → String
unfolding strip before_parenthesis
dependency_of line = before_parenthesis (strip line)

unfoldable pub is_system : String → Bool
unfolding starts_with
is_system s = starts_with "/System/Library/" s || starts_with "/usr/lib/" s

unfoldable pub is_relative : String → Bool
unfolding starts_with
is_relative s = starts_with "@loader_path/" s || starts_with "@rpath/" s

-- The file of a relative dependency, in the package.
unfoldable pub bundled_path : String → String → String
unfolding behind_stroke joined
bundled_path root dependency = elim (behind_stroke dependency) [
  | none ↦ root
  | some rest ↦ joined root rest
]

module _ {W : Type 0} (host : Host W) where
  unfoldable pub is_bundled : String → String → Action W Bool
  unfolding is_relative bundled_path
  is_bundled root dependency = elim (is_relative dependency) [
    | false ↦ pure false
    | true ↦ host.is_file (bundled_path root dependency)
  ]

  unfoldable pub check_dependency : String → String → Action W (Unit {0})
  unfolding dependency_of is_system is_bundled refuse_if
  check_dependency root line = elim (is_system (dependency_of line)) [
    | true ↦ pure tt
    | false ↦ do
      found ← is_bundled root (dependency_of line)
      reading (refuse_if (not found) ("Unbundled or build-host dependency: " <> dependency_of line))
  ]

  -- The signature.
  unfoldable pub sign : String → Action W String
  unfolding output_of
  sign path = do
    signed ← output_of host ("codesign" ∷ "--force" ∷ "--sign" ∷ "-" ∷ path ∷ [])
    verified ← output_of host ("codesign" ∷ "--verify" ∷ "--strict" ∷ path ∷ [])
    output_of host ("codesign" ∷ "-dv" ∷ "--verbose=4" ∷ path ∷ [])

  unfoldable pub inspect_macho : String → String → Action W String
  unfolding output_of refuse_if exceeds dependency_lines check_dependency sign
  inspect_macho path root = do
    archs ← output_of host ("lipo" ∷ "-archs" ∷ path ∷ [])
    reading (refuse_if (not (archs == "arm64")) "Package contains a non-ARM64 executable")
    build ← output_of host ("vtool" ∷ "-show-build" ∷ path ∷ [])
    too_new ← reading (exceeds build)
    reading (refuse_if too_new "Mach-O exceeds the minimum OS")
    deps ← output_of host ("otool" ∷ "-L" ∷ path ∷ [])
    each (check_dependency root) (dependency_lines path deps)
    signature ← sign path
    pure (build <> ("\n" <> (deps <> ("\n" <> signature))))
