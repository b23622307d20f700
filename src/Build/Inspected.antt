-- ===== src/Build/Inspected.antt =====
-- What it means that `inspect_macho` accepts a file.
use laya_rs.Base.{
  ◌≡◌, ◌≢◌, refl, ap, ◌∙◌, subst, Bool, true, false, not, Option, none, some, List, [], ◌∷◌, String,
  ◌==◌, ==_sound, string_eq, arith, All,
}
use laya_rs.Base.Int.{ℤ, pos}
use laya_rs.Base.Raises.{Raises, ok, raise}
use laya_rs.Base.Steps.{
  ◌>>=◌, pure, reading, Runs, >>=-Runs, pure-Runs, reading-Runs, Each, done, round, each-Each,
}
use laya_rs.Build.{Host, output_of}
use laya_rs.Build.Words.{find_minos, split_dots, ints_of, is_tuple_gt}
use laya_rs.Build.Macho.{
  refuse_if, exceeds, dependency_lines, dependency_of, is_system, is_relative, bundled_path,
  is_bundled, check_dependency, sign, inspect_macho,
}

pub refuse_if-no : (test : Bool) (message : String) → refuse_if test message ≡ ok tt → test ≡ false
unfolding refuse_if
refuse_if-no false message h = refl
refuse_if-no true message h = cc

-- The tool's output names a minimum version, which is at most 14.0.
pub record IsOldEnough (build : String) : Type 0 where
  pub minimum : String
  pub version : List ℤ
  pub minimum_eq : find_minos build ≡ some minimum
  pub version_eq : ints_of (split_dots "" minimum) ≡ ok version
  pub at_most : is_tuple_gt version (pos 14 ∷ pos 0 ∷ []) ≡ false

exceeds-IsOldEnough : (build : String) → exceeds build ≡ ok false → IsOldEnough build
unfolding exceeds
exceeds-IsOldEnough build h = parts (find_minos build) refl h
  where
    version_parts :
        (minimum : String) (version : Raises (List ℤ))
        → elim version as (λ x. Raises Bool) [
          | raise e ↦ raise e
          | ok v ↦ ok (is_tuple_gt v (pos 14 ∷ pos 0 ∷ []))
        ]
          ≡ ok false
        → (v : List ℤ) × (version ≡ ok v) × (is_tuple_gt v (pos 14 ∷ pos 0 ∷ []) ≡ false)
    version_parts minimum (raise e) h = cc
    version_parts minimum (ok v) h =
        let small : is_tuple_gt v (pos 14 ∷ pos 0 ∷ []) ≡ false = cc in (v, refl, small)

    parts :
        (found : Option String)
        → find_minos build ≡ found
        → elim found as (λ x. Raises Bool) [
          | none ↦ ok true
          | some minimum ↦ elim (ints_of (split_dots "" minimum)) as (λ x. Raises Bool) [
            | raise e ↦ raise e
            | ok v ↦ ok (is_tuple_gt v (pos 14 ∷ pos 0 ∷ []))
          ]
        ]
          ≡ ok false
        → IsOldEnough build
    parts none e h = cc
    parts (some minimum) e h =
        let (v, e', small) = version_parts minimum (ints_of (split_dots "" minimum)) h in
        record { minimum = minimum; version = v; minimum_eq = e; version_eq = e'; at_most = small }

module _ {W : Type 0} (host : Host W) where
  -- A dependency is the system's, or is relative, and its file was found when the package was searched.
  pub data IsAllowed (root line : String) : Type 0 where
    system : is_system (dependency_of line) ≡ true → IsAllowed root line
    bundled :
        {w w' : W}
        → is_relative (dependency_of line) ≡ true
        → Runs (host.is_file (bundled_path root (dependency_of line))) w true w'
        → IsAllowed root line

  bundled_when :
      (root line : String) (relative : Bool) {s t : W}
      → is_relative (dependency_of line) ≡ relative
      → Runs
          (elim relative as (λ x. W → Raises Bool × W) [
            | false ↦ pure false
            | true ↦ host.is_file (bundled_path root (dependency_of line))
          ])
          s
          true
          t
      → IsAllowed root line
  bundled_when root line true h r = bundled h r
  bundled_when root line false h r = absurd (differ (pure-Runs r).0)
    where
      differ : false ≢ true
      differ e = cc

  is_bundled-IsAllowed :
      (root line : String) {s t : W}
      → Runs (is_bundled host root (dependency_of line)) s true t
      → IsAllowed root line
  unfolding is_bundled
  is_bundled-IsAllowed root line r =
      bundled_when root line (is_relative (dependency_of line)) refl r

  IsAllowed-when :
      (root line message : String) (known : Bool) {s t : W}
      → is_system (dependency_of line) ≡ known
      → Runs
          (elim known as (λ x. W → Raises (Unit {0}) × W) [
            | true ↦ pure tt
            | false ↦ is_bundled host root (dependency_of line) >>= λ found.
                reading (refuse_if (not found) message)
          ])
          s
          tt
          t
      → IsAllowed root line
  IsAllowed-when root line message true h r = system h
  IsAllowed-when root line message false {s} h r = >>=-Runs r (λ found u asked last.
      let no = refuse_if-no (not found) message (reading-Runs last).0 in
      let yes_found : found ≡ true = ground arith in
      is_bundled-IsAllowed root line
        (subst (λ b. Runs (is_bundled host root (dependency_of line)) s b u) yes_found asked))

  check_dependency-IsAllowed :
      (root line : String) {s t : W}
      → Runs (check_dependency host root line) s tt t
      → IsAllowed root line
  unfolding check_dependency
  check_dependency-IsAllowed root line r =
      IsAllowed-when root line _ (is_system (dependency_of line)) refl r

  all-IsAllowed :
      (root : String) (lines : List String) {s t : W}
      → Each (check_dependency host root) lines s t
      → All (IsAllowed root) lines
  all-IsAllowed root [] done = tt
  all-IsAllowed root (line ∷ lines) (round r rest) =
      (check_dependency-IsAllowed root line r, all-IsAllowed root lines rest)

  -- What `inspect_macho` has seen of the file, from `s`: the one architecture, the minimum version, the
  -- dependencies that `otool` lists, and a signature that `codesign` verified.
  pub record IsPortable (path root : String) : Type 0 where
    pub build : String
    pub deps : String
    pub signed : String
    pub verified : String
    pub archs_eq : (w w' : W) × Runs (output_of host ("lipo" ∷ "-archs" ∷ path ∷ [])) w "arm64" w'
    pub build_eq :
        (w w' : W) × Runs (output_of host ("vtool" ∷ "-show-build" ∷ path ∷ [])) w build w'
    pub old_enough : IsOldEnough build
    pub deps_eq : (w w' : W) × Runs (output_of host ("otool" ∷ "-L" ∷ path ∷ [])) w deps w'
    pub allowed : All (IsAllowed root) (dependency_lines path deps)
    pub signed_eq :
        (w v w' : W) × Runs
          (output_of host ("codesign" ∷ "--force" ∷ "--sign" ∷ "-" ∷ path ∷ []))
          w
          signed
          v
        × Runs (output_of host ("codesign" ∷ "--verify" ∷ "--strict" ∷ path ∷ [])) v verified w'

  signature :
      (path : String) {out : String} {s t : W}
      → Runs (sign host path) s out t
      → (signed verified : String) × (w v w' : W) × Runs
          (output_of host ("codesign" ∷ "--force" ∷ "--sign" ∷ "-" ∷ path ∷ []))
          w
          signed
          v
        × Runs (output_of host ("codesign" ∷ "--verify" ∷ "--strict" ∷ path ∷ [])) v verified w'
  unfolding sign
  signature path {s = s} r = >>=-Runs r (λ signed u first r1.
      >>=-Runs r1 (λ verified v second last. (signed, verified, s, u, v, first, second)))

  -- When `inspect_macho` returns: `lipo` names the one architecture arm64, `vtool` a minimum version of
  -- 14.0 or less, each line of `otool` behind the headings is a library of the system or a relative path
  -- whose file was found, and the file was signed and the signature verified.
  pub inspect_macho-IsPortable :
      (path root out : String) (s t : W)
      → Runs (inspect_macho host path root) s out t
      → IsPortable path root
  unfolding inspect_macho
  inspect_macho-IsPortable path root out s t r = >>=-Runs r (λ archs s1 lipo r1.
      >>=-Runs r1 (λ _ s2 arm r2. >>=-Runs r2 (λ build s3 vtool r3.
        >>=-Runs r3 (λ too_new s4 minimum r4. >>=-Runs r4 (λ _ s5 old r5.
          >>=-Runs r5 (λ deps s6 otool r6. >>=-Runs r6 (λ _ s7 checked r7.
            >>=-Runs r7 (λ out' s8 signing last.
              let arm_only = refuse_if-no (not (archs == "arm64")) _ (reading-Runs arm).0 in
              let is_arm : archs ≡ "arm64" = arch_eq archs arm_only in
              let small = refuse_if-no too_new _ (reading-Runs old).0 in
              let (signed, verified, w, v, w', first, second) = signature path signing in
              record {
                build = build;
                deps = deps;
                signed = signed;
                verified = verified;
                archs_eq = (
                  s,
                  s1,
                  subst (λ a. Runs (output_of host ("lipo" ∷ "-archs" ∷ path ∷ [])) s a s1) is_arm
                      lipo,
                );
                build_eq = (s2, s3, vtool);
                old_enough = exceeds-IsOldEnough build ((reading-Runs minimum).0 ∙ ap ok small);
                deps_eq = (s5, s6, otool);
                allowed = all-IsAllowed root (dependency_lines path deps) (each-Each checked);
                signed_eq = (w, v, w', first, second);
              }))))))))
    where
      arch_eq : (archs : String) → not (archs == "arm64") ≡ false → archs ≡ "arm64"
      arch_eq archs h = ==_sound archs "arm64" (ground arith)
