-- ===== src/Build/Built.antt =====
-- What it means that `main` of tools/release/build-macos.py returns.
use laya_rs.Base.{
  ℕ, ◌≡◌, refl, sym, subst, Bool, true, false, [], ◌∷◌, String, ◌<>◌, ==_sound, string_eq, any,
  arith,
}
use laya_rs.Base.Raises.{ok}
use laya_rs.Base.Steps.{each, Runs, >>=-Runs, pure-Runs, reading-Runs, finally-Runs}
use laya_rs.Base.Json.{Json}
use laya_rs.Build.{Host, output_of}
use laya_rs.Build.Cataloged.{IsHexadecimal}
use laya_rs.Build.Licenses.{Builder}
use laya_rs.Build.Assemble.{BuildArgs, packed_path}
use laya_rs.Build.Main.{
  is_release_version, is_set, flag_names, fail_unless, verify_unpacked, package_and_verify, main,
}
use laya_rs.Build.Assembled.{IsAssembled, assemble_package-IsAssembled}

fail_unless-test : (test : Bool) → fail_unless test ≡ ok tt → test ≡ true
fail_unless-test true h = refl
fail_unless-test false h = cc

module _ {W : Type 0} (host : Host W) where
  module _ (builder : Builder W) (show : Json → String) where
    -- The unpacked file has a signature that was verified, from `s` to `t`.
    pub record IsSigned (root name : String) (s t : W) : Type 0 where
      pub report : String
      pub verified :
          Runs
            (output_of host
              ("codesign" ∷ "--verify" ∷ "--strict" ∷ (root <> ("/unpacked/" <> name)) ∷ []))
            s
            report
            t

    verify_unpacked-IsSigned :
        (root name : String) {s t : W}
        → Runs (verify_unpacked host builder show root name) s tt t
        → IsSigned root name s t
    unfolding verify_unpacked
    verify_unpacked-IsSigned root name {s} r = >>=-Runs r (λ report u first last.
        subst (IsSigned root name s) (pure-Runs last).1
          (record { report = report; verified = first }))

    -- What the temporary directory has been used for, from `s` to `t`, each step from where the one
    -- before has ended: the package was assembled, its archive unpacked, and both unpacked binaries
    -- verified.
    pub record IsVerified (args : BuildArgs) (root : String) (s t : W) : Type 0 where
      pub packed : W
      pub unpacked : W
      pub half : W
      pub assembled : IsAssembled host builder show args root s packed
      pub extracted :
          Runs (builder.extract (packed_path args) (root <> "/unpacked")) packed tt unpacked
      pub server_signed : IsSigned root "laya-server" unpacked half
      pub runtime_signed : IsSigned root "libonnxruntime.dylib" half t

    package_and_verify-IsVerified :
        (args : BuildArgs) (root : String) {s t : W}
        → IsHexadecimal host
        → Runs (package_and_verify host builder show args root) s tt t
        → IsVerified args root s t
    unfolding package_and_verify each
    package_and_verify-IsVerified args root {s} {t} hex r = >>=-Runs r (λ _ s1 packaged r1.
        >>=-Runs r1 (λ _ s2 extracted checks. >>=-Runs checks (λ _ s3 server r2.
          >>=-Runs r2 (λ _ s4 runtime last. record {
            packed = s1;
            unpacked = s2;
            half = s3;
            assembled = assemble_package-IsAssembled host builder show args root hex packaged;
            extracted = extracted;
            server_signed = verify_unpacked-IsSigned root "laya-server" server;
            runtime_signed =
                subst (IsSigned root "libonnxruntime.dylib" s3) (pure-Runs last).1
                  (verify_unpacked-IsSigned root "libonnxruntime.dylib" runtime);
          }))))

    -- The arguments, with the directories resolved.
    abbrev at : BuildArgs → String → String → BuildArgs
    at args ort out = record { version = args.version; ort = ort; out = out }

    -- A run of `main` from `s` to `t` that returns, each step from where the one before has ended.
    pub record IsBuilt (is_digit : ℕ → Bool) (args : BuildArgs) (s t : W) : Type 0 where
      pub system_eq : builder.system ≡ "Darwin"
      pub machine_eq : builder.machine ≡ "arm64"
      pub version_eq : is_release_version is_digit args.version ≡ true
      pub no_flags : any (λ name. is_set (builder.environ name)) flag_names ≡ false
      pub ort : String
      pub out : String
      pub root : String
      pub targeted : W
      pub found : W
      pub resolved : W
      pub placed : W
      pub compiled : W
      pub begun : W
      pub done : W
      pub targeted_eq : Runs (builder.set_environ "MACOSX_DEPLOYMENT_TARGET" "14.0") s tt targeted
      pub ort_eq : Runs (builder.resolve args.ort) targeted ort found
      pub out_eq : Runs (builder.resolve args.out) found out resolved
      pub placed_eq : Runs (builder.make_directories out) resolved tt placed
      pub compiled_eq :
          Runs
            (builder.run_command (
              "cargo" ∷ "build" ∷ "--release" ∷ "--locked" ∷ "--target" ∷ "aarch64-apple-darwin"
              ∷ []))
            placed
            tt
            compiled
      pub temporary : Runs (builder.temporary_directory "macos-build-" out) compiled root begun
      pub verified : IsVerified (at args ort out) root begun done
      pub removed : Runs (builder.remove_directory root) done tt t

    pub main-IsBuilt :
        (is_digit : ℕ → Bool) (args : BuildArgs) (s t : W)
        → IsHexadecimal host
        → Runs (main host builder show is_digit args) s tt t
        → IsBuilt is_digit args s t
    unfolding main
    main-IsBuilt is_digit args s t hex r = >>=-Runs r (λ _ s0 guard r1.
        >>=-Runs r1 (λ _ s1 targeted r2. >>=-Runs r2 (λ _ s2 flags r3.
          >>=-Runs r3 (λ ort s3 ort_found r4. >>=-Runs r4 (λ out s4 resolved r5.
            >>=-Runs r5 (λ _ s5 placed r6. >>=-Runs r6 (λ _ s6 compiled r7.
              >>=-Runs r7 (λ root s7 made last. finally-Runs last (λ u done removed.
                let buildable = fail_unless-test _ (reading-Runs guard).0 in
                let unset = fail_unless-test _ (reading-Runs flags).0 in
                record {
                  system_eq = ==_sound builder.system "Darwin" (ground arith);
                  machine_eq = ==_sound builder.machine "arm64" (ground arith);
                  version_eq = ground arith;
                  no_flags = ground arith;
                  ort = ort;
                  out = out;
                  root = root;
                  targeted = s1;
                  found = s3;
                  resolved = s4;
                  placed = s5;
                  compiled = s6;
                  begun = s7;
                  done = u;
                  targeted_eq =
                      subst
                        (λ z. Runs (builder.set_environ "MACOSX_DEPLOYMENT_TARGET" "14.0") z tt s1)
                        (sym (reading-Runs guard).1) targeted;
                  ort_eq =
                      subst (λ z. Runs (builder.resolve args.ort) z ort s3)
                        (sym (reading-Runs flags).1) ort_found;
                  out_eq = resolved;
                  placed_eq = placed;
                  compiled_eq = compiled;
                  temporary = made;
                  verified = package_and_verify-IsVerified (at args ort out) root hex done;
                  removed = removed;
                })))))))))
