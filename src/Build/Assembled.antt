-- ===== src/Build/Assembled.antt =====
-- What it means that `assemble` of tools/release/build-macos.py returns.
use laya_rs.Base.{ℕ, subst, Bool, true, false, List, [], ◌∷◌, String, ◌<>◌, string_eq}
use laya_rs.Base.Action.{Action}
use laya_rs.Base.Steps.{◌>>=◌, pure, map_each, Runs, >>=-Runs, pure-Runs}
use laya_rs.Base.Text.{join}
use laya_rs.Base.Json.{Json}
use laya_rs.Deploy.Candidate.{sort_paths}
use laya_rs.Build.{Host, output_of}
use laya_rs.Build.Inspected.{IsPortable, inspect_macho-IsPortable}
use laya_rs.Build.Catalog.{catalog}
use laya_rs.Build.Cataloged.{IsHexadecimal, IsCataloged, catalog-IsCataloged}
use laya_rs.Build.Licenses.{Builder}
use laya_rs.Build.Assemble.{
  BuildArgs, packed_path, copy_inputs, write_identity, write_record, mode_of, inspect_binaries,
  members_in, assemble_package,
}
use laya_rs.Build.Main.{}

module _ {W : Type 0} (host : Host W) where
  module _ (root : String) where
    abbrev path_of : List String → String
    path_of parts = root <> ("/" <> join "/" parts)

    -- The members of the archive: the files among the paths, in their order, each with its name below
    -- "./" and its mode.
    pub data IsPacking : List (List String) → List (String × String × ℕ) → Type 0 where
      nothing_packed : IsPacking [] []
      no_member :
          {parts : List String} {paths : List (List String)} {members : List (String × String × ℕ)}
          {w w' : W}
          → Runs (host.is_file (path_of parts)) w false w'
          → IsPacking paths members
          → IsPacking (parts ∷ paths) members
      member_packed :
          {parts : List String} {paths : List (List String)} {members : List (String × String × ℕ)}
          {w w' : W}
          → Runs (host.is_file (path_of parts)) w true w'
          → IsPacking paths members
          → IsPacking
              (parts ∷ paths)
              ((path_of parts, "./" <> join "/" parts, mode_of (path_of parts)) ∷ members)

    members_in-IsPacking :
        (paths : List (List String)) {members : List (String × String × ℕ)} {s t : W}
        → Runs (members_in host root paths) s members t
        → IsPacking paths members
    unfolding members_in
    members_in-IsPacking [] r = subst (IsPacking []) (pure-Runs r).0 nothing_packed
    members_in-IsPacking (parts ∷ paths) {members} {s} {t} r = >>=-Runs r (λ found u asked rest.
        one_more parts paths found asked rest (λ _ _ _ others. members_in-IsPacking paths others))
      where
        one_more :
            (parts : List String) (paths : List (List String)) (found : Bool)
            {members : List (String × String × ℕ)} {s u t : W}
            → Runs (host.is_file (path_of parts)) s found u
            → Runs
                (elim found as (λ x. Action W (List (String × String × ℕ))) [
                  | false ↦ members_in host root paths
                  | true ↦ do
                    rest ← members_in host root paths
                    pure ((path_of parts, "./" <> join "/" parts, mode_of (path_of parts)) ∷ rest)
                ])
                u
                members
                t
            → ((members : List (String × String × ℕ)) (s t : W)
                → Runs (members_in host root paths) s members t
                → IsPacking paths members)
            → IsPacking (parts ∷ paths) members
        one_more parts paths false asked r again = no_member asked (again _ _ _ r)
        one_more parts paths true asked r again = >>=-Runs r (λ rest w others last.
            subst (IsPacking (parts ∷ paths)) (pure-Runs last).0
              (member_packed asked (again _ _ _ others)))

    inspect_binaries-IsPortable :
        {s t : W}
        → Runs (inspect_binaries host root) s tt t
        → IsPortable host (root <> "/laya-server") root
          × IsPortable host (root <> "/libonnxruntime.dylib") root
    unfolding inspect_binaries map_each
    inspect_binaries-IsPortable r = >>=-Runs r (λ _ _ inspections _.
        >>=-Runs inspections (λ _ _ server r1. >>=-Runs r1 (λ _ _ others _.
          >>=-Runs others (λ _ _ runtime _. (
            inspect_macho-IsPortable host _ root _ _ _ server,
            inspect_macho-IsPortable host _ root _ _ _ runtime,
          )))))

  module _ (builder : Builder W) (show : Json → String) where
    -- The package in a directory and the archive that was made of it, from `s` to `t`, each step from
    -- where the one before has ended.
    pub record IsAssembled (args : BuildArgs) (root : String) (s t : W) : Type 0 where
      pub paths : List (List String)
      pub members : List (String × String × ℕ)
      pub help : String
      pub copied : W
      pub identified : W
      pub inspected : W
      pub recorded : W
      pub listed : W
      pub helped : W
      pub found : W
      pub collected : W
      pub copied_eq : Runs (copy_inputs host builder show args.ort root) s tt copied
      pub identified_eq :
          Runs (write_identity host builder show args.version root) copied tt identified
      pub inspected_eq : Runs (inspect_binaries host root) identified tt inspected
      pub recorded_eq : Runs (write_record host builder show root) inspected tt recorded
      pub listed_eq : Runs (catalog host root) recorded tt listed
      pub help_eq :
          Runs (output_of host ((root <> "/laya-server") ∷ "--help" ∷ [])) listed help helped
      pub paths_eq : Runs (host.paths_below root) helped paths found
      pub members_eq : Runs (members_in host root (sort_paths paths)) found members collected
      pub packed : Runs (builder.pack (packed_path args) members) collected tt t
      pub server : IsPortable host (root <> "/laya-server") root
      pub runtime : IsPortable host (root <> "/libonnxruntime.dylib") root
      pub cataloged : IsCataloged host root
      pub packing : IsPacking root (sort_paths paths) members

    pub assemble_package-IsAssembled :
        (args : BuildArgs) (root : String) {s t : W}
        → IsHexadecimal host
        → Runs (assemble_package host builder show args root) s tt t
        → IsAssembled args root s t
    unfolding assemble_package
    assemble_package-IsAssembled args root {s} {t} hex r = >>=-Runs r (λ _ s1 copied r1.
        >>=-Runs r1 (λ _ s2 identified r2. >>=-Runs r2 (λ _ s3 inspected r3.
          >>=-Runs r3 (λ _ s4 recorded r4. >>=-Runs r4 (λ _ s5 listed r5.
            >>=-Runs r5 (λ help s6 helped r6. >>=-Runs r6 (λ paths s7 below r7.
              >>=-Runs r7 (λ members s8 gathered last.
                let (server, runtime) = inspect_binaries-IsPortable root inspected in
                record {
                  paths = paths;
                  members = members;
                  help = help;
                  copied = s1;
                  identified = s2;
                  inspected = s3;
                  recorded = s4;
                  listed = s5;
                  helped = s6;
                  found = s7;
                  collected = s8;
                  copied_eq = copied;
                  identified_eq = identified;
                  inspected_eq = inspected;
                  recorded_eq = recorded;
                  listed_eq = listed;
                  help_eq = helped;
                  paths_eq = below;
                  members_eq = gathered;
                  packed = last;
                  server = server;
                  runtime = runtime;
                  cataloged = catalog-IsCataloged host root hex _ _ listed;
                  packing = members_in-IsPacking root (sort_paths paths) gathered;
                }))))))))
