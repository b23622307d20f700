-- ===== src/Release/Checksums.antt =====
-- SHA256SUMS of a finished release.
use laya_rs.Base.{
  ℕ, ◌≡◌, inl, inr, refl, sym, ap, ◌∙◌, subst, subst₂, Bool, some, List, ◌∷◌, ◌++◌, String, ◌<>◌,
  string_eq, arith, All, All-append, Bool-cases,
}
use laya_rs.Base.Dict
use laya_rs.Base.Dict.{Dict, lookup-insert}
use laya_rs.Base.Raises.{ok}
use laya_rs.Base.Text.{join}
use laya_rs.Release.{Host, checksums}
use laya_rs.Release.Metadata.{metadata, windows_archive, macos_archive}
use laya_rs.Release.Assets.{
  with_script, assets_of, contains_key-insert, glob-insert, copy_with-with_script,
}
use laya_rs.Base.Action.{Action, reading, ◌>>=◌, >>=-ok}
use laya_rs.Release.Publish.{glob, write, copyfile, copy_with, seal, publish, release}
use laya_rs.Release.Summed.{
  Signable, runtimes_other, sources_other, glob-Signable, Signed, Summed, checksums-Summed,
  All-insert,
}

module _ {B : Type 0} where
  -- What the second part leaves of a run that returns, the whole leaves.
  after_first :
      {A : Type 0} (P : Dict String B → Type 0) (m : Action (Dict String B) A)
      (f : A → Action (Dict String B) (Unit {0})) (files : Dict String B)
      → ((a : A) → (m files).0 ≡ ok a → (f a (m files).1).0 ≡ ok tt → P (f a (m files).1).1)
      → ((m >>= f) files).0 ≡ ok tt
      → P ((m >>= f) files).1
  after_first P m f files k h =
      let (a, e, q) = >>=-ok m f files tt h in
      subst (λ out. P out.1) q (k a e (ap (λ out. out.0) q ∙ h))

  -- The file of the checksums is none of the assets.
  assets_of-insert :
      (sums : B) (files : Dict String B)
      → assets_of (Dict.insert "SHA256SUMS" sums files) ≡ assets_of files
  unfolding assets_of string_eq
  assets_of-insert sums files =
      rw
        (
          contains_key-insert windows_archive "SHA256SUMS" sums files refl,
          contains_key-insert macos_archive "SHA256SUMS" sums files refl,
          glob-insert "laya-server-linux-" ".tar.gz" "SHA256SUMS" sums files runtimes_other,
          glob-insert "runtime-sources-" ".tar.gz" "SHA256SUMS" sums files sources_other,
        )
        refl

module _ {B : Type 0} (host : Host B) (root : Dict String B) where
  open host use {encode}

  write-Signed :
      (names : List String) (files : Dict String B) (sums : List String)
      → names ≡ assets_of files
      → Summed host ("release.env" ∷ "install.sh" ∷ names) files sums
      → Signed host (write host root "SHA256SUMS" (join "" sums) files).1
  unfolding write
  write-Signed names files sums all_names s = record {
    assets = s.found;
    names_eq =
        s.names_eq
        ∙ ap (λ l. "release.env" ∷ "install.sh" ∷ l) (all_names ∙ sym (assets_of-insert _ files));
    listed = listed_at _ _ files ∙ ap (λ l. some (encode (join "" l))) s.lines_eq;
    present = All-insert host s.found files _ s.signable s.present;
  }
    where
      listed_at :
          (k : String) (b : B) (files : Dict String B)
          → Dict.lookup k (Dict.insert k b files) ≡ some b
      listed_at k b files = ground (arith, lookup-insert k k b files)

  with_script-Signable :
      (archive script : String) (files : Dict String B)
      → Signable archive
      → Signable script
      → All Signable (with_script archive script files)
  with_script-Signable archive script files sa sn =
      elim (Bool-cases (Dict.contains_key archive files)) [
        | inl there ↦ rw there (sa, (sn, tt))
        | inr absent ↦ rw absent tt
      ]

  -- The archives with their scripts, as `seal` is given them.
  abbrev scripts_of : Dict String B → List String
  scripts_of files =
      with_script windows_archive "laya.ps1" files
      ++ with_script macos_archive "laya-macos.sh" files

  scripts_of-Signable : (files : Dict String B) → All Signable (scripts_of files)
  unfolding string_eq
  scripts_of-Signable files =
      All-append Signable (with_script windows_archive "laya.ps1" files)
        (with_script macos_archive "laya-macos.sh" files)
        (with_script-Signable windows_archive "laya.ps1" files refl refl)
        (with_script-Signable macos_archive "laya-macos.sh" files refl refl)

  seal-Signed :
      (files : Dict String B)
      → (seal host root (scripts_of files) files).0 ≡ ok tt
      → Signed host (seal host root (scripts_of files) files).1
  unfolding seal string_eq
  seal-Signed files h =
      let extra = scripts_of files in
      let runtimes = glob "laya-server-linux-" ".tar.gz" files in
      let sources = glob "runtime-sources-" ".tar.gz" files in
      let names = "release.env" ∷ "install.sh" ∷ (extra ++ runtimes ++ sources) in
      let signable : All Signable names = (
        refl,
        (
          refl,
          All-append Signable (extra ++ runtimes) sources
              (All-append Signable extra runtimes (scripts_of-Signable files)
                (glob-Signable "laya-server-linux-" ".tar.gz" runtimes_other files))
              (glob-Signable "runtime-sources-" ".tar.gz" sources_other files),
        ),
      ) in
      after_first (Signed host) (reading (checksums host names))
        (λ sums. write host root "SHA256SUMS" (join "" sums)) files
        (λ sums e last.
          write-Signed (extra ++ runtimes ++ sources) files sums (unfold assets_of in refl)
            (checksums-Summed host names files sums signable e))
        h

  -- What the copies of the scripts add to the assets is what the directory has in the end.
  scripts-agree :
      (before between : Dict String B) (on_windows on_macos : List String)
      → (copy_with host root windows_archive "scripts/laya.ps1" "laya.ps1" before).0 ≡ ok on_windows
      → (copy_with host root windows_archive "scripts/laya.ps1" "laya.ps1" before).1 ≡ between
      → (copy_with host root macos_archive "scripts/laya-macos.sh" "laya-macos.sh" between).0
        ≡ ok on_macos
      → on_windows ++ on_macos
        ≡ scripts_of
            (copy_with host root macos_archive "scripts/laya-macos.sh" "laya-macos.sh" between).1
  unfolding string_eq
  scripts-agree before between on_windows on_macos first same second =
      let (windows_eq, stays) =
        copy_with-with_script host root windows_archive "scripts/laya.ps1" "laya.ps1" before
          on_windows first in
      let (macos_eq, stays') =
        copy_with-with_script host root macos_archive "scripts/laya-macos.sh" "laya-macos.sh"
          between on_macos second in
      let on_end = stays' windows_archive refl in
      let on_between =
        subst (λ d. Dict.contains_key windows_archive d ≡ Dict.contains_key windows_archive before)
          same (stays windows_archive refl) in
      let macos_end = stays' macos_archive refl in
      subst₂
        (λ a b.
          a ++ b
          ≡ scripts_of
              (copy_with host root macos_archive "scripts/laya-macos.sh" "laya-macos.sh" between).1)
        (sym windows_eq) (sym macos_eq) (rw (on_end, on_between, macos_end) refl)

  abbrev windows : Action (Dict String B) (List String)
  windows = copy_with host root windows_archive "scripts/laya.ps1" "laya.ps1"

  abbrev macos : Action (Dict String B) (List String)
  macos = copy_with host root macos_archive "scripts/laya-macos.sh" "laya-macos.sh"

  -- The copies of the scripts and the checksums.
  finish-Signed :
      (files : Dict String B)
      → ((windows >>= λ on_windows. macos >>= λ on_macos. seal host root (on_windows ++ on_macos))
          files).0
        ≡ ok tt
      → Signed host
          ((windows >>= λ on_windows. macos >>= λ on_macos. seal host root (on_windows ++ on_macos))
            files).1
  finish-Signed files h =
      after_first (Signed host) windows
        (λ on_windows. macos >>= λ on_macos. seal host root (on_windows ++ on_macos)) files
        (λ on_windows e h1.
          after_first (Signed host) macos (λ on_macos. seal host root (on_windows ++ on_macos))
            (windows files).1
            (λ on_macos e' last.
              let final = (macos (windows files).1).1 in
              let agree = scripts-agree files (windows files).1 on_windows on_macos e refl e' in
              subst
                (λ l. (seal host root l final).0 ≡ ok tt → Signed host (seal host root l final).1)
                (sym agree) (seal-Signed final) last)
            h1)
        h

  publish-Signed :
      (lines : List String) (files : Dict String B)
      → (publish host root lines files).0 ≡ ok tt
      → Signed host (publish host root lines files).1
  unfolding publish
  publish-Signed lines files h =
      let scripts =
        windows >>= λ on_windows. macos >>= λ on_macos. seal host root (on_windows ++ on_macos) in
      let env = write host root "release.env" (join "\n" lines <> "\n") in
      let installer = copyfile host root "scripts/install.sh" "install.sh" in
      after_first (Signed host) env (λ _. installer >>= λ _. scripts) files
        (λ _ _ h1.
          after_first (Signed host) installer (λ _. scripts) (env files).1
            (λ _ _ last. finish-Signed (installer (env files).1).1 last) h1)
        h

  -- When `release` returns, SHA256SUMS holds one line for each of its assets, in this order: release.env,
  -- install.sh, the archive for Windows and that for macOS, each with its script and if it is there, and
  -- the archives for Linux and those of the sources, each sorted by name, that the directory has in the
  -- end; and each line has the digest of what the asset's file holds in the end.
  pub release-Signed :
      (is_digit : ℕ → Bool) (version : String) (files : Dict String B)
      → (release host root is_digit version files).0 ≡ ok tt
      → Signed host (release host root is_digit version files).1
  unfolding release
  release-Signed is_digit version files h =
      after_first (Signed host) (reading (metadata host is_digit version root)) (publish host root)
        files (λ lines _ last. publish-Signed lines files last) h
