-- ===== src/Release/Safety.antt =====
-- What `release` leaves in the output directory.
use laya_rs.Base.{
  ℕ, ◌≡◌, inl, inr, refl, ◌∙◌, Bool, true, false, List, [], ◌∷◌, ◌++◌, String, ◌<>◌, string_eq,
  arith, contains, Bool-cases,
}
use laya_rs.Base.Dict
use laya_rs.Base.Dict.{Dict, lookup-insert}
use laya_rs.Base.Raises.{Raises, ok, raise, Raises-cases}
use laya_rs.Base.Text.{join}
use laya_rs.Release.{Host, read, checksums}
use laya_rs.Release.Metadata.{metadata, windows_archive, macos_archive}
use laya_rs.Base.Action.{Action, pure, reading, ◌>>=◌}
use laya_rs.Release.Publish.{write, copyfile, copy_with, glob, seal, publish, release}

-- The files that `release` writes.
abbrev pub written : List String
written = "release.env" ∷ "install.sh" ∷ "laya.ps1" ∷ "laya-macos.sh" ∷ "SHA256SUMS" ∷ []

module _ {B : Type 0} where
  -- A call that, whatever comes of it, changes no file but those of the release.
  Keeps : {A : Type 0} → Action (Dict String B) A → Type 0
  Keeps m =
      (files : Dict String B) (j : String)
      → contains written j ≡ false
      → Dict.lookup j (m files).1 ≡ Dict.lookup j files

  >>=-Keeps :
      {A C : Type 0} (m : Action (Dict String B) A) (f : A → Action (Dict String B) C)
      → Keeps m
      → ((a : A) → Keeps (f a))
      → Keeps (m >>= f)
  unfolding Keeps
  >>=-Keeps {A} {C} m f km kf files j h = go (m files).0 (m files).1 (km files j h)
    where
      go :
          (r : Raises A) (s : Dict String B)
          → Dict.lookup j s ≡ Dict.lookup j files
          → Dict.lookup j
              (elim r as (λ x. Raises C × Dict String B) [
                | ok a ↦ f a s
                | raise e ↦ (raise e, s)
              ]).1
            ≡ Dict.lookup j files
      go (ok a) s k = kf a s j h ∙ k
      go (raise e) s k = k

  reading-Keeps : {A : Type 0} (f : Dict String B → Raises A) → Keeps (reading f)
  unfolding Keeps
  reading-Keeps f files j h = refl

  insert_keeps :
      (j k : String) (b : B) (files : Dict String B)
      → contains written k ≡ true
      → contains written j ≡ false
      → Dict.lookup j (Dict.insert k b files) ≡ Dict.lookup j files
  insert_keeps j k b files is not_one = ground (arith, lookup-insert j k b files)

module _ {B : Type 0} (host : Host B) (root : Dict String B) where
  write-Keeps :
      (name text : String) → contains written name ≡ true → Keeps (write host root name text)
  unfolding write Keeps
  write-Keeps name text is files j h = insert_keeps j name _ files is h

  copyfile-Keeps :
      (source name : String) → contains written name ≡ true → Keeps (copyfile host root source name)
  unfolding copyfile Keeps
  copyfile-Keeps source name is files j h = elim (Raises-cases (read source root)) [
    | inl (content, found) ↦ rw (found, copyfile) (insert_keeps j name content files is h)
    | inr (e, absent) ↦ rw (absent, copyfile)
  ]

  copy_with-Keeps :
      (archive source name : String)
      → contains written name ≡ true
      → Keeps (copy_with host root archive source name)
  unfolding copy_with Keeps
  copy_with-Keeps archive source name is files j h =
      elim (Bool-cases (Dict.contains_key archive files)) [
        | inl there ↦
            rw (there, copy_with)
              (>>=-Keeps (copyfile host root source name) (λ u. pure (archive ∷ name ∷ []))
                (copyfile-Keeps source name is) (λ u. reading-Keeps (λ d. ok (archive ∷ name ∷ [])))
                files j h)
        | inr absent ↦ rw (absent, copy_with)
      ]

  seal-Keeps : (extra : List String) → Keeps (seal host root extra)
  unfolding seal string_eq
  seal-Keeps extra =
      >>=-Keeps _ _ (reading-Keeps (λ files. ok (glob "laya-server-linux-" ".tar.gz" files)))
        (λ runtimes.
          >>=-Keeps _ _ (reading-Keeps (λ files. ok (glob "runtime-sources-" ".tar.gz" files)))
            (λ sources.
              >>=-Keeps _ _
                (reading-Keeps
                  (checksums host ("release.env" ∷ "install.sh" ∷ (extra ++ runtimes ++ sources))))
                (λ sums. write-Keeps "SHA256SUMS" (join "" sums) refl)))

  publish-Keeps : (lines : List String) → Keeps (publish host root lines)
  unfolding publish string_eq
  publish-Keeps lines =
      >>=-Keeps _ _ (write-Keeps "release.env" (join "\n" lines <> "\n") refl) (λ u.
        >>=-Keeps _ _ (copyfile-Keeps "scripts/install.sh" "install.sh" refl) (λ u.
          >>=-Keeps _ _ (copy_with-Keeps windows_archive "scripts/laya.ps1" "laya.ps1" refl)
            (λ on_windows.
              >>=-Keeps _ _
                (copy_with-Keeps macos_archive "scripts/laya-macos.sh" "laya-macos.sh" refl)
                (λ on_macos. seal-Keeps (on_windows ++ on_macos)))))

  -- Whatever comes of a release, all files of the output directory but the five that it writes stay as
  -- they are: no archive is changed.
  pub release-keeps :
      (is_digit : ℕ → Bool) (version : String) (files : Dict String B) (j : String)
      → contains written j ≡ false
      → Dict.lookup j (release host root is_digit version files).1 ≡ Dict.lookup j files
  unfolding release Keeps
  release-keeps is_digit version files j h =
      >>=-Keeps (reading (metadata host is_digit version root)) (publish host root)
        (reading-Keeps (metadata host is_digit version root)) publish-Keeps files j h
