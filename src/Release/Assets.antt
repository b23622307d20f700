-- ===== src/Release/Assets.antt =====
-- The assets of a finished release, by what its directory holds in the end.
use laya_rs.Base.{
  ◌≡◌, inl, inr, refl, sym, ap, ◌∙◌, subst, Bool, false, List, [], ◌∷◌, ◌++◌, map, select, String,
  ◌==◌, string_eq, arith, Bool-cases, if◌then◌else◌, ==_sound,
}
use laya_rs.Base.Dict
use laya_rs.Base.Dict.{Dict, insert, lookup, lookup-insert}
use laya_rs.Base.Raises.{Raises, ok, raise}
use laya_rs.Base.Action.{pure, >>=-ok}
use laya_rs.Release.{Host, read}
use laya_rs.Release.Metadata.{windows_archive, macos_archive}
use laya_rs.Release.Publish.{matches, sort_names, glob, copyfile, copy_with}

module _ {B : Type 0} where
  -- An archive that is there, with its script.
  abbrev pub with_script : String → String → Dict String B → List String
  with_script archive script files =
      if Dict.contains_key archive files then archive ∷ script ∷ [] else []

  -- The archives for Windows and macOS with their scripts, the archives for Linux, and the sources.
  unfoldable pub assets_of : Dict String B → List String
  unfolding glob
  assets_of files =
      (with_script windows_archive "laya.ps1" files
        ++ with_script macos_archive "laya-macos.sh" files)
      ++ glob "laya-server-linux-" ".tar.gz" files
      ++ glob "runtime-sources-" ".tar.gz" files

  pub contains_key-insert :
      (j k : String) (b : B) (files : Dict String B)
      → (j == k) ≡ false
      → Dict.contains_key j (Dict.insert k b files) ≡ Dict.contains_key j files
  contains_key-insert j k b files h = ground (arith, lookup-insert j k b files)

  select-insert :
      (p : String → Bool) (k : String) (b : B) (files : Dict String B)
      → p k ≡ false
      → select p (map (λ f. f.0) (Dict.insert k b files)) ≡ select p (map (λ f. f.0) files)
  unfolding Dict.insert
  select-insert p k b [] h = rw h refl
  select-insert p k b ((j, c) ∷ files) h = elim (Bool-cases (k == j)) [
    | inl same ↦
        let other : p j ≡ false = subst (λ i. p i ≡ false) (==_sound k j same) h in
        rw (same, h, other) refl
    | inr differ ↦ elim (Bool-cases (p j)) [
      | inl chosen ↦ rw (differ, chosen) (ap (λ l. j ∷ l) (select-insert p k b files h))
      | inr left ↦ rw (differ, left) (select-insert p k b files h)
    ]
  ]

  pub glob-insert :
      (prefix end k : String) (b : B) (files : Dict String B)
      → matches prefix end k ≡ false
      → glob prefix end (Dict.insert k b files) ≡ glob prefix end files
  unfolding glob
  glob-insert prefix end k b files h =
      ap sort_names (select-insert (matches prefix end) k b files h)

module _ {B : Type 0} (host : Host B) (root : Dict String B) where
  copyfile-contains :
      (source name : String) (files : Dict String B) (j : String)
      → (j == name) ≡ false
      → Dict.contains_key j (copyfile host root source name files).1 ≡ Dict.contains_key j files
  unfolding copyfile
  copyfile-contains source name files j h = go (read source root)
    where
      go :
          (found : Raises B)
          → Dict.contains_key j
              (elim found as (λ x. Raises (Unit {0}) × Dict String B) [
                | ok content ↦ (ok tt, Dict.insert name content files)
                | raise e ↦ (raise e, files)
              ]).1
            ≡ Dict.contains_key j files
      go (ok content) = contains_key-insert j name content files h
      go (raise e) = refl

  same_list : {a b : List String} → ◌≡◌ {A = Raises (List String)} (ok a) (ok b) → a ≡ b
  same_list h = cc

  -- What a copy of a script adds to the assets, and that no other file comes or goes.
  pub copy_with-with_script :
      (archive source name : String) (files : Dict String B) (l : List String)
      → (copy_with host root archive source name files).0 ≡ ok l
      → (l ≡ with_script archive name files)
        × ((j : String)
            → (j == name) ≡ false
            → Dict.contains_key j (copy_with host root archive source name files).1
              ≡ Dict.contains_key j files)
  unfolding copy_with
  copy_with-with_script archive source name files l h =
      elim (Bool-cases (Dict.contains_key archive files)) [
        | inl there ↦
            let m = copyfile host root source name in
            let k = λ (u : Unit {0}). pure (archive ∷ name ∷ []) in
            let (u, e, q) = >>=-ok m k files l (rw (there, copy_with) at h) in
            (
              sym (same_list (ap (λ out. out.0) q ∙ rw (there, copy_with) at h)) ∙ rw there refl,
              λ j differ.
                  rw (there, copy_with)
                    (ap (λ out. Dict.contains_key j out.1) (sym q)
                      ∙ copyfile-contains source name files j differ),
            )
        | inr absent ↦ (
          sym (same_list (rw (absent, copy_with) at h)) ∙ rw absent refl,
          λ j differ. rw (absent, copy_with) refl,
        )
      ]
