-- ===== src/Release/Checks.antt =====
-- What the archives have passed when `release` begins to write.
use laya_rs.Base.{
  ℕ, ◌≡◌, ◌⊎◌, inl, inr, refl, sym, ◌∙◌, Bool, true, false, some, List, String, ◌==◌, string_eq,
  arith, Bool-cases,
}
use laya_rs.Base.Dict
use laya_rs.Base.Dict.{Dict}
use laya_rs.Base.Raises.{Raises, Exception, ok, raise, ◌>>◌, >>=-eq-ok, Raises-cases}
use laya_rs.Base.Text.{strip}
use laya_rs.Release.{Host, read, model_id}
use laya_rs.Release.Version.{is_version}
use laya_rs.Release.Metadata.{
  Platform, demand, archive_lines, optional_lines, model_lines, metadata, linux, windows, macos,
  model_archive,
}
use laya_rs.Base.Action.{>>=-raise}
use laya_rs.Release.Publish.{publish, release}

demand-eq-ok :
    {A : Type 0} (test : Bool) (message : String) (k : Raises A) {a : A}
    → (demand test message >> k) ≡ ok a
    → (test ≡ true) × (k ≡ ok a)
demand-eq-ok true message k h = (refl, h)
demand-eq-ok false message k h = cc

text_sound : (s t : String) → (s == t) ≡ true → s ≡ t
text_sound s t h = ground arith

module _ {B : Type 0} where
  read-ok :
      (name : String) (files : Dict String B) (b : B)
      → read name files ≡ ok b
      → Dict.lookup name files ≡ some b
  unfolding read
  read-ok name files b h = ground arith

  -- The archive is there, and its members name the version and the model.
  pub record Names (member : String → B → Raises String) (p : Platform) (version id : String)
      (files : Dict String B) : Type 0 where
    pub content : B
    pub found : String
    pub found_id : String
    pub there : Dict.lookup p.archive files ≡ some content
    pub has_version : member p.version_member content ≡ ok found
    pub same_version : strip found ≡ version
    pub has_id : member p.id_member content ≡ ok found_id
    pub same_id : strip found_id ≡ id

module _ {B : Type 0} (host : Host B) where
  pub record Checked (is_digit : ℕ → Bool) (version : String) (root files : Dict String B)
      : Type 0 where
    pub id : String
    pub valid : is_version is_digit version ≡ true
    pub model : model_id host root ≡ ok id
    pub model_there : Dict.contains_key (model_archive id) files ≡ true
    pub x86_64 : Names host.tar_member (linux "x86_64") version id files
    pub aarch64 : Names host.tar_member (linux "aarch64") version id files
    pub on_windows :
        (Dict.contains_key windows.archive files ≡ false)
        ⊎ Names host.zip_member windows version id files
    pub on_macos :
        (Dict.contains_key macos.archive files ≡ false)
        ⊎ Names host.tar_member macos version id files

  archive_lines-Names :
      (member : String → B → Raises String) (p : Platform) (version id : String)
      (root files : Dict String B) (lines : List String)
      → model_id host root ≡ ok id
      → archive_lines host member p version root files ≡ ok lines
      → Names member p version id files
  unfolding archive_lines
  archive_lines-Names member p version id root files lines m h =
      let (content, r, h1) = >>=-eq-ok (read p.archive files) _ h in
      let (found, v, h2) = >>=-eq-ok (member p.version_member content) _ h1 in
      let (same, h3) = demand-eq-ok (strip found == version) _ _ h2 in
      let (found_id, w, h4) = >>=-eq-ok (member p.id_member content) _ h3 in
      let (id', m', h5) = >>=-eq-ok (model_id host root) _ h4 in
      let (same', h6) = demand-eq-ok (strip found_id == id') _ _ h5 in
      record {
        content = content;
        found = found;
        found_id = found_id;
        there = read-ok p.archive files content r;
        has_version = v;
        same_version = text_sound _ _ same;
        has_id = w;
        same_id = text_sound _ _ same' ∙ ok_inj id' id (sym m' ∙ m);
      }
    where
      ok_inj : (a b : String) → ◌≡◌ {A = Raises String} (ok a) (ok b) → a ≡ b
      ok_inj a b h = cc

  optional_lines-Names :
      (member : String → B → Raises String) (p : Platform) (version id : String)
      (root files : Dict String B) (lines : List String)
      → model_id host root ≡ ok id
      → optional_lines host member p version root files ≡ ok lines
      → (Dict.contains_key p.archive files ≡ false) ⊎ Names member p version id files
  unfolding optional_lines
  optional_lines-Names member p version id root files lines m h =
      elim (Bool-cases (Dict.contains_key p.archive files)) [
        | inl there ↦ inr (
            archive_lines-Names member p version id root files lines m
              (rw (there, optional_lines) at h))
        | inr absent ↦ inl absent
      ]

  model_lines-ok :
      (version : String) (root files : Dict String B) (lines : List String)
      → model_lines host version root files ≡ ok lines
      → (id : String) × (model_id host root ≡ ok id)
        × (Dict.contains_key (model_archive id) files ≡ true)
  unfolding model_lines
  model_lines-ok version root files lines h =
      let (id, m, h1) = >>=-eq-ok (model_id host root) _ h in
      let (content, r, h2) = >>=-eq-ok (read (model_archive id) files) _ h1 in
      (id, m, rw (read-ok (model_archive id) files content r, Dict.contains_key))

  metadata-Checked :
      (is_digit : ℕ → Bool) (version : String) (root files : Dict String B) (lines : List String)
      → metadata host is_digit version root files ≡ ok lines
      → Checked is_digit version root files
  unfolding metadata
  metadata-Checked is_digit version root files lines h =
      let (valid, h1) = demand-eq-ok (is_version is_digit version) _ _ h in
      let (a, ea, h2) = >>=-eq-ok (model_lines host version root files) _ h1 in
      let (b, eb, h3) =
        >>=-eq-ok (archive_lines host host.tar_member (linux "x86_64") version root files) _ h2 in
      let (c, ec, h4) =
        >>=-eq-ok (archive_lines host host.tar_member (linux "aarch64") version root files) _ h3 in
      let (d, ed, h5) =
        >>=-eq-ok (optional_lines host host.zip_member windows version root files) _ h4 in
      let (e, ee, h6) =
        >>=-eq-ok (optional_lines host host.tar_member macos version root files) _ h5 in
      let (id, m, there) = model_lines-ok version root files a ea in
      record {
        id = id;
        valid = valid;
        model = m;
        model_there = there;
        x86_64 = archive_lines-Names host.tar_member (linux "x86_64") version id root files b m eb;
        aarch64 =
            archive_lines-Names host.tar_member (linux "aarch64") version id root files c m ec;
        on_windows = optional_lines-Names host.zip_member windows version id root files d m ed;
        on_macos = optional_lines-Names host.tar_member macos version id root files e m ee;
      }

  -- `release` either raises before it writes anything, and the output directory is unchanged; or the
  -- version has the pattern, the archive of the model is there, both Linux archives are there, and
  -- each of them, and the Windows and the macOS archive where there is one, names this version and
  -- the identity of the repository's model.
  pub release-Checked :
      (root : Dict String B) (is_digit : ℕ → Bool) (version : String) (files : Dict String B)
      → ((e : Exception) × (release host root is_digit version files ≡ (raise e, files)))
        ⊎ Checked is_digit version root files
  unfolding release
  release-Checked root is_digit version files =
      elim (Raises-cases (metadata host is_digit version root files)) [
        | inl (lines, passed) ↦ inr (metadata-Checked is_digit version root files lines passed)
        | inr (e, failed) ↦
            inl (
              e,
              >>=-raise (metadata host is_digit version root) (publish host root) files e failed,
            )
      ]
