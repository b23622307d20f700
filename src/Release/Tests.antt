-- ===== src/Release/Tests.antt =====
-- A release of two Linux archives, with texts for contents and a hash that is the content itself.
use laya_rs.Base.{
  ℕ, ◌≡◌, ◌⊎◌, refl, Bool, ◌&&◌, some, [], ◌∷◌, String, ◌==◌, string_eq, nat_eq, ℕ_discrete, leb,
  if◌then◌else◌, List, false, ◌↔◌, All,
}
use laya_rs.Base.Dict
use laya_rs.Base.Dict.{Dict}
use laya_rs.Base.Raises.{Raises, Exception, ok, raise, file_not_found}
use laya_rs.Base.Text.{decimal, strip}
use laya_rs.Base.Checked.{◌>>=◌}
use laya_rs.Release.{Host}
use laya_rs.Release.Pack.{Packing, pack_model, perform, show_id}
use laya_rs.Release.Packed.{IsPacked, pack_model-IsPacked}
use laya_rs.Release.Model.{ManifestEntry, IsIntact, verify_files, verify_files_iff}
use laya_rs.Release.Publish.{release}
use laya_rs.Release.Checks.{Checked, release-Checked}
use laya_rs.Release.Summed.{Signed}
use laya_rs.Release.Checksums.{release-Signed}

digits_of_240 : decimal 240 ≡ "240"
unfolding decimal ℕ_discrete
digits_of_240 = refl

stripped : strip " v1\n" ≡ "v1"
unfolding strip string_eq ℕ_discrete
stripped = refl

abbrev is_digit : ℕ → Bool
is_digit c = leb 48 c && leb c 57

abbrev member : String → String → Raises String
member name content = if name == "./VERSION" then ok "v1\n" else ok "manifest\n"

abbrev host : Host String
host = record {
  sha256 = λ b. b;
  size = λ b. 240;
  encode = λ s. s;
  tar_member = member;
  zip_member = member;
}

abbrev root : Dict String String
root = ("docs/model-manifest.json", "manifest") ∷ ("scripts/install.sh", "installer") ∷ []

abbrev files : Dict String String
files =
    ("model-manifest.tar.gz", "model")
    ∷ ("laya-server-linux-x86_64.tar.gz", "intel")
    ∷ ("laya-server-linux-aarch64.tar.gz", "arm")
    ∷ []

returns : (release host root is_digit "v1" files).0 ≡ ok tt
unfolding release string_eq ℕ_discrete Dict.lookup
returns = refl

release-Signed_example : Signed host (release host root is_digit "v1" files).1
release-Signed_example = release-Signed host root is_digit "v1" files returns

release-Checked_example :
    ((e : Exception) × (release host root is_digit "v1" files ≡ (raise e, files)))
    ⊎ Checked host is_digit "v1" root files
release-Checked_example = release-Checked host root is_digit "v1" files

sums_text :
    Dict.lookup "SHA256SUMS" (release host root is_digit "v1" files).1
    ≡ some (
        "VERSION=v1\nMODEL_ID=manifest\nMODEL_SHA256=model\nMODEL_BYTES=240\nRUNTIME_x86_64_SHA256=intel\nRUNTIME_x86_64_BYTES=240\nRUNTIME_aarch64_SHA256=arm\nRUNTIME_aarch64_BYTES=240\n  release.env\ninstaller  install.sh\narm  laya-server-linux-aarch64.tar.gz\nintel  laya-server-linux-x86_64.tar.gz\n")
unfolding release string_eq ℕ_discrete Dict.lookup
sums_text = refl

abbrev manifest_entries : List ManifestEntry
manifest_entries = record { path = "laya.onnx"; bytes = 240; sha256 = "graph" } ∷ []

abbrev bundle : Dict String String
bundle = ("laya.onnx", "graph") ∷ []

no_link : String → Bool
no_link path = false

verify_files_iff_example :
    (verify_files host no_link manifest_entries bundle ≡ ok tt)
    ↔ All (IsIntact host no_link bundle) manifest_entries
verify_files_iff_example = verify_files_iff host no_link manifest_entries bundle

abbrev packing : Packing String
packing = record {
  entries_of = λ b. ok manifest_entries;
  tar_gz = λ members. "packed";
  partial = λ members. "part";
}

abbrev repository : Dict String String
repository =
    ("docs/model-manifest.json", "manifest") ∷ ("tools/release/MODEL-NOTICE.md", "notice") ∷ []

packs :
    pack_model host packing no_link repository bundle files
    ≡ (ok tt, Dict.insert "model-manifest.tar.gz" "packed" files)
unfolding pack_model no_link ◌>>=◌ string_eq ℕ_discrete Dict.lookup Dict.insert
packs = refl

-- Without the notice a part of the archive is left.
breaks_off : (pack_model host packing no_link root bundle files).0 ≡ raise file_not_found
unfolding pack_model no_link ◌>>=◌ string_eq ℕ_discrete Dict.lookup Dict.insert
breaks_off = refl

shows_id :
    (perform host packing no_link repository bundle is_digit show_id "v1" files).0
    ≡ ok (some "manifest")
unfolding perform no_link string_eq ℕ_discrete Dict.lookup
shows_id = refl

pack_model-IsPacked_example :
    IsPacked host packing no_link repository bundle files
      (Dict.insert "model-manifest.tar.gz" "packed" files)
pack_model-IsPacked_example =
    pack_model-IsPacked host packing no_link repository bundle files
      (Dict.insert "model-manifest.tar.gz" "packed" files) packs
