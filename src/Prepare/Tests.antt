-- ===== src/Prepare/Tests.antt =====
-- One entry of the hub, fetched and verified; contents are texts, and their own hashes.
use laya_rs.Base.{
  ◌≡◌, refl, some, List, false, [], ◌∷◌, String, ◌<>◌, ◌==◌, string_eq, ℕ_discrete, if◌then◌else◌,
}
use laya_rs.Base.Dict
use laya_rs.Base.Dict.{Dict}
use laya_rs.Base.Raises.{ok}
use laya_rs.Prepare.{Host, complete, Entry, Record, blob_id, checkpoint, is_safe, download}
use laya_rs.Prepare.Checkpoint.{checkpoint_file, checkpoint_entries, path_of, url_of}
use laya_rs.Prepare.Cache.{IsRead, download-keeps, download-IsRead}
use laya_rs.Prepare.Loop.{AllVerified, checkpoint_entries-AllVerified}
use laya_rs.Prepare.Sources.{
  Source, SourceRecord, sources, IsPinned, exporter, source_path, source_url, source_file,
  source_file-IsPinned,
}
use laya_rs.Prepare.Inputs.{
  license_hash, license_file, licenses, prepare_inputs, IsLicense, prepare_inputs-IsLicense,
}
use laya_rs.Prepare.Verified.{IsVerified, checkpoint_file-IsVerified}

abbrev entry : Entry
entry = record { rfilename = "tokenizer/vocabulary.txt"; size = 240; publisher = blob_id "words" }

abbrev host : Host String
host = record {
  fetch = λ url. complete "words";
  sha256 = λ b. b;
  sha1_blob = λ b. b;
  size = λ b. 240;
  parse = λ b. ok (checkpoint, entry ∷ []);
}

abbrev verified : Record
verified = record {
  path = path_of entry;
  url = url_of entry;
  bytes = 240;
  sha256 = "words";
  publisher = blob_id "words";
}

climbing : is_safe "a/../b" ≡ false
unfolding is_safe string_eq ℕ_discrete
climbing = refl

returns : (checkpoint_file host entry []).0 ≡ ok verified
unfolding checkpoint_file string_eq ℕ_discrete Dict.insert Dict.lookup
returns = refl

checkpoint_file-IsVerified_example :
    IsVerified host entry (checkpoint_file host entry []).1 verified
checkpoint_file-IsVerified_example = checkpoint_file-IsVerified host entry [] verified returns

abbrev files : Dict String String
files = ("a", "old") ∷ []

download-keeps_example :
    Dict.lookup "a" (download host "https://example.org/b" "b" files).1 ≡ Dict.lookup "a" files
unfolding string_eq Dict.lookup
download-keeps_example = download-keeps host "https://example.org/b" "b" "a" files refl refl

fetched : Dict.lookup "b" (download host "https://example.org/b" "b" files).1 ≡ some "words"
unfolding string_eq download Dict.lookup Dict.insert
fetched = refl

download-IsRead_example : IsRead host (host.fetch "https://example.org/b") "words"
unfolding string_eq Dict.lookup
download-IsRead_example =
    download-IsRead host "https://example.org/b" "b" files "words" refl fetched

abbrev second_entry : Entry
second_entry = record { rfilename = "README.md"; size = 240; publisher = blob_id "words" }

abbrev both : List Entry
both = entry ∷ second_entry ∷ []

abbrev both_verified : List Record
both_verified =
    verified
    ∷ record {
      path = path_of second_entry;
      url = url_of second_entry;
      bytes = 240;
      sha256 = "words";
      publisher = blob_id "words";
    }
    ∷ []

loop_returns : (checkpoint_entries host both []).0 ≡ ok both_verified
unfolding checkpoint_entries string_eq ℕ_discrete Dict.insert Dict.lookup
loop_returns = refl

checkpoint_entries-AllVerified_example :
    AllVerified host (checkpoint_entries host both []).1 both both_verified
unfolding string_eq
checkpoint_entries-AllVerified_example =
    checkpoint_entries-AllVerified host both [] both_verified ((refl, tt), (tt, tt)) loop_returns

abbrev license : Source
license = record {
  name = "receptron-LICENSE";
  repository = "receptron/laya";
  revision = exporter;
  upstream = "LICENSE";
  hash = "words";
}

abbrev license_record : SourceRecord
license_record = record {
  path = source_path license;
  url = source_url license;
  bytes = 240;
  sha256 = "words";
}

source_returns : (source_file host license []).0 ≡ ok license_record
unfolding source_file string_eq Dict.insert Dict.lookup
source_returns = refl

source_file-IsPinned_example : IsPinned host license (source_file host license []).1 license_record
source_file-IsPinned_example = source_file-IsPinned host license [] license_record source_returns

-- What the server holds for a source: its digest is itself.
abbrev held : List Source → String → String
held [] url = license_hash
held (s ∷ rest) url = if url == source_url s then s.hash else held rest url

abbrev readme : Entry
readme = record { rfilename = "README.md"; size = 240; publisher = blob_id license_hash }

abbrev full_host : Host String
full_host = record host {
  fetch = λ url. complete (held sources url);
  parse = λ b. ok (checkpoint, readme ∷ []);
}

abbrev notice : Dict String String
notice = ("tools/model-prep/NOTICE.md", "notice") ∷ []

abbrev dumps : List Record → List SourceRecord → String
dumps records found = "records"

all_prepared : (prepare_inputs full_host dumps notice).0 ≡ ok tt
unfolding prepare_inputs string_eq ℕ_discrete
all_prepared = refl

prepare_inputs-IsLicense_example :
    IsLicense full_host (prepare_inputs full_host dumps notice).1 license_file
    × IsLicense full_host (prepare_inputs full_host dumps notice).1 (licenses <> "Apache-2.0.txt")
prepare_inputs-IsLicense_example = prepare_inputs-IsLicense full_host dumps notice all_prepared
