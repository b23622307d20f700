-- ===== src/Prepare.antt =====
-- tools/model-prep/prepare.py: the inputs of the model preparation, downloaded once and verified. The
-- state holds the files by path; directories are not kept. The network, the hashes and the parser of
-- the hub's metadata come from the host.
pub mod Checkpoint
pub mod Cache
pub mod Verified
pub mod Loop
pub mod Sources
pub mod Inputs
mod Tests
use laya_rs.Base.{
  ℕ, Bool, true, false, ◌&&◌, ◌||◌, not, Option, none, some, List, [], ◌∷◌, String, ◌<>◌, ◌==◌,
  string_eq, nat_eq, if◌then◌else◌, contains,
}
use Prim.Native.Char.{code}
use laya_rs.Base.Dict
use laya_rs.Base.Dict.{Dict}
use laya_rs.Base.Raises.{Raises, Exception, ok, raise, require, file_not_found, ◌>>=◌, ◌>>◌}
use laya_rs.Base.Action.{Action}

-- What a request leaves: nothing, the part that was read before an exception, the part that was read when
-- the connection was closed early, which the reads do not tell from the end, or the whole content.
pub data Response (B : Type 0) : Type 0 where
  refused : Exception → Response B
  broken : B → Exception → Response B
  cut_short : B → Response B
  complete : B → Response B

-- What the hub publishes of a file's content.
pub data Publisher : Type 0 where
  lfs : String → Publisher
  blob_id : String → Publisher

-- An entry of `siblings`.
pub record Entry : Type 0 where
  pub rfilename : String
  pub size : ℕ
  pub publisher : Publisher

pub record Record : Type 0 where
  pub path : String
  pub url : String
  pub bytes : ℕ
  pub sha256 : String
  pub publisher : Publisher

-- `sha1` is that of the blob's header and the content. `parse` gives the revision and the siblings.
pub record Host (B : Type 0) : Type 0 where
  pub fetch : String → Response B
  pub sha256 : B → String
  pub sha1_blob : B → String
  pub size : B → ℕ
  pub parse : B → Raises (String × List Entry)

abbrev pub checkpoint : String
checkpoint = "052592a15d198d9ad47da779604259b10b47b7aa"

abbrev pub hub : String
hub = "https://huggingface.co/convaiinnovations/laya-multilingual"

abbrev pub prep : String
prep = "models/multilingual/prep/"

abbrev pub part_of : String → String
part_of path = path <> ".part"

-- `Path(name).parts`, without the root: the texts between slashes
unfoldable pub parts : String → String → List String
parts seen String.[] = seen ∷ []
parts seen (String.◌∷◌ c s) =
    let rest = parts "" s in
    if code c == 47 then seen ∷ rest else parts (seen <> String.◌∷◌ c String.[]) s

unfoldable pub is_absolute : String → Bool
is_absolute String.[] = false
is_absolute (String.◌∷◌ c s) = code c == 47

unfoldable pub is_safe : String → Bool
unfolding parts is_absolute
is_safe name = not (is_absolute name) && not (contains (parts "" name) "..")

module _ {B : Type 0} where
  -- What `replace` leaves of the temporary name.
  unfoldable pub remove : String → Dict String B → Dict String B
  remove k [] = []
  remove k ((j, b) ∷ d) = let rest = remove k d in if k == j then rest else (j, b) ∷ rest

  unfoldable pub open_file : String → Dict String B → Raises B
  unfolding Dict.lookup
  open_file path files = elim (Dict.lookup path files) [
    | none ↦ raise file_not_found
    | some b ↦ ok b
  ]

module _ {B : Type 0} (host : Host B) where
  open host use {fetch, sha256, sha1_blob, size, parse}

  -- The answer goes to the temporary file, which is renamed when the reads have come to an end.
  unfoldable pub receive : Response B → String → Action (Dict String B) (Unit {0})
  unfolding remove Dict.insert
  receive (refused e) path files = (raise e, files)
  receive (broken part e) path files = (raise e, Dict.insert (part_of path) part files)
  receive (cut_short part) path files = (ok tt, Dict.insert path part (remove (part_of path) files))
  receive (complete b) path files = (ok tt, Dict.insert path b (remove (part_of path) files))

  unfoldable pub download : String → String → Action (Dict String B) (Unit {0})
  unfolding receive
  download url path files = elim (Dict.contains_key path files) [
    | true ↦ (ok tt, files)
    | false ↦ receive (fetch url) path files
  ]

  -- The digest that the hub publishes, against that of the content.
  unfoldable pub is_published : Publisher → B → Bool
  is_published (lfs sha) content = sha256 content == sha
  is_published (blob_id blob) content = sha1_blob content == blob

  -- The checks of a file that is there, and its record.
  unfoldable pub inspect : Entry → String → String → Dict String B → Raises Record
  unfolding open_file is_published
  inspect entry path url files = do
    content ← open_file path files
    require (size content == entry.size)
    require (is_published entry.publisher content)
    ok (record {
      path = path;
      url = url;
      bytes = size content;
      sha256 = sha256 content;
      publisher = entry.publisher;
    })

  -- The siblings that the hub's metadata names, for the pinned revision only.
  unfoldable pub siblings : String → Dict String B → Raises (List Entry)
  unfolding open_file
  siblings metadata files = do
    content ← open_file metadata files
    (sha, entries) ← parse content
    require (sha == checkpoint)
    ok entries
