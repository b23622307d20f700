-- ===== src/Prepare/Checkpoint.antt =====
-- `checkpoint_files` in tools/model-prep/prepare.py.
use laya_rs.Base.{List, [], ◌∷◌, String, ◌<>◌}
use laya_rs.Base.Dict.{Dict}
use laya_rs.Base.Raises.{require}
use laya_rs.Base.Action.{Action, pure, reading, ◌>>=◌, ◌>>◌}
use laya_rs.Prepare.{
  Host, Entry, Record, checkpoint, hub, prep, is_safe, download, inspect, siblings,
}

abbrev pub path_of : Entry → String
path_of entry = prep <> ("checkpoint/" <> entry.rfilename)

abbrev pub url_of : Entry → String
url_of entry = hub <> ("/resolve/" <> (checkpoint <> ("/" <> entry.rfilename)))

abbrev pub metadata_url : String
metadata_url =
    "https://huggingface.co/api/models/convaiinnovations/laya-multilingual/revision/"
    <> (checkpoint <> "?blobs=true")

module _ {B : Type 0} (host : Host B) where
  -- The body of the loop over the siblings.
  unfoldable pub checkpoint_file : Entry → Action (Dict String B) Record
  unfolding is_safe download inspect
  checkpoint_file entry = do
    reading (λ files. require (is_safe entry.rfilename))
    download host (url_of entry) (path_of entry)
    reading (inspect host entry (path_of entry) (url_of entry))

  unfoldable pub checkpoint_entries : List Entry → Action (Dict String B) (List Record)
  unfolding checkpoint_file
  checkpoint_entries [] = pure []
  checkpoint_entries (entry ∷ entries) = do
    first ← checkpoint_file entry
    records ← checkpoint_entries entries
    pure (first ∷ records)

  unfoldable pub checkpoint_files : Action (Dict String B) (List Record)
  unfolding checkpoint_entries download siblings
  checkpoint_files = do
    download host metadata_url (prep <> "hub-metadata.json")
    entries ← reading (siblings host (prep <> "hub-metadata.json"))
    checkpoint_entries entries
