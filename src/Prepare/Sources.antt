-- ===== src/Prepare/Sources.antt =====
-- `source_files` in tools/model-prep/prepare.py: four files of two repositories, pinned by digest.
use laya_rs.Base.{
  ℕ, ◌≡◌, refl, ap, ◌∙◌, subst, true, some, List, [], ◌∷◌, String, ◌<>◌, ◌==◌, string_eq, arith,
}
use laya_rs.Base.Dict
use laya_rs.Base.Dict.{Dict}
use laya_rs.Base.Raises
use laya_rs.Base.Raises.{Raises, ok, raise, require, >>=-eq-ok, require-eq-ok}
use laya_rs.Base.Action.{Action, pure, reading, ◌>>=◌, ◌>>◌, >>=-ok}
use laya_rs.Prepare.{Host, open_file, download, prep}

-- A row of `sources`, with its entry of SOURCE_HASHES.
pub record Source : Type 0 where
  pub name : String
  pub repository : String
  pub revision : String
  pub upstream : String
  pub hash : String

pub record SourceRecord : Type 0 where
  pub path : String
  pub url : String
  pub bytes : ℕ
  pub sha256 : String

abbrev pub official : String
official = "c5d78730f3493e4fe16d61507ef4b78eef7318cf"

abbrev pub exporter : String
exporter = "6478649e723122ca24bbf5fb69ed1010023c9750"

abbrev pub sources : List Source
sources =
    record {
      name = "rl_common.py";
      repository = "he-jev/laya";
      revision = official;
      upstream = "rl_common.py";
      hash = "8d83611d480c971d640a7b7d3aa2f2219c5e8455e9cc2329fd073681bd8be23e";
    }
    ∷ record {
      name = "official-README.md";
      repository = "he-jev/laya";
      revision = official;
      upstream = "README.md";
      hash = "575cb8fb4fd82465036a9d265c283fec9448b78067e6045afac8cfa113dde98f";
    }
    ∷ record {
      name = "export_onnx.py";
      repository = "receptron/laya";
      revision = exporter;
      upstream = "export/export_onnx.py";
      hash = "a4da86abfe118779f8f0d5ac25d6213844f405d8feb1d222338fc98170d56b4b";
    }
    ∷ record {
      name = "receptron-LICENSE";
      repository = "receptron/laya";
      revision = exporter;
      upstream = "LICENSE";
      hash = "c07ddef02172ce4162a2aae8ebddd5c2b84d8374da865c592afea5710e2acc0c";
    }
    ∷ []

abbrev pub source_url : Source → String
source_url s =
    "https://raw.githubusercontent.com/"
    <> (s.repository <> ("/" <> (s.revision <> ("/" <> s.upstream))))

abbrev pub source_path : Source → String
source_path s = prep <> ("source/" <> s.name)

module _ {B : Type 0} (host : Host B) where
  open host use {sha256, size}

  -- The check of a file that is there, and its record.
  unfoldable pub inspect_source : Source → Dict String B → Raises SourceRecord
  unfolding open_file
  inspect_source s files = Raises.◌>>=◌ (open_file (source_path s) files) (λ content.
      Raises.◌>>◌ (require (sha256 content == s.hash)) (
        ok (record {
          path = source_path s;
          url = source_url s;
          bytes = size content;
          sha256 = sha256 content;
        })))

  unfoldable pub source_file : Source → Action (Dict String B) SourceRecord
  unfolding download inspect_source
  source_file s = do download host (source_url s) (source_path s); reading (inspect_source s)

  unfoldable pub source_list : List Source → Action (Dict String B) (List SourceRecord)
  unfolding source_file
  source_list [] = pure []
  source_list (s ∷ rest) = do
    first ← source_file s
    records ← source_list rest
    pure (first ∷ records)

  unfoldable pub source_files : Action (Dict String B) (List SourceRecord)
  unfolding source_list
  source_files = source_list sources

  -- The file of a source is there with its pinned digest, and the record has its figures.
  pub record IsPinned (s : Source) (files : Dict String B) (r : SourceRecord) : Type 0 where
    pub content : B
    pub there : Dict.lookup (source_path s) files ≡ some content
    pub pinned : sha256 content ≡ s.hash
    pub paths : (r.path ≡ source_path s) × (r.url ≡ source_url s)
    pub figures : (r.bytes ≡ size content) × (r.sha256 ≡ s.hash)

  open_file-ok :
      (path : String) (files : Dict String B) (b : B)
      → open_file path files ≡ ok b
      → Dict.lookup path files ≡ some b
  unfolding open_file
  open_file-ok path files b h = ground arith

  record_inj : (a b : SourceRecord) → ◌≡◌ {A = Raises SourceRecord} (ok a) (ok b) → a ≡ b
  record_inj a b h = cc

  text_eq : (s t : String) → (s == t) ≡ true → s ≡ t
  text_eq s t h = ground arith

  inspect_source-IsPinned :
      (s : Source) (files : Dict String B) (r : SourceRecord)
      → inspect_source s files ≡ ok r
      → IsPinned s files r
  unfolding inspect_source
  inspect_source-IsPinned s files r h =
      let (content, e, h1) = >>=-eq-ok (open_file (source_path s) files) _ h in
      let (same, h2) = require-eq-ok (sha256 content == s.hash) _ h1 in
      let found = open_file-ok (source_path s) files content e in
      let hashed = text_eq _ _ same in
      subst (IsPinned s files) (record_inj _ _ h2) (record {
        content = content;
        there = found;
        pinned = hashed;
        paths = (refl, refl);
        figures = (refl, hashed);
      })

  -- When the loop's body returns a record for a source, the source's file is there with the digest that
  -- the tool pins for it, and the record has its path, its address, its size and that digest.
  pub source_file-IsPinned :
      (s : Source) (files : Dict String B) (r : SourceRecord)
      → (source_file s files).0 ≡ ok r
      → IsPinned s (source_file s files).1 r
  unfolding source_file
  source_file-IsPinned s files r h =
      let fetch = download host (source_url s) (source_path s) in
      let (u, e, q) = >>=-ok fetch (λ u. reading (inspect_source s)) files r h in
      subst (λ out. IsPinned s out.1 r) q
        (inspect_source-IsPinned s (fetch files).1 r (ap (λ out. out.0) q ∙ h))
