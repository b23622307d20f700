-- ===== src/Verify/Passed.antt =====
-- What it means that `verify` of tools/model-prep/verify.py returns, and what it leaves if not.
use laya_rs.Base.{
  ℕ, ◌≡◌, refl, sym, ap, ◌∙◌, subst, subst₂, Bool, true, false, not, ◌&&◌, ◌⊎◌, inl, inr,
  Bool-cases, Option, none, some, List, [], ◌∷◌, ◌++◌, String, ◌<>◌, ◌==◌, ==_sound, string_eq,
  nat_eq, arith, All, all, contains, if◌then◌else◌,
}
use laya_rs.Base.Dict.{Dict}
use laya_rs.Base.Json.{Json, Fields, object, text, get, json_eq}
use laya_rs.Base.Raises.{Raises, ok, raise, value_error, is_required}
use laya_rs.Base.Checked.{
  >>=-returns, require-returns, for_each-All, Collected, collect_each-Collected,
}
use laya_rs.Prepare.{prep}
use laya_rs.Record.{bundle_root, digest_of, load_json}
use laya_rs.Release.{read}
use laya_rs.Verify.{Tools, Tensor, Graph, Session, BatchItem}
use laya_rs.Verify.Bundle.{
  required_files, is_present, require_file, require_bundle, is_allowed, is_external, scan,
  inspect_graph, GraphReport,
}
use laya_rs.Verify.Opening.{
  check_session, session, source_hash, weights_hash, require_digest, load_reference,
}
use laya_rs.Verify.Cases.{case_groups}
use laya_rs.Verify.Main.{
  tokenizer_files, check_lengths, check_config, check_tokenizer, compare_group, compare_all,
  digests_of, report_of, examine,
}

All-map :
    {A : Type 0} {P Q : A → Type 0} → ((a : A) → P a → Q a) → (xs : List A) → All P xs → All Q xs
All-map f [] h = tt
All-map f (x ∷ xs) (h, hs) = (f x h, All-map f xs hs)

module _ {B M T Q : Type 0} (tools : Tools B M T Q) where
  open tools use {
    record_host, load_graph, check_model, open_session, load_tokenizer, minimum, compare,
  }

  require_file-present :
      (files : Dict String B) (name : String)
      → require_file tools files name ≡ ok tt
      → is_present tools files name ≡ true
  unfolding require_file
  require_file-present files name h = only (is_present tools files name) h
    where
      only :
          (b : Bool)
          → ◌≡◌ {A = Raises (Unit {0})}
              (if b then ok tt else raise (value_error ("Missing or empty bundle file: " <> name)))
              (ok tt)
          → b ≡ true
      only true h = refl
      only false h = cc

  scan-allowed :
      (tensors : List Tensor) (seen : List String) (external : List String)
      → scan tools tensors seen ≡ ok external
      → All (λ t. is_allowed tools t ≡ true) tensors
  unfolding scan
  scan-allowed [] seen external h = tt
  scan-allowed (t ∷ tensors) seen external h =
      require-returns (is_allowed tools t) _ h
        (λ allowed rest. (allowed, scan-allowed tensors _ external rest))

  -- The graph of the bundle: the checker accepts it, no initializer has a type that is not allowed, and
  -- all external data is in the one file beside it.
  pub record IsInspected (files : Dict String B) : Type 0 where
    pub content : B
    pub graph : Graph
    pub external : List String
    pub content_eq : read (bundle_root <> "laya.onnx") files ≡ ok content
    pub graph_eq : load_graph content ≡ ok graph
    pub checked : check_model (bundle_root <> "laya.onnx") files ≡ ok tt
    pub allowed : All (λ t. is_allowed tools t ≡ true) graph.initializer
    pub external_eq : scan tools graph.initializer [] ≡ ok external
    pub one_file : is_external external ≡ true

  inspect_graph-IsInspected :
      (files : Dict String B) (report : GraphReport)
      → inspect_graph tools files ≡ ok report
      → IsInspected files
  unfolding inspect_graph
  inspect_graph-IsInspected files report h = >>=-returns _ _ h (λ content found h1.
      >>=-returns _ _ h1 (λ graph loaded h2. >>=-returns _ _ h2 (λ _ checked h3.
        >>=-returns _ _ h3 (λ external scanned h4. require-returns _ _ h4 (λ one_file rest. record {
          content = content;
          graph = graph;
          external = external;
          content_eq = found;
          graph_eq = loaded;
          checked = checked;
          allowed = scan-allowed graph.initializer [] external scanned;
          external_eq = scanned;
          one_file = one_file;
        })))))

  session-opened :
      (files : Dict String B) (runtime : Session)
      → session tools files ≡ ok runtime
      → (open_session (bundle_root <> "laya.onnx") files ≡ ok runtime)
        × (check_session runtime ≡ ok tt)
  unfolding session
  session-opened files runtime h = >>=-returns _ _ h (λ found opened h1.
      >>=-returns _ _ h1 (λ _ checked last.
        let same : found ≡ runtime = cc in
        subst
          (λ s.
            (open_session (bundle_root <> "laya.onnx") files ≡ ok s) × (check_session s ≡ ok tt))
          same (opened, checked)))

  require_digest-found :
      (path hash : String) (files : Dict String B)
      → require_digest tools path hash files ≡ ok tt
      → digest_of record_host path files ≡ ok hash
  unfolding require_digest
  require_digest-found path hash files h =
      >>=-returns _ _ h
        (λ found read same. read ∙ ap ok (==_sound found hash (is_required (found == hash) same)))

  -- The reference model is that of the pinned source and weights.
  pub record IsReference (files : Dict String B) (model : M) (config : Json) : Type 0 where
    pub source_eq : digest_of record_host (prep <> "source/rl_common.py") files ≡ ok source_hash
    pub weights_eq :
        digest_of record_host (prep <> "checkpoint/model.safetensors") files ≡ ok weights_hash
    pub config_eq :
        load_json record_host (prep <> "checkpoint/rl_agent_config.json") files ≡ ok config
    pub model_eq : tools.build_model config files ≡ ok model

  load_reference-IsReference :
      (files : Dict String B) (reference : M × Json)
      → load_reference tools files ≡ ok reference
      → IsReference files reference.0 reference.1
  unfolding load_reference
  load_reference-IsReference files reference h = >>=-returns _ _ h (λ _ source h1.
      >>=-returns _ _ h1 (λ _ weights h2. >>=-returns _ _ h2 (λ config loaded h3.
        >>=-returns _ _ h3 (λ model built last.
          let same : ◌≡◌ {A = M × Json} (model, config) reference = cc in
          subst (λ (r : M × Json). IsReference files r.0 r.1) same
            (record {
              source_eq = require_digest-found _ _ files source;
              weights_eq = require_digest-found _ _ files weights;
              config_eq = loaded;
              model_eq = built;
            })))))

  tokenizer-same :
      (files : Dict String B) (name : String)
      → check_tokenizer tools files name ≡ ok tt
      → digest_of record_host (bundle_root <> ("tokenizer/" <> name)) files
        ≡ digest_of record_host (prep <> ("checkpoint/tokenizer/" <> name)) files
  unfolding check_tokenizer
  tokenizer-same files name h = >>=-returns _ _ h (λ exported read h1.
      >>=-returns _ _ h1 (λ official read' last.
        read
        ∙ ap ok (==_sound exported official (is_required (exported == official) last))
        ∙ sym read'))

  -- Every group of the cases was compared, and so was the shortest batch.
  pub record IsCompared (tok : T) (config : Json) (model : M) (runtime : Session)
      (records : List Json) : Type 0 where
    pub groups : List (String × List BatchItem)
    pub results : List Json
    pub batch : Dict String Q
    pub last : Json
    pub groups_eq : case_groups tools tok config ≡ ok groups
    pub compared : Collected (compare_group tools tok model runtime) groups results
    pub batch_eq : minimum tok ≡ ok batch
    pub last_eq : compare "tensor-L2" batch model runtime ≡ ok last
    pub records_eq : results ++ (last ∷ []) ≡ records

  compare_all-IsCompared :
      (tok : T) (config : Json) (model : M) (runtime : Session) (records : List Json)
      → compare_all tools tok config model runtime ≡ ok records
      → IsCompared tok config model runtime records
  unfolding compare_all
  compare_all-IsCompared tok config model runtime records h = >>=-returns _ _ h (λ groups made h1.
      >>=-returns _ _ h1 (λ results collected h2. >>=-returns _ _ h2 (λ batch smallest h3.
        >>=-returns _ _ h3 (λ last compared final. record {
          groups = groups;
          results = results;
          batch = batch;
          last = last;
          groups_eq = made;
          compared = collect_each-Collected _ groups results collected;
          batch_eq = smallest;
          last_eq = compared;
          records_eq = cc;
        }))))

  -- The report says that the run has passed, and has the digests of the bundle's files.
  pub record IsReport (files : Dict String B) (report : Json) : Type 0 where
    pub digests : Fields
    pub status_eq : get "status" report ≡ ok (text "passed")
    pub files_eq : get "files" report ≡ ok (object digests)
    pub digests_eq : digests_of tools required_files files ≡ ok digests

  report_of-IsReport :
      (tok : T) (graph : GraphReport) (runtime : Session) (records : List Json)
      (files : Dict String B) (report : Json)
      → report_of tools tok graph runtime records files ≡ ok report
      → IsReport files report
  unfolding report_of get laya_rs.Base.Json.find string_eq
  report_of-IsReport tok graph runtime records files report h = >>=-returns _ _ h (λ versions v h1.
      >>=-returns _ _ h1 (λ tokens t h2. >>=-returns _ _ h2 (λ digests d last.
        let same : _ ≡ report = raised_eq last in
        subst (IsReport files) same
          (record { digests = digests; status_eq = refl; files_eq = refl; digests_eq = d }))))
    where
      raised_eq : {a b : Json} → ◌≡◌ {A = Raises Json} (ok a) (ok b) → a ≡ b
      raised_eq h = cc

  -- What `verify` has seen of the files, when it writes the report.
  pub record IsVerified (files : Dict String B) (report : Json) : Type 0 where
    pub runtime : Session
    pub model : M
    pub config : Json
    pub tok : T
    pub records : List Json
    pub present : All (λ name. is_present tools files name ≡ true) required_files
    pub inspected : IsInspected files
    pub opened : open_session (bundle_root <> "laya.onnx") files ≡ ok runtime
    pub session_eq : check_session runtime ≡ ok tt
    pub reference : IsReference files model config
    pub lengths_eq : check_lengths tools config ≡ ok tt
    pub config_eq : check_config tools config files ≡ ok tt
    pub tokenizers :
        All
          (λ name.
            digest_of record_host (bundle_root <> ("tokenizer/" <> name)) files
            ≡ digest_of record_host (prep <> ("checkpoint/tokenizer/" <> name)) files)
          tokenizer_files
    pub tok_eq : load_tokenizer files ≡ ok tok
    pub compared : IsCompared tok config model runtime records
    pub reported : IsReport files report

  pub examine-IsVerified :
      (files : Dict String B) (report : Json)
      → examine tools files ≡ ok report
      → IsVerified files report
  unfolding examine require_bundle
  examine-IsVerified files report h = >>=-returns _ _ h (λ _ required h1.
      >>=-returns _ _ h1 (λ graph inspected h2. >>=-returns _ _ h2 (λ runtime opened h3.
        >>=-returns _ _ h3 (λ reference loaded h4. >>=-returns _ _ h4 (λ _ lengths h5.
          >>=-returns _ _ h5 (λ _ configured h6. >>=-returns _ _ h6 (λ _ tokenizers h7.
            >>=-returns _ _ h7 (λ tok tok_eq h8. >>=-returns _ _ h8 (λ records compared last.
              let (session_ok, checked) = session-opened files runtime opened in
              record {
                runtime = runtime;
                model = reference.0;
                config = reference.1;
                tok = tok;
                records = records;
                present =
                    All-map (require_file-present files) required_files
                      (for_each-All (require_file tools files) required_files required);
                inspected = inspect_graph-IsInspected files graph inspected;
                opened = session_ok;
                session_eq = checked;
                reference = load_reference-IsReference files reference loaded;
                lengths_eq = lengths;
                config_eq = configured;
                tokenizers =
                    All-map (tokenizer-same files) tokenizer_files
                      (for_each-All (check_tokenizer tools files) tokenizer_files tokenizers);
                tok_eq = tok_eq;
                compared =
                    compare_all-IsCompared tok reference.1 reference.0 runtime records compared;
                reported = report_of-IsReport tok graph runtime records files report last;
              })))))))))
