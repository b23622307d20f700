-- ===== src/Verify/Tests.antt =====
-- A run of the verification on a small bundle.
use laya_rs.Base.{
  ℕ, ◌≡◌, refl, ap, Bool, true, false, Option, none, some, List, [], ◌∷◌, ◌++◌, String, ◌<>◌, ◌==◌,
  string_eq, nat_eq, replicate, if◌then◌else◌,
}
use laya_rs.Base.Int.{pos, int_eq}
use laya_rs.Base.Dict.{Dict}
use laya_rs.Base.Json.{Json, Fields, end, field, object, text, number, finite}
use laya_rs.Base.Raises.{Raises, ok, raise, file_not_found, value_error}
use laya_rs.Base.Checked.{◌>>=◌, for_each, collect_each}
use laya_rs.Record as Record
use laya_rs.Record.{bundle_root, accept}
use laya_rs.Prepare.{prep, remove}
use laya_rs.Verify.{Graph, named, sized, Port, Session, Tools}
use laya_rs.Verify.Opening.{source_hash, weights_hash}
use laya_rs.Verify.Main.{validation_path, verify}
use laya_rs.Verify.Passed.{IsVerified}
use laya_rs.Verify.Outcome.{IsOutcome, cleared, verify-IsOutcome, verify-accept}

-- A file is bytes that are their own digest, or a printed value.
data Content : Type 0 where
  plain : String → Content
  printed : Json → Content

abbrev loads : Content → Raises Json
loads (plain s) = raise (value_error "no value")
loads (printed j) = ok j

abbrev sha256 : Content → String
sha256 (plain s) = s
sha256 (printed j) = "printed"

abbrev record_host : Record.Host Content
record_host = record {
  release = record {
    sha256 = sha256;
    size = λ b. 1;
    encode = plain;
    tar_member = λ name b. raise file_not_found;
    zip_member = λ name b. raise file_not_found;
  };
  loads = loads;
  dumps = printed;
  unit = 1;
  iterdir = λ path files. [];
  scripts = λ files. [];
}

abbrev graph : Graph
graph = record {
  ir_version = 8;
  opset_import = ("", 17) ∷ [];
  initializer =
      record {
        name = "w";
        data_type = 1;
        external_data = ("location", "laya.onnx.data") ∷ ("offset", "0") ∷ [];
      }
      ∷ [];
}

abbrev port : String → String → ℕ → Port
port name kind rank = record { name = name; kind = kind; shape = replicate rank (named "n") }

abbrev runtime : Session
runtime = record {
  providers = "CPUExecutionProvider" ∷ [];
  inputs =
      port "input_ids" "tensor(int64)" 2
      ∷ port "attention_mask" "tensor(int64)" 2
      ∷ port "marker_pos" "tensor(int64)" 2
      ∷ port "marker_mask" "tensor(bool)" 2
      ∷ port "qtype" "tensor(int64)" 1
      ∷ [];
  outputs =
      port "logits" "tensor(float)" 2
      ∷ record { name = "act_probs"; kind = "tensor(float)"; shape = named "n" ∷ sized 2 ∷ [] }
      ∷ [];
}

abbrev batch : Dict String ℕ
batch =
    ("input_ids", 1)
    ∷ ("attention_mask", 2)
    ∷ ("marker_pos", 3)
    ∷ ("marker_mask", 4)
    ∷ ("qtype", 5)
    ∷ []

abbrev tools : Tools Content (Unit {0}) (Unit {0}) ℕ
tools = record {
  record_host = record_host;
  load_graph = λ b. ok graph;
  check_model = λ path files. ok tt;
  float16 = 10;
  bfloat16 = 16;
  double = 11;
  type_name = λ n. ok "FLOAT";
  open_session = λ path files. ok runtime;
  build_model = λ config files. ok tt;
  load_tokenizer = λ files. ok tt;
  build_sequence = λ tok example max_len head_max_len. ok (1 ∷ 2 ∷ 3 ∷ [], 1 ∷ 2 ∷ []);
  qtypes = λ kind. ok 0;
  collate_items = λ items tok. ok batch;
  minimum = λ tok. ok batch;
  compare = λ name b model session. ok (text name);
  special_token = λ tok name. ok (number (finite (pos 1)));
  version = λ name. ok "1.0";
  platform = "linux";
  python = "3.14";
}

abbrev config : Json
config = object (
    field "max_len" (number (finite (pos 1024))) (
      field "head_max_len" (number (finite (pos 256))) (
        field "temperature" (number (finite (pos 1)))
          (field "temperature_by_options" (object end) end))))

abbrev files : Dict String Content
files =
    (validation_path, plain "old")
    ∷ (bundle_root <> "laya.onnx", plain "graph")
    ∷ (bundle_root <> "laya.onnx.data", plain "weights")
    ∷ (bundle_root <> "laya_config.json", printed config)
    ∷ (bundle_root <> "tokenizer/tokenizer.json", plain "a")
    ∷ (bundle_root <> "tokenizer/tokenizer_config.json", plain "b")
    ∷ (prep <> "source/rl_common.py", plain source_hash)
    ∷ (prep <> "checkpoint/model.safetensors", plain weights_hash)
    ∷ (prep <> "checkpoint/rl_agent_config.json", printed config)
    ∷ (prep <> "checkpoint/tokenizer/tokenizer.json", plain "a")
    ∷ (prep <> "checkpoint/tokenizer/tokenizer_config.json", plain "b")
    ∷ []

verifies : (verify tools files).0 ≡ ok tt
unfolding verify ◌>>=◌ for_each collect_each string_eq int_eq laya_rs.Base.ℕ_discrete
    laya_rs.Base.Text.decimal
verifies = refl

-- Without the weights, nothing is left of the old validation.
abbrev broken : Dict String Content
broken = remove (bundle_root <> "laya.onnx.data") files

breaks :
    (verify tools broken).0 ≡ raise (value_error "Missing or empty bundle file: laya.onnx.data")
unfolding verify remove ◌>>=◌ for_each string_eq int_eq laya_rs.Base.ℕ_discrete
breaks = refl

verify-IsOutcome_example : IsOutcome tools files
verify-IsOutcome_example = verify-IsOutcome tools files

verify-accept_example :
    (report : Json) × (digests : Fields) × IsVerified tools (cleared tools files) report
    × (accept record_host (verify tools files).1 ≡ ok (report, digests))
verify-accept_example =
    verify-accept tools (λ j. refl) files (verify tools files).1
      (ap (λ r. (r, (verify tools files).1)) verifies)
