-- ===== src/Verify.antt =====
-- tools/model-prep/verify.py, with `load_reference` of tools/model-prep/export.py: the verification of the
-- exported bundle. The state is the files by path. ONNX, the runtime, the tokenizer and the tensors are
-- parameters.
pub mod Bundle
pub mod Opening
pub mod Cases
pub mod Main
pub mod Passed
pub mod Outcome
mod Tests
use laya_rs.Base.{ℕ, Bool, Option, List, String}
use laya_rs.Base.Dict.{Dict}
use laya_rs.Base.Raises.{Raises}
use laya_rs.Base.Json.{Json}
use laya_rs.Record as Record

-- An initializer: its data type, and the keys and values of its external data.
pub record Tensor : Type 0 where
  pub name : String
  pub data_type : ℕ
  pub external_data : List (String × String)

pub record Graph : Type 0 where
  pub ir_version : ℕ
  pub opset_import : List (String × ℕ)
  pub initializer : List Tensor

pub data Dimension : Type 0 where
  named : String → Dimension
  sized : ℕ → Dimension
  unknown : Dimension

-- An input or an output of a session.
pub record Port : Type 0 where
  pub name : String
  pub kind : String
  pub shape : List Dimension

pub record Session : Type 0 where
  pub providers : List String
  pub inputs : List Port
  pub outputs : List Port

-- The options of a question: with descriptions, or in an order.
pub data Criteria : Type 0 where
  described : List (String × Option String) → Criteria
  ordered : List String → Criteria

pub record Example : Type 0 where
  pub name : String
  pub state : String
  pub kind : String
  pub instructions : String
  pub criteria : Criteria

-- An item of a batch, as `collate_items` takes it. The entries `label`, `episode` and `ep_step`, which are
-- the same in every item, are left out.
pub record BatchItem : Type 0 where
  pub ids : List ℕ
  pub markers : List ℕ
  pub qtype : ℕ
  pub target : List ℕ
  pub name : String

-- Contents `B`, models `M`, tokenizers `T` and tensors `Q`.
pub record Tools (B M T Q : Type 0) : Type 0 where
  -- hashes, sizes, and the parser and the printer of JSON
  pub record_host : Record.Host B
  -- `onnx`
  pub load_graph : B → Raises Graph
  pub check_model : String → Dict String B → Raises (Unit {0})
  pub float16 : ℕ
  pub bfloat16 : ℕ
  pub double : ℕ
  pub type_name : ℕ → Raises String
  -- `onnxruntime.InferenceSession` on the CPU
  pub open_session : String → Dict String B → Raises Session
  -- the model of a configuration, with the weights of the checkpoint
  pub build_model : Json → Dict String B → Raises M
  pub load_tokenizer : Dict String B → Raises T
  pub build_sequence : T → Example → Json → Json → Raises (List ℕ × List ℕ)
  pub qtypes : String → Raises ℕ
  pub collate_items : List BatchItem → T → Raises (Dict String Q)
  pub minimum : T → Raises (Dict String Q)
  -- `compare(name, batch, model, runtime)`
  pub compare : String → Dict String Q → M → Session → Raises Json
  pub special_token : T → String → Raises Json
  pub version : String → Raises String
  pub platform : String
  pub python : String
