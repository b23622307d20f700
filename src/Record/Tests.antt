-- ===== src/Record/Tests.antt =====
-- A small bundle. A content is a text, and its digest is the text itself.
use laya_rs.Base.{◌≡◌, refl, false, [], ◌∷◌, String, ◌==◌, string_eq, if◌then◌else◌}
use laya_rs.Base.Int.{pos}
use laya_rs.Base.Dict
use laya_rs.Base.Dict.{Dict}
use laya_rs.Base.Raises.{ok}
use laya_rs.Base.Json.{
  Json, Fields, null, number, text, array, object, nil, item, end, field, finite,
}
use laya_rs.Record.{Host, log_names, accept, copy_logs, record_bundle}
use laya_rs.Record.Provenance.{IsRecorded, record_bundle-IsRecorded}

abbrev validated : Fields
validated = field "laya.onnx" (text "graph") end

abbrev validation : Json
validation = object (
    field "status" (text "passed") (
      field "files" (object validated) (
        field "versions" null (
          field "python" null (
            field "graph" null (
              field "session" null (
                field "special_tokens" null (
                  field "providers" null (
                    field "cases"
                      (array (
                        item
                          (object (
                            field "max_logit_error" (number (finite (pos 2)))
                              (field "max_act_error" (number (finite (pos 1))) end)))
                          nil))
                      end)))))))))

abbrev host : Host String
host = record {
  release = record {
    sha256 = λ b. b;
    size = λ b. 5;
    encode = λ s. s;
    tar_member = λ name b. ok b;
    zip_member = λ name b. ok b;
  };
  loads = λ b. if b == "validation" then ok validation else ok null;
  dumps = λ j. "manifest";
  unit = 100;
  iterdir = λ path files. [];
  scripts = λ files. [];
}

abbrev files : Dict String String
files =
    ("models/multilingual/prep/validation.json", "validation")
    ∷ ("models/multilingual/prep/prepare.log", "log")
    ∷ ("models/multilingual/prep/export.log", "log")
    ∷ ("models/multilingual/prep/verify.log", "log")
    ∷ ("models/multilingual/prep/environment.log", "log")
    ∷ ("models/multilingual/prep/inputs.json", "inputs")
    ∷ ("models/multilingual/laya_config.json", "config")
    ∷ ("models/multilingual/laya.onnx", "graph")
    ∷ []

-- The directory that is packed.
abbrev packed : Dict String String
packed = ("laya.onnx", "graph") ∷ []

accepted : accept host files ≡ ok (validation, validated)
unfolding accept string_eq
accepted = refl

records : (record_bundle host files).0 ≡ ok tt
unfolding record_bundle string_eq
records = refl

record_bundle-IsRecorded_example :
    IsRecorded host files
      (copy_logs host log_names files).1
      (record_bundle host files).1
      validated
      (λ p. false)
      packed
unfolding record_bundle laya_rs.Record.Provenance.IsShipped string_eq Dict.lookup
record_bundle-IsRecorded_example =
    record_bundle-IsRecorded host files validation validated accepted records (λ p. false) packed
      ((refl, refl), tt)
