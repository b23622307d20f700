-- ===== src/Bench/Failure.antt =====
-- `record_failure` and `run` in docs/validation/benchmark.py.
use laya_rs.Base.{ℕ, ◌+◌, Option, none, some, List, [], ◌∷◌, String, ◌<>◌, string_eq}
use laya_rs.Base.Dict
use laya_rs.Base.Dict.{Dict}
use laya_rs.Base.Raises.{Exception, ok, raise, type_error}
use laya_rs.Base.Action.{Action, pure, reading, ◌>>=◌, ◌>>◌}
use laya_rs.Bench.Summary.{Row, Report, summarize}
use laya_rs.Bench.Station.{
  Measured, Content, rows, summary, failed_summary, failure, Station, write_json,
}

abbrev pub file_of : String → String → String
file_of directory name = directory <> ("/" <> name)

abbrev pub measured_of : Report → Measured
measured_of r = record { attempts = r.attempts; completed = r.completed }

-- `sum(r['completed'] for r in reports.values())`
unfoldable pub total_completed : Dict String Measured → ℕ
total_completed [] = 0
total_completed ((k, m) ∷ reports) = m.completed + total_completed reports

module _ {W : Type 0} (unit : ℕ) where
  -- The report of a group: the one that is there, or one that is made of the rows and kept.
  unfoldable pub report_of : String → Option Content → List Row → Action (Station W) Report
  unfolding summarize write_json
  report_of directory (some (summary report extra)) found = pure report
  report_of directory (some (failed_summary report)) found = pure report
  report_of directory (some other) found = reading (λ w. raise type_error)
  report_of directory none found = do
    report ← reading (λ w. summarize unit found)
    write_json directory "summary.json" (failed_summary report)
    pure report

  -- A round of the loop, for the group in `directory / name`. A group without requests.jsonl is none of
  -- the paths that `glob` gives.
  unfoldable pub record_group :
      String → String → Dict String Measured → Action (Station W) (Dict String Measured)
  unfolding report_of Dict.lookup Dict.insert
  record_group directory name reports s =
      elim (Dict.lookup (file_of (file_of directory name) "requests.jsonl") s.files) [
        | some (rows found) ↦
            (report_of (file_of directory name)
                  (Dict.lookup (file_of (file_of directory name) "summary.json") s.files) found
                >>= λ report. pure (Dict.insert name (measured_of report) reports))
              s
        | some other ↦ (raise type_error, s)
        | none ↦ (ok reports, s)
      ]

  unfoldable pub record_groups :
      String → List String → Dict String Measured → Action (Station W) (Dict String Measured)
  unfolding record_group
  record_groups directory [] reports = pure reports
  record_groups directory (name ∷ names) reports =
      record_group directory name reports >>= record_groups directory names

  -- `names` are the directories `c*` in the order that `glob` gives them.
  unfoldable pub record_failure : List String → String → Exception → Action (Station W) (Unit {0})
  unfolding record_groups write_json total_completed
  record_failure names directory error = record_groups directory names [] >>= λ reports.
      write_json directory "failure.json" (failure error reports (total_completed reports))
