-- ===== src/Bench/Record.antt =====
-- What `record_failure` leaves of the files that are there.
use laya_rs.Base.{
  ℕ, ◌≡◌, ◌≢◌, refl, sym, ap, ◌∙◌, Bool, false, Bool-cases, inl, inr, Option, none, some, List, [],
  ◌∷◌, String, arith, ◌==◌, string_eq, contains,
}
use laya_rs.Base.Dict
use laya_rs.Base.Dict.{Dict}
use laya_rs.Base.Raises.{Raises, Exception, ok, raise, type_error}
use laya_rs.Base.Action.{Action, pure, reading, ◌>>=◌}
use laya_rs.Bench.Summary.{Row, summarize}
use laya_rs.Bench.Station.{
  Content, Measured, rows, samples, boundaries, cold, state, environment, failure, protocol, log,
  summary, failed_summary, Station, write_json,
}
use laya_rs.Bench.Failure.{
  file_of, report_of, record_group, record_groups, record_failure, measured_of, total_completed,
}

other_path :
    (path new : String) (d c : Content) (files : Dict String Content)
    → Dict.lookup new files ≡ none
    → Dict.lookup path files ≡ some d
    → Dict.lookup path (Dict.insert new c files) ≡ some d
other_path path new d c files missing h = elim (Bool-cases (path == new)) [
  | inl same ↦
      let e : path ≡ new = ground arith in
      absurd (absent (sym missing ∙ ap (λ p. Dict.lookup p files) (sym e) ∙ h))
  | inr differ ↦ Dict.lookup-insert path new c files ∙ rw differ h
]
  where
    absent : {A : Type 0} {a : A} → none ≢ some a
    absent h = cc

module _ {W : Type 0} (unit : ℕ) where
  -- Every file of `s` is in `t` with the same content.
  abbrev Keeps : Station W → Station W → Type 0
  Keeps s t =
      (path : String) (c : Content)
      → Dict.lookup path s.files ≡ some c
      → Dict.lookup path t.files ≡ some c

  -- A write to a file that was not there.
  write-Keeps :
      (directory name : String) (c : Content) (s : Station W)
      → Dict.lookup (file_of directory name) s.files ≡ none
      → Keeps s (write_json directory name c s).1
  unfolding write_json
  write-Keeps directory name c s missing path d h =
      elim (Bool-cases (contains s.directories directory)) [
        | inr absent ↦ rw absent h
        | inl there ↦ rw there (other_path path (file_of directory name) d c s.files missing h)
      ]

  bind-Keeps :
      {A C : Type 0} (m : Action (Station W) A) (f : A → Action (Station W) C) (s : Station W)
      → Keeps s (m s).1
      → ((a : A) → Keeps (m s).1 (f a (m s).1).1)
      → Keeps s ((m >>= f) s).1
  bind-Keeps {A} {C} m f s first next path c h = go (m s) f (first path c h) (λ a. next a path c)
    where
      go :
          (p : Raises A × Station W) (f : A → Action (Station W) C)
          → Dict.lookup path p.1.files ≡ some c
          → ((a : A)
              → Dict.lookup path p.1.files ≡ some c
              → Dict.lookup path (f a p.1).1.files ≡ some c)
          → Dict.lookup path
              (elim p.0 as (λ x. Raises C × Station W) [
                | ok a ↦ f a p.1
                | raise e ↦ (raise e, p.1)
              ]).1.files
            ≡ some c
      go (ok a, t) f here next = next a here
      go (raise e, t) f here next = here

  report_of-Keeps :
      (directory : String) (o : Option Content) (found : List Row) (s : Station W)
      → Dict.lookup (file_of directory "summary.json") s.files ≡ o
      → Keeps s (report_of unit directory o found s).1
  unfolding report_of
  report_of-Keeps directory (some (summary report extra)) found s h = λ path c e. e
  report_of-Keeps directory (some (failed_summary report)) found s h = λ path c e. e
  report_of-Keeps directory (some (rows x)) found s h = λ path c e. e
  report_of-Keeps directory (some (samples x)) found s h = λ path c e. e
  report_of-Keeps directory (some (boundaries x y)) found s h = λ path c e. e
  report_of-Keeps directory (some (cold x y)) found s h = λ path c e. e
  report_of-Keeps directory (some (state x)) found s h = λ path c e. e
  report_of-Keeps directory (some (environment x)) found s h = λ path c e. e
  report_of-Keeps directory (some (protocol x y z v)) found s h = λ path c e. e
  report_of-Keeps directory (some (failure x y z)) found s h = λ path c e. e
  report_of-Keeps directory (some log) found s h = λ path c e. e
  report_of-Keeps directory none found s h =
      bind-Keeps (reading (λ w. summarize unit found))
        (λ report. write_json directory "summary.json" (failed_summary report) >>= λ _. pure report)
        s (λ path c e. e)
        (λ report.
          bind-Keeps (write_json directory "summary.json" (failed_summary report))
            (λ _. pure report) s (write-Keeps directory "summary.json" (failed_summary report) s h)
            (λ _ path c e. e))

  abbrev group_result :
      String
      → String
      → Dict String Measured
      → Station W
      → Option Content
      → Raises (Dict String Measured) × Station W
  group_result directory name reports s o = elim o [
    | some (rows found) ↦
        (report_of unit (file_of directory name)
              (Dict.lookup (file_of (file_of directory name) "summary.json") s.files) found
            >>= λ report. pure (Dict.insert name (measured_of report) reports))
          s
    | some other ↦ (raise type_error, s)
    | none ↦ (ok reports, s)
  ]

  group_result-Keeps :
      (directory name : String) (reports : Dict String Measured) (s : Station W)
      (o : Option Content)
      → Keeps s (group_result directory name reports s o).1
  group_result-Keeps directory name reports s none = λ path c e. e
  group_result-Keeps directory name reports s (some (rows found)) =
      let place = file_of directory name in
      let there = Dict.lookup (file_of place "summary.json") s.files in
      bind-Keeps (report_of unit place there found)
        (λ report. pure (Dict.insert name (measured_of report) reports)) s
        (report_of-Keeps place there found s refl) (λ report path c e. e)
  group_result-Keeps directory name reports s (some (samples x)) = λ path c e. e
  group_result-Keeps directory name reports s (some (boundaries x y)) = λ path c e. e
  group_result-Keeps directory name reports s (some (summary x y)) = λ path c e. e
  group_result-Keeps directory name reports s (some (failed_summary x)) = λ path c e. e
  group_result-Keeps directory name reports s (some (cold x y)) = λ path c e. e
  group_result-Keeps directory name reports s (some (state x)) = λ path c e. e
  group_result-Keeps directory name reports s (some (environment x)) = λ path c e. e
  group_result-Keeps directory name reports s (some (protocol x y z v)) = λ path c e. e
  group_result-Keeps directory name reports s (some (failure x y z)) = λ path c e. e
  group_result-Keeps directory name reports s (some log) = λ path c e. e

  record_group-Keeps :
      (directory name : String) (reports : Dict String Measured) (s : Station W)
      → Keeps s (record_group unit directory name reports s).1
  unfolding record_group
  record_group-Keeps directory name reports s =
      group_result-Keeps directory name reports s
        (Dict.lookup (file_of (file_of directory name) "requests.jsonl") s.files)

  record_groups-Keeps :
      (directory : String) (names : List String) (reports : Dict String Measured) (s : Station W)
      → Keeps s (record_groups unit directory names reports s).1
  unfolding record_groups
  record_groups-Keeps directory [] reports s = λ path c e. e
  record_groups-Keeps directory (name ∷ names) reports s =
      bind-Keeps (record_group unit directory name reports) (record_groups unit directory names) s
        (record_group-Keeps directory name reports s)
        (λ a. record_groups-Keeps directory names a (record_group unit directory name reports s).1)

  last_write :
      (directory name : String) (v : Content) (s : Station W) (path : String) (c : Content)
      → path ≢ file_of directory name
      → Dict.lookup path s.files ≡ some c
      → Dict.lookup path (write_json directory name v s).1.files ≡ some c
  unfolding write_json
  last_write directory name v s path c differ h =
      let different : ◌≡◌ {A = Bool} (path == file_of directory name) false = ground arith in
      elim (Bool-cases (contains s.directories directory)) [
        | inr absent ↦ rw absent h
        | inl there ↦
            rw there (Dict.lookup-insert path (file_of directory name) v s.files ∙ rw different h)
      ]

  -- Whatever `record_failure` returns or raises, each file that was there before, a report of a group
  -- above all, still has its content, unless it is the failure.json of the configuration.
  pub record_failure-keeps :
      (names : List String) (directory : String) (error : Exception) (s : Station W) (path : String)
      (c : Content)
      → path ≢ file_of directory "failure.json"
      → Dict.lookup path s.files ≡ some c
      → Dict.lookup path (record_failure unit names directory error s).1.files ≡ some c
  unfolding record_failure
  record_failure-keeps names directory error s path c differ h =
      go (record_groups unit directory names [] s)
        (record_groups-Keeps directory names [] s path c h)
    where
      go :
          (p : Raises (Dict String Measured) × Station W)
          → Dict.lookup path p.1.files ≡ some c
          → Dict.lookup path
              (elim p.0 as (λ x. Raises (Unit {0}) × Station W) [
                | ok reports ↦
                    write_json directory "failure.json"
                      (failure error reports (total_completed reports))
                      p.1
                | raise e ↦ (raise e, p.1)
              ]).1.files
            ≡ some c
      go (ok reports, t) e =
          last_write directory "failure.json" (failure error reports (total_completed reports)) t
            path c differ e
      go (raise x, t) e = e
