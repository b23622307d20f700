-- ===== src/Deploy/Tests.antt =====
-- A run of the whole acceptance on a host that gives prepared answers in turn.
use laya_rs.Base.{
  ℕ, ◌≡◌, refl, ap, subst, Bool, true, false, Option, none, some, List, [], ◌∷◌, ◌++◌, String, ◌<>◌,
  string_eq,
}
use laya_rs.Base.Int.{ℤ, pos, int_eq}
use laya_rs.Base.Raises.{ok, raise, file_not_found}
use laya_rs.Base.Action.{Action}
use laya_rs.Base.Steps.{has_run, ◌>>=◌, pure, demand, each, finally, reading, map_each}
use laya_rs.Base.Dict.{Dict, lookup}
use laya_rs.Deploy.{Host, Result}
use laya_rs.Deploy.Fields.{parse_fields, print_fields}
use laya_rs.Deploy.Candidate.{version_of, make_candidate}
use laya_rs.Deploy.Instance.{Deploying}
use laya_rs.Deploy.Demands.{restored, pid_line}
use laya_rs.Deploy.Main.{Args, main}
use laya_rs.Deploy.Accepted.{IsDeployed, main-IsDeployed, IsClosed, prepared, main-IsClosed}
use laya_rs.Deploy.Printing.{is_line, is_key, Distinct, parse_fields-print}
use laya_rs.Deploy.Parsed.{IsWritable}
use laya_rs.Deploy.Announced.{IsHexadecimal, IsCandidate, make_candidate-IsCandidate}

-- What is still to come: texts of files, whether files are there, exit codes, and ended commands.
record Script : Type 0 where
  texts : List String
  flags : List Bool
  codes : List ℤ
  results : List Result

abbrev nothing : Action Script (Unit {0})
nothing s = (ok tt, s)

abbrev next_text : Action Script String
next_text s = elim s.texts [
  | [] ↦ (raise file_not_found, s)
  | t ∷ texts ↦ (ok t, record s { texts = texts })
]

abbrev next_flag : Action Script Bool
next_flag s = elim s.flags [ [] ↦ (ok false, s) | b ∷ flags ↦ (ok b, record s { flags = flags }) ]

abbrev next_exit : Action Script ℤ
next_exit s = elim s.codes [ [] ↦ (ok (pos 0), s) | c ∷ codes ↦ (ok c, record s { codes = codes }) ]

abbrev ended : ℕ → String → Result
ended code stderr = record { returncode = pos code; stdout = ""; stderr = stderr }

abbrev next_result : Action Script Result
next_result s = elim s.results [
  | [] ↦ (ok (ended 0 ""), s)
  | r ∷ results ↦ (ok r, record s { results = results })
]

abbrev host : Host Script
host = record {
  read_text = λ path. next_text;
  read_bytes = λ path s. (ok (1 ∷ 2 ∷ []), s);
  write_text = λ path text. nothing;
  write_bytes = λ path bytes. nothing;
  append_bytes = λ path bytes. nothing;
  exists = λ path. next_flag;
  mkdir = λ path. nothing;
  unlink = λ path. nothing;
  file_digest = λ path s. (ok "ab12", s);
  byte_size = λ path s. (ok 34, s);
  mtime_ns = λ path s. (ok (pos 99), s);
  resolve = λ path s. (ok path, s);
  files_below = λ path s. (ok (("VERSION" ∷ []) ∷ ("lib" ∷ "a" ∷ []) ∷ []), s);
  temporary_directory = λ prefix s. (ok "/tmp/c", s);
  remove_directory = λ path. nothing;
  extract = λ archive path. nothing;
  pack = λ archive members. nothing;
  run = λ args input timeout. next_result;
  start_process = λ args log s. (ok 7, s);
  poll_process = λ process s. (ok none, s);
  wait_process = λ process timeout. next_exit;
  terminate = λ process. nothing;
  open_socket = λ s. (ok 3, s);
  listen = λ socket address port. nothing;
  close_socket = λ socket. nothing;
  process_id = λ s. (ok 1, s);
  clock = λ s. (0, s);
  sleep = λ d s. s;
  root = "/laya";
}

abbrev settings : String → String → String
settings version program =
    "VERSION="
    <> (version
        <> ("\nPROGRAM="
            <> (program
                <> "\nMODEL=/m\nMODEL_ID=i\nLISTEN=l\nTHREADS=1\nINTER=1\nSLOTS=1\nGRACE=2\n")))

abbrev old_settings : String
old_settings = settings "v0.1.2" "/p0"

abbrev release_env : String
release_env = "VERSION=v0.1.2\nMODEL_ID=i\n"

abbrev new_settings : String
new_settings = settings (version_of "version") "/p1"

-- The texts that are read for one candidate.
abbrev round_texts : String → String → String → List String
round_texts before marker after = release_env ∷ before ∷ marker ∷ after ∷ "Validated.\n" ∷ []

abbrev all_texts : List String
all_texts =
    old_settings
    ∷ "... Validated."
    ∷ pid_line "5"
    ∷ pid_line "5"
    ∷ pid_line "5"
    ∷ release_env
    ∷ pid_line "5"
    ∷ (round_texts old_settings "Validated." new_settings
        ++ (round_texts new_settings restored new_settings
            ++ (round_texts new_settings restored new_settings
                ++ (round_texts new_settings restored new_settings
                    ++ (pid_line "5" ∷ pid_line "6" ∷ restored ∷ [])))))

abbrev script : Script
script = record {
  texts = all_texts;
  flags = false ∷ false ∷ true ∷ false ∷ true ∷ true ∷ false ∷ [];
  codes = pos 143 ∷ pos 0 ∷ pos 1 ∷ pos 1 ∷ pos 1 ∷ pos 143 ∷ [];
  results =
      ended 0 ""
      ∷ ended 1 ""
      ∷ ended 1 ""
      ∷ ended 1 "ownership cannot be confirmed"
      ∷ ended 1 ""
      ∷ ended 0 ""
      ∷ ended 0 ""
      ∷ ended 0 ""
      ∷ ended 0 ""
      ∷ ended 0 ""
      ∷ ended 1 "Operation lock held"
      ∷ ended 1 ""
      ∷ [];
}

abbrev args : Args
args = record { release_directory = "/r"; root = "/d"; model_directory = none }

abbrev start : Deploying Script
start = record { world = script; processes = [] }

deploys : (main host args start).0 ≡ ok tt
unfolding main ◌>>=◌ pure demand each finally reading map_each string_eq int_eq
    laya_rs.Base.ℕ_discrete laya_rs.Base.Text.decimal
deploys = refl

main-IsDeployed_example : IsDeployed host args start (main host args start).1
main-IsDeployed_example =
    main-IsDeployed host args start (main host args start).1
      (has_run (main host args) start tt deploys)

main-IsClosed_example : IsClosed host (prepared host args start) (main host args start)
main-IsClosed_example = main-IsClosed host args start

hexadecimal : IsHexadecimal host
unfolding IsHexadecimal is_line laya_rs.Base.Text.is_break laya_rs.Base.ℕ_discrete
hexadecimal path digest w w' r =
    let e : ok "ab12" ≡ ok digest = ap (λ p. p.0) r.result_eq in
    let same : "ab12" ≡ digest = cc in subst (λ d. is_line d ≡ true) same refl

abbrev one_release : Script
one_release = record script { texts = release_env ∷ [] }

makes : (make_candidate host "/r" "/tmp/c/startup" "startup" one_release).0 ≡ ok tt
unfolding make_candidate ◌>>=◌ pure reading map_each string_eq int_eq laya_rs.Base.ℕ_discrete
    laya_rs.Base.Text.decimal
makes = refl

version_line : is_line (version_of "startup") ≡ true
unfolding is_line laya_rs.Base.Text.is_break laya_rs.Base.ℕ_discrete
version_line = refl

make_candidate-IsCandidate_example :
    IsCandidate host "/r" "/tmp/c/startup" "startup" one_release
      (make_candidate host "/r" "/tmp/c/startup" "startup" one_release).1
make_candidate-IsCandidate_example =
    make_candidate-IsCandidate host hexadecimal "/r" "/tmp/c/startup" "startup" one_release
      (make_candidate host "/r" "/tmp/c/startup" "startup" one_release).1 version_line
      (has_run (make_candidate host "/r" "/tmp/c/startup" "startup") one_release tt makes)

abbrev two_fields : Dict String String
two_fields = ("PID", "5") ∷ ("LISTEN", "a=b") ∷ []

two_IsWritable : IsWritable two_fields
unfolding is_line is_key Distinct lookup string_eq laya_rs.Base.Text.is_break
    laya_rs.Base.ℕ_discrete
two_IsWritable = record {
  fields = (
    record { key_line = refl; key_eq = refl; value_line = refl },
    (record { key_line = refl; key_eq = refl; value_line = refl }, tt),
  );
  distinct = (refl, (refl, tt));
}

parse_fields-print_example : parse_fields (print_fields two_fields) ≡ ok two_fields
parse_fields-print_example =
    parse_fields-print two_fields two_IsWritable.fields two_IsWritable.distinct
