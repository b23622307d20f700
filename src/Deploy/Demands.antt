-- ===== src/Deploy/Demands.antt =====
-- What the checks of tools/release/smoke-macos.py read and assert.
use Prim.Native.Nat.{◌-◌}
use laya_rs.Base.{
  ℕ, zero, suc, Bool, true, false, ◌&&◌, List, [], ◌∷◌, String, ◌<>◌, ◌==◌, not, nat_eq, string_eq,
  if◌then◌else◌,
}
use laya_rs.Base.Int.{pos, int_eq}
use laya_rs.Base.Raises.{Raises, ok, raise}
use laya_rs.Base.Action.{Action}
use laya_rs.Base.Dict.{Dict}
use laya_rs.Base.Steps.{◌>>=◌, ◌>>◌, reading, demand}
use laya_rs.Base.Text.{starts_with}
use laya_rs.Deploy.{Host}
use laya_rs.Deploy.Fields.{entry, dict_eq}
use laya_rs.Deploy.Candidate.{version_of, fields}
use laya_rs.Deploy.Instance.{insist}

abbrev text_length : String → ℕ
text_length String.[] = 0
text_length (String.◌∷◌ c s) = suc (text_length s)

-- `s.replace(old, new)` with an `old` that is not empty, after the characters that are left out
unfoldable pub replace_from : ℕ → String → String → String → String
unfolding starts_with
replace_from skipped old new String.[] = ""
replace_from (suc skipped) old new (String.◌∷◌ c s) = replace_from skipped old new s
replace_from zero old new (String.◌∷◌ c s) =
    let found = replace_from (text_length old - 1) old new s in
    let rest = replace_from 0 old new s in
    if starts_with old (String.◌∷◌ c s) then new <> found else String.◌∷◌ c rest

unfoldable pub replace : String → String → String → String
unfolding replace_from
replace old new s = replace_from 0 old new s

-- `a == b` of two bytes
unfoldable pub same_bytes : List ℕ → List ℕ → Bool
same_bytes [] [] = true
same_bytes (a ∷ xs) (b ∷ ys) = (a == b) && same_bytes xs ys
same_bytes _ _ = false

-- `PID={pid}\n`
abbrev pub pid_line : String → String
pid_line pid = "PID=" <> (pid <> "\n")

-- The keys that an update keeps.
abbrev pub kept_keys : List String
kept_keys = "MODEL" ∷ "MODEL_ID" ∷ "LISTEN" ∷ "THREADS" ∷ "INTER" ∷ "SLOTS" ∷ "GRACE" ∷ []

abbrev pub faults : List String
faults = "version" ∷ "startup" ∷ "api" ∷ "architecture" ∷ []

abbrev pub restored : String
restored = "Previous deployment restored and validated."

abbrev pub current_env : String → String
current_env root = root <> "/current.env"

abbrev pub process_env : String → String
process_env root = root <> "/process.env"

abbrev pub is_sound : String → Bool
is_sound fault = fault == "version"

abbrev pub marker_of : String → String
marker_of fault = if is_sound fault then "Validated." else restored

-- `now[key] == old[key]`
unfoldable pub check_kept : Dict String String → Dict String String → String → Raises Bool
unfolding entry
check_kept now old key = elim (entry key now) [
  | raise e ↦ raise e
  | ok found ↦ elim (entry key old) [ raise e ↦ raise e | ok expected ↦ ok (found == expected) ]
]

module _ {W : Type 0} (host : Host W) where
  open host use {read_bytes, exists, wait_process}

  -- `fields(path)[key]`
  unfoldable pub field_of : String → String → Action W String
  unfolding fields entry
  field_of key path = do d ← fields host path; reading (entry key d)

  -- `assert not path.exists()`
  unfoldable pub require_missing : String → Action W (Unit {0})
  require_missing path = do found ← exists path; demand (not found)

  -- `assert path.read_bytes() == content`
  unfoldable pub require_bytes : String → List ℕ → Action W (Unit {0})
  unfolding same_bytes
  require_bytes path content = do found ← read_bytes path; demand (same_bytes found content)

  -- `assert process.wait(timeout=150) == code, log.read_text()`
  unfoldable pub expect_code : ℕ → String → ℕ → Action W (Unit {0})
  unfolding insist
  expect_code process log code = do
    found ← wait_process process 150
    insist host (found == pos code) log

  unfoldable pub require_kept :
      Dict String String → Dict String String → String → Action W (Unit {0})
  unfolding check_kept
  require_kept now old key = do same ← reading (check_kept now old key); demand same

  -- After the update to a version that works.
  unfoldable pub check_upgraded : Dict String String → Dict String String → Action W (Unit {0})
  unfolding entry
  check_upgraded now old = do
    version ← reading (entry "VERSION" now)
    demand (version == version_of "version")
    program ← reading (entry "PROGRAM" now)
    before ← reading (entry "PROGRAM" old)
    demand (not (program == before))

  -- What an update has to leave.
  unfoldable pub check_current :
      String → Dict String String → Dict String String → String → Action W (Unit {0})
  unfolding check_upgraded insist dict_eq
  check_current fault now old log =
      if is_sound fault then check_upgraded now old else insist host (dict_eq now old) log
