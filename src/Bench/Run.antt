-- ===== src/Bench/Run.antt =====
-- The loop of `run` in docs/validation/benchmark.py: the three configurations, one after another.
use laya_rs.Base.{
  ℕ, ◌≡◌, ap, ◌∙◌, Bool, true, false, ◌&&◌, List, [], ◌∷◌, String, ◌<>◌, All, arith, if◌then◌else◌,
}
use laya_rs.Base.Raises.{Raises, ok, raise}
use laya_rs.Base.Action.{Action, pure, ◌>>=◌, >>=-value}
use laya_rs.Base.Json.{Json}
use laya_rs.Smoke.{Host}
use laya_rs.Bench.Summary.{Row}
use laya_rs.Bench.Station.{Sample, Station, create_log}
use laya_rs.Bench.Configuration.{Arguments, directory_of, configuration}
use laya_rs.Bench.Failure.{record_failure}
use laya_rs.Bench.Measured.{IsLoad}
use laya_rs.Bench.Clean.{CleanLoad}
use laya_rs.Bench.Success.{configuration-CleanLoad}

-- The threads and slots of the configurations.
abbrev pub plan : List (ℕ × ℕ)
plan = (1, 1) ∷ (2, 1) ∷ (2, 2) ∷ []

-- A configuration in which each group's load came to its end with clean rows.
abbrev pub IsSuccess :
    {W : Type 0}
    → Host W
    → (String → String → Json → ℕ → ℕ → String → Action (Station W) (List Row × List Sample))
    → Arguments
    → Json
    → ℕ × ℕ
    → Type 0
IsSuccess host measure args fixture c =
    All (CleanLoad host measure fixture (directory_of args c.0 c.1)) (1 ∷ 2 ∷ 4 ∷ 8 ∷ [])

-- `names` gives the directories `c*` of a configuration in the order of `glob`.
module _ {W : Type 0} (host : Host W)
    (measure : String
      → String
      → Json
      → ℕ
      → ℕ
      → String
      → Action (Station W) (List Row × List Sample))
    (names : String → Station W → List String) where
  -- What `try` guards.
  unfoldable pub logged : Arguments → Json → ℕ × ℕ → Action (Station W) Bool
  unfolding create_log configuration
  logged args fixture (threads, slots) =
      create_log (directory_of args threads slots <> ".log") >>= λ _.
      configuration host measure args threads slots fixture

  -- The end of a round, with `success` so far: a configuration that raised is recorded.
  unfoldable pub settle : String → Bool → Raises Bool × Station W → Raises Bool × Station W
  unfolding record_failure
  settle directory success (ok done, s) = (ok (done && success), s)
  settle directory success (raise e, s) =
      (record_failure host.unit (names directory s) directory e >>= λ _. pure false) s

  unfoldable pub run_all : Arguments → Json → List (ℕ × ℕ) → Bool → Action (Station W) Bool
  unfolding logged settle
  run_all args fixture [] success = pure success
  run_all args fixture (c ∷ rest) success =
      (λ s. settle (directory_of args c.0 c.1) success (logged args fixture c s))
      >>= run_all args fixture rest

  -- The loop, and the exit code.
  unfoldable pub run_plan : Arguments → Json → Action (Station W) ℕ
  unfolding run_all
  run_plan args fixture =
      run_all args fixture plan true >>= λ success. pure (if success then 0 else 1)

  both_true : (a b : Bool) → ◌≡◌ {A = Raises Bool} (ok (a && b)) (ok true) → (a ≡ true) × (b ≡ true)
  both_true a b h = let e : (a && b) ≡ true = cc in ground arith

  -- A round after which `success` is still True.
  settle-true :
      (directory : String) (success : Bool) (p : Raises Bool × Station W)
      → (settle directory success p).0 ≡ ok true
      → (p.0 ≡ ok true) × (success ≡ true)
  unfolding settle
  settle-true directory success (ok done, s) h =
      let (a, b) = both_true done success h in (ap ok a, b)
  settle-true directory success (raise e, s) h =
      let (_, _, h1) =
        >>=-value (record_failure host.unit (names directory s) directory e) (λ _. pure false) s
          true h in
      cc

  module _ (is_load : IsLoad host measure) where
    run_all-IsSuccess :
        (args : Arguments) (fixture : Json) (cs : List (ℕ × ℕ)) (success : Bool) (s : Station W)
        → (run_all args fixture cs success s).0 ≡ ok true
        → (success ≡ true) × All (IsSuccess host measure args fixture) cs
    unfolding run_all logged
    run_all-IsSuccess args fixture [] success s h = let e : success ≡ true = cc in (e, tt)
    run_all-IsSuccess args fixture (c ∷ rest) success s h =
        let round : Action (Station W) Bool =
          λ s. settle (directory_of args c.0 c.1) success (logged args fixture c s) in
        let (b, first, h1) = >>=-value round (run_all args fixture rest) s true h in
        let (b_true, others) = run_all-IsSuccess args fixture rest b _ h1 in
        let (ran, was) =
          settle-true (directory_of args c.0 c.1) success (logged args fixture c s)
            (first ∙ ap ok b_true) in
        let (_, _, h2) =
          >>=-value (create_log (directory_of args c.0 c.1 <> ".log"))
            (λ _. configuration host measure args c.0 c.1 fixture) s true ran in
        (was, (configuration-CleanLoad host measure is_load args c.0 c.1 fixture _ h2, others))

    -- If the rows that `measure` returns are those of a load that all its workers have ended, then, when
    -- the loop of `run` returns 0: in each of the three configurations, for each of 1, 2, 4 and 8 clients, `measure`
    -- was called with the fixture and the directory of these clients, and in the load behind its rows a
    -- request ended a minute or more after the start, a hundred requests or more were answered, and every
    -- request succeeded.
    pub run_plan-IsSuccess :
        (args : Arguments) (fixture : Json) (s : Station W)
        → (run_plan args fixture s).0 ≡ ok 0
        → All (IsSuccess host measure args fixture) plan
    unfolding run_plan
    run_plan-IsSuccess args fixture s h =
        let (b, ran, h1) =
          >>=-value (run_all args fixture plan true) (λ success. pure (if success then 0 else 1)) s
            0 h in
        let code_zero : ◌≡◌ {A = ℕ} (if b then 0 else 1) 0 = cc in
        let b_true : b ≡ true = ground arith in
        (run_all-IsSuccess args fixture plan true s (ran ∙ ap ok b_true)).1
