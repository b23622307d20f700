-- ===== src/Deploy/Updates.antt =====
-- What it means that `check_updates` raises nothing.
use laya_rs.Base.{
  ℕ, ◌≡◌, ◌≢◌, refl, sym, ap, ◌∙◌, subst, subst₂, nat_eq, Bool, true, false, not, Option, none,
  some, List, [], ◌∷◌, ◌<>◌, String, ◌==◌, ==_sound, string_eq, length, all, All, Bool-cases, inl,
  inr, if◌then◌else◌, arith,
}
use laya_rs.Base.Int.{pos, int_eq}
use laya_rs.Base.Raises.{Raises, ok, raise}
use laya_rs.Base.Dict.{Dict, lookup}
use laya_rs.Base.Steps.{
  each, Runs, done, round, >>=-Runs, demand-Runs, last_demand-Runs, pure-Runs, reading-Runs, Each,
  each-Each,
}
use laya_rs.Deploy.{Host, Result}
use laya_rs.Deploy.Fields.{entry, same_entry, dict_eq}
use laya_rs.Deploy.Candidate.{version_of, fields, make_candidate}
use laya_rs.Deploy.Instance.{Deploying, given, insist}
use laya_rs.Deploy.Demands.{
  current_env, check_kept, require_kept, check_upgraded, check_current, is_sound, marker_of,
  kept_keys, expect_code, faults,
}
use laya_rs.Deploy.Checks.{succeed, check_update, check_updates}
use laya_rs.Deploy.Waiting.{
  outside-Runs, insist-Runs, IsLaunched, foreground-IsLaunched, IsMarked, launched-IsMarked,
}

-- Every field of the one is in the other, and there are as many.
pub record IsRestored (now old : Dict String String) : Type 0 where
  pub size_eq : length now ≡ length old
  pub field_eq : (key value : String) → lookup key now ≡ some value → lookup key old ≡ some value

-- A key that both have, with the same value.
pub IsKept : Dict String String → Dict String String → String → Type 0
IsKept now old key = (value : String) × (entry key now ≡ ok value) × (entry key old ≡ ok value)

-- What an update leaves in current.env: the new version, or what was there before.
pub data IsOutcome (fault : String) (now old : Dict String String) : Type 0 where
  upgraded :
      {program before : String}
      → is_sound fault ≡ true
      → entry "VERSION" now ≡ ok (version_of "version")
      → entry "PROGRAM" now ≡ ok program
      → entry "PROGRAM" old ≡ ok before
      → program ≢ before
      → IsOutcome fault now old
  rolled_back : is_sound fault ≡ false → IsRestored now old → IsOutcome fault now old

found_value :
    (value : String) (found : Option String)
    → elim found as (λ x. Bool) [ none ↦ false | some u ↦ value == u ] ≡ true
    → found ≡ some value
found_value value none h = cc
found_value value (some u) h = ap some (sym (==_sound value u h))

found_in :
    (old now : Dict String String) (key value : String)
    → all (same_entry old) now ≡ true
    → lookup key now ≡ some value
    → lookup key old ≡ some value
unfolding lookup
found_in old [] key value h e = cc
found_in old ((k, v) ∷ now) key value h e = elim (Bool-cases (key == k)) [
  | inl same ↦
      let v_eq : v ≡ value = ground arith in
      let first : same_entry old (k, v) ≡ true = ground arith in
      subst₂ (λ j u. lookup j old ≡ some u) (sym (==_sound key k same)) v_eq
        (found_value v (lookup k old) first)
  | inr other ↦
      let e' : lookup key now ≡ some value = ground arith in
      let h' : all (same_entry old) now ≡ true = ground arith in found_in old now key value h' e'
]

dict_eq-IsRestored : (now old : Dict String String) → dict_eq now old ≡ true → IsRestored now old
unfolding dict_eq
dict_eq-IsRestored now old h = elim (Bool-cases (length now == length old)) [
  | inl same ↦ record {
    size_eq = ==_sound (length now) (length old) same;
    field_eq = λ key value. found_in old now key value (ground arith);
  }
  | inr differ ↦ absurd (ground arith)
]

check_kept-IsKept :
    (now old : Dict String String) (key : String)
    → check_kept now old key ≡ ok true
    → IsKept now old key
unfolding check_kept IsKept
check_kept-IsKept now old key h = both (entry key now) (entry key old) h
  where
    both :
        (a b : Raises String)
        → elim a as (λ x. Raises Bool) [
          | raise e ↦ raise e
          | ok found ↦ elim b as (λ x. Raises Bool) [
            | raise e ↦ raise e
            | ok expected ↦ ok (found == expected)
          ]
        ]
          ≡ ok true
        → (value : String) × (a ≡ ok value) × (b ≡ ok value)
    both (raise e) b h = cc
    both (ok found) (raise e) h = cc
    both (ok found) (ok expected) h =
        let same : (found == expected) ≡ true = cc in
        (expected, ap ok (==_sound found expected same), refl)

not_same : (a b : String) → not (a == b) ≡ true → a ≢ b
not_same a b h = ground arith

module _ {W : Type 0} (host : Host W) where
  check_upgraded-IsOutcome :
      (now old : Dict String String) (fault : String) {s t : W}
      → is_sound fault ≡ true
      → Runs (check_upgraded host now old) s tt t
      → IsOutcome fault now old
  unfolding check_upgraded
  check_upgraded-IsOutcome now old fault h r = >>=-Runs r (λ version u found r1.
      let (same, r2) = demand-Runs r1 in
      >>=-Runs r2 (λ program v p r3. >>=-Runs r3 (λ before w b r4.
        upgraded h ((reading-Runs found).0 ∙ ap ok (==_sound version (version_of "version") same))
          (reading-Runs p).0 (reading-Runs b).0 (not_same program before (last_demand-Runs r4).0))))

  check_current-IsOutcome :
      (fault : String) (now old : Dict String String) (log : String) {s t : W}
      → Runs (check_current host fault now old log) s tt t
      → IsOutcome fault now old
  unfolding check_current
  check_current-IsOutcome fault now old log {s} {t} r = elim (Bool-cases (is_sound fault)) [
    | inl sound ↦ check_upgraded-IsOutcome now old fault sound (
        subst
          (λ b.
            Runs (if b then check_upgraded host now old else insist host (dict_eq now old) log) s tt
              t)
          sound r)
    | inr faulty ↦ rolled_back faulty (
        dict_eq-IsRestored now old
          (insist-Runs host log (
            subst
              (λ b.
                Runs (if b then check_upgraded host now old else insist host (dict_eq now old) log)
                  s tt t)
              faulty r)).0)
  ]

  IsKept-all :
      (now old : Dict String String) (keys : List String) (s t : W)
      → Each (require_kept host now old) keys s t
      → All (IsKept now old) keys
  unfolding require_kept
  IsKept-all now old keys s t done = tt
  IsKept-all now old (key ∷ keys) s t (round r rest) = (
    >>=-Runs r (λ same u found last.
        check_kept-IsKept now old key ((reading-Runs found).0 ∙ ap ok (last_demand-Runs last).0)),
    IsKept-all now old keys _ t rest,
  )

  pub expect_code-Runs :
      (process : ℕ) (log : String) (code : ℕ) {s t : W}
      → Runs (expect_code host process log code) s tt t
      → Runs (host.wait_process process 150) s (pos code) t
  unfolding expect_code
  expect_code-Runs process log code {s} {t} r = >>=-Runs r (λ found u waited last.
      let (same, final) = insist-Runs host log last in
      subst₂ (λ c z. Runs (host.wait_process process 150) s c z) (==_sound found (pos code) same)
        final waited)

  module _ (root release scratch : String) where
    -- A round of the loop over the faults: the candidate was made and installed, the command wrote the
    -- marker of the outcome, current.env has what the outcome wants and all the kept keys, the command
    -- ended with its code, and the service was started again.
    pub record IsUpdated (fault : String) (s t : Deploying W) : Type 0 where
      pub candidate : W
      pub placed : Runs (host.mkdir (scratch <> ("/" <> fault))) s.world tt candidate
      pub made : W
      pub old : Dict String String
      pub begun : Deploying W
      pub started : ℕ × String
      pub updated : Deploying W
      pub now : Dict String String
      pub read : W
      pub again : ℕ × String
      pub made_eq :
          Runs (make_candidate host release (scratch <> ("/" <> fault)) fault) candidate tt made
      pub old_eq : Runs (fields host (current_env root)) made old begun.world
      pub launched :
          IsLaunched host root "update"
            ("--release-directory" ∷ (scratch <> ("/" <> fault)) ∷ [])
            (some (marker_of fault))
            started
            begun
            updated
      pub marked : IsMarked host (marker_of fault) started updated.world
      pub now_eq : Runs (fields host (current_env root)) updated.world now read
      pub outcome : IsOutcome fault now old
      pub kept : All (IsKept now old) kept_keys
      pub compared : W
      pub settled : W
      pub stopped : Result
      pub down : W
      pub over : Deploying W
      pub compared_eq : Runs (check_current host fault now old started.1) read tt compared
      pub kept_eq : Runs (each (require_kept host now old) kept_keys) compared tt settled
      pub stopped_eq : Runs (succeed host root "stop" []) settled stopped down
      pub ended :
          Runs
            (host.wait_process started.0 150)
            down
            (pos (if is_sound fault then 0 else 1))
            over.world
      pub relaunched : IsLaunched host root "start" [] (some "Validated.") again over t
      pub running : IsMarked host "Validated." again t.world

    given_marker : (fault : String) → given (some (marker_of fault)) ≡ some (marker_of fault)
    given_marker fault = elim (Bool-cases (is_sound fault)) [
      | inl h ↦ rw h refl
      | inr h ↦ rw h refl
    ]

    check_update-IsUpdated :
        (fault : String) (s t : Deploying W)
        → Runs (check_update host root release scratch fault) s tt t
        → IsUpdated fault s t
    unfolding check_update
    check_update-IsUpdated fault s t r = >>=-Runs r (λ _ s0 dir r0. >>=-Runs r0 (λ _ s1 made r1.
        >>=-Runs r1 (λ old s2 old_read r2. >>=-Runs r2 (λ started s3 launch r3.
          >>=-Runs r3 (λ now s4 now_read r4. >>=-Runs r4 (λ _ s5 current r5.
            >>=-Runs r5 (λ _ s6 kept r6. >>=-Runs r6 (λ stopped s7 stop r7.
              >>=-Runs r7 (λ _ s8 ended r8. >>=-Runs r8 (λ again s9 running r9.
                let launched =
                  foreground-IsLaunched host {marker = some (marker_of fault)} launch in
                let restarted = foreground-IsLaunched host {marker = some "Validated."} running in
                record {
                  candidate = s0.world;
                  placed = outside-Runs dir;
                  made = s1.world;
                  old = old;
                  begun = s2;
                  started = started;
                  updated = s3;
                  now = now;
                  read = s4.world;
                  again = again;
                  made_eq = outside-Runs made;
                  old_eq = outside-Runs old_read;
                  launched = launched;
                  marked = launched-IsMarked host (marker_of fault) (given_marker fault) launched;
                  now_eq = outside-Runs now_read;
                  outcome = check_current-IsOutcome fault now old started.1 (outside-Runs current);
                  kept = IsKept-all now old kept_keys _ _ (each-Each (outside-Runs kept));
                  compared = s5.world;
                  settled = s6.world;
                  stopped = stopped;
                  down = s7.world;
                  over = s8;
                  compared_eq = outside-Runs current;
                  kept_eq = outside-Runs kept;
                  stopped_eq = outside-Runs stop;
                  ended = expect_code-Runs started.0 started.1 _ (outside-Runs ended);
                  relaunched =
                      subst (IsLaunched host root "start" [] (some "Validated.") again s8)
                        (pure-Runs r9).1 restarted;
                  running =
                      subst (λ z. IsMarked host "Validated." again z.world) (pure-Runs r9).1
                        (launched-IsMarked host "Validated." refl restarted);
                }))))))))))

    -- The rounds, in the order of the faults.
    pub data AllUpdated : List String → Deploying W → Deploying W → Type 0 where
      none_left : {s : Deploying W} → AllUpdated [] s s
      next_update :
          {fault : String} {rest : List String} {s u t : Deploying W}
          → IsUpdated fault s u
          → AllUpdated rest u t
          → AllUpdated (fault ∷ rest) s t

    Each-updated :
        (xs : List String) {s t : Deploying W}
        → Each (check_update host root release scratch) xs s t
        → AllUpdated xs s t
    Each-updated [] done = none_left
    Each-updated (fault ∷ rest) (round r rs) =
        next_update (check_update-IsUpdated fault _ _ r) (Each-updated rest rs)

    -- When `check_updates` raises nothing: each of the four candidates was installed, in turn; the one
    -- that works took over with its version and another program, and after each faulty one current.env
    -- has again the fields of before; the kept keys never changed, the command ended with the code of
    -- its outcome, and the service was started again.
    pub check_updates-AllUpdated :
        {s t : Deploying W}
        → Runs (check_updates host root release scratch) s tt t
        → AllUpdated faults s t
    unfolding check_updates
    check_updates-AllUpdated r = Each-updated faults (each-Each r)
