-- ===== src/Deploy/Refused.antt =====
-- What the assertions of tools/release/smoke-macos.py on files, and a refused command, mean.
use laya_rs.Base.{
  ℕ, ◌≡◌, ◌≢◌, refl, subst₂, nat_eq, true, false, none, some, List, [], ◌∷◌, String, ◌==◌, ==_sound,
  string_eq, arith,
}
use laya_rs.Base.Int.{pos, int_eq}
use laya_rs.Base.Steps.{Runs, >>=-Runs, demand-Runs, last_demand-Runs, pure-Runs}
use laya_rs.Deploy.{Host, Result}
use laya_rs.Deploy.Instance.{bash_args, is_expected, command}
use laya_rs.Deploy.Demands.{process_env, same_bytes, field_of, require_bytes, require_missing}
use laya_rs.Deploy.Checks.{require_pid, refuse}
use laya_rs.Deploy.Waiting.{}

same_bytes_sound : (xs ys : List ℕ) → same_bytes xs ys ≡ true → xs ≡ ys
unfolding same_bytes
same_bytes_sound [] [] h = refl
same_bytes_sound [] (y ∷ ys) h = cc
same_bytes_sound (x ∷ xs) [] h = cc
same_bytes_sound (x ∷ xs) (y ∷ ys) h =
    let first : (x == y) ≡ true = ground arith in
    let rest : same_bytes xs ys ≡ true = ground arith in
    let same_rest = same_bytes_sound xs ys rest in
    subst₂ (λ a zs. x ∷ xs ≡ a ∷ zs) (==_sound x y first) same_rest refl

module _ {W : Type 0} (host : Host W) where
  pub require_bytes-Runs :
      (path : String) (content : List ℕ) {s t : W}
      → Runs (require_bytes host path content) s tt t
      → Runs (host.read_bytes path) s content t
  unfolding require_bytes
  require_bytes-Runs path content {s} {t} r = >>=-Runs r (λ found u read last.
      let (same, final) = last_demand-Runs last in
      subst₂ (λ c z. Runs (host.read_bytes path) s c z) (same_bytes_sound found content same) final
        read)

  -- `assert not path.exists()`
  pub require_missing-Runs :
      (path : String) {s t : W}
      → Runs (require_missing host path) s tt t
      → Runs (host.exists path) s false t
  unfolding require_missing
  require_missing-Runs path {s} {t} r = >>=-Runs r (λ found u asked last.
      let (missing, final) = last_demand-Runs last in
      let e : found ≡ false = ground arith in
      subst₂ (λ c z. Runs (host.exists path) s c z) e final asked)

  module _ (root : String) where
    pub require_pid-Runs :
        (pid : String) {s t : W}
        → Runs (require_pid host root pid) s tt t
        → Runs (field_of host "PID" (process_env root)) s pid t
    unfolding require_pid
    require_pid-Runs pid {s} {t} r = >>=-Runs r (λ found u read last.
        let (same, final) = last_demand-Runs last in
        subst₂ (λ c z. Runs (field_of host "PID" (process_env root)) s c z)
          (==_sound found pid same) final read)

    -- The script was run to its end, and failed.
    pub record IsRefused (action : String) (args : List String) (result : Result) (s t : W)
        : Type 0 where
      pub run_eq : Runs (host.run (bash_args root action args) none (some 300)) s result t
      pub failed : result.returncode ≢ pos 0

    failed_code : (result : Result) → is_expected true result ≡ true → result.returncode ≢ pos 0
    failed_code result h = ground arith

    pub refuse-IsRefused :
        (action : String) (args : List String) {result : Result} {s t : W}
        → Runs (refuse host root action args) s result t
        → IsRefused action args result s t
    unfolding refuse command
    refuse-IsRefused action args {result} {s} {t} r = >>=-Runs r (λ found u ran rest.
        let (expected, r1) = demand-Runs rest in
        let (same, final) = pure-Runs r1 in
        subst₂ (λ c z. IsRefused action args c s z) same final
          (record { run_eq = ran; failed = failed_code found expected }))
