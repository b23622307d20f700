-- ===== src/Deploy/Accepted.antt =====
-- What it means that `main` of tools/release/smoke-macos.py raises nothing, and what it does at its end
-- in any case.
use laya_rs.Base.{
  ℕ, ◌≡◌, refl, sym, ap, ◌∙◌, subst, subst₂, ◌⊎◌, inl, inr, List, [], ◌∷◌, String, ==_sound,
  string_eq,
}
use laya_rs.Base.Int.{ℤ, int_eq}
use laya_rs.Base.Raises.{Raises, Exception, ok, raise, Raises-cases}
use laya_rs.Base.Action.{Action}
use laya_rs.Base.Steps.{
  ◌>>=◌, ◌>>◌, pure, Runs, >>=-Runs, demand-Runs, last_demand-Runs, pure-Runs, finally-Runs,
  finally-last, >>=-of_ok, >>=-of_raise, each, Each, done, round, each-Each,
}
use laya_rs.Deploy.{Host}
use laya_rs.Deploy.Candidate.{sha}
use laya_rs.Deploy.Instance.{Deploying, outside, deployment, reap, reap_all, close}
use laya_rs.Deploy.Demands.{faults}
use laya_rs.Deploy.Main.{
  Args, token_path, identity, require_identity, exercise, install, update_stopped, acceptance, main,
}
use laya_rs.Deploy.Waiting.{outside-Runs, outside-processes}
use laya_rs.Deploy.Updates.{AllUpdated, check_updates-AllUpdated}
use laya_rs.Deploy.Undisturbed.{IsUndisturbed, check_running-IsUndisturbed}
use laya_rs.Deploy.Preserved.{IsRecovered, check_interruption-IsRecovered}

module _ {W : Type 0} (host : Host W) where
  module _ (root release : String) where
    -- The three checks, one after the other.
    pub record IsExercised (s t : Deploying W) : Type 0 where
      pub scratch : String
      pub first : Deploying W
      pub running : Deploying W
      pub updated : Deploying W
      pub made_eq : Runs (host.temporary_directory "laya-candidates-") s.world scratch first.world
      pub undisturbed : IsUndisturbed host root release scratch first running
      pub updates : AllUpdated host root release scratch faults running updated
      pub checked : Deploying W
      pub recovered : IsRecovered host root release updated checked
      pub removed : Runs (host.remove_directory scratch) checked.world tt t.world

    pub exercise-IsExercised :
        {s t : Deploying W} → Runs (exercise host root release) s tt t → IsExercised s t
    unfolding exercise
    exercise-IsExercised {s} {t} r = >>=-Runs r (λ scratch s1 made r1.
        finally-Runs r1 (λ u checks removed. >>=-Runs checks (λ _ s2 running c1.
          >>=-Runs c1 (λ _ s3 updates interruption. record {
            scratch = scratch;
            first = s1;
            running = s2;
            updated = s3;
            checked = u;
            made_eq = outside-Runs made;
            undisturbed = check_running-IsUndisturbed host root release scratch running;
            updates = check_updates-AllUpdated host root release scratch updates;
            recovered = check_interruption-IsRecovered host root release interruption;
            removed = outside-Runs removed;
          }))))

    -- The token and the model's file were read from `w` on, and again from `v` to `w'`: the same digest,
    -- and the same time of change of the same file.
    pub record IsSame (w v w' : W) : Type 0 where
      pub token_hash : String
      pub model : String
      pub stamp : ℤ
      pub hashed : W
      pub hashed_again : W
      pub first_hash : Runs (sha host (token_path root)) w token_hash hashed
      pub first_stamp : (u u' : W) × Runs (host.mtime_ns model) u stamp u'
      pub last_hash : Runs (sha host (token_path root)) v token_hash hashed_again
      pub last_stamp : Runs (host.mtime_ns model) hashed_again stamp w'

    identity-reads :
        {known : String × String × ℤ} {w v : W}
        → Runs (identity host root release) w known v
        → (hashed : W) × Runs (sha host (token_path root)) w known.0 hashed
          × ((u u' : W) × Runs (host.mtime_ns known.1) u known.2 u')
    unfolding identity
    identity-reads {known} {w} {v} r = >>=-Runs r (λ token_hash s1 hash r1.
        >>=-Runs r1 (λ config s2 read r2. >>=-Runs r2 (λ directory s3 found r3.
          >>=-Runs r3 (λ stamp s4 looked last.
            subst
              (λ (k : String × String × ℤ).
                (hashed : W) × Runs (sha host (token_path root)) w k.0 hashed
                × ((u u' : W) × Runs (host.mtime_ns k.1) u k.2 u'))
              (pure-Runs last).0 (s1, hash, (s3, s4, looked))))))

    require_identity-IsSame :
        (known : String × String × ℤ) {w u v w' : W}
        → Runs (identity host root release) w known u
        → Runs (require_identity host root release known) v tt w'
        → IsSame w v w'
    unfolding require_identity
    require_identity-IsSame known {w} {u} {v} {w'} first r = >>=-Runs r (λ token_hash s1 hash r1.
        let (same_hash, r2) = demand-Runs r1 in
        >>=-Runs r2 (λ stamp s2 looked last.
          let (same_stamp, final) = last_demand-Runs last in
          let (hashed, first_hash, first_stamp) = identity-reads first in
          record {
            token_hash = known.0;
            model = known.1;
            stamp = known.2;
            hashed = hashed;
            hashed_again = s1;
            first_hash = first_hash;
            first_stamp = first_stamp;
            last_hash =
                subst (λ h. Runs (sha host (token_path root)) v h s1)
                  (==_sound token_hash known.0 same_hash) hash;
            last_stamp =
                subst₂ (λ z y. Runs (host.mtime_ns known.1) s1 z y)
                  (==_sound stamp known.2 same_stamp) final looked;
          }))

  -- The processes were waited for, one after the other, within the time that the code gives them.
  pub data AllEnded : List ℕ → W → W → Type 0 where
    all_ended : {w : W} → AllEnded [] w w
    next_ended :
        {process : ℕ} {code : ℤ} {processes : List ℕ} {w v v' w' : W}
        → Runs (host.wait_process process 150) v code v'
        → AllEnded processes v' w'
        → AllEnded (process ∷ processes) w w'

  reap-ended :
      (root : String) (process : ℕ) {w w' : W}
      → Runs (reap host root process) w tt w'
      → (code : ℤ) × (v : W) × Runs (host.wait_process process 150) v code w'
  unfolding reap
  reap-ended root process {w} {w'} r = >>=-Runs r (λ state s1 polled r1.
      >>=-Runs r1 (λ _ s2 sent r2. >>=-Runs r2 (λ code s3 waited last. (
        code,
        s2,
        subst (λ z. Runs (host.wait_process process 150) s2 code z) (pure-Runs last).1 waited,
      ))))

  reaped :
      (root : String) (processes : List ℕ) {w w' : W}
      → Each (reap host root) processes w w'
      → AllEnded processes w w'
  reaped root [] done = all_ended
  reaped root (process ∷ processes) (round r rest) =
      let (code, v, ended) = reap-ended root process r in
      next_ended ended (reaped root processes rest)

  reap_all-ended :
      (root : String) {s t : Deploying W}
      → Runs (reap_all host root) s tt t
      → AllEnded s.processes s.world t.world
  unfolding reap_all
  reap_all-ended root {s} {t} r =
      let rounds : Runs (outside (each (reap host root) s.processes)) s tt t = record {
        result_eq = r.result_eq;
      } in
      reaped root s.processes (each-Each (outside-Runs rounds))

  -- A `close` that returns has waited for every process of the deployment.
  pub close-AllEnded :
      (root : String) {s t : Deploying W}
      → Runs (close host root) s tt t
      → (w : W) × AllEnded s.processes w t.world
  unfolding close
  close-AllEnded root {s} {t} r = >>=-Runs r (λ _ u stopped last. (
    u.world,
    subst (λ ps. AllEnded ps u.world t.world) (sym (outside-processes _ stopped))
        (reap_all-ended root last),
  ))

  -- A run of `main` from `s` to `t` that returns: what was seen, each part from where the one before has
  -- ended, and that every process was waited for at the end.
  pub record IsDeployed (args : Args) (s t : Deploying W) : Type 0 where
    pub release : String
    pub root : String
    pub found : Deploying W
    pub placed : Deploying W
    pub constructed : Deploying W
    pub installed : Deploying W
    pub known : Deploying W
    pub tested : Deploying W
    pub updated : Deploying W
    pub finished : Deploying W
    pub identified : String × String × ℤ
    pub closing : W
    pub release_eq : Runs (host.resolve args.release_directory) s.world release found.world
    pub root_eq : Runs (host.resolve args.root) found.world root placed.world
    pub constructed_eq : Runs (deployment host root) placed.world tt constructed.world
    pub installed_eq :
        Runs (install host root release args.model_directory) constructed.world tt installed.world
    pub identified_eq : Runs (identity host root release) installed.world identified known.world
    pub exercised : IsExercised root release known tested
    pub updated_eq : Runs (update_stopped host root release) tested.world tt updated.world
    pub same : IsSame root release installed.world updated.world finished.world
    pub closed : AllEnded finished.processes closing t.world

  pub main-IsDeployed :
      (args : Args) (s t : Deploying W) → Runs (main host args) s tt t → IsDeployed args s t
  unfolding main acceptance
  main-IsDeployed args s t r = >>=-Runs r (λ release s1 resolved r1.
      >>=-Runs r1 (λ root s2 resolved_root r2. >>=-Runs r2 (λ _ s3 constructed r3.
        finally-Runs r3 (λ finished accepted closing. >>=-Runs accepted (λ _ s4 install a1.
          >>=-Runs a1 (λ known s5 identified a2. >>=-Runs a2 (λ _ s6 exercised a3.
            >>=-Runs a3 (λ _ s7 updated last.
              let (w, ended) = close-AllEnded root closing in
              record {
                release = release;
                root = root;
                found = s1;
                placed = s2;
                constructed = s3;
                installed = s4;
                known = s5;
                tested = s6;
                updated = s7;
                finished = finished;
                identified = known;
                closing = w;
                release_eq = outside-Runs resolved;
                root_eq = outside-Runs resolved_root;
                constructed_eq = outside-Runs constructed;
                installed_eq = outside-Runs install;
                identified_eq = outside-Runs identified;
                exercised = exercise-IsExercised root release exercised;
                updated_eq = outside-Runs updated;
                same =
                    require_identity-IsSame root release known (outside-Runs identified)
                      (outside-Runs last);
                closed = ended;
              }))))))))

  -- What `main` does before the `try`.
  abbrev pub prepared : Args → Action (Deploying W) String
  prepared args = do
    release ← outside (host.resolve args.release_directory)
    root ← outside (host.resolve args.root)
    outside (deployment host root)
    pure root

  -- The outcome of `main` beside that of what stands before the `try`: it is the same exception and
  -- nothing more was done; or there was a deployment, and `close` of it is the last thing that ran.
  pub IsClosed : Raises String × Deploying W → Raises (Unit {0}) × Deploying W → Type 0
  IsClosed before out =
      ((e : Exception) × (before.0 ≡ raise e) × (out ≡ (raise e, before.1)))
      ⊎ ((root : String) × (u : Deploying W) × (before.0 ≡ ok root)
          × (out.1 ≡ (close host root u).1))

  IsClosed-after :
      {A : Type 0} (m : Action (Deploying W) A) (g : A → Action (Deploying W) String)
      (f : A → Action (Deploying W) (Unit {0})) (s : Deploying W)
      → ((a : A) (u : Deploying W) → IsClosed (g a u) (f a u))
      → IsClosed ((m >>= g) s) ((m >>= f) s)
  unfolding IsClosed
  IsClosed-after m g f s h = elim (Raises-cases (m s).0) [
    | inl (a, e) ↦
        subst₂ IsClosed (sym (>>=-of_ok m g s a e)) (sym (>>=-of_ok m f s a e)) (h a (m s).1)
    | inr (e, failed) ↦ inl (
      e,
      ap (λ p. p.0) (>>=-of_raise m g s e failed),
      >>=-of_raise m f s e failed ∙ ap (λ p. (raise e, p.1)) (sym (>>=-of_raise m g s e failed)),
    )
  ]

  pure_root : (root : String) (s : Deploying W) → (pure root s).0 ≡ ok root
  unfolding pure
  pure_root root s = refl

  -- Whatever `main` does, and whether it returns or raises: if what stands before the `try` raises, it
  -- raises the same and does nothing more; else there is a deployment, and its `close` is the last thing
  -- that runs.
  pub main-IsClosed :
      (args : Args) (s : Deploying W) → IsClosed (prepared args s) (main host args s)
  unfolding main IsClosed
  main-IsClosed args s = IsClosed-after _ _ _ s (λ release s1. IsClosed-after _ _ _ s1 (λ root s2.
      IsClosed-after _ _ _ s2 (λ _ s3. inr (root, _, pure_root root s3, finally-last _ _ s3))))
