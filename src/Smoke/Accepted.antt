-- ===== src/Smoke/Accepted.antt =====
-- What it means that the acceptance raises nothing.
use laya_rs.Base.{◌≡◌, false, not, some, [], ◌∷◌, String}
use laya_rs.Base.Raises.{ok, require}
use laya_rs.Base.Action.{reading, ◌>>=◌}
use laya_rs.Base.Steps.{Runs, has_run, returned, plain-Runs, refuted-Runs}
use laya_rs.Base.Json.{Items}
use laya_rs.Smoke.{Host}
use laya_rs.Smoke.Service.{docker, ready, container, create_args, base_url, exit_code}
use laya_rs.Smoke.Acceptance.{fixtures, manifest_files}
use laya_rs.Smoke.Inventory.{runtime_inventory}
use laya_rs.Smoke.Threads.{Pool, stop_scenarios}
use laya_rs.Smoke.Cleanup.{Ran, container-Ran}
use laya_rs.Smoke.Passing.{Passed, fixtures-Passed}
use laya_rs.Smoke.Main.{
  Machine, failures, digested, print_digests, check_alive, check_stop, serving, main,
}
use laya_rs.Smoke.Loaded.{IsCreation, create_args-IsCreation}
use laya_rs.Smoke.Stopped.{AreStopped, stop_scenarios-AreStopped}

module _ {W : Type 0} (host : Host W) where
  -- The end of the serving container, from `s` to `t`: it was stopped with the time to drain, ended with
  -- the code 0, and then was not ready.
  pub record IsHalted (cid base : String) (s t : W) : Type 0 where
    pub output : String
    pub halted : W
    pub ended : W
    pub halted_eq : Runs (docker host ("stop" ∷ "--timeout" ∷ "130" ∷ cid ∷ [])) s output halted
    pub ended_eq : Runs (exit_code host cid 0) halted tt ended
    pub gone : Runs (ready host base) ended false t

  check_stop-IsHalted :
      (machine : Machine W) (cid base : String) {s t : W}
      → Runs (check_stop host machine cid base) s tt t
      → IsHalted cid base s t
  unfolding check_stop
  check_stop-IsHalted machine cid base r =
      let last = ready host base >>= λ up. reading (λ w. require (not up)) in
      plain-Runs (docker host ("stop" ∷ "--timeout" ∷ "130" ∷ cid ∷ []))
        (λ out. exit_code host cid 0 >>= λ _. last) r
        (λ out s1 halted r1.
          plain-Runs (exit_code host cid 0) (λ _. last) r1
            (λ _ s2 ended r2. record {
              output = out;
              halted = s1;
              ended = s2;
              halted_eq = halted;
              ended_eq = ended;
              gone = refuted-Runs (ready host base) r2;
            }))

  module _ (machine : Machine W) where
    -- What a container served, from `s` to `t`, each part from where the one before has ended: its
    -- files were looked through, it was alive, 21 official fixtures were sent to it and each was
    -- answered as the fixture says, and it was stopped.
    pub record IsServed (cid : String) (s t : W) : Type 0 where
      pub base : String
      pub entries : Items
      pub located : W
      pub looked : W
      pub lived : W
      pub tested : W
      pub base_eq : Runs (base_url host cid) s base located
      pub looked_eq : Runs (runtime_inventory host machine.lower cid) located tt looked
      pub lived_eq : Runs (check_alive host machine base) looked tt lived
      pub tested_eq : Runs (fixtures host base) lived tt tested
      pub entries_eq : manifest_files host ≡ ok entries
      pub passed : Passed host base entries 21
      pub halted : IsHalted cid base tested t

    serving-IsServed :
        (cid : String) {s t : W} → Runs (serving host machine cid) s tt t → IsServed cid s t
    unfolding serving
    serving-IsServed cid {s} {t} r =
        let rest =
          λ (base : String). fixtures host base >>= λ _. check_stop host machine cid base in
        let look = runtime_inventory host machine.lower cid in
        let alive = λ (base : String). check_alive host machine base in
        plain-Runs (base_url host cid) (λ base. look >>= λ _. alive base >>= λ _. rest base) r
          (λ base s1 located r1.
            plain-Runs look (λ _. alive base >>= λ _. rest base) r1
              (λ _ s2 looked r2.
                plain-Runs (alive base) (λ _. rest base) r2
                  (λ _ s3 lived r3.
                    plain-Runs (fixtures host base) (λ _. check_stop host machine cid base) r3
                      (λ _ s4 tested last.
                        let (entries, listed, all) =
                          fixtures-Passed host base s3 (returned tested) in
                        record {
                          base = base;
                          entries = entries;
                          located = s1;
                          looked = s2;
                          lived = s3;
                          tested = s4;
                          base_eq = located;
                          looked_eq = looked;
                          lived_eq = lived;
                          tested_eq = tested;
                          entries_eq = listed;
                          passed = all;
                          halted = check_stop-IsHalted machine cid base last;
                        }))))

    module _ (pool : Pool W) where
      -- A run of `main` from `s` that returns, each part from where the one before has ended.
      pub record IsAccepted (image model : String) (s : W) : Type 0 where
        pub bundle : String
        pub shown : String
        pub resolved : W
        pub inspected : W
        pub printed : W
        pub refused : W
        pub served : W
        pub bundle_eq : Runs (machine.resolve model) s bundle resolved
        pub image_eq :
            Runs (docker host ("image" ∷ "inspect" ∷ image ∷ [])) resolved shown inspected
        pub printed_eq : Runs (print_digests host machine (digested bundle)) inspected tt printed
        pub refused_eq : Runs (failures host machine image bundle) printed tt refused
        pub served_eq :
            Runs (container host image (some bundle) [] [] (serving host machine)) refused tt served
        pub created : IsCreation image [] (create_args image (some bundle) [] [])
        pub ran : Ran host image (some bundle) [] [] (serving host machine) refused tt
        pub body_end : W
        pub serving_eq : IsServed ran.cid ran.running body_end
        pub stopped : AreStopped host pool image bundle served

      pub main-IsAccepted :
          (image model : String) (s : W)
          → (main host machine pool image model s).0 ≡ ok tt
          → IsAccepted image model s
      unfolding main
      main-IsAccepted image model s h =
          let last = λ (bundle : String). stop_scenarios host pool image bundle in
          let serve =
            λ (bundle : String). container host image (some bundle) [] [] (serving host machine) in
          let fail = λ (bundle : String). failures host machine image bundle in
          let print = λ (bundle : String). print_digests host machine (digested bundle) in
          let look = docker host ("image" ∷ "inspect" ∷ image ∷ []) in
          plain-Runs (machine.resolve model)
            (λ b. look >>= λ shown. print b >>= λ _. fail b >>= λ _. serve b >>= λ _. last b)
            (has_run (main host machine pool image model) s tt h)
            (λ bundle s1 resolved r1.
              plain-Runs look
                (λ shown.
                  print bundle >>= λ _. fail bundle >>= λ _. serve bundle >>= λ _. last bundle)
                r1
                (λ shown s2 inspected r2.
                  plain-Runs (print bundle)
                    (λ _. fail bundle >>= λ _. serve bundle >>= λ _. last bundle) r2
                    (λ _ s3 printed r3.
                      plain-Runs (fail bundle) (λ _. serve bundle >>= λ _. last bundle) r3
                        (λ _ s4 refused r4.
                          plain-Runs (serve bundle) (λ _. last bundle) r4
                            (λ _ s5 served scenarios.
                              let parts =
                                container-Ran host image (some bundle) [] [] (serving host machine)
                                  s4 tt (returned served) in
                              record {
                                bundle = bundle;
                                shown = shown;
                                resolved = s1;
                                inspected = s2;
                                printed = s3;
                                refused = s4;
                                served = s5;
                                bundle_eq = resolved;
                                image_eq = inspected;
                                printed_eq = printed;
                                refused_eq = refused;
                                served_eq = served;
                                created = create_args-IsCreation image (some bundle) [] [];
                                ran = parts;
                                body_end = (serving host machine parts.cid parts.running).1;
                                serving_eq = serving-IsServed parts.cid (
                                    has_run (serving host machine parts.cid) parts.running tt
                                      parts.body_eq);
                                stopped =
                                    stop_scenarios-AreStopped host pool image bundle scenarios;
                              })))))
