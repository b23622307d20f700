-- ===== src/Smoke/Cleanup.antt =====
-- What a container and a volume leave behind.
use laya_rs.Base.{◌≡◌, ◌⊎◌, inl, inr, refl, sym, ap, ◌∙◌, List, [], ◌∷◌, Option, String}
use laya_rs.Base.Raises.{Exception, ok, raise, Raises-cases}
use laya_rs.Base.Action.{
  Action, pure, reading, ◌>>=◌, always, >>=-of_ok, >>=-of_raise, dropped-state, always-ok, >>=-ok,
}
use laya_rs.Smoke.{Host}
use laya_rs.Smoke.Service.{docker, container, create_args, clean_up, logs, inspect}
use laya_rs.Base.Json.{get}
use laya_rs.Smoke.Acceptance.{unreadable, use_volume, remove_volume}

module _ {W : Type 0} (host : Host W) where
  abbrev remove_args : String → List String
  remove_args cid = "rm" ∷ "-f" ∷ cid ∷ []

  clean_up-state :
      (cid : String) (w : W)
      → (w' : W) × ((clean_up host cid w).1 ≡ (docker host (remove_args cid) w').1)
  unfolding clean_up
  clean_up-state cid w = (_, dropped-state (docker host (remove_args cid)) _)

  abbrev first_part : String → Action W (Unit {0})
  first_part cid = do
    p ← logs host cid
    state ← inspect host cid
    shown ← reading (λ w. get "State" state)
    pure tt

  clean_up-ok :
      (cid : String) (w : W)
      → (clean_up host cid w).0 ≡ ok tt
      → (w' : W) × (out : String) × ((docker host (remove_args cid) w').0 ≡ ok out)
        × ((clean_up host cid w).1 ≡ (docker host (remove_args cid) w').1)
  unfolding clean_up
  clean_up-ok cid w h =
      let (first, last) =
        always-ok (first_part cid) (docker host (remove_args cid) >>= λ out. pure tt) w tt h in
      let (out, e, q) = >>=-ok (docker host (remove_args cid)) (λ out. pure tt) _ tt last in
      (_, out, e, dropped-state (docker host (remove_args cid)) _)

  module _ {A : Type 0} (image : String) (bundle : Option String) (options mounts : List String)
      (body : String → Action W A) where
    abbrev create : Action W String
    create = docker host (create_args image bundle options mounts)

    abbrev started : String → Action W A
    started cid = docker host ("start" ∷ cid ∷ []) >>= λ out. body cid

    -- Whatever the body of a `with container(...)` does, and whether it returns or raises: either no
    -- container was created, the call raises what `docker create` raised, and nothing else was done; or
    -- the last thing done is the removal of the created container.
    pub container-removes :
        (w : W)
        → ((e : Exception) × ((create w).0 ≡ raise e)
            × (container host image bundle options mounts body w ≡ (raise e, (create w).1)))
          ⊎ ((cid : String) × (w' : W) × ((create w).0 ≡ ok cid)
              × ((container host image bundle options mounts body w).1
                  ≡ (docker host (remove_args cid) w').1))
    unfolding container
    container-removes w = elim (Raises-cases (create w).0) [
      | inl (cid, made) ↦
          let (w', last) = clean_up-state cid (started cid (create w).1).1 in
          inr (
            cid,
            w',
            made,
            ap (λ p. p.1)
                  (>>=-of_ok create (λ cid. always (started cid) (clean_up host cid)) w cid made)
                ∙ last,
          )
      | inr (e, failed) ↦ inl (
        e,
        failed,
        >>=-of_raise create (λ cid. always (started cid) (clean_up host cid)) w e failed,
      )
    ]

    -- A run of the statement from `before` that returns, in its parts.
    pub record Ran (before : W) (a : A) : Type 0 where
      pub cid : String
      pub running : W
      pub ended : W
      pub last_output : String
      pub made : (create before).0 ≡ ok cid
      pub started_eq : (docker host ("start" ∷ cid ∷ []) (create before).1).1 ≡ running
      pub body_eq : (body cid running).0 ≡ ok a
      pub removed : (docker host (remove_args cid) ended).0 ≡ ok last_output
      pub state_eq :
          (container host image bundle options mounts body before).1
          ≡ (docker host (remove_args cid) ended).1

    -- A `with container(...)` that returns has run its body to the end in a started container, and the
    -- container was removed without an error, as the last thing done.
    pub container-Ran :
        (w : W) (a : A) → (container host image bundle options mounts body w).0 ≡ ok a → Ran w a
    unfolding container
    container-Ran w a h =
        let (cid, made, q) =
          >>=-ok create (λ cid. always (started cid) (clean_up host cid)) w a h in
        let (ran, cleaned) =
          always-ok (started cid) (clean_up host cid) (create w).1 a (ap (λ p. p.0) q ∙ h) in
        let (out, up, q') =
          >>=-ok (docker host ("start" ∷ cid ∷ [])) (λ out. body cid) (create w).1 a ran in
        let (ended, output, gone, last) = clean_up-ok cid (started cid (create w).1).1 cleaned in
        record {
          cid = cid;
          running = (docker host ("start" ∷ cid ∷ []) (create w).1).1;
          ended = ended;
          last_output = output;
          made = made;
          started_eq = refl;
          body_eq = ap (λ p. p.0) q' ∙ ran;
          removed = gone;
          state_eq = sym (ap (λ p. p.1) q) ∙ last;
        }

  abbrev volume_create : Action W String
  volume_create = docker host ("volume" ∷ "create" ∷ "--label" ∷ "laya.validation=18" ∷ [])

  -- Whatever `unreadable` returns or raises: it made no volume, or the last thing done is the removal
  -- of the volume that it made.
  pub unreadable-removes :
      (image : String) (w : W)
      → ((e : Exception) × (unreadable host image w ≡ (raise e, (volume_create w).1)))
        ⊎ ((volume : String) × (w' : W) × ((volume_create w).0 ≡ ok volume)
            × ((unreadable host image w).1 ≡ (docker host ("volume" ∷ "rm" ∷ volume ∷ []) w').1))
  unfolding unreadable remove_volume
  unreadable-removes image w =
      let rest =
        λ (volume : String). always (use_volume host image volume) (remove_volume host volume) in
      elim (Raises-cases (volume_create w).0) [
        | inl (volume, made) ↦
            let used = (use_volume host image volume (volume_create w).1).1 in
            inr (
              volume,
              used,
              made,
              ap (λ p. p.1) (>>=-of_ok volume_create rest w volume made)
                  ∙ dropped-state (docker host ("volume" ∷ "rm" ∷ volume ∷ [])) used,
            )
        | inr (e, failed) ↦ inl (e, >>=-of_raise volume_create rest w e failed)
      ]
