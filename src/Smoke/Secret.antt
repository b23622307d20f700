-- ===== src/Smoke/Secret.antt =====
-- Where the token of the acceptance goes.
use laya_rs.Base.{
  ◌≡◌, sym, ap, ◌∙◌, subst, true, false, Bool-cases, inl, inr, [], ◌∷◌, String, string_eq, arith,
}
use laya_rs.Base.Raises.{Raises, ok, ◌>>=◌, >>=-eq-ok}
use laya_rs.Base.Action.{reading, >>=-ok}
use laya_rs.Base.Text.{starts_with}
use laya_rs.Base.Json.{
  Json, Items, nil, item, text, array, object, boolean, number, null, get, put, find-put_field,
  iterate, first_item,
}
use laya_rs.Smoke.{Host}
use laya_rs.Smoke.Metadata.{without_token, filter_env, hide_token, state_of}
use laya_rs.Smoke.Service.{docker, inspect}

-- Every value is a text that does not set the token.
abbrev pub NoToken : Items → Type 0
NoToken nil = Unit
NoToken (item (text s) rest) = (starts_with "LAYA_API_TOKEN=" s ≡ false) × NoToken rest
NoToken (item _ rest) = ⊥

items_inj : (a b : Items) → ◌≡◌ {A = Raises Items} (ok a) (ok b) → a ≡ b
items_inj a b h = cc

json_inj : (a b : Json) → ◌≡◌ {A = Raises Json} (ok a) (ok b) → a ≡ b
json_inj a b h = cc

keep_one-NoToken :
    (s : String) (others kept : Items)
    → elim (starts_with "LAYA_API_TOKEN=" s) as (λ b. Raises Items) [
      | true ↦ ok others
      | false ↦ ok (item (text s) others)
    ]
      ≡ ok kept
    → NoToken others
    → NoToken kept
keep_one-NoToken s others kept h rest = elim (Bool-cases (starts_with "LAYA_API_TOKEN=" s)) [
  | inl secret ↦ subst NoToken (items_inj others kept (rw secret at h)) rest
  | inr plain ↦ subst NoToken (items_inj (item (text s) others) kept (rw plain at h)) (plain, rest)
]

without_token-NoToken : (values kept : Items) → without_token values ≡ ok kept → NoToken kept
unfolding without_token
without_token-NoToken nil kept h = subst NoToken (items_inj nil kept h) tt
without_token-NoToken (item (text s) rest) kept h =
    let (others, e, h1) = >>=-eq-ok (without_token rest) _ h in
    keep_one-NoToken s others kept h1 (without_token-NoToken rest others e)
without_token-NoToken (item null rest) kept h = cc
without_token-NoToken (item (boolean x) rest) kept h = cc
without_token-NoToken (item (number n) rest) kept h = cc
without_token-NoToken (item (array x) rest) kept h = cc
without_token-NoToken (item (object x) rest) kept h = cc

filter_env-NoToken :
    (env kept : Json)
    → filter_env env ≡ ok kept
    → (values : Items) × (kept ≡ array values) × NoToken values
unfolding filter_env
filter_env-NoToken env kept h =
    let (values, e, h1) = >>=-eq-ok (iterate env) _ h in
    let (left, e', h2) = >>=-eq-ok (without_token values) _ h1 in
    (left, sym (json_inj (array left) kept h2), without_token-NoToken values left e')

get-put : (k : String) (v j j' : Json) → put k v j ≡ ok j' → get k j' ≡ ok v
unfolding get put
get-put k v (object fs) j' h =
    subst (λ x. get k x ≡ ok v) (json_inj _ _ h) (ground (arith, find-put_field k k v fs))
get-put k v null j' h = cc
get-put k v (boolean x) j' h = cc
get-put k v (number n) j' h = cc
get-put k v (text s) j' h = cc
get-put k v (array x) j' h = cc

-- The environment in the metadata of a container.
abbrev pub env_of : Json → Raises Json
env_of state = get "Config" state >>= λ config. get "Env" config

hide_token-NoToken :
    (state shown : Json)
    → hide_token state ≡ ok shown
    → (values : Items) × (env_of shown ≡ ok (array values)) × NoToken values
unfolding hide_token
hide_token-NoToken state shown h =
    let (config, e, h1) = >>=-eq-ok (get "Config" state) _ h in
    let (env, e1, h2) = >>=-eq-ok (get "Env" config) _ h1 in
    let (kept, e2, h3) = >>=-eq-ok (filter_env env) _ h2 in
    let (config', e3, h4) = >>=-eq-ok (put "Env" kept config) _ h3 in
    let (values, kept_eq, clean) = filter_env-NoToken env kept e2 in
    let found = get-put "Config" config' state shown h4 in
    let inner = get-put "Env" kept config config' e3 in
    (values, rw (found, ◌>>=◌) (inner ∙ ap (λ j. ok j) kept_eq), clean)

module _ {W : Type 0} (host : Host W) where
  -- When `inspect` returns the metadata of a container, its environment is a list of texts, none of
  -- which sets the token.
  pub inspect-NoToken :
      (cid : String) (w : W) (state : Json)
      → (inspect host cid w).0 ≡ ok state
      → (values : Items) × (env_of state ≡ ok (array values)) × NoToken values
  unfolding inspect
  inspect-NoToken cid w state h =
      let (out, e, q) =
        >>=-ok (docker host ("inspect" ∷ cid ∷ [])) (λ out. reading (λ w. state_of host.loads out))
          w state h in
      let made : state_of host.loads out ≡ ok state = ap (λ p. p.0) q ∙ h in
      let (found, e1, h1) = >>=-eq-ok (host.loads out) _ (unfold state_of in made) in
      let (first, e2, h2) = >>=-eq-ok (first_item found) _ h1 in hide_token-NoToken first state h2
