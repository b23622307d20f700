-- ===== src/Smoke/Agents.antt =====
-- What `pop_agent` takes out of the answers, and what it leaves.
use laya_rs.Base.{
  ℕ, ◌≡◌, refl, sym, ap, ◌∙◌, String, subst, Option, some, none, arith, ◌==◌, string_eq, ◌⊎◌, inl,
  inr, if◌then◌else◌,
}
use laya_rs.Base.Raises.{Raises, ok, raise, key_error, ◌>>=◌, >>=-eq-ok}
use laya_rs.Base.Json.{
  Json, Fields, object, null, boolean, number, text, array, get, find, put_field, remove_field,
  find-put_field, find-remove_field, put, pop,
}
use laya_rs.Smoke.Answer.{pop_agent}

-- `j["answers"][key]["rl_agent"]`
abbrev pub agent : String → Json → Raises Json
agent key j = do answers ← get "answers" j; entry ← get key answers; get "rl_agent" entry

popped :
    (o : Option Json) {rest a j' : Json}
    → elim o as (λ x. Raises (Json × Json)) [ none ↦ raise key_error | some v ↦ ok (v, rest) ]
      ≡ ok (a, j')
    → (elim o as (λ x. Raises Json) [ none ↦ raise key_error | some v ↦ ok v ] ≡ ok a) × (j' ≡ rest)
popped none h = cc
popped (some v) h = (cc, cc)

pop-get :
    (k : String) (j : Json) {a : Json} {j' : Json}
    → pop k j ≡ ok (a, j')
    → (fs : Fields) × (j ≡ object fs) × (get k j ≡ ok a) × (j' ≡ object (remove_field k fs))
unfolding pop get
pop-get k (object fs) h = let (e, q) = popped (find k fs) h in (fs, refl, e, q)
pop-get k null h = cc
pop-get k (boolean b) h = cc
pop-get k (number n) h = cc
pop-get k (text s) h = cc
pop-get k (array xs) h = cc

put-object :
    (k : String) (v j : Json) {j' : Json}
    → put k v j ≡ ok j'
    → (fs : Fields) × (j ≡ object fs) × (j' ≡ object (put_field k v fs))
unfolding put
put-object k v (object fs) h = (fs, refl, cc)
put-object k v null h = cc
put-object k v (boolean b) h = cc
put-object k v (number n) h = cc
put-object k v (text s) h = cc
put-object k v (array xs) h = cc

abbrev found_in : Option Json → Raises Json
found_in o = elim o [ none ↦ raise key_error | some v ↦ ok v ]

get-put_same : (k : String) (v : Json) (fs : Fields) → get k (object (put_field k v fs)) ≡ ok v
unfolding get
get-put_same k v fs = ap found_in (find-put_field k k v fs) ∙ itself k v (find k fs)
  where
    itself :
        (k : String) (v : Json) (o : Option Json) → found_in (if k == k then some v else o) ≡ ok v
    itself k v o = ground arith

put_other :
    (j k : String) (v : Json) (o : Option Json) {b : Json}
    → found_in (if j == k then some v else o) ≡ ok b
    → ((j ≡ k) × (v ≡ b)) ⊎ (found_in o ≡ ok b)
put_other j k v o h = ground arith

get-put :
    (j k : String) (v : Json) (fs : Fields) {b : Json}
    → get j (object (put_field k v fs)) ≡ ok b
    → ((j ≡ k) × (v ≡ b)) ⊎ (get j (object fs) ≡ ok b)
unfolding get
get-put j k v fs h = put_other j k v (find j fs) (ap found_in (sym (find-put_field j k v fs)) ∙ h)

removed_other :
    (j k : String) (o : Option Json) {b : Json}
    → found_in (if j == k then none else o) ≡ ok b
    → found_in o ≡ ok b
removed_other j k o h = ground arith

get-remove :
    (j k : String) (fs : Fields) {b : Json}
    → get j (object (remove_field k fs)) ≡ ok b
    → get j (object fs) ≡ ok b
unfolding get
get-remove j k fs h =
    removed_other j k (find j fs) (ap found_in (sym (find-remove_field j k fs)) ∙ h)

-- What another value's answers give, the replaced value gives too.
entry_back :
    (key k : String) (entry_fs fs : Fields) {entry0 b : Json}
    → get key (object fs) ≡ ok (object entry_fs)
    → get k (object (put_field key (object (remove_field "rl_agent" entry_fs)) fs)) ≡ ok entry0
    → get "rl_agent" entry0 ≡ ok b
    → (get k (object fs) >>= λ entry. get "rl_agent" entry) ≡ ok b
entry_back key k entry_fs fs {entry0} {b} at h e =
    elim (get-put k key (object (remove_field "rl_agent" entry_fs)) fs h) [
      | inl (same, q) ↦
          let back : get "rl_agent" (object entry_fs) ≡ ok b =
            get-remove "rl_agent" "rl_agent" entry_fs
              (subst (λ x. get "rl_agent" x ≡ ok b) (sym q) e) in
          rw (same, at) back
      | inr other ↦ rw other e
    ]

agent_back :
    (key k : String) (entry_fs fs gs : Fields) {b : Json}
    → get "answers" (object gs) ≡ ok (object fs)
    → get key (object fs) ≡ ok (object entry_fs)
    → agent k (
        object (
          put_field "answers"
            (object (put_field key (object (remove_field "rl_agent" entry_fs)) fs))
            gs))
      ≡ ok b
    → agent k (object gs) ≡ ok b
agent_back key k entry_fs fs gs {b} found at h =
    let new = object (put_field key (object (remove_field "rl_agent" entry_fs)) fs) in
    let h0 : (get k new >>= λ entry. get "rl_agent" entry) ≡ ok b =
      subst (λ x. (x >>= λ answers. get k answers >>= λ entry. get "rl_agent" entry) ≡ ok b)
        (get-put_same "answers" new gs) h in
    let (entry0, got, e) = >>=-eq-ok (get k new) (λ entry. get "rl_agent" entry) h0 in
    rw found (entry_back key k entry_fs fs at got e)

-- The value that `pop_agent` gives, and what it leaves of the other keys.
pub pop_agent-lem :
    (unit : ℕ) (key : String) (j : Json) {a j' : Json}
    → pop_agent unit key j ≡ ok (a, j')
    → (agent key j ≡ ok a) × ((k : String) (b : Json) → agent k j' ≡ ok b → agent k j ≡ ok b)
unfolding pop_agent
pop_agent-lem unit key j {a} {j'} h =
    let (answers, found, h1) = >>=-eq-ok (get "answers" j) _ h in
    let (entry, at, h2) = >>=-eq-ok (get key answers) _ h1 in
    let (p, popped_eq, h3) = >>=-eq-ok (pop "rl_agent" entry) _ h2 in
    let (answers', put_eq, h4) = >>=-eq-ok (put key p.1 answers) _ h3 in
    let (j'', put_eq', h5) = >>=-eq-ok (put "answers" answers' j) _ h4 in
    let (entry_fs, is_entry, got, left) = pop-get "rl_agent" entry popped_eq in
    let (fs, is_answers, new) = put-object key p.1 answers put_eq in
    let (gs, is_j, new') = put-object "answers" answers' j put_eq' in
    let same : a ≡ p.0 = cc in
    let j_eq : j'
        ≡ object (
            put_field "answers"
              (object (put_field key (object (remove_field "rl_agent" entry_fs)) fs)) gs) =
      cc in
    (
      rw (found, at) cc,
      λ k b e. rw is_j (
          agent_back key k entry_fs fs gs (sym (ap (get "answers") is_j) ∙ found ∙ ap ok is_answers)
            (sym (ap (get key) is_answers) ∙ at ∙ ap ok is_entry)
            (subst (λ x. agent k x ≡ ok b) j_eq e)),
    )
