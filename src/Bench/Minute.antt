-- ===== src/Bench/Minute.antt =====
-- A load of a minute and a hundred requests, for the runs of the benchmark on a small host.
use laya_rs.Base.{
  ℕ, zero, suc, ◌+◌, ◌*◌, ◌≤◌, ◌<◌, ◌≡◌, ◌≢◌, ◌⊎◌, inl, inr, refl, ap, ◌∙◌, sym, subst, Bool, true,
  false, ◌&&◌, ◌||◌, Bool-cases, Option, none, some, List, [], ◌∷◌, ◌++◌, String, ◌==◌, nat_eq,
  string_eq, arith, if◌then◌else◌, All, contains, count, replicate, leb, get_elem?,
}
use laya_rs.Base.Json.{text}
use laya_rs.Bench.Summary.{Row, second}
use laya_rs.Bench.Load.{
  State, must_stop, claim, store, start, tick, head, returned, Reach, here, later,
}
use laya_rs.Bench.Load.Workers.{Phase, ready, calling, is_done}

abbrev minute_row : Row
minute_row = record {
  start_s = 0;
  end_s = 61 * second;
  latency_ms = 7;
  status = 200;
  outcome = text "success";
}

abbrev pub rows : ℕ → List Row
rows zero = []
rows (suc n) = rows n ++ minute_row ∷ []

-- After 61 seconds and `n` rows of the first worker.
abbrev after : ℕ → ℕ → List Row → List Phase → State
after n m found workers = record {
  elapsed = 61 * second;
  started = n;
  completed = m;
  rows = found;
  written = found;
  workers = workers;
}

not_yet :
    (n : ℕ) (found : List Row) (workers : List Phase)
    → n < 100
    → must_stop (after n n found workers) ≡ false
unfolding must_stop
not_yet n found workers h = ground arith

claimed :
    (n : ℕ) (rest : List Phase)
    → n < 100
    → claim 0 (after n n (rows n) (ready ∷ rest)) ≡ after (n + 1) n (rows n) (calling ∷ rest)
unfolding claim
claimed n rest h = rw (not_yet n (rows n) (ready ∷ rest) h) refl

-- A load that runs its first worker only.
many :
    (c n : ℕ) (rest : List Phase)
    → n ≤ 100
    → Reach (start c) (after 0 0 [] (ready ∷ rest))
    → Reach (start c) (after n n (rows n) (ready ∷ rest))
unfolding store laya_rs.Base.ℕ_discrete
many c zero rest h r = r
many c (suc n) rest h r =
    let called =
      subst (Reach (start c)) (claimed n rest (omega arith))
        (later (many c n rest (omega arith) r) (head 0 refl)) in
    let e : n + 1 ≡ suc n = omega arith in
    subst (λ k. Reach (start c) (after k k (rows (suc n)) (ready ∷ rest))) e
      (later called (returned 0 minute_row refl (omega arith)))

-- A load of `c` clients that has come to its end.
abbrev pub Ended : ℕ → Type 0
Ended c = (t : State) × Reach (start c) t × (count is_done t.workers ≡ c) × (t.rows ≡ rows 100)

ended_1 : Ended 1
unfolding claim must_stop
ended_1 = (
  _,
  later (many 1 100 [] (omega arith) (later here (tick (61 * second)))) (head 0 refl),
  refl,
  refl,
)

ended_2 : Ended 2
unfolding claim must_stop
ended_2 =
    let run = many 2 100 (ready ∷ []) (omega arith) (later here (tick (61 * second))) in
    (_, later (later run (head 0 refl)) (head 1 refl), refl, refl)

ended_4 : Ended 4
unfolding claim must_stop
ended_4 =
    let run = many 4 100 (replicate 3 ready) (omega arith) (later here (tick (61 * second))) in
    (
      _,
      later (later (later (later run (head 0 refl)) (head 1 refl)) (head 2 refl)) (head 3 refl),
      refl,
      refl,
    )

ended_8 : Ended 8
unfolding claim must_stop
ended_8 =
    let run = many 8 100 (replicate 7 ready) (omega arith) (later here (tick (61 * second))) in
    let half =
      later (later (later (later run (head 0 refl)) (head 1 refl)) (head 2 refl)) (head 3 refl) in
    (
      _,
      later (later (later (later half (head 4 refl)) (head 5 refl)) (head 6 refl)) (head 7 refl),
      refl,
      refl,
    )

abbrev pub counts : List ℕ
counts = 1 ∷ 2 ∷ 4 ∷ 8 ∷ []

one_of : (c : ℕ) → contains counts c ≡ true → (c ≡ 1) ⊎ (c ≡ 2) ⊎ (c ≡ 4) ⊎ (c ≡ 8)
one_of c h = ground arith

pub ended : (c : ℕ) → contains counts c ≡ true → Ended c
ended c h = elim (one_of c h) [
  | inl e ↦ subst Ended (sym e) ended_1
  | inr (inl e) ↦ subst Ended (sym e) ended_2
  | inr (inr (inl e)) ↦ subst Ended (sym e) ended_4
  | inr (inr (inr e)) ↦ subst Ended (sym e) ended_8
]
