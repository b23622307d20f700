-- ===== src/Bench/Clean.antt =====
-- Reports that count as a success, and the rows behind them.
use laya_rs.Base.Text.{decimal}
use laya_rs.Base.Json.{Json}
use laya_rs.Base.Action.{Action}
use laya_rs.Smoke.{Host}
use laya_rs.Bench.Station.{Sample, Station}
use laya_rs.Base.{
  String, ◌<>◌, ap, ◌∙◌, ℕ, ◌≤◌, ◌≡◌, ◌≢◌, sym, inl, inr, subst, true, not, List, [], ◌∷◌, nat_eq,
  string_eq, All, all, any, count, length, arith,
}
use laya_rs.Base.Raises.{Raises, ok, raise, type_error}
use laya_rs.Bench.Summary.{Row, Report, is_success, is_completed, rate, summarize}
use laya_rs.Bench.Summary.Latency.{has_key, summarize-LatencyOf}
use laya_rs.Bench.Summary.Counting.{Describes, late, summarize-Describes}
use laya_rs.Bench.Configuration.{is_zero, is_met}
use laya_rs.Bench.Measured.{LoadOf}

-- What the report of a group must say so that it counts: a request ended a minute or more after the
-- start, a hundred requests or more were answered, and every request succeeded.
pub record IsClean (measured : List Row) : Type 0 where
  pub long : any late measured ≡ true
  pub many : 100 ≤ count is_completed measured
  pub right : All (λ (r : Row). is_success r ≡ true) measured

all_right :
    (found : List Row)
    → count (λ (r : Row). not (is_success r)) found ≡ 0
    → All (λ (r : Row). is_success r ≡ true) found
all_right [] h = tt
all_right (r ∷ found) h = ground (arith, all_right found)

rate-zero : (n total : ℕ) → is_zero (rate n total) ≡ true → n ≡ 0
unfolding is_zero
rate-zero n total h = ground arith

is_met-parts :
    (r : Report) → is_met r ≡ true → (r.protocol_met ≡ true) × (is_zero r.error_rate ≡ true)
is_met-parts r h = ground arith

-- A report is made only if every outcome can be counted.
returned-has_key :
    (unit : ℕ) (found : List Row) (r : Report)
    → summarize unit found ≡ ok r
    → all has_key found ≡ true
returned-has_key unit found r e = elim (summarize-LatencyOf unit found) [
  | inl (bad, raised) ↦ absurd (impossible (sym raised ∙ e))
  | inr parts ↦ parts.0
]
  where
    impossible : ◌≢◌ {A = Raises Report} (raise type_error) (ok r)
    impossible h = cc

is_met-IsClean :
    (unit : ℕ) (found : List Row) (r : Report)
    → summarize unit found ≡ ok r
    → is_met r ≡ true
    → IsClean found
is_met-IsClean unit found r e h =
    let (r', e', d') = summarize-Describes unit found (returned-has_key unit found r e) in
    let same : r' ≡ r = cc in
    let d = subst (Describes unit found) same d' in
    let (met, zero_rate) = is_met-parts r h in
    let (long, many) = d.judged.0 met in
    let none_failed =
      rate-zero (count (λ (x : Row). not (is_success x)) found) (length found)
        (subst (λ o. is_zero o ≡ true) d.failed zero_rate) in
    record { long = long; many = many; right = all_right found none_failed }

all-split :
    (r : Report) (rs : List Report)
    → all is_met (r ∷ rs) ≡ true
    → (is_met r ≡ true) × (all is_met rs ≡ true)
all-split r rs h = ground arith

abbrev pub group_directory : String → ℕ → String
group_directory directory clients = directory <> ("/c" <> decimal clients)

module _ {W : Type 0} (host : Host W)
    (measure : String
      → String
      → Json
      → ℕ
      → ℕ
      → String
      → Action (Station W) (List Row × List Sample)) where
  -- The load that was run for a fixture with so many clients, in their directory: it came to its end,
  -- and its rows are clean.
  pub record CleanLoad (fixture : Json) (directory : String) (clients : ℕ) : Type 0 where
    pub report : Report
    pub load_eq : LoadOf host measure fixture (group_directory directory clients) clients report
    pub clean : IsClean load_eq.final.rows

  LoadOf-CleanLoad :
      (fixture : Json) (directory : String) (clients : ℕ) (r : Report)
      → LoadOf host measure fixture (group_directory directory clients) clients r
      → is_met r ≡ true
      → CleanLoad fixture directory clients
  LoadOf-CleanLoad fixture directory clients r l h = record {
    report = r;
    load_eq = l;
    clean =
        is_met-IsClean host.unit l.final.rows r
          (ap (summarize host.unit) l.same_rows ∙ l.reported_eq) h;
  }

  -- A load for each number of clients, with its report.
  pub data Loads (fixture : Json) (directory : String) : List ℕ → List Report → Type 0 where
    no_load : Loads fixture directory [] []
    and_load :
        {c : ℕ} {r : Report} {cs : List ℕ} {rs : List Report}
        → LoadOf host measure fixture (group_directory directory c) c r
        → Loads fixture directory cs rs
        → Loads fixture directory (c ∷ cs) (r ∷ rs)

  pub Loads-CleanLoad :
      {fixture : Json} {directory : String} {cs : List ℕ} {rs : List Report}
      → Loads fixture directory cs rs
      → all is_met rs ≡ true
      → All (CleanLoad fixture directory) cs
  Loads-CleanLoad no_load h = tt
  Loads-CleanLoad {fixture} {directory} (and_load {c} {r} {cs} {rs} l ls) h =
      let (one, others) = all-split r rs h in
      (LoadOf-CleanLoad fixture directory c r l one, Loads-CleanLoad ls others)
