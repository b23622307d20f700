-- ===== src/Normalize/Safety.antt =====
-- What `rewrite` does to the files.
use laya_rs.Base.{
  ℕ, ◌≡◌, ◌⊎◌, inl, inr, Bool, true, false, not, Option, none, some, String, arith, ◌==◌, nat_eq,
  string_eq,
}
use laya_rs.Base.Dict
use laya_rs.Base.Dict.{Dict, lookup-insert}
use laya_rs.Base.Raises.{
  Raises, ok, raise, Exception, file_not_found, ◌>>◌, >>=-eq-ok, require-eq-ok, Raises-cases,
}
use laya_rs.Normalize.Relation.{expand_layer_norm-Accepted}
use laya_rs.Normalize.{Model, Files, expand_file, expand_layer_norm, rewrite}

not_eq : (b : Bool) → not b ≡ true → b ≡ false
not_eq b h = ground arith

module _ {F T : Type 0} (default_epsilon : F) (home : String → String)
    (check_model : Model F T → Raises (Unit {0})) where
  -- What an accepted graph file has passed.
  pub record Opened (source destination : String) (files : Files F T) (model' : Model F T) (n : ℕ)
      : Type 0 where
    pub model : Model F T
    pub absent : Dict.contains_key destination files ≡ false
    pub same_home : (home source == home destination) ≡ true
    pub loaded : Dict.lookup source files ≡ some model
    pub expanded : expand_layer_norm default_epsilon model ≡ ok (model', n)

  read_eq :
      (o : Option (Model F T)) (m : Model F T)
      → ◌≡◌ {A = Raises (Model F T)} (elim o [ none ↦ raise file_not_found | some m ↦ ok m ]) (ok m)
      → o ≡ some m
  read_eq o m h = ground arith

  expand_file-Opened :
      (source destination : String) (files : Files F T) (model' : Model F T) (n : ℕ)
      → expand_file default_epsilon home check_model source destination files ≡ ok (model', n)
      → Opened source destination files model' n
  unfolding expand_file
  expand_file-Opened source destination files model' n h =
      let (a, h1) = require-eq-ok _ _ h in
      let (b, h2) = require-eq-ok _ _ h1 in
      let (m, l, h3) =
        >>=-eq-ok (elim (Dict.lookup source files) [ none ↦ raise file_not_found | some m ↦ ok m ])
          _ h2 in
      record {
        model = m;
        absent = not_eq _ a;
        same_home = b;
        loaded = read_eq _ m l;
        expanded = h3;
      }

  -- `rewrite` with the parameters of this section.
  abbrev pub run : String → String → Files F T → Raises ℕ × Files F T
  run = rewrite default_epsilon home check_model

  insert_keeps :
      (j k : String) (m : Model F T) (files : Files F T)
      → Dict.contains_key k files ≡ false
      → Dict.contains_key j files ≡ true
      → Dict.lookup j (Dict.insert k m files) ≡ Dict.lookup j files
  insert_keeps j k m files h e = ground (arith, lookup-insert j k m files)

  -- Whatever `rewrite` returns or raises, every graph file that existed before, the source among them,
  -- is the same afterwards.
  pub rewrite-keeps :
      (source destination : String) (files : Files F T) (j : String)
      → Dict.contains_key j files ≡ true
      → Dict.lookup j (run source destination files).1 ≡ Dict.lookup j files
  unfolding rewrite
  rewrite-keeps source destination files j h =
      elim (Raises-cases (expand_file default_epsilon home check_model source destination files)) [
        | inr (e, failed) ↦ rw (failed, rewrite)
        | inl ((m, n), passed) ↦
            let o = expand_file-Opened source destination files m n passed in
            rw (passed, rewrite) (insert_keeps j destination m files o.absent h)
      ]

  -- What `rewrite` leaves: nothing changed, or the accepted model in the destination.
  abbrev pub Outcome : String → String → Files F T → Type 0
  Outcome source destination files =
      let out = run source destination files in
      ((e : Exception) × (out.0 ≡ raise e) × (out.1 ≡ files))
      ⊎ ((model : Model F T) × (n : ℕ) × Opened source destination files model n
          × (n ≡ 50)
          × (out.0 ≡ (check_model model >> ok n))
          × (Dict.lookup destination out.1 ≡ some model))

  -- `rewrite` either raises and leaves all files as they are, or it finds no destination and a source
  -- in the same directory whose model has exactly 50 layers, writes that model's expansion to the
  -- destination, and returns 50 unless the checker rejects the written graph.
  pub rewrite-Outcome :
      (source destination : String) (files : Files F T) → Outcome source destination files
  unfolding rewrite
  rewrite-Outcome source destination files =
      elim (Raises-cases (expand_file default_epsilon home check_model source destination files)) [
        | inr (e, failed) ↦ inl (e, rw (failed, rewrite), rw (failed, rewrite))
        | inl ((m, n), passed) ↦
            let o = expand_file-Opened source destination files m n passed in
            let fifty =
              (expand_layer_norm-Accepted default_epsilon o.model m n o.expanded).fifty.0 in
            inr (
              m,
              n,
              o,
              fifty,
              rw (passed, rewrite),
              rw (passed, rewrite) (found destination m files),
            )
      ]
    where
      found :
          (k : String) (m : Model F T) (files : Files F T)
          → Dict.lookup k (Dict.insert k m files) ≡ some m
      found k m files = ground (arith, lookup-insert k k m files)
