-- ===== src/Release/Summed.antt =====
-- The lines of SHA256SUMS, as `checksums` makes them.
use laya_rs.Base.{
  ◌≡◌, ◌≢◌, inl, inr, refl, sym, ap, ◌∙◌, Bool, true, false, some, List, [], ◌∷◌, map, select,
  String, ◌<>◌, ◌==◌, string_eq, arith, All, Bool-cases, Option-cases, ℕ_discrete,
}
use text.Mathlib.Text.{is_le}
use Prim.Native.String.{compare}
use laya_rs.Base.Dict
use laya_rs.Base.Dict.{Dict, lookup-insert}
use laya_rs.Base.Raises.{Raises, Exception, ok, raise, >>=-eq-ok as bind-eq-ok}
use laya_rs.Base.Text.{join}
use laya_rs.Release.{Host, read, digest, checksums}
use laya_rs.Release.Assets.{assets_of}
use laya_rs.Release.Publish.{matches, insert_name, sort_names, glob}

-- No asset is the file of the checksums.
abbrev pub Signable : String → Type 0
Signable name = (name == "SHA256SUMS") ≡ false

insert_name-All :
    (P : String → Type 0) (s : String) (l : List String) → P s → All P l → All P (insert_name s l)
unfolding insert_name
insert_name-All P s [] p a = (p, tt)
insert_name-All P s (t ∷ l) p a = elim (Bool-cases (is_le (compare s t))) [
  | inl le ↦ rw (le, insert_name) (p, a)
  | inr gt ↦ rw (gt, insert_name) (a.0, insert_name-All P s l p a.1)
]

sort_names-All : (P : String → Type 0) (l : List String) → All P l → All P (sort_names l)
unfolding sort_names
sort_names-All P [] a = tt
sort_names-All P (s ∷ l) a = insert_name-All P s (sort_names l) a.0 (sort_names-All P l a.1)

select-All :
    (P : String → Type 0) (p : String → Bool)
    → ((s : String) → p s ≡ true → P s)
    → (l : List String) → All P (select p l)
select-All P p h [] = tt
select-All P p h (s ∷ l) = elim (Bool-cases (p s)) [
  | inl e ↦ rw e (h s e, select-All P p h l)
  | inr e ↦ rw e (select-All P p h l)
]

list_inj : (a b : List String) → ◌≡◌ {A = Raises (List String)} (ok a) (ok b) → a ≡ b
list_inj a b h = cc

text_eq : (s t : String) → (s == t) ≡ true → s ≡ t
text_eq s t h = ground arith

-- No pattern that does not match the file of the checksums finds it.
matches-Signable :
    (prefix end : String)
    → matches prefix end "SHA256SUMS" ≡ false
    → (s : String) → matches prefix end s ≡ true
    → Signable s
matches-Signable prefix end other s e = elim (Bool-cases (s == "SHA256SUMS")) [
  | inl same ↦
      absurd (differ (sym e ∙ ap (matches prefix end) (text_eq s "SHA256SUMS" same) ∙ other))
  | inr distinct ↦ distinct
]
  where
    differ : ◌≢◌ {A = Bool} true false
    differ h = cc

pub runtimes_other : matches "laya-server-linux-" ".tar.gz" "SHA256SUMS" ≡ false
unfolding matches string_eq ℕ_discrete
runtimes_other = refl

pub sources_other : matches "runtime-sources-" ".tar.gz" "SHA256SUMS" ≡ false
unfolding matches string_eq ℕ_discrete
sources_other = refl

module _ {B : Type 0} where
  pub glob-Signable :
      (prefix end : String)
      → matches prefix end "SHA256SUMS" ≡ false
      → (files : Dict String B) → All Signable (glob prefix end files)
  unfolding glob
  glob-Signable prefix end other files = sort_names-All Signable _ (
      select-All Signable (matches prefix end) (matches-Signable prefix end other)
        (map (λ p. p.0) files))

module _ {B : Type 0} (host : Host B) where
  open host use {sha256, encode}

  -- The line of an asset with its content.
  abbrev pub sum_line : String × B → String
  sum_line p = sha256 p.1 <> ("  " <> (p.0 <> "\n"))

  -- What the checksums say of a directory: the metadata, the installer and all other assets that are
  -- there, in this order, and each line has the digest of what the asset's file holds.
  pub record Signed (files : Dict String B) : Type 0 where
    pub assets : List (String × B)
    pub names_eq : map (λ p. p.0) assets ≡ "release.env" ∷ "install.sh" ∷ assets_of files
    pub listed : Dict.lookup "SHA256SUMS" files ≡ some (encode (join "" (map sum_line assets)))
    pub present : All (λ (p : String × B). Dict.lookup p.0 files ≡ some p.1) assets

  -- Lines that stand for the files of these names.
  pub record Summed (names : List String) (files : Dict String B) (lines : List String)
      : Type 0 where
    pub found : List (String × B)
    pub names_eq : map (λ p. p.0) found ≡ names
    pub lines_eq : lines ≡ map sum_line found
    pub signable : All (λ (p : String × B). Signable p.0) found
    pub present : All (λ (p : String × B). Dict.lookup p.0 files ≡ some p.1) found

  digest-ok :
      (name : String) (files : Dict String B) (sha : String)
      → digest host name files ≡ ok sha
      → (b : B) × (Dict.lookup name files ≡ some b) × (sha ≡ sha256 b)
  unfolding digest read
  digest-ok name files sha h = elim (Option-cases (Dict.lookup name files)) [
    | inl absent ↦ absurd (raises _ _ (rw (absent, digest, read) at h))
    | inr (b, there) ↦ (b, there, sym (ok_inj _ _ (rw (there, digest, read) at h)))
  ]
    where
      raises : (e : Exception) (s : String) → ◌≢◌ {A = Raises String} (raise e) (ok s)
      raises e s h = cc

      ok_inj : (a b : String) → ◌≡◌ {A = Raises String} (ok a) (ok b) → a ≡ b
      ok_inj a b h = cc

  pub checksums-Summed :
      (names : List String) (files : Dict String B) (lines : List String)
      → All Signable names
      → checksums host names files ≡ ok lines
      → Summed names files lines
  unfolding checksums
  checksums-Summed [] files lines a h = record {
    found = [];
    names_eq = refl;
    lines_eq = sym (list_inj _ _ h);
    signable = tt;
    present = tt;
  }
  checksums-Summed (name ∷ names) files lines a h =
      let (sha, e, h1) = bind-eq-ok (digest host name files) _ h in
      let (rest, e', h2) = bind-eq-ok (checksums host names files) _ h1 in
      let (b, there, sha_eq) = digest-ok name files sha e in
      let s = checksums-Summed names files rest a.1 e' in
      record {
        found = (name, b) ∷ s.found;
        names_eq = ap (λ l. name ∷ l) s.names_eq;
        lines_eq =
            sym (list_inj _ _ h2)
            ∙ ap (λ d. (d <> ("  " <> (name <> "\n"))) ∷ rest) sha_eq
            ∙ ap (λ l. sum_line (name, b) ∷ l) s.lines_eq;
        signable = (a.0, s.signable);
        present = (there, s.present);
      }

  -- Writing the checksums leaves the assets as they are.
  pub All-insert :
      (found : List (String × B)) (files : Dict String B) (sums : B)
      → All (λ (p : String × B). Signable p.0) found
      → All (λ (p : String × B). Dict.lookup p.0 files ≡ some p.1) found
      → All
          (λ (p : String × B). Dict.lookup p.0 (Dict.insert "SHA256SUMS" sums files) ≡ some p.1)
          found
  All-insert [] files sums s a = tt
  All-insert (p ∷ found) files sums s a = (
    ground (arith, a.0, s.0, lookup-insert p.0 "SHA256SUMS" sums files),
    All-insert found files sums s.1 a.1,
  )
