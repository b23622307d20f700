-- ===== src/Deploy/Announced.antt =====
-- The metadata that `make_candidate` writes.
use laya_rs.Base.{
  ℕ, zero, suc, ◌+◌, ◌/◌, ◌%◌, ◌≡◌, refl, sym, ap, ◌∙◌, subst, nat_eq, Bool, true, false, Option,
  none, some, List, [], ◌∷◌, ◌<>◌, String, ◌==◌, string_eq, Bool-cases, inl, inr, arith, ltb,
  if◌then◌else◌,
}
use laya_rs.Base.Raises.{ok}
use laya_rs.Base.Dict.{Dict, insert, lookup, lookup-insert}
use laya_rs.Base.Text.{is_break, digit, decimal, decimal_with}
use laya_rs.Base.Steps.{Runs, >>=-Runs, reading-Runs, pure-Runs}
use laya_rs.Deploy.{Host}
use laya_rs.Deploy.Fields.{parse_fields, print_fields}
use laya_rs.Deploy.Candidate.{
  archive_name, version_of, updated, sha, fields, spoil_program, make_catalog, make_archive,
  announce, make_candidate,
}
use laya_rs.Deploy.Printing.{is_line, is_key, is_line-append, parse_fields-print}
use laya_rs.Deploy.Parsed.{empty_line, IsWritable, insert-IsWritable, parse_fields-IsWritable}

digit-is_line : (n : ℕ) → is_line (digit n) ≡ true
unfolding is_line is_break laya_rs.Base.ℕ_discrete
digit-is_line zero = refl
digit-is_line (suc zero) = refl
digit-is_line (suc (suc zero)) = refl
digit-is_line (suc (suc (suc zero))) = refl
digit-is_line (suc (suc (suc (suc zero)))) = refl
digit-is_line (suc (suc (suc (suc (suc zero))))) = refl
digit-is_line (suc (suc (suc (suc (suc (suc zero)))))) = refl
digit-is_line (suc (suc (suc (suc (suc (suc (suc zero))))))) = refl
digit-is_line (suc (suc (suc (suc (suc (suc (suc (suc zero)))))))) = refl
digit-is_line (suc (suc (suc (suc (suc (suc (suc (suc (suc n))))))))) = refl

decimal_with-is_line : (fuel n : ℕ) → is_line (decimal_with fuel n) ≡ true
unfolding decimal_with
decimal_with-is_line zero n = empty_line
decimal_with-is_line (suc fuel) n = elim (Bool-cases (ltb n 10)) [
  | inl small ↦ rw (small, decimal_with) (digit-is_line n)
  | inr large ↦
      rw (large, decimal_with)
        (is_line-append (decimal_with fuel (n / 10)) (digit (n % 10))
          (decimal_with-is_line fuel (n / 10)) (digit-is_line (n % 10)))
]

pub decimal-is_line : (n : ℕ) → is_line (decimal n) ≡ true
unfolding decimal
decimal-is_line n = decimal_with-is_line (n + 1) n

updated-IsWritable :
    (version digest : String) (size : ℕ) (meta : Dict String String)
    → is_line version ≡ true
    → is_line digest ≡ true
    → IsWritable meta
    → IsWritable (updated version digest size meta)
unfolding updated is_line is_key is_break laya_rs.Base.ℕ_discrete
updated-IsWritable version digest size meta h hd writable =
    insert-IsWritable "MACOS_aarch64_BYTES" (decimal size) _
      (record { key_line = refl; key_eq = refl; value_line = decimal-is_line size })
      (insert-IsWritable "MACOS_aarch64_SHA256" digest _
        (record { key_line = refl; key_eq = refl; value_line = hd })
        (insert-IsWritable "VERSION" version meta
          (record { key_line = refl; key_eq = refl; value_line = h }) writable))

-- What the installer reads of the candidate.
pub record IsAnnounced (fault digest : String) (size : ℕ) (read : Dict String String) : Type 0 where
  pub version_eq : lookup "VERSION" read ≡ some (version_of fault)
  pub digest_eq : lookup "MACOS_aarch64_SHA256" read ≡ some digest
  pub size_eq : lookup "MACOS_aarch64_BYTES" read ≡ some (decimal size)

updated-IsAnnounced :
    (fault digest : String) (size : ℕ) (meta : Dict String String)
    → IsAnnounced fault digest size (updated (version_of fault) digest size meta)
unfolding updated string_eq laya_rs.Base.ℕ_discrete
updated-IsAnnounced fault digest size meta =
    let v = insert "VERSION" (version_of fault) meta in
    let d = insert "MACOS_aarch64_SHA256" digest v in
    record {
      version_eq =
          lookup-insert "VERSION" "MACOS_aarch64_BYTES" (decimal size) d
          ∙ lookup-insert "VERSION" "MACOS_aarch64_SHA256" digest v
          ∙ lookup-insert "VERSION" "VERSION" (version_of fault) meta;
      digest_eq =
          lookup-insert "MACOS_aarch64_SHA256" "MACOS_aarch64_BYTES" (decimal size) d
          ∙ lookup-insert "MACOS_aarch64_SHA256" "MACOS_aarch64_SHA256" digest v;
      size_eq = lookup-insert "MACOS_aarch64_BYTES" "MACOS_aarch64_BYTES" (decimal size) d;
    }

module _ {W : Type 0} (host : Host W) where
  fields-Runs :
      (path : String) {d : Dict String String} {w w' : W}
      → Runs (fields host path) w d w'
      → (text : String) × (parse_fields text ≡ ok d)
  unfolding fields
  fields-Runs path r = >>=-Runs r (λ text u read last. (text, (reading-Runs last).0))

  -- A hexadecimal digest has no character that ends a line.
  unfoldable pub IsHexadecimal : Type 0
  IsHexadecimal =
      (path digest : String) (w w' : W) → Runs (sha host path) w digest w' → is_line digest ≡ true

  -- release.env of a candidate in `out`, from the release in `source`: it was written with what had been
  -- read just before of the release and of the archive in place, from `s` to `t`.
  pub record IsAnnouncement (source out fault : String) (s t : W) : Type 0 where
    pub meta : Dict String String
    pub digest : String
    pub size : ℕ
    pub text : String
    pub read : W
    pub hashed : W
    pub measured : W
    pub wrote : W
    pub shown : String
    pub source_eq : Runs (fields host (source <> "/release.env")) s meta read
    pub archive_eq : Runs (sha host (out <> ("/" <> archive_name))) read digest hashed
    pub bytes_eq : Runs (host.byte_size (out <> ("/" <> archive_name))) hashed size measured
    pub written : Runs (host.write_text (out <> "/release.env") text) measured tt wrote
    pub shown_eq : Runs (sha host (out <> ("/" <> archive_name))) wrote shown t
    pub read_back : parse_fields text ≡ ok (updated (version_of fault) digest size meta)
    pub announced : IsAnnounced fault digest size (updated (version_of fault) digest size meta)

  announce-IsAnnouncement :
      IsHexadecimal
      → (source out fault : String) {w w' : W} → is_line (version_of fault) ≡ true
      → Runs (announce host source out (version_of fault)) w tt w'
      → IsAnnouncement source out fault w w'
  unfolding announce IsHexadecimal
  announce-IsAnnouncement hex source out fault {w} {w'} line r = >>=-Runs r (λ meta s1 read r1.
      >>=-Runs r1 (λ digest s2 hashed r2. >>=-Runs r2 (λ size s3 measured r3.
        >>=-Runs r3 (λ _ s4 wrote r4. >>=-Runs r4 (λ shown s5 printed last.
          let (text, parsed) = fields-Runs (source <> "/release.env") read in
          let writable =
            updated-IsWritable (version_of fault) digest size meta line (hex _ digest _ _ hashed)
              (parse_fields-IsWritable text meta parsed) in
          record {
            meta = meta;
            digest = digest;
            size = size;
            text = print_fields (updated (version_of fault) digest size meta);
            read = s1;
            hashed = s2;
            measured = s3;
            wrote = s4;
            shown = shown;
            source_eq = read;
            archive_eq = hashed;
            bytes_eq = measured;
            written = wrote;
            shown_eq =
                subst (Runs (sha host (out <> ("/" <> archive_name))) s4 shown) (pure-Runs last).1
                  printed;
            read_back = parse_fields-print _ writable.fields writable.distinct;
            announced = updated-IsAnnounced fault digest size meta;
          })))))

  -- A candidate in `out`, made from `s` to `t`, each step from where the one before has ended.
  pub record IsCandidate (source out fault : String) (s t : W) : Type 0 where
    pub placed : W
    pub extracted : W
    pub versioned : W
    pub spoiled : W
    pub listed : W
    pub packed : W
    pub placed_eq : Runs (host.mkdir (out <> "/program")) s tt placed
    pub extracted_eq :
        Runs
          (host.extract (source <> ("/" <> archive_name)) (out <> "/program"))
          placed
          tt
          extracted
    pub versioned_eq :
        Runs
          (host.write_text (out <> "/program/VERSION") (version_of fault <> "\n"))
          extracted
          tt
          versioned
    pub spoiled_eq : Runs (spoil_program host (out <> "/program") fault) versioned tt spoiled
    pub listed_eq : Runs (make_catalog host (out <> "/program")) spoiled tt listed
    pub packed_eq :
        Runs (make_archive host (out <> "/program") (out <> ("/" <> archive_name))) listed tt packed
    pub announcement : IsAnnouncement source out fault packed t

  pub make_candidate-IsCandidate :
      IsHexadecimal
      → (source out fault : String) (w w' : W) → is_line (version_of fault) ≡ true
      → Runs (make_candidate host source out fault) w tt w'
      → IsCandidate source out fault w w'
  unfolding make_candidate
  make_candidate-IsCandidate hex source out fault w w' line r = >>=-Runs r (λ _ s1 made r1.
      >>=-Runs r1 (λ _ s2 extracted r2. >>=-Runs r2 (λ _ s3 versioned r3.
        >>=-Runs r3 (λ _ s4 spoiled r4. >>=-Runs r4 (λ _ s5 listed r5.
          >>=-Runs r5 (λ _ s6 packed last. record {
            placed = s1;
            extracted = s2;
            versioned = s3;
            spoiled = s4;
            listed = s5;
            packed = s6;
            placed_eq = made;
            extracted_eq = extracted;
            versioned_eq = versioned;
            spoiled_eq = spoiled;
            listed_eq = listed;
            packed_eq = packed;
            announcement = announce-IsAnnouncement hex source out fault line last;
          }))))))
