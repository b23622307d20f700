-- ===== src/Release/Model.antt =====
-- The verification at the head of `pack_model`: every file of the manifest, before anything is packed.
use laya_rs.Base.{
  ℕ, ◌≡◌, ◌↔◌, inl, inr, refl, Bool, true, false, ◌&&◌, some, List, [], ◌∷◌, String, ◌<>◌, ◌==◌,
  nat_eq, string_eq, arith, All, Bool-cases,
}
use laya_rs.Base.Dict
use laya_rs.Base.Dict.{Dict}
use laya_rs.Base.Raises.{Raises, ok, raise, Exception, value_error, ◌>>=◌, ◌>>◌, >>=-eq-ok}
use laya_rs.Release.{Host, read}
use laya_rs.Release.Metadata.{demand}

-- An entry of the manifest's `files`.
pub record ManifestEntry : Type 0 where
  pub path : String
  pub bytes : ℕ
  pub sha256 : String

abbrev pub failed : ManifestEntry → String
failed entry = "Model verification failed: " <> entry.path

module _ {B : Type 0} (host : Host B) (is_symlink : String → Bool) where
  -- The body of the loop.
  unfoldable pub verify_file : ManifestEntry → Dict String B → Raises (Unit {0})
  unfolding read
  verify_file entry files = elim (is_symlink entry.path) [
    | true ↦ raise (value_error (failed entry))
    | false ↦ do
      content ← read entry.path files
      demand (host.size content == entry.bytes && host.sha256 content == entry.sha256)
          (failed entry)
  ]

  unfoldable pub verify_files : List ManifestEntry → Dict String B → Raises (Unit {0})
  unfolding verify_file
  verify_files [] files = ok tt
  verify_files (entry ∷ entries) files = do verify_file entry files; verify_files entries files

  -- The file is there, itself and no link, with the size and the digest of the manifest.
  pub record IsIntact (files : Dict String B) (entry : ManifestEntry) : Type 0 where
    pub content : B
    pub no_link : is_symlink entry.path ≡ false
    pub there : Dict.lookup entry.path files ≡ some content
    pub same_size : host.size content ≡ entry.bytes
    pub same_sha256 : host.sha256 content ≡ entry.sha256

  read-ok :
      (path : String) (files : Dict String B) (b : B)
      → read path files ≡ ok b
      → Dict.lookup path files ≡ some b
  unfolding read
  read-ok path files b h = ground arith

  demand-ok :
      (m n : ℕ) (s t message : String)
      → demand (m == n && s == t) message ≡ ok tt
      → (m ≡ n) × (s ≡ t)
  demand-ok m n s t message h = ground arith

  verify_file-IsIntact :
      (entry : ManifestEntry) (files : Dict String B)
      → verify_file entry files ≡ ok tt
      → IsIntact files entry
  unfolding verify_file
  verify_file-IsIntact entry files h = elim (Bool-cases (is_symlink entry.path)) [
    | inl link ↦ absurd (refuse _ (rw (link, verify_file) at h))
    | inr plain ↦
        let (content, e, h1) = >>=-eq-ok (read entry.path files) _ (rw (plain, verify_file) at h) in
        let (a, b) = demand-ok _ _ _ _ _ h1 in
        record {
          content = content;
          no_link = plain;
          there = read-ok entry.path files content e;
          same_size = a;
          same_sha256 = b;
        }
  ]
    where
      refuse : (e : Exception) → ◌≡◌ {A = Raises (Unit {0})} (raise e) (ok tt) → ⊥
      refuse e h = cc

  IsIntact-verify_file :
      (entry : ManifestEntry) (files : Dict String B)
      → IsIntact files entry
      → verify_file entry files ≡ ok tt
  unfolding verify_file read
  IsIntact-verify_file entry files g =
      rw (g.no_link, g.there, g.same_size, g.same_sha256, read, verify_file)
        (accept entry.bytes entry.sha256 (failed entry))
    where
      accept : (n : ℕ) (s message : String) → demand (n == n && s == s) message ≡ ok tt
      accept n s message = ground arith

  -- The verification accepts a directory exactly if every file of the manifest is there, is no link,
  -- and has the size and the digest that the manifest names.
  pub verify_files_iff :
      (entries : List ManifestEntry) (files : Dict String B)
      → (verify_files entries files ≡ ok tt) ↔ All (IsIntact files) entries
  unfolding verify_files
  verify_files_iff [] files = (λ h. tt, λ a. refl)
  verify_files_iff (entry ∷ entries) files = (
    λ h.
        let (u, e, h1) = >>=-eq-ok (verify_file entry files) _ h in
        (verify_file-IsIntact entry files e, (verify_files_iff entries files).0 h1),
    λ a.
        rw (IsIntact-verify_file entry files a.0, verify_files)
          ((verify_files_iff entries files).1 a.1),
  )
