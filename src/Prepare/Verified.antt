-- ===== src/Prepare/Verified.antt =====
-- The records of the checkpoint.
use laya_rs.Base.{
  ℕ, ◌≡◌, refl, ap, ◌∙◌, subst, Bool, true, false, some, String, ◌==◌, nat_eq, string_eq, arith,
}
use laya_rs.Base.Dict
use laya_rs.Base.Dict.{Dict}
use laya_rs.Base.Raises.{Raises, ok, require, >>=-eq-ok, require-eq-ok}
use laya_rs.Base.Action.{reading, ◌>>=◌, >>=-ok}
use laya_rs.Prepare.{Host, Entry, Record, is_safe, is_published, open_file, download, inspect}
use laya_rs.Prepare.Checkpoint.{checkpoint_file, path_of, url_of}

require-ok : (b : Bool) → require b ≡ ok tt → b ≡ true
require-ok true h = refl
require-ok false h = cc

nat_sound : (m n : ℕ) → (m == n) ≡ true → m ≡ n
nat_sound m n h = ground arith

module _ {B : Type 0} (host : Host B) where
  open host use {sha256, size}

  -- The file of a record is there with the size and the digest that the record and the hub name, at
  -- a path below the checkpoint's directory.
  pub record IsVerified (entry : Entry) (files : Dict String B) (r : Record) : Type 0 where
    pub content : B
    pub there : Dict.lookup r.path files ≡ some content
    pub safe : is_safe entry.rfilename ≡ true
    pub path_eq : r.path ≡ path_of entry
    pub bytes_eq : (r.bytes ≡ size content) × (r.bytes ≡ entry.size)
    pub sha256_eq : r.sha256 ≡ sha256 content
    pub published : is_published host entry.publisher content ≡ true

  open_file-ok :
      (path : String) (files : Dict String B) (b : B)
      → open_file path files ≡ ok b
      → Dict.lookup path files ≡ some b
  unfolding open_file
  open_file-ok path files b h = ground arith

  rec_inj : (a b : Record) → ◌≡◌ {A = Raises Record} (ok a) (ok b) → a ≡ b
  rec_inj a b h = cc

  inspect-IsVerified :
      (entry : Entry) (files : Dict String B) (r : Record)
      → is_safe entry.rfilename ≡ true
      → inspect host entry (path_of entry) (url_of entry) files ≡ ok r
      → IsVerified entry files r
  unfolding inspect
  inspect-IsVerified entry files r safe h =
      let (content, e, h1) = >>=-eq-ok (open_file (path_of entry) files) _ h in
      let (same_size, h2) = require-eq-ok (size content == entry.size) _ h1 in
      let (published, h3) = require-eq-ok (is_published host entry.publisher content) _ h2 in
      let found = open_file-ok (path_of entry) files content e in
      let sized = nat_sound _ _ same_size in
      subst (IsVerified entry files) (rec_inj _ _ h3) (record {
        content = content;
        there = found;
        safe = safe;
        path_eq = refl;
        bytes_eq = (refl, sized);
        sha256_eq = refl;
        published = published;
      })

  -- When the loop's body returns a record for an entry of the hub, the entry's name leads nowhere else,
  -- and the file is below the checkpoint's directory, has the size that the hub names and the digest
  -- that it publishes, SHA-256 or git blob, and the record has its size and SHA-256.
  pub checkpoint_file-IsVerified :
      (entry : Entry) (files : Dict String B) (r : Record)
      → (checkpoint_file host entry files).0 ≡ ok r
      → IsVerified entry (checkpoint_file host entry files).1 r
  unfolding checkpoint_file
  checkpoint_file-IsVerified entry files r h =
      let fetch = download host (url_of entry) (path_of entry) in
      let last = reading (inspect host entry (path_of entry) (url_of entry)) in
      let (u, safe, q) =
        >>=-ok (reading (λ files. require (is_safe entry.rfilename))) (λ u. fetch >>= λ u. last)
          files r h in
      let (v, fetched, q') = >>=-ok fetch (λ u. last) files r (ap (λ out. out.0) q ∙ h) in
      subst (λ out. IsVerified entry out.1 r) (q' ∙ q)
        (inspect-IsVerified entry (fetch files).1 r (require-ok _ safe)
          (ap (λ out. out.0) (q' ∙ q) ∙ h))
