-- ===== src/Build/Cataloged.antt =====
-- What it means that `catalog` returns.
use Prim.Native.Char.{code}
use text.Mathlib.TextLemmas.{nil-append}
use laya_rs.Base.{
  ℕ, ◌≡◌, ◌≢◌, refl, sym, ap, ◌∙◌, subst, subst₂, nat_eq, Bool, true, false, not, ◌&&◌, ◌||◌, leb,
  contains, Bool-cases, inl, inr, List, [], ◌∷◌, map, String, ◌<>◌, ◌==◌, string_eq, arith, All,
}
use laya_rs.Base.Action.{Action}
use laya_rs.Base.Steps.{◌>>=◌, pure, Runs, >>=-Runs, pure-Runs, reading-Runs}
use laya_rs.Base.Text.{is_break, decimal, join, lines_after, split_lines}
use laya_rs.Deploy.Candidate.{sort_paths}
use laya_rs.Deploy.Printing.{is_line, is_line-append, line_of, no_lines}
use laya_rs.Deploy.Announced.{decimal-is_line}
use laya_rs.Build.{Host}
use laya_rs.Build.Words.{is_safe_char, all_safe, is_safe_name}
use laya_rs.Build.Catalog.{Listed, listed_line, lines_text, list_file, list_files, catalog}
use laya_rs.Build.Inspected.{refuse_if-no}

safe_break : (c : ℕ) → is_safe_char c ≡ true → is_break c ≡ false
unfolding is_break
safe_break c h = ground arith

all_safe-is_line : (s : String) → all_safe s ≡ true → is_line s ≡ true
unfolding all_safe is_line
all_safe-is_line String.[] h = refl
all_safe-is_line (String.◌∷◌ c s) h =
    let first : is_safe_char (code c) ≡ true = ground arith in
    let rest : all_safe s ≡ true = ground arith in
    rw (safe_break (code c) first, all_safe-is_line s rest) refl

is_safe_name-is_line : (s : String) → is_safe_name s ≡ true → is_line s ≡ true
unfolding is_safe_name
is_safe_name-is_line s h = let all : all_safe s ≡ true = ground arith in all_safe-is_line s all

tab_line : is_line "\t" ≡ true
unfolding is_line is_break laya_rs.Base.ℕ_discrete
tab_line = refl

-- What the catalog says of a file stands in one line.
pub record IsListable (f : Listed) : Type 0 where
  pub safe : is_safe_name f.name ≡ true
  pub digest_line : is_line f.digest ≡ true

listed_line-is_line : (f : Listed) → IsListable f → is_line (listed_line f) ≡ true
unfolding listed_line
listed_line-is_line f h = is_line-append f.digest _ h.digest_line (
    is_line-append "\t" _ tab_line (
      is_line-append (decimal f.bytes) _ (decimal-is_line f.bytes)
        (is_line-append "\t" f.name tab_line (is_safe_name-is_line f.name h.safe))))

lines_of_text :
    (files : List Listed)
    → All IsListable files
    → split_lines (lines_text files) ≡ map listed_line files
unfolding lines_text split_lines
lines_of_text [] h = no_lines
lines_of_text (f ∷ files) (h, hs) =
    line_of "" (listed_line f) (lines_text files) (listed_line-is_line f h)
    ∙ ap (λ l. l ∷ lines_after "" false (lines_text files)) (nil-append (listed_line f))
    ∙ ap (λ ls. listed_line f ∷ ls) (lines_of_text files hs)

module _ {W : Type 0} (host : Host W) where
  -- A hexadecimal digest has no character that ends a line.
  unfoldable pub IsHexadecimal : Type 0
  IsHexadecimal =
      (path digest : String) (w w' : W)
      → Runs (host.file_digest path) w digest w'
      → is_line digest ≡ true

  module _ (root : String) where
    abbrev path_of : String → String
    path_of name = root <> ("/" <> name)

    -- What was read of a file that is listed: it is no link, its name is safe, and the digest and the
    -- size are its own.
    pub record IsRead (f : Listed) : Type 0 where
      pub no_link : (w w' : W) × Runs (host.is_symlink (path_of f.name)) w false w'
      pub safe : is_safe_name f.name ≡ true
      pub digest_eq : (w w' : W) × Runs (host.file_digest (path_of f.name)) w f.digest w'
      pub bytes_eq : (w w' : W) × Runs (host.byte_size (path_of f.name)) w f.bytes w'

    -- The files among the paths, in the order of the paths; what is no file is left out.
    pub data IsListing : List (List String) → List Listed → Type 0 where
      nothing_left : IsListing [] []
      no_file :
          {parts : List String} {paths : List (List String)} {files : List Listed} {w w' : W}
          → Runs (host.is_file (path_of (join "/" parts))) w false w'
          → IsListing paths files
          → IsListing (parts ∷ paths) files
      file_listed :
          {parts : List String} {paths : List (List String)} {f : Listed} {files : List Listed}
          {w w' : W}
          → Runs (host.is_file (path_of (join "/" parts))) w true w'
          → f.name ≡ join "/" parts
          → IsRead f
          → IsListing paths files
          → IsListing (parts ∷ paths) (f ∷ files)

    list_file-IsRead :
        (name : String) {f : Listed} {s t : W}
        → Runs (list_file host root name) s f t
        → (f.name ≡ name) × IsRead f
    unfolding list_file
    list_file-IsRead name {f} {s} {t} r = >>=-Runs r (λ linked s1 link r1.
        >>=-Runs r1 (λ _ s2 fine r2. >>=-Runs r2 (λ digest s3 hashed r3.
          >>=-Runs r3 (λ size s4 measured last.
            let ok_name =
              refuse_if-no (linked || not (is_safe_name name)) _ (reading-Runs fine).0 in
            let no_link : linked ≡ false = ground arith in
            let safe : is_safe_name name ≡ true = ground arith in
            subst (λ (g : Listed). (g.name ≡ name) × IsRead g) (pure-Runs last).0
              (
                refl,
                record {
                  no_link = (
                    s,
                    s1,
                    subst (λ b. Runs (host.is_symlink (path_of name)) s b s1) no_link link,
                  );
                  safe = safe;
                  digest_eq = (s2, s3, hashed);
                  bytes_eq = (s3, s4, measured);
                },
              )))))

    one_more :
        (parts : List String) (paths : List (List String)) (found : Bool) {files : List Listed}
        {s u t : W}
        → Runs (host.is_file (path_of (join "/" parts))) s found u
        → Runs
            (elim found as (λ x. Action W (List Listed)) [
              | false ↦ list_files host root paths
              | true ↦ do
                file ← list_file host root (join "/" parts)
                files ← list_files host root paths
                pure (file ∷ files)
            ])
            u
            files
            t
        → ((files : List Listed) (s t : W)
            → Runs (list_files host root paths) s files t
            → IsListing paths files)
        → IsListing (parts ∷ paths) files
    one_more parts paths false asked r again = no_file asked (again _ _ _ r)
    one_more parts paths true asked r again = >>=-Runs r (λ file v one r1.
        >>=-Runs r1 (λ files w others last.
          let (name_eq, read) = list_file-IsRead (join "/" parts) one in
          subst (IsListing (parts ∷ paths)) (pure-Runs last).0
            (file_listed asked name_eq read (again _ _ _ others))))

    list_files-IsListing :
        (paths : List (List String)) {files : List Listed} {s t : W}
        → Runs (list_files host root paths) s files t
        → IsListing paths files
    unfolding list_files
    list_files-IsListing [] r = subst (IsListing []) (pure-Runs r).0 nothing_left
    list_files-IsListing (parts ∷ paths) {files} {s} {t} r = >>=-Runs r (λ found u asked rest.
        one_more parts paths found asked rest (λ _ _ _ others. list_files-IsListing paths others))

    -- When `catalog` returns.
    pub record IsCataloged : Type 0 where
      pub paths : List (List String)
      pub files : List Listed
      pub paths_eq : (w w' : W) × Runs (host.paths_below root) w paths w'
      pub listing : IsListing (sort_paths paths) files
      pub written :
          (w w' : W) × Runs
            (host.write_text (root <> "/program-files.tsv") (lines_text files))
            w
            tt
            w'
      pub lines_eq : split_lines (lines_text files) ≡ map listed_line files

    listing-AllListable :
        IsHexadecimal
        → (paths : List (List String)) (files : List Listed) → IsListing paths files
        → All IsListable files
    unfolding IsHexadecimal
    listing-AllListable hex paths files nothing_left = tt
    listing-AllListable hex paths files (no_file r rest) = listing-AllListable hex _ files rest
    listing-AllListable hex paths (f ∷ files) (file_listed r name_eq read rest) =
        let (w, w', hashed) = read.digest_eq in
        (
          record { safe = read.safe; digest_line = hex _ _ w w' hashed },
          listing-AllListable hex _ files rest,
        )

    -- If digests have no line breaks: when `catalog` returns, program-files.tsv was written with one line
    -- for each file below the directory, in the order of the paths: the digest and the size that were
    -- read of it and its name; no file is a link, and each name has safe characters only.
    pub catalog-IsCataloged :
        IsHexadecimal → (s t : W) → Runs (catalog host root) s tt t → IsCataloged
    unfolding catalog
    catalog-IsCataloged hex s t r = >>=-Runs r (λ paths s1 found r1.
        >>=-Runs r1 (λ files s2 listed last.
          let listing = list_files-IsListing (sort_paths paths) listed in
          record {
            paths = paths;
            files = files;
            paths_eq = (s, s1, found);
            listing = listing;
            written = (s2, t, last);
            lines_eq =
                lines_of_text files (listing-AllListable hex (sort_paths paths) files listing);
          }))
