-- ===== src/Prepare/Loop.antt =====
-- The whole checkpoint: a file that was verified is still there when the loop ends.
use laya_rs.Base.{
  ◌≡◌, sym, ap, ◌∙◌, subst, false, some, List, [], ◌∷◌, String, ◌==◌, string_eq, All,
}
use laya_rs.Base.Dict
use laya_rs.Base.Dict.{Dict}
use laya_rs.Base.Raises.{Raises, ok, require}
use laya_rs.Base.Action.{pure, reading, ◌>>=◌, >>=-ok}
use laya_rs.Prepare.{Host, Entry, Record, part_of, is_safe, download, inspect}
use laya_rs.Prepare.Checkpoint.{checkpoint_file, checkpoint_entries, path_of, url_of}
use laya_rs.Prepare.Cache.{download-keeps}
use laya_rs.Prepare.Verified.{IsVerified, checkpoint_file-IsVerified}

-- The path is not the temporary name of a later download.
abbrev Untouched : String → List Entry → Type 0
Untouched path entries = All (λ entry. (path == part_of (path_of entry)) ≡ false) entries

-- No entry has the temporary name of one behind it.
abbrev pub NoTemporary : List Entry → Type 0
NoTemporary [] = Unit
NoTemporary (entry ∷ entries) = Untouched (path_of entry) entries × NoTemporary entries

module _ {B : Type 0} (host : Host B) where
  -- One record for each entry, in order, each verified in the same files.
  pub data AllVerified (files : Dict String B) : List Entry → List Record → Type 0 where
    nothing : AllVerified files [] []
    one_more :
        {entry : Entry} {entries : List Entry} {r : Record} {records : List Record}
        → IsVerified host entry files r
        → AllVerified files entries records
        → AllVerified files (entry ∷ entries) (r ∷ records)

  checkpoint_file-state :
      (entry : Entry) (files : Dict String B) (r : Record)
      → (checkpoint_file host entry files).0 ≡ ok r
      → (download host (url_of entry) (path_of entry) files).1
        ≡ (checkpoint_file host entry files).1
  unfolding checkpoint_file
  checkpoint_file-state entry files r h =
      let fetch = download host (url_of entry) (path_of entry) in
      let last = reading (inspect host entry (path_of entry) (url_of entry)) in
      let (u, safe, q) =
        >>=-ok (reading (λ files. require (is_safe entry.rfilename))) (λ u. fetch >>= λ u. last)
          files r h in
      let (v, fetched, q') = >>=-ok fetch (λ u. last) files r (ap (λ out. out.0) q ∙ h) in
      ap (λ out. out.1) (q' ∙ q)

  checkpoint_file-keeps :
      (entry : Entry) (files : Dict String B) (r : Record) (j : String) (b : B)
      → (checkpoint_file host entry files).0 ≡ ok r
      → (j == part_of (path_of entry)) ≡ false
      → Dict.lookup j files ≡ some b
      → Dict.lookup j (checkpoint_file host entry files).1 ≡ some b
  checkpoint_file-keeps entry files r j b h k there =
      ap (λ d. Dict.lookup j d) (sym (checkpoint_file-state entry files r h))
      ∙ download-keeps host (url_of entry) (path_of entry) j files (rw (there, Dict.contains_key)) k
      ∙ there

  -- The parts of a run of the loop that returns.
  record Ran (entry : Entry) (entries : List Entry) (files : Dict String B) (records : List Record)
      : Type 0 where
    r : Record
    rest : List Record
    first : (checkpoint_file host entry files).0 ≡ ok r
    others : (checkpoint_entries host entries (checkpoint_file host entry files).1).0 ≡ ok rest
    state :
        (checkpoint_entries host entries (checkpoint_file host entry files).1).1
        ≡ (checkpoint_entries host (entry ∷ entries) files).1
    records_eq : r ∷ rest ≡ records

  list_inj : (a b : List Record) → ◌≡◌ {A = Raises (List Record)} (ok a) (ok b) → a ≡ b
  list_inj a b h = cc

  checkpoint_entries-Ran :
      (entry : Entry) (entries : List Entry) (files : Dict String B) (records : List Record)
      → (checkpoint_entries host (entry ∷ entries) files).0 ≡ ok records
      → Ran entry entries files records
  unfolding checkpoint_entries
  checkpoint_entries-Ran entry entries files records h =
      let more = λ (r : Record). checkpoint_entries host entries >>= λ rest. pure (r ∷ rest) in
      let (r, e, q) = >>=-ok (checkpoint_file host entry) more files records h in
      let (rest, e', q') =
        >>=-ok (checkpoint_entries host entries) (λ rest. pure (r ∷ rest))
          (checkpoint_file host entry files).1 records (ap (λ out. out.0) q ∙ h) in
      record {
        r = r;
        rest = rest;
        first = e;
        others = e';
        state = ap (λ out. out.1) (q' ∙ q);
        records_eq = list_inj _ _ (ap (λ out. out.0) (q' ∙ q) ∙ h);
      }

  checkpoint_entries-keeps :
      (entries : List Entry) (files : Dict String B) (records : List Record) (j : String) (b : B)
      → (checkpoint_entries host entries files).0 ≡ ok records
      → Untouched j entries
      → Dict.lookup j files ≡ some b
      → Dict.lookup j (checkpoint_entries host entries files).1 ≡ some b
  checkpoint_entries-keeps [] files records j b h u there = unfold checkpoint_entries in there
  checkpoint_entries-keeps (entry ∷ entries) files records j b h u there =
      let ran = checkpoint_entries-Ran entry entries files records h in
      ap (λ d. Dict.lookup j d) (sym ran.state)
      ∙ checkpoint_entries-keeps entries (checkpoint_file host entry files).1 ran.rest j b
          ran.others u.1 (checkpoint_file-keeps entry files ran.r j b ran.first u.0 there)

  keep-IsVerified :
      (entry : Entry) (r : Record) (files after : Dict String B) (v : IsVerified host entry files r)
      → Dict.lookup r.path after ≡ some v.content
      → IsVerified host entry after r
  keep-IsVerified entry r files after v there = record {
    content = v.content;
    there = there;
    safe = v.safe;
    path_eq = v.path_eq;
    bytes_eq = v.bytes_eq;
    sha256_eq = v.sha256_eq;
    published = v.published;
  }

  -- When the loop over the entries of the hub returns, and no entry's path is the temporary name of a
  -- later one, there is one record for each entry, in order; and in the files that the loop leaves,
  -- each of them is still the verified file of its entry.
  pub checkpoint_entries-AllVerified :
      (entries : List Entry) (files : Dict String B) (records : List Record)
      → NoTemporary entries
      → (checkpoint_entries host entries files).0 ≡ ok records
      → AllVerified (checkpoint_entries host entries files).1 entries records
  checkpoint_entries-AllVerified [] files records n h =
      let e : ◌≡◌ {A = Raises (List Record)} (ok []) (ok records) =
        unfold checkpoint_entries in h in
      subst (λ l. AllVerified (checkpoint_entries host [] files).1 [] l) (list_inj [] records e)
        nothing
  checkpoint_entries-AllVerified (entry ∷ entries) files records n h =
      let ran = checkpoint_entries-Ran entry entries files records h in
      let before = (checkpoint_file host entry files).1 in
      let v = checkpoint_file-IsVerified host entry files ran.r ran.first in
      let kept =
        checkpoint_entries-keeps entries before ran.rest ran.r.path v.content ran.others
          (subst (λ p. Untouched p entries) (sym v.path_eq) n.0) v.there in
      subst (λ d. AllVerified d (entry ∷ entries) records) ran.state
        (subst (λ l. AllVerified (checkpoint_entries host entries before).1 (entry ∷ entries) l)
          ran.records_eq
          (one_more (keep-IsVerified entry ran.r before _ v kept)
            (checkpoint_entries-AllVerified entries before ran.rest n.1 ran.others)))
