-- ===== src/Release/Packed.antt =====
-- What it means that `pack_model` returns.
use laya_rs.Base.{
  ◌≡◌, ◌≢◌, refl, ap, ◌∙◌, subst, Bool, false, some, List, [], ◌∷◌, String, ◌==◌, ==_refl,
  string_eq, All,
}
use laya_rs.Base.Dict
use laya_rs.Base.Dict.{Dict, lookup-insert}
use laya_rs.Base.Raises.{Raises, ok, raise}
use laya_rs.Base.Checked.{>>=-returns}
use laya_rs.Release.{Host, read, model_id}
use laya_rs.Release.Model.{ManifestEntry, verify_files_iff, IsIntact}
use laya_rs.Release.Pack.{
  Member, Packing, PackSource, member_of, add_members, target_of, repository_manifest, sources_of,
  prepare_pack, write_archive, pack_prepared, pack_model,
}

-- The members are those of the sources, in order, with what their files hold.
pub data AllAdded {B : Type 0} : List (PackSource B) → List (Member B) → Type 0 where
  none_added : AllAdded [] []
  one_added :
      {s : PackSource B} {sources : List (PackSource B)} {content : B} {members : List (Member B)}
      → read s.path s.place ≡ ok content
      → AllAdded sources members
      → AllAdded (s ∷ sources) (member_of s.name content ∷ members)

one_more :
    {B : Type 0} (s : PackSource B) (sources : List (PackSource B)) (members : List (Member B))
    (found : Raises B)
    → read s.path s.place ≡ found
    → ((ms : List (Member B)) → add_members sources ≡ (ok tt, ms) → AllAdded sources ms)
    → ◌≡◌ {A = Raises (Unit {0}) × List (Member B)}
        (elim found as (λ x. Raises (Unit {0}) × List (Member B)) [
          | raise e ↦ (raise e, [])
          | ok content ↦
              ((add_members sources).0, member_of s.name content ∷ (add_members sources).1)
        ])
        (ok tt, members)
    → AllAdded (s ∷ sources) members
one_more {B} s sources members (raise e) found again h = absurd (never (ap (λ p. p.0) h))
  where
    never : ◌≢◌ {A = Raises (Unit {0})} (raise e) (ok tt)
    never x = cc
one_more {B} s sources members (ok content) found again h =
    let rest = again (add_members sources).1 (ap (λ p. (p.0, (add_members sources).1)) h) in
    subst (AllAdded (s ∷ sources)) (ap (λ p. p.1) h) (one_added found rest)

add_members-AllAdded :
    {B : Type 0} (sources : List (PackSource B)) (members : List (Member B))
    → add_members sources ≡ (ok tt, members)
    → AllAdded sources members
unfolding add_members
add_members-AllAdded [] members h = subst (AllAdded []) (ap (λ p. p.1) h) none_added
add_members-AllAdded {B} (s ∷ sources) members h =
    one_more s sources members (read s.path s.place) refl (λ ms. add_members-AllAdded sources ms) h

module _ {B : Type 0} (host : Host B) (packing : Packing B) (is_symlink : String → Bool)
    (root directory : Dict String B) where
  -- What `pack_model` has written, into `out`, with `left` as the outcome.
  pub record IsPacked (out left : Dict String B) : Type 0 where
    pub content : B
    pub entries : List ManifestEntry
    pub id : String
    pub members : List (Member B)
    pub manifest_eq : read repository_manifest root ≡ ok content
    pub entries_eq : packing.entries_of content ≡ ok entries
    pub intact : All (IsIntact host is_symlink directory) entries
    pub id_eq : model_id host root ≡ ok id
    pub added : AllAdded (sources_of root directory entries) members
    pub archive_eq : Dict.lookup (target_of id) left ≡ some (packing.tar_gz members)
    pub others_eq :
        (name : String)
        → (name == target_of id) ≡ false
        → Dict.lookup name left ≡ Dict.lookup name out

  written :
      (entries : List ManifestEntry) (id : String) (content : B)
      (packed : Raises (Unit {0}) × List (Member B)) (out left : Dict String B)
      → add_members (sources_of root directory entries) ≡ packed
      → read repository_manifest root ≡ ok content
      → packing.entries_of content ≡ ok entries
      → All (IsIntact host is_symlink directory) entries
      → model_id host root ≡ ok id
      → write_archive host packing is_symlink root directory (target_of id) packed out
        ≡ (ok tt, left)
      → IsPacked out left
  unfolding write_archive
  written entries id content (raise e, members) out left added m es intact i h =
      absurd (never (ap (λ p. p.0) h))
    where
      never : ◌≢◌ {A = Raises (Unit {0})} (raise e) (ok tt)
      never x = cc
  written entries id content (ok u, members) out left added m es intact i h =
      let same : Dict.insert (target_of id) (packing.tar_gz members) out ≡ left = ap (λ p. p.1) h in
      subst (IsPacked out) same (record {
        content = content;
        entries = entries;
        id = id;
        members = members;
        manifest_eq = m;
        entries_eq = es;
        intact = intact;
        id_eq = i;
        added = add_members-AllAdded (sources_of root directory entries) members added;
        archive_eq =
            lookup-insert (target_of id) (target_of id) (packing.tar_gz members) out
            ∙ rw (==_refl (target_of id)) refl;
        others_eq = λ name other.
            lookup-insert name (target_of id) (packing.tar_gz members) out ∙ rw other refl;
      })

  prepared :
      (ready : Raises (List ManifestEntry × String)) (out left : Dict String B)
      → prepare_pack host packing is_symlink root directory ≡ ready
      → pack_prepared host packing is_symlink root directory ready out ≡ (ok tt, left)
      → IsPacked out left
  unfolding pack_prepared prepare_pack
  prepared (raise e) out left p h = absurd (never (ap (λ p. p.0) h))
    where
      never : ◌≢◌ {A = Raises (Unit {0})} (raise e) (ok tt)
      never x = cc
  prepared (ok (entries, id)) out left p h = >>=-returns _ _ p (λ content manifest p1.
      >>=-returns _ _ p1 (λ es parsed p2. >>=-returns _ _ p2 (λ _ verified p3.
        >>=-returns _ _ p3 (λ known identified last.
          let same : ◌≡◌ {A = List ManifestEntry × String} (es, known) (entries, id) = cc in
          let es_eq : es ≡ entries = ap (λ p. p.0) same in
          let id_eq : known ≡ id = ap (λ p. p.1) same in
          written entries id content (add_members (sources_of root directory entries)) out left refl
            manifest (parsed ∙ ap ok es_eq)
            (subst (All (IsIntact host is_symlink directory)) es_eq
              ((verify_files_iff host is_symlink es directory).0 verified))
            (identified ∙ ap ok id_eq) h))))

  -- When `pack_model` returns: every file of the manifest is there, no link, and has the manifest's size
  -- and digest; the file that is named by the model's identity is the archive of just these files, the
  -- manifest and the notice, in this order, with what the files hold; and no other file of the output
  -- directory has changed.
  pub pack_model-IsPacked :
      (out left : Dict String B)
      → pack_model host packing is_symlink root directory out ≡ (ok tt, left)
      → IsPacked out left
  unfolding pack_model
  pack_model-IsPacked out left h = prepared _ out left refl h
