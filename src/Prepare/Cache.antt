-- ===== src/Prepare/Cache.antt =====
-- Downloads as a cache: a file that is there is never fetched again or changed.
use laya_rs.Base.{
  ◌⊎◌, ◌≡◌, ◌≢◌, refl, sym, ap, ◌∙◌, Bool, true, false, none, some, [], ◌∷◌, String, ◌==◌,
  string_eq, arith, inl, inr, Bool-cases,
}
use text.Mathlib.TextLemmas.{append-nil, append_cancel_left, nil≢cons}
use laya_rs.Base.Dict
use laya_rs.Base.Dict.{Dict, lookup-insert}
use laya_rs.Prepare.{
  Host, Response, refused, broken, cut_short, complete, part_of, remove, receive, download,
}

text_eq : (s t : String) → (s == t) ≡ true → s ≡ t
text_eq s t h = ground arith

module _ {B : Type 0} where
  lookup-remove :
      (j k : String) (files : Dict String B)
      → (j == k) ≡ false
      → Dict.lookup j (remove k files) ≡ Dict.lookup j files
  unfolding remove Dict.lookup
  lookup-remove j k [] h = refl
  lookup-remove j k (p ∷ files) h = ground (arith, lookup-remove j k files h)

  other_key :
      (j k : String) (files : Dict String B)
      → Dict.contains_key j files ≡ true
      → Dict.contains_key k files ≡ false
      → (j == k) ≡ false
  other_key j k files a b = elim (Bool-cases (j == k)) [
    | inl same ↦
        absurd (differ (sym a ∙ ap (λ i. Dict.contains_key i files) (text_eq j k same) ∙ b))
    | inr distinct ↦ distinct
  ]
    where
      differ : ◌≢◌ {A = Bool} true false
      differ h = cc

module _ {B : Type 0} (host : Host B) where
  receive-keeps :
      (r : Response B) (path j : String) (files : Dict String B)
      → (j == path) ≡ false
      → (j == part_of path) ≡ false
      → Dict.lookup j (receive host r path files).1 ≡ Dict.lookup j files
  unfolding receive
  receive-keeps (refused e) path j files h k = refl
  receive-keeps (broken some_bytes e) path j files h k =
      ground (arith, lookup-insert j (part_of path) some_bytes files)
  receive-keeps (cut_short b) path j files h k = ground (
    arith,
    lookup-insert j path b (remove (part_of path) files),
    lookup-remove j (part_of path) files k,
  )
  receive-keeps (complete b) path j files h k = ground (
    arith,
    lookup-insert j path b (remove (part_of path) files),
    lookup-remove j (part_of path) files k,
  )

  -- Whatever a download returns or raises, every file that was there before is as it was, unless it
  -- has the temporary name of this download.
  pub download-keeps :
      (url path j : String) (files : Dict String B)
      → Dict.contains_key j files ≡ true
      → (j == part_of path) ≡ false
      → Dict.lookup j (download host url path files).1 ≡ Dict.lookup j files
  unfolding download
  download-keeps url path j files there k = elim (Bool-cases (Dict.contains_key path files)) [
    | inl cached ↦ rw (cached, download)
    | inr absent ↦
        rw (absent, download)
          (receive-keeps (host.fetch url) path j files (other_key j path files there absent) k)
  ]

  -- What the reads of an answer give up to their end.
  pub IsRead : Response B → B → Type 0
  IsRead r content = (r ≡ complete content) ⊎ (r ≡ cut_short content)

  receive-IsRead :
      (r : Response B) (path : String) (files : Dict String B)
      → (path == part_of path) ≡ false
      → Dict.lookup path files ≡ none
      → (content : B) → Dict.lookup path (receive host r path files).1 ≡ some content
      → IsRead r content
  unfolding receive IsRead
  receive-IsRead (refused e) path files n h content found = absurd (ground arith)
  receive-IsRead (broken some_bytes e) path files n h content found =
      absurd (ground (arith, lookup-insert path (part_of path) some_bytes files))
  receive-IsRead (cut_short b) path files n h content found =
      inr (ground (arith, lookup-insert path path b (remove (part_of path) files)))
  receive-IsRead (complete b) path files n h content found =
      inl (ground (arith, lookup-insert path path b (remove (part_of path) files)))

  path_ne_part : (path : String) → (path == part_of path) ≡ false
  path_ne_part path = elim (Bool-cases (path == part_of path)) [
    | inl same ↦ absurd (
        nil≢cons
          (append_cancel_left path "" ".part" (append-nil path ∙ text_eq path (part_of path) same)))
    | inr distinct ↦ distinct
  ]

  -- After a download of a file that was not there, whether it returns or raises, what stands under the
  -- file's name is what the reads of the answer gave up to their end: the whole answer, or its front
  -- when the connection was closed early. A request or a read that raises leaves nothing there.
  pub download-IsRead :
      (url path : String) (files : Dict String B) (content : B)
      → Dict.lookup path files ≡ none
      → Dict.lookup path (download host url path files).1 ≡ some content
      → IsRead (host.fetch url) content
  unfolding download
  download-IsRead url path files content absent found =
      receive-IsRead (host.fetch url) path files (path_ne_part path) absent content
        (rw (absent, Dict.contains_key, download) at found)
