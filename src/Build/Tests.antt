-- ===== src/Build/Tests.antt =====
-- An executable and a package that are accepted, and two that are not.
use laya_rs.Base.{
  ℕ, ◌≡◌, refl, ap, subst, Bool, true, false, List, [], ◌∷◌, String, ◌<>◌, ◌==◌, string_eq,
  if◌then◌else◌, contains,
}
use laya_rs.Base.Raises.{ok}
use laya_rs.Base.Steps.{has_run, ◌>>=◌, pure, reading, each}
use laya_rs.Deploy.Printing.{is_line}
use laya_rs.Build.{Host}
use laya_rs.Build.Macho.{inspect_macho, exceeds, bundled_path}
use laya_rs.Build.Catalog.{catalog}
use laya_rs.Build.Inspected.{IsPortable, inspect_macho-IsPortable}
use laya_rs.Build.Cataloged.{IsHexadecimal, IsCataloged, catalog-IsCataloged}

abbrev build_text : String
build_text = "platform MACOS\n    minos 14.0\n      sdk 15.2"

abbrev deps_text : String
deps_text =
    "/p/laya-server:\n\t@rpath/libonnxruntime.dylib (compatibility version 1.0.0)\n\t/usr/lib/libSystem.B.dylib (compatibility version 1.0.0)"

abbrev output : List String → String
output args =
    if contains args "lipo"
    then "arm64\n"
    else if contains args "vtool"
    then build_text
    else if contains args "otool"
    then deps_text
    else ""

abbrev pub host : Host ℕ
host = record {
  check_output = λ args w. (ok (output args), w);
  is_file = λ path w. (ok (contains ("/p/libonnxruntime.dylib" ∷ "/p/lib/a" ∷ []) path), w);
  is_symlink = λ path w. (ok false, w);
  file_digest = λ path w. (ok "ab12", w);
  byte_size = λ path w. (ok 34, w);
  paths_below = λ path w. (ok (("lib" ∷ []) ∷ ("lib" ∷ "a" ∷ []) ∷ []), w);
  write_text = λ path text w. (ok tt, w);
}

abbrev report : String
report = build_text <> ("\n" <> (deps_text <> ("\n" <> "")))

inspects : (inspect_macho host "/p/laya-server" "/p" 0).0 ≡ ok report
unfolding inspect_macho ◌>>=◌ pure reading each string_eq laya_rs.Base.Int.int_eq
    laya_rs.Base.ℕ_discrete
inspects = refl

-- A later minimum is refused, and so is a version of three numbers.
too_new : exceeds "minos 14.0.1" ≡ ok true
unfolding exceeds laya_rs.Base.Int.int_eq string_eq laya_rs.Base.ℕ_discrete
too_new = refl

old : exceeds "minos  13.3\n" ≡ ok false
unfolding exceeds laya_rs.Base.Int.int_eq string_eq laya_rs.Base.ℕ_discrete
old = refl

-- A path with two strokes leads out of the package.
outside_path : bundled_path "/p" "@rpath//opt/x.dylib" ≡ "/opt/x.dylib"
unfolding bundled_path laya_rs.Base.ℕ_discrete
outside_path = refl

inspect_macho-IsPortable_example : IsPortable host "/p/laya-server" "/p"
inspect_macho-IsPortable_example =
    inspect_macho-IsPortable host "/p/laya-server" "/p" report 0
      (inspect_macho host "/p/laya-server" "/p" 0).1
      (has_run (inspect_macho host "/p/laya-server" "/p") 0 report inspects)

pub hexadecimal : IsHexadecimal host
unfolding IsHexadecimal is_line laya_rs.Base.Text.is_break laya_rs.Base.ℕ_discrete
hexadecimal path digest w w' r =
    let e : ok "ab12" ≡ ok digest = ap (λ p. p.0) r.result_eq in
    let same : "ab12" ≡ digest = cc in subst (λ d. is_line d ≡ true) same refl

catalogs : (catalog host "/p" 0).0 ≡ ok tt
unfolding catalog ◌>>=◌ pure reading string_eq laya_rs.Base.ℕ_discrete laya_rs.Base.Text.decimal
catalogs = refl

catalog-IsCataloged_example : IsCataloged host "/p"
catalog-IsCataloged_example =
    catalog-IsCataloged host "/p" hexadecimal 0 (catalog host "/p" 0).1
      (has_run (catalog host "/p") 0 tt catalogs)
