-- ===== src/Build/Trials.antt =====
-- A crate with licenses and a build that is accepted.
use laya_rs.Base.{
  ℕ, ◌≡◌, refl, ap, subst, Bool, true, false, none, some, List, [], ◌∷◌, String, contains, leb,
  ◌&&◌, string_eq, ◌==◌,
}
use laya_rs.Base.Raises.{ok}
use laya_rs.Base.Steps.{has_run, ◌>>=◌, pure, reading, each, finally}
use laya_rs.Base.Json.{Json, nil, item, end, field, text, object, array}
use laya_rs.Build.Licenses.{Builder, is_license}
use laya_rs.Build.Assemble.{BuildArgs}
use laya_rs.Build.Main.{is_release_version, main}
use laya_rs.Build.Built.{IsBuilt, main-IsBuilt}
use laya_rs.Build.Tests.{host, hexadecimal}

abbrev is_decimal : ℕ → Bool
is_decimal c = leb 48 c && leb c 57

cargo_toml : is_license "Cargo.toml" ≡ true
unfolding is_license string_eq laya_rs.Base.ℕ_discrete
cargo_toml = refl

notices : is_license "ThirdPartyNotices.txt" ≡ true
unfolding is_license string_eq laya_rs.Base.ℕ_discrete
notices = refl

other_name : is_license "Cargo.toml.orig" ≡ false
unfolding is_license string_eq laya_rs.Base.ℕ_discrete
other_name = refl

versioned : is_release_version is_decimal "v1.2.0-rc1" ≡ true
unfolding is_release_version laya_rs.Base.ℕ_discrete
versioned = refl

unversioned : is_release_version is_decimal "v1 beta" ≡ false
unfolding is_release_version laya_rs.Base.ℕ_discrete
unversioned = refl

abbrev crate : Json
crate =
    object
      (field "source" (text "registry") (field "manifest_path" (text "/c/serde/Cargo.toml") end))

abbrev model_file : Json
model_file =
    object (field "sha256" (text "ab") (field "bytes" (text "3") (field "path" (text "m") end)))

abbrev builder : Builder ℕ
builder = record {
  copy_file = λ from to w. (ok tt, w);
  copy_tree = λ from to w. (ok tt, w);
  make_directory = λ path w. (ok tt, w);
  make_directories = λ path w. (ok tt, w);
  read_text = λ path w. (ok "", w);
  rust_sources = λ w. (ok (("lib.rs" ∷ []) ∷ []), w);
  loads = λ s. ok (
      object (
        field "packages" (array (item crate nil))
          (field "files" (array (item model_file nil)) end)));
  dumps = λ j. "{}";
  glob = λ path pattern w. (ok ("COPYRIGHT.html" ∷ []), w);
  pack = λ path members w. (ok tt, w);
  extract = λ path directory w. (ok tt, w);
  temporary_directory = λ prefix directory w. (ok "/p", w);
  remove_directory = λ path w. (ok tt, w);
  resolve = λ path w. (ok path, w);
  environ = λ name. none;
  set_environ = λ name value w. (ok tt, w);
  run_command = λ args w. (ok tt, w);
  system = "Darwin";
  machine = "arm64";
  root = "/r";
}

abbrev show : Json → String
show (text s) = s
show _ = ""

abbrev args : BuildArgs
args = record { version = "v1.2"; ort = "/ort"; out = "/out" }

builds : (main host builder show is_decimal args 0).0 ≡ ok tt
unfolding main ◌>>=◌ pure reading each finally string_eq laya_rs.Base.Steps.map_each
    laya_rs.Base.Text.decimal laya_rs.Base.Int.int_eq laya_rs.Base.ℕ_discrete
builds = refl

main-IsBuilt_example :
    IsBuilt host builder show is_decimal args 0 (main host builder show is_decimal args 0).1
main-IsBuilt_example =
    main-IsBuilt host builder show is_decimal args 0 (main host builder show is_decimal args 0).1
      hexadecimal (has_run (main host builder show is_decimal args) 0 tt builds)
