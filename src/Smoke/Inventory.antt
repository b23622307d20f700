-- ===== src/Smoke/Inventory.antt =====
-- `runtime_inventory` in docs/validation/docker-smoke.py.
use laya_rs.Base.{Bool, true, false, not, List, [], ◌∷◌, String, ◌<>◌, any}
use laya_rs.Base.Raises
use laya_rs.Base.Raises.{Raises, ok, raise, require}
use laya_rs.Base.Action.{Action, reading, ◌>>=◌}
use laya_rs.Base.Text.{has_part}
use laya_rs.Base.Json.{Json, Items, nil, item, get, iterate, is_falsy}
use laya_rs.Smoke.{Host}
use laya_rs.Smoke.Service.{docker, inspect}

abbrev pub inventory_script : String
inventory_script =
    "set -eu\nid\ntest \"$(id -u)\" = 65532\n"
    <> ("test \"$(cat /sys/fs/cgroup/cpu.max)\" = '800000 100000'\n"
        <> ("test \"$(cat /sys/fs/cgroup/memory.max)\" = 12884901888\n"
            <> ("test \"$(cat /sys/fs/cgroup/memory.swap.max)\" = 0\n"
                <> ("for tool in python python3 node npm pip pip3 cargo rustc gcc g++ nvidia-smi; do\n"
                    <> ("    if command -v \"$tool\"; then exit 1; fi\ndone\n"
                        <> ("test ! -e /build && test ! -e /usr/local/cargo\n"
                            <> ("test -s /etc/ssl/certs/ca-certificates.crt\n"
                                <> ("test -s /usr/share/doc/onnxruntime/LICENSE\n"
                                    <> ("test -s /usr/share/doc/onnxruntime/ThirdPartyNotices.txt\n"
                                        <> ("test -s /usr/share/doc/laya-server/NOTICE.md\n"
                                            <> ("test -d /usr/share/doc/laya-server/dependencies/crates\n"
                                                <> ("dpkg-query -W\nldd /usr/local/bin/laya-server\n"
                                                    <> ("ldd /opt/onnxruntime/lib/libonnxruntime.so\n"
                                                        <> ("ldd /opt/onnxruntime/lib/libonnxruntime_providers_shared.so\ncat /proc/1/maps\n"
                                                            <> "if touch /models/multilingual/write-probe; then exit 1; fi\n"))))))))))))))

abbrev pub unwanted : List String
unwanted = "libcuda" ∷ "libtorch" ∷ "libnvidia" ∷ "libonnxruntime_providers_cuda" ∷ []

-- `all(not mount["RW"] for mount in ...)`, which ends at the first that is not
unfoldable pub all_read_only : Items → Raises Bool
unfolding get is_falsy
all_read_only nil = ok true
all_read_only (item mount mounts) =
    Raises.◌>>=◌ (get "RW" mount)
      λ writable. elim (is_falsy writable) [ false ↦ ok false | true ↦ all_read_only mounts ]

-- What is asserted of the script's output; `lower` is `str.lower`.
unfoldable pub check_output : (String → String) → String → Raises (Unit {0})
unfolding has_part
check_output lower output = Raises.◌>>◌ (require (not (has_part "not found" output))) (
    Raises.◌>>◌ (require (has_part "/opt/onnxruntime/lib/libonnxruntime.so.1.28.0" output))
      (require (not (any (λ s. has_part s (lower output)) unwanted))))

-- What is asserted of the container.
unfoldable pub check_mounts : Json → Raises (Unit {0})
unfolding get is_falsy iterate all_read_only
check_mounts state = Raises.◌>>=◌ (get "HostConfig" state) λ config.
    Raises.◌>>=◌ (get "ReadonlyRootfs" config) λ root. Raises.◌>>◌ (require (not (is_falsy root))) (
      Raises.◌>>=◌ (get "Mounts" state) λ mounts.
        Raises.◌>>=◌ (iterate mounts) λ values. Raises.◌>>=◌ (all_read_only values) require)

module _ {W : Type 0} (host : Host W) (lower : String → String) where
  unfoldable pub runtime_inventory : String → Action W (Unit {0})
  unfolding docker check_output inspect check_mounts
  runtime_inventory cid =
      docker host ("exec" ∷ cid ∷ "sh" ∷ "-c" ∷ inventory_script ∷ []) >>= λ output.
      reading (λ w. check_output lower output) >>= λ _.
      inspect host cid >>= λ state. reading (λ w. check_mounts state)
