-- ===== src/Smoke/Metadata.antt =====
-- The part of `inspect` in docs/validation/docker-smoke.py that takes the token out of the metadata.
use laya_rs.Base.{true, false, String}
use laya_rs.Base.Raises.{Raises, ok, raise, attribute_error, ◌>>=◌}
use laya_rs.Base.Text.{starts_with}
use laya_rs.Base.Json.{Json, Items, array, text, nil, item, get, put, iterate, first_item}

-- The values that do not start with the token's name. A value that is no text has no `startswith`.
unfoldable pub without_token : Items → Raises Items
unfolding starts_with
without_token nil = ok nil
without_token (item (text s) rest) = without_token rest >>= λ kept.
    elim (starts_with "LAYA_API_TOKEN=" s) [ true ↦ ok kept | false ↦ ok (item (text s) kept) ]
without_token (item _ rest) = raise attribute_error

-- `[value for value in j if not ...]`
unfoldable pub filter_env : Json → Raises Json
unfolding without_token iterate
filter_env j = do values ← iterate j; kept ← without_token values; ok (array kept)

-- `state["Config"]["Env"] = [...]`
unfoldable pub hide_token : Json → Raises Json
unfolding filter_env get put
hide_token state = do
  config ← get "Config" state
  env ← get "Env" config
  kept ← filter_env env
  config' ← put "Env" kept config
  put "Config" config' state

-- What `inspect` makes of the output of docker.
unfoldable pub state_of : (String → Raises Json) → String → Raises Json
unfolding first_item hide_token
state_of loads out = do found ← loads out; state ← first_item found; hide_token state
