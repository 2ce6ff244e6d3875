-- ===== src/Core/Config/Tests.antt =====
-- The theorem on secrets at a concrete input.
use Prim.Native.String.{String}
use notes_md_app_be.Prelude.{ℕ, ◌≡◌, ◌↔◌, true, Option, none, some, length}
use notes_md_app_be.Text.{Text}
use notes_md_app_be.Core.Config.{codes, raw_env, value, env_secret}
use notes_md_app_be.Core.Config.Secrets.{source_of, is_secret, env_secret_iff}

abbrev env : String → Option Text
env name = some (codes " 0123456789abcdef ")

abbrev size : Text → ℕ
size text = length text

env_secret_iff_example :
    (env_secret env true size "KEY" none 16 ≡ value (codes "0123456789abcdef")) ↔ (
      (source_of true (raw_env env "KEY") none ≡ some (codes "0123456789abcdef"))
      × (is_secret true size 16 (codes "0123456789abcdef") ≡ true))
env_secret_iff_example = env_secret_iff env true size 16 "KEY" none (codes "0123456789abcdef")
