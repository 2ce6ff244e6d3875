-- ===== src/Security/SecretBox/Tests.antt =====
-- The theorem on sealed secrets at a concrete input.
use notes_md_app_be.Prelude.{◌≡◌, some, none, if◌then◌else◌, str_eq}
use notes_md_app_be.Security.SecretBox.{encrypt, decrypt}
use notes_md_app_be.Security.SecretBox.Sealing.{decrypt-encrypt}
use notes_md_app_be.Security.SecretBox.Sample.{sample}

decrypt-encrypt_example :
    decrypt sample (encrypt sample "iv" "key:1" "ann") "ann"
    ≡ (if str_eq "ann" "ann" then some "key:1" else none)
decrypt-encrypt_example = decrypt-encrypt sample "iv" "key:1" "ann" "ann"
