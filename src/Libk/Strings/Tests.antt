-- ===== src/Libk/Strings/Tests.antt =====
-- The theorems on strings at concrete texts.
use munux.Common.{◌≡◌, ◌↔◌, refl, some, ◌==◌, if◌then◌else◌, arith}
use munux.Common.Text.{bytes_of}
use munux.Common.Int.{pos, negsuc, ◌-ℤ◌}
use munux.Common.Memory.{Memory}
use munux.Libk.Strings.{strcmp, strncmp, strchr, index_from}
use munux.Libk.Strings.Order.{strcmp_iff}

selfcheck :
    (strncmp (bytes_of "echo x") (bytes_of "echo ") 5 ≡ pos 0)
    × (strcmp (bytes_of "abc") (bytes_of "abd") ≡ negsuc 0)
unfolding strncmp strcmp ◌-ℤ◌
selfcheck = (refl, refl)

found : (strchr (bytes_of "abc") 0x163 ≡ some 2) × (strchr (bytes_of "abc") 0 ≡ some 3)
unfolding strchr index_from
found = (refl, refl)

strcmp_iff_example :
    (strcmp (bytes_of "help") (bytes_of "help!") ≡ pos 0) ↔ (bytes_of "help" ≡ bytes_of "help!")
strcmp_iff_example = strcmp_iff (bytes_of "help") (bytes_of "help!") (ground arith) (ground arith)

abbrev ab : Memory
ab q = if q == 8 then b'a' else if q == 9 then b'b' else 0
