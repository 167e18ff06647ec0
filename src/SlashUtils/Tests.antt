-- ===== src/SlashUtils/Tests.antt =====
-- slash_utils.c on small inputs.
use csh.Prelude.{◌≡◌, refl, codes, some, [], ◌∷◌, true, bytes_eq}
use csh.Libc.{strtoul}
use csh.Slash.{success}
use csh.KnownHosts.{at_end}
use csh.SlashUtils.{parse_length, is_http_url}

hexadecimal :
    parse_length (codes "upload" ∷ codes "0x1000" ∷ []) 0
    ≡ record { status = success; argi = 1; stored = some 4096 }
unfolding parse_length strtoul at_end bytes_eq
hexadecimal = refl

url : is_http_url (some (codes "http://a.b")) ≡ true
unfolding is_http_url
url = refl
