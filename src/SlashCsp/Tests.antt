-- ===== src/SlashCsp/Tests.antt =====
-- slash_csp.c on small inputs, and its theorems at inputs that meet their hypotheses.
use csh.Prelude.{◌≡◌, refl, Bytes, codes, some, List, [], ◌∷◌, true, false, get_or, take, arith}
use csh.Prelude.Int.{ℤ, pos, negsuc}
use csh.Libc.{
  strtoul, scan_number, scan_signed, scan_magnitude, skip_prefix, starts_digit, scan_digits,
  digit_of, skip_space,
}
use csh.Slash.{success}
use csh.KnownHosts.{Hosts, find_host, insert_host, known_hosts_add, at_end}
use csh.KnownHosts.Laws.{IsValid}
use csh.SlashCsp.Ident.{
  Layout, Reply, copy_reply, ident_loop, slash_csp_cmp_ident, slash_csp_cmp_ident-find_host,
}
use csh.SlashCsp.Memory.{
  Limits, poke_message, refuses, number_argument, poke_checked, slash_csp_cmp_peek,
  slash_csp_cmp_poke, Fits, slash_csp_cmp-Fits,
}

abbrev layout : Layout
layout = record {
  size = 6;
  cmp_ident = 1;
  code = λ msg. get_or msg 1 0;
  hostname = λ msg. take 3 (get_or msg 2 0 ∷ get_or msg 3 0 ∷ get_or msg 4 0 ∷ []);
}

abbrev hosts : Hosts
hosts = record {
  known = record { node = pos 9; name = codes "obc" } ∷ [];
  storage_size = 0;
  env = [];
}

abbrev replies : List Reply
replies =
    record { src = pos 9; content = 255 ∷ 1 ∷ codes "new"; allocates = true }
    ∷ record { src = pos 4; content = 255 ∷ 1 ∷ []; allocates = true }
    ∷ []

-- A host whose answer ends behind its code gets the name of the host that answered before it.
short_reply :
    find_host (pos 4) (ident_loop layout false replies [] hosts).known
    ≡ some (record { node = pos 4; name = codes "new" })
unfolding find_host ident_loop copy_reply known_hosts_add insert_host
short_reply = refl

slash_csp_cmp_ident-find_host_example :
    IsValid
      (slash_csp_cmp_ident layout (λ n. some replies) false (pos 9) (some 0) [] [] hosts).1.known
    × (find_host
          (pos 9)
          (slash_csp_cmp_ident layout
            (λ n. some replies)
            false
            (pos 9)
            (some 0)
            []
            []
            hosts).1.known
        ≡ some (record { node = pos 9; name = codes "obc" }))
unfolding find_host
slash_csp_cmp_ident-find_host_example =
    slash_csp_cmp_ident-find_host layout (λ n. some replies) (pos 9) (some 0) [] [] hosts (pos 9)
      (record { node = pos 9; name = codes "obc" }) ((λ e. cc), omega arith, refl, tt) refl

abbrev limits : Limits
limits = record {
  peek_max_len = 200;
  peek_v2_max_len = 196;
  poke_max_len = 200;
  poke_v2_max_len = 196;
}

abbrev poke_words : List Bytes
poke_words = codes "poke" ∷ codes "1f" ∷ codes "zz" ∷ []

-- the answer of a decoder to a text that is not of hexadecimal digits
abbrev fails_on : Bytes → ℤ × Bytes
fails_on text = (negsuc 21, [])

-- A text that is not decoded is poked with the error as its length.
pokes_error :
    slash_csp_cmp_poke limits fails_on (λ m. true) 1 (some 0) poke_words
    ≡ (success, some (poke_message 1 31 (negsuc 21) []))
unfolding slash_csp_cmp_poke poke_checked number_argument refuses strtoul scan_number scan_signed
    scan_magnitude skip_prefix starts_digit scan_digits digit_of skip_space at_end
pokes_error = refl

slash_csp_cmp-Fits_example :
    Fits limits (slash_csp_cmp_peek limits (λ m. true) 1 (some 0) poke_words)
    × Fits limits (slash_csp_cmp_poke limits fails_on (λ m. true) 1 (some 0) poke_words)
slash_csp_cmp-Fits_example =
    slash_csp_cmp-Fits limits fails_on (λ m. true) 1 (some 0) poke_words (λ text. omega arith)
