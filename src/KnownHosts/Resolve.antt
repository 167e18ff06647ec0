-- ===== src/KnownHosts/Resolve.antt =====
-- known_hosts.c: `get_host_by_addr_or_name`, on numbers, on names, and on what `$(name)` expands to.
use csh.Prelude.{
  ℕ, ◌-◌, ◌<◌, ◌≤◌, ◌^◌, ◌≡◌, refl, ◌∙◌, ap, Bytes, Option, some, [], ◌∷◌, true, false, arith, take,
  take_all, length-append, length, ◌>>=◌, bytes_eq_refl,
}
use csh.Prelude.Int.{ℤ, pos}
use csh.Libc.{strtol, format_d, to_int}
use csh.Libc.Decimal.{strtol-format_d}
use csh.Environment.{putvar}
use csh.Environment.Expand.{expand_vars}
use csh.Environment.Expand.Vars.{IsVarName, reference, expand_vars-putvar}
use csh.KnownHosts.{
  hostname_maxlen, Hosts, insert_host, known_hosts_add, same_name, get_node_loop,
  known_hosts_get_node, at_end, get_host_by_addr_or_name,
}

-- A node number below 16384, printed in decimal, resolves to itself, whatever hosts are known.
pub get_host-format_d :
    (n : ℕ) (s : Hosts)
    → n < 16384
    → get_host_by_addr_or_name (format_d (pos n)) s.known ≡ (2, some (pos n))
unfolding get_host_by_addr_or_name to_int at_end
get_host-format_d n s h = ground (arith, strtol-format_d n)

-- With memory left, after `known_hosts_add` with `override_existing` of a number from 1 to 2^31 - 1
-- under a name of at most 49 bytes that does not read as a number, `get_host_by_addr_or_name` of that
-- name finds the host name and yields the number.
pub get_host-known_hosts_add :
    (n : ℕ) (name : Bytes) (s : Hosts)
    → 0 < n
    → n < 2 ^ 31
    → length name ≤ hostname_maxlen - 1
    → at_end (strtol name).1 ≡ false
    → get_host_by_addr_or_name name (known_hosts_add true (pos n) name true s).0.known
      ≡ (1, some (pos n))
unfolding get_host_by_addr_or_name known_hosts_get_node to_int known_hosts_add insert_host
    get_node_loop same_name
get_host-known_hosts_add n name s low high short text =
    ground (arith, take_all (hostname_maxlen - 1) name short, bytes_eq_refl (take 50 name))

-- The text that a reference expands to, resolved as a host.
abbrev pub resolve_reference : Bytes → Hosts → Option (ℕ × Option ℤ)
resolve_reference name s = do
  text ← expand_vars (λ n. true) s.env (reference name)
  some (get_host_by_addr_or_name text s.known)

env-known_hosts_add :
    (n : ℕ) (name : Bytes) (s : Hosts)
    → 0 < n
    → length name ≤ hostname_maxlen - 1
    → (known_hosts_add true (pos n) name true s).0.env ≡ putvar name (format_d (pos n)) s.env
unfolding known_hosts_add insert_host
env-known_hosts_add n name s low short = ground (arith, take_all (hostname_maxlen - 1) name short)

-- With memory left, after `known_hosts_add` with `override_existing` of a number from 1 to 16383
-- under a name of at most 49 bytes without `)`, the expansion of `$(name)` resolves to that number.
pub resolve_reference-known_hosts_add :
    (n : ℕ) (name : Bytes) (s : Hosts)
    → 0 < n
    → n < 16384
    → length name ≤ hostname_maxlen - 1
    → IsVarName name
    → resolve_reference name (known_hosts_add true (pos n) name true s).0 ≡ some (2, some (pos n))
resolve_reference-known_hosts_add n name s low high short plain =
    let after = (known_hosts_add true (pos n) name true s).0 in
    let text = format_d (pos n) in
    let size : length (reference name) < 2 ^ 64 = omega (arith, length-append name (b')' ∷ [])) in
    let expanded : expand_vars (λ k. true) after.env (reference name) ≡ some text =
      ap (λ e. expand_vars (λ k. true) e (reference name)) (env-known_hosts_add n name s low short)
      ∙ expand_vars-putvar (λ k. true) s.env name text (λ k. refl) size plain in
    rw expanded (ap some (get_host-format_d n after high))
