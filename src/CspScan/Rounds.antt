-- ===== src/CspScan/Rounds.antt =====
-- csp_scan.c: the rounds of the scan, and the hosts it leaves.
use csh.Prelude.{
  ℕ, zero, suc, ◌+◌, ◌-◌, ◌≤◌, ◌<◌, ◌%◌, ◌^◌, ◌≡◌, refl, Bytes, Option, none, some, Bool, true,
  false, leb, arith, Bool-cases, Option-cases, inl, inr,
}
use csh.Prelude.Int.{pos}
use csh.Libc.{to_int}
use csh.KnownHosts.{Hosts}
use csh.KnownHosts.Laws.{IsValid, known_hosts_add-IsValid}
use csh.CspScan.{is_wanted, scan_node, scan_loop}

module _ (alloc : Bool) (csp_ping : ℕ → Bool) (csp_cmp_ident : ℕ → Option Bytes)
    (interrupted : ℕ → Bool) where
  module _ (search_str : Option Bytes) (override : Bool) where
    scan_node-IsValid :
        (i : ℕ) (hosts : Hosts)
        → IsValid hosts.known
        → IsValid
            (scan_node alloc csp_ping csp_cmp_ident interrupted search_str override i hosts).known
    unfolding scan_node
    scan_node-IsValid i hosts v = elim (Bool-cases (csp_ping i)) [
      | inr silent ↦ rw silent v
      | inl there ↦ elim (Option-cases (csp_cmp_ident i)) [
        | inl unnamed ↦ rw (there, unnamed) v
        | inr (hostname, named) ↦ elim (Bool-cases (is_wanted search_str hostname)) [
          | inr other ↦ rw (there, named, other) v
          | inl wanted ↦
              rw (there, named, wanted)
                (known_hosts_add-IsValid alloc (to_int (pos i)) hostname override hosts v)
        ]
      ]
    ]

    -- The scan has ended, with valid hosts.
    pub record Ends (result : Option Hosts) : Type 0 where
      pub hosts : Hosts
      pub ended : result ≡ some hosts
      pub valid : IsValid hosts.known

    -- A scan up to a number below 2^32 - 1 ends within as many rounds as numbers are left and one more,
    -- whichever nodes answer, and keeps the list of hosts valid.
    pub scan_loop-Ends :
        (fuel i last : ℕ) (hosts : Hosts)
        → last < 2 ^ 32 - 1
        → i < 2 ^ 32
        → last + 1 < i + fuel
        → 0 < fuel
        → IsValid hosts.known
        → Ends (
            scan_loop alloc csp_ping csp_cmp_ident interrupted search_str override fuel i last
              hosts)
    unfolding scan_loop
    scan_loop-Ends zero i last hosts l b f p v = absurd (omega arith)
    scan_loop-Ends (suc fuel) i last hosts l b f p v =
        let hosts' =
          scan_node alloc csp_ping csp_cmp_ident interrupted search_str override i hosts in
        let valid = scan_node-IsValid i hosts v in
        elim (Bool-cases (leb i last)) [
          | inr beyond ↦ rw beyond (record { hosts = hosts; ended = refl; valid = v })
          | inl within ↦ elim (Bool-cases (interrupted i)) [
            | inl stopped ↦
                rw (within, stopped) (record { hosts = hosts'; ended = refl; valid = valid })
            | inr on ↦
                let le : i ≤ last = ground arith in
                let next : (i + 1) % 2 ^ 32 ≡ i + 1 = omega arith in
                rw (within, on)
                  (rw next (
                    scan_loop-Ends fuel (i + 1) last hosts' l (omega arith) (omega arith)
                      (omega arith) valid))
          ]
        ]

    -- Without an interruption, a scan up to 2^32 - 1 does not end, however many rounds it is given.
    pub scan_loop_endless :
        (fuel i : ℕ) (hosts : Hosts)
        → ((n : ℕ) → interrupted n ≡ false)
        → i < 2 ^ 32
        → scan_loop alloc csp_ping csp_cmp_ident interrupted search_str override fuel i
            (2 ^ 32 - 1)
            hosts
          ≡ none
    unfolding scan_loop
    scan_loop_endless zero i hosts on b = refl
    scan_loop_endless (suc fuel) i hosts on b =
        let hosts' =
          scan_node alloc csp_ping csp_cmp_ident interrupted search_str override i hosts in
        let within : leb i (2 ^ 32 - 1) ≡ true = ground arith in
        rw (within, on i) (scan_loop_endless fuel ((i + 1) % 2 ^ 32) hosts' on (omega arith))
