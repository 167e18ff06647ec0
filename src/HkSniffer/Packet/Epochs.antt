-- ===== src/HkSniffer/Packet/Epochs.antt =====
-- hk_param_sniffer.c: what a packet does to the table of epochs.
use csh.Prelude.{
  ℕ, ◌≡◌, ◌≢◌, refl, ◌∙◌, Option, none, some, List, [], ◌∷◌, Bool, true, false, ◌==◌, ltb, arith,
  Bool-cases, inl, inr, ap,
}
use csh.Prelude.Int.{ℤ, pos, negsuc, eq_ℤ, ◌+ℤ◌, ◌-ℤ◌}
use csh.Locks.{to_uint32}
use csh.HkSniffer.{Hk, UtcParam, hk_get_epoch, is_illegal}
use csh.HkSniffer.Epochs.{IsTable, set_refused, hk_set_epoch-SetEpoch}
use csh.HkSniffer.Packet.{
  Entry, Sniffed, is_utcparam, read_epoch, applied_epoch, log, log_applied, node_of, sniff_loop,
  Packet, param_sniffer_crc, hk_param_sniffer,
}

-- The table is valid, and only the epoch of one node may differ.
pub record IsKept (src : ℕ) (hks after : List Hk) : Type 0 where
  pub table : IsTable after
  pub others : (k : ℕ) → k ≢ src → hk_get_epoch k after ≡ hk_get_epoch k hks

read_epoch-IsKept :
    (now : ℤ) (src node : ℕ) (entry : Entry) (nodes : List UtcParam) (hks : List Hk)
    → IsTable hks
    → IsKept src hks (read_epoch now src node entry nodes hks).1
unfolding read_epoch
read_epoch-IsKept now src node entry nodes hks v =
    elim (Bool-cases (is_utcparam node entry.id nodes)) [
      | inl time ↦
          let s = hk_set_epoch-SetEpoch now (entry.value -ℤ pos entry.tv_sec) src true hks v in
          rw time (record { table = s.table; others = λ k ne. ground (arith, s.lookup k) })
      | inr other ↦ rw other (record { table = v; others = λ k ne. refl })
    ]

log_applied-hks :
    (node : ℕ) (entry : Entry) (epoch : Option ℤ) (s : Sniffed)
    → (log_applied node entry epoch s).hks ≡ s.hks
log_applied-hks node entry none s = refl
log_applied-hks node entry (some epoch) s = refl

IsKept-trans : (src : ℕ) (a b c : List Hk) → IsKept src a b → IsKept src b c → IsKept src a c
IsKept-trans src a b c h k = record {
  table = k.table;
  others = λ n ne. k.others n ne ∙ h.others n ne;
}

sniff_loop-IsKept :
    (now : ℤ) (src : ℕ) (is_known : ℕ → ℕ → Bool) (nodes : List UtcParam) (entries : List Entry)
    (hks : List Hk)
    → IsTable hks
    → IsKept src hks (sniff_loop now src is_known nodes entries hks).hks
unfolding sniff_loop
sniff_loop-IsKept now src is_known nodes [] hks v = record { table = v; others = λ k ne. refl }
sniff_loop-IsKept now src is_known nodes (entry ∷ entries) hks v =
    let node = node_of src entry in
    let read = read_epoch now src node entry nodes hks in
    let first = read_epoch-IsKept now src node entry nodes hks v in
    let same = sniff_loop-IsKept now src is_known nodes entries hks v in
    let rest = sniff_loop-IsKept now src is_known nodes entries read.1 first.table in
    elim (Bool-cases (is_known node entry.id)) [
      | inr unknown ↦ rw unknown same
      | inl known ↦ elim (Bool-cases (entry.tv_sec == 0)) [
        | inl missing ↦ rw (known, missing) (record { table = v; others = λ k ne. refl })
        | inr timed ↦ elim (Bool-cases (ltb entry.tv_sec 1577836800)) [
          | inr absolute ↦ rw (known, timed, absolute) same
          | inl relative ↦
              rw (known, timed, relative)
                (rw
                  (log_applied-hks node entry (applied_epoch src read.0 read.1)
                    (sniff_loop now src is_known nodes entries read.1))
                  (IsKept-trans src hks read.1
                    (sniff_loop now src is_known nodes entries read.1).hks first rest))
        ]
      ]
    ]

-- Whatever a packet holds, after `hk_param_sniffer` the table of epochs is valid, with at most 16
-- nodes, none twice and no epoch before 2020, and only the epoch of the packet's source may differ.
pub hk_param_sniffer-IsKept :
    (now : ℤ) (is_known : ℕ → ℕ → Bool) (nodes : List UtcParam) (packet : Packet) (hks : List Hk)
    → IsTable hks
    → IsKept packet.src hks (hk_param_sniffer now is_known nodes packet hks).1.hks
unfolding hk_param_sniffer
hk_param_sniffer-IsKept now is_known nodes packet hks v = elim (Bool-cases (packet.sport == 13)) [
  | inr other ↦ rw other (record { table = v; others = λ k ne. refl })
  | inl port ↦ elim (Bool-cases (param_sniffer_crc packet)) [
    | inr broken ↦ rw (port, broken) (record { table = v; others = λ k ne. refl })
    | inl intact ↦
        rw (port, intact) (sniff_loop-IsKept now packet.src is_known nodes packet.entries hks v)
  ]
]

-- the epoch that a value of a time parameter stands for
abbrev pub epoch_of : Entry → ℤ
epoch_of entry = entry.value -ℤ pos entry.tv_sec

-- A value of a time parameter with a relative time stamp, from which an epoch follows that is in the
-- future or before 2020, and not -1: the table refuses that epoch, and it is applied to the value.
pub sniff_loop_refused :
    (now : ℤ) (src : ℕ) (is_known : ℕ → ℕ → Bool) (nodes : List UtcParam) (entry : Entry)
    (hks : List Hk)
    → is_known (node_of src entry) entry.id ≡ true
    → is_utcparam (node_of src entry) entry.id nodes ≡ true
    → (entry.tv_sec == 0) ≡ false
    → ltb entry.tv_sec 1577836800 ≡ true
    → is_illegal now (epoch_of entry) ≡ true
    → eq_ℤ (epoch_of entry) (negsuc 0) ≡ false
    → sniff_loop now src is_known nodes (entry ∷ []) hks
      ≡ log
          (node_of src entry)
          entry.id
          (to_uint32 (pos entry.tv_sec +ℤ epoch_of entry))
          (record { hks = hks; logged = [] })
unfolding sniff_loop read_epoch applied_epoch
sniff_loop_refused now src is_known nodes entry hks known time timed relative illegal ne =
    let epoch = epoch_of entry in
    rw (known, timed, relative, time, ne)
      (ap
        (λ t.
          log (node_of src entry) entry.id (to_uint32 (pos entry.tv_sec +ℤ epoch))
            (record { hks = t; logged = [] }))
        (set_refused now epoch src true hks illegal))
