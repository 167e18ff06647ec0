-- ===== src/HkSniffer/Tests.antt =====
-- hk_param_sniffer.c: the update of an epoch on a small table.
use csh.Prelude.{◌≡◌, refl, true, some, List, [], ◌∷◌, codes, arith}
use csh.Prelude.Int.{pos, ◌-ℤ◌}
use csh.Libc.{atoi}
use csh.HkSniffer.{UtcParam, Hk, hk_set_epoch, hk_get_epoch, hk_timeoffset}
use csh.HkSniffer.Packet.{Entry, Packet, hk_param_sniffer}
use csh.HkSniffer.Packet.Epochs.{IsKept, hk_param_sniffer-IsKept}
use csh.HkSniffer.Epochs.{IsTable, AreEpochs, SetEpoch, epoch_after, hk_set_epoch-SetEpoch}

abbrev epochs : List Hk
epochs =
    record { node = 5; local_epoch = pos 1700000000 }
    ∷ record { node = 9; local_epoch = pos 1600000000 }
    ∷ []

epochs-AreEpochs : AreEpochs epochs
unfolding hk_get_epoch
epochs-AreEpochs = ground arith

epochs-IsTable : IsTable epochs
epochs-IsTable = record { fits = ground arith; entries = epochs-AreEpochs }

-- a packet of node 9 that is newer
hk_set_epoch-SetEpoch_example :
    SetEpoch epochs 9
      (epoch_after (pos 1800000000) (pos 1650000000) true 2 (hk_get_epoch 9 epochs))
      (hk_set_epoch (pos 1800000000) (pos 1650000000) 9 true epochs)
hk_set_epoch-SetEpoch_example =
    hk_set_epoch-SetEpoch (pos 1800000000) (pos 1650000000) 9 true epochs epochs-IsTable

-- the command replaces the epoch, a packet more than a day older does not
timeoffset_9 :
    hk_get_epoch 9 (hk_timeoffset (pos 1800000000) 9 (some (codes "1590000000")) epochs)
    ≡ some (pos 1590000000)
unfolding hk_get_epoch hk_timeoffset atoi hk_set_epoch ◌-ℤ◌
timeoffset_9 = refl

packet_9 :
    hk_get_epoch 9 (hk_set_epoch (pos 1800000000) (pos 1590000000) 9 true epochs)
    ≡ some (pos 1600000000)
unfolding hk_get_epoch hk_set_epoch ◌-ℤ◌
packet_9 = refl

abbrev packet : Packet
packet = record {
  src = 5;
  sport = 13;
  length = 40;
  has_crc32 = true;
  crc32_fits = true;
  entries =
      record { id = 7; node = 0; tv_sec = 100; value = pos 1700000200 }
      ∷ record { id = 8; node = 0; tv_sec = 200; value = pos 3 }
      ∷ [];
}

abbrev utcparams : List UtcParam
utcparams = record { node = 5; paramid = 7 } ∷ []

hk_param_sniffer-IsKept_example :
    IsKept 5 epochs
      (hk_param_sniffer (pos 1800000000) (λ node id. true) utcparams packet epochs).1.hks
hk_param_sniffer-IsKept_example =
    hk_param_sniffer-IsKept (pos 1800000000) (λ node id. true) utcparams packet epochs
      epochs-IsTable

-- an epoch of 1970
abbrev early : Entry
early = record { id = 7; node = 0; tv_sec = 100; value = pos 5000 }
