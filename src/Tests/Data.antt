-- ===== src/Tests/Data.antt =====
-- Two machines, and what the other tests share.
use volt_net.Common.{ℕ, Bool, true, false, List}
use volt_net.Defs.{Message}
use volt_net.Endian.{Host, little, big}

abbrev pub pc : Host
pc = record { layout = little; float_iec559 = true; double_iec559 = true }

abbrev pub mainframe : Host
mainframe = record { layout = big; float_iec559 = true; double_iec559 = true }

-- A handler that never closes its connection, and one that does so at the first message.
abbrev pub keeps_open : List (ℕ × Message) → Bool
keeps_open calls = false

abbrev pub closes_at_once : List (ℕ × Message) → Bool
closes_at_once calls = true
