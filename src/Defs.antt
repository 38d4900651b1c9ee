-- ===== src/Defs.antt =====
-- volt_net/include/volt/net/volt_net_defs.hpp and volt_net/src/volt/net/volt_net_defs.cpp.
-- A message is the list of its bytes; a number of a fixed width is a number below a power of two.
use volt_net.Common.{ℕ, ◌^◌, ◌<◌, List, []}

-- net_word is uint8_t.
abbrev pub IsWord : ℕ → Type 0
IsWord b = b < 256

abbrev pub max_buffer_size : ℕ
max_buffer_size = 2048

abbrev pub escape_val : ℕ
escape_val = 255

abbrev pub msg_end_escaped : ℕ
msg_end_escaped = 0

abbrev pub msg_origi_char : ℕ
msg_origi_char = 255

-- message_array_size is uint32_t, con_id is uint16_t.
abbrev pub message_array_size_mod : ℕ
message_array_size_mod = 2 ^ 32

abbrev pub con_id_mod : ℕ
con_id_mod = 2 ^ 16

-- message_t: a vector of net_word.
abbrev pub Message : Type 0
Message = List ℕ

abbrev pub make_message : Message
make_message = []
