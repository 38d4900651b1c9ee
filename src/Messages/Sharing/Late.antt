-- ===== src/Messages/Sharing/Late.antt =====
-- A message that is written to after it was sent (net_con::send_msg and net_con::handle_write of
-- volt_net/src/volt/net/net_con.cpp).
use volt_net.Common.{
  ℕ, ◌<◌, ◌≡◌, leb, if◌then◌else◌, length, length-append, List, [], ◌∷◌, ◌++◌, arith,
}
use volt_net.NetCon.{NetCon, runtime_error, send_msg, handle_write}
use volt_net.Messages.Sharing.{
  MsgVector, SharedSending, throws, undefined, push_onto, write_onto, writes, begins, sends,
  send_shared, finish_shared, send_part, shared_step, shared_run,
}

-- A program that has one message and one connection.
abbrev pub one_message : NetCon → MsgVector → ℕ → SharedSending
one_message c v next_storage = record {
  con = c;
  store = record { vectors = v ∷ []; next_storage = next_storage };
  sent = [];
  outstanding = [];
}

-- A message that is sent, and to which its writer then writes at least one byte more, before all the
-- bytes that were sent are on their way: if the bytes fit into the vector's capacity, the write ends
-- and its handler throws; if they do not, the write reads storage that the vector has given up.
pub late_write :
    (grown : ℕ → ℕ) (c : NetCon) (v : MsgVector) (next_storage : ℕ) (more : List ℕ)
    → v.storage < next_storage
    → 0 < length more
    → shared_run grown
        (begins 0 ∷ writes 0 more ∷ sends 0 (length v.content) ∷ [])
        (one_message c v next_storage)
      ≡ (if leb (length (v.content ++ more)) v.capacity
          then throws runtime_error (send_msg v.content c)
          else undefined)
unfolding shared_run shared_step send_shared write_onto push_onto send_part finish_shared
    handle_write
late_write grown c v next_storage more older some_more =
    ground (arith, length-append v.content more)
