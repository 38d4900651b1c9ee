-- ===== src/Tests/Clients.antt =====
-- A client of the chat.
use volt_net.Common.{
  ℕ, ◌==◌, ◌≡◌, refl, if◌then◌else◌, map, some, false, List, [], ◌∷◌, ◌++◌, arith,
}
use volt_net.Common.Int.{ℤ, pos}
use volt_net.MsgRecPool.{notify_listeners, notify_loop}
use volt_net.NetCon.{NetCon, eof}
use volt_net.NetCon.Lifecycle.{attached, attached-IsReady, attached-id}
use volt_net.Network.{Network, ok, process_new_msgs, create, set_new_msg_handler, get_con_loop}
use volt_net.Network.Connections.{IsValid}
use volt_net.Network.Traffic.{arrived, accepted, processed, step}
use volt_net.Network.Lifetimes.{traffic, read_failed, happen, happen_all, Runs}
use volt_net.Network.Delivery.Queueing.{Delivers}
use volt_net.Network.Calls.Links.{Prepared}
use volt_net.Chat.Objects.{written}
use volt_net.Chat.Client.{getline, is_quit, Round, chat_loop}
use volt_net.Chat.Typing.{said, chat_calls}
use volt_net.Chat.Typing.Loop.{chat_loop_lem}
use volt_net.Chat.Typing.Lost.{chat_loop_lost}
use volt_net.Tests.Data.{pc}

abbrev client : Network
client = record (set_new_msg_handler (create false)) { connections = attached 0 ∷ []; next_id = 1 }

client-IsValid : IsValid client
client-IsValid = record {
  ready = (attached-IsReady 0, tt);
  below = (omega (arith, attached-id 0), tt);
  distinct = (tt, tt);
}

client-Delivers : Delivers client
unfolding create set_new_msg_handler
client-Delivers = record { same_size = refl; waits = λ e. refl; has_handler = refl; quiet = refl }

-- Bytes come in while each line is typed; Ctrl + C is pressed after three rounds.
abbrev evening : ℕ → Round
evening i = record {
  error_quit = i == 3;
  typing = traffic (arrived 0 (0 ∷ 255 ∷ [])) ∷ [];
  sleeping = traffic (arrived 0 (0 ∷ [])) ∷ traffic (accepted []) ∷ [];
}

-- "A", and behind its line "B" and no more.
abbrev name : List ℤ
name = pos b'A' ∷ []

abbrev typed : List ℤ
typed = pos b'B' ∷ pos 10 ∷ []

client-Prepared : Prepared (chat_calls pc name evening 0 5 0 (pos 10 ∷ typed)) client
unfolding chat_calls getline is_quit create set_new_msg_handler
client-Prepared = record {
  valid = client-IsValid;
  delivers = client-Delivers;
  proper = omega arith;
  room = omega arith;
}

-- The empty line, "B", and the end of the input.
said_three :
    said name evening 5 0 (pos 10 ∷ typed)
    ≡ record { user = name; chat_msg = [] }
      ∷ record { user = name; chat_msg = pos b'B' ∷ [] }
      ∷ record { user = name; chat_msg = [] }
      ∷ []
unfolding said getline is_quit
said_three = refl

chat_loop_lem_example :
    (after : Network) × (d : NetCon) × (chat_loop pc name evening 5 0 (pos 10 ∷ typed) client
      ≡ ok after)
    × (get_con_loop 0 after.connections ≡ some d)
    × (d.writes ≡ (attached 0).writes ++ map (written pc) (said name evening 5 0 (pos 10 ∷ typed)))
chat_loop_lem_example =
    chat_loop_lem pc name evening 0 5 (pos 10 ∷ typed) client (attached 0) [] refl (attached-id 0)
      client-Prepared

client-Runs : Runs client
unfolding create set_new_msg_handler
client-Runs = record {
  valid = client-IsValid;
  delivers = client-Delivers;
  running = refl;
  quiet = refl;
}

-- The server goes away while the third line is typed.
abbrev going : ℕ → Round
going i = record {
  error_quit = false;
  typing = if i == 2 then traffic processed ∷ (read_failed eof 0 ∷ []) else [];
  sleeping = [];
}

processed_client : happen_all (traffic processed ∷ []) client ≡ ok client
unfolding happen_all happen step process_new_msgs notify_listeners notify_loop create
    set_new_msg_handler
processed_client = refl

chat_loop_lost_example :
    chat_loop pc name going 6 2 typed client ≡ ok (record client { connections = [] })
chat_loop_lost_example =
    chat_loop_lost pc name going 5 2 typed (traffic processed ∷ []) eof client client (attached 0)
      refl refl processed_client client-Runs refl (λ e. cc)
