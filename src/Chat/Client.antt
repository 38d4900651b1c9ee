-- ===== src/Chat/Client.antt =====
-- tests/single_client/single_client.cpp: main. Its standard input is a list of chars; printing, sleeping
-- and the loop that waits for the connection are not modelled.
use volt_net.Common.{
  ℕ, zero, suc, ◌+◌, ◌==◌, if◌then◌else◌, leb, Bool, true, false, ◌&&◌, ◌||◌, List, [], ◌∷◌,
}
use volt_net.Common.Int.{ℤ, pos, negsuc}
use volt_net.Defs.{Message}
use volt_net.Endian.{Host}
use volt_net.NetCon.{send_msg}
use volt_net.Network.{
  Network, NetOutcome, ok, ◌>>=◌, create, set_new_msg_handler, get_con_count, get_con_index,
  set_con, process_new_msgs,
}
use volt_net.Network.Traffic.{Event, run}
use volt_net.Network.Lifetimes.{Happening, happen_all}
use volt_net.Chat.Objects.{written}

-- std::isspace in the "C" locale.
abbrev pub is_space : ℤ → Bool
is_space (pos n) = n == b' ' || (leb 9 n && leb n 13)
is_space (negsuc n) = false

abbrev pub is_newline : ℤ → Bool
is_newline (pos n) = n == 10
is_newline (negsuc n) = false

unfoldable pub skip_spaces : List ℤ → List ℤ
skip_spaces [] = []
skip_spaces (c ∷ cs) = if is_space c then skip_spaces cs else c ∷ cs

unfoldable pub take_word : List ℤ → List ℤ × List ℤ
take_word [] = ([], [])
take_word (c ∷ cs) =
    let (word, rest) = take_word cs in if is_space c then ([], c ∷ cs) else (c ∷ word, rest)

-- `std::cin >> username`: the word, and what is left of the input.
unfoldable pub read_word : List ℤ → List ℤ × List ℤ
unfolding skip_spaces take_word
read_word input = take_word (skip_spaces input)

-- std::getline with an empty string. At the end of the input the string stays empty.
unfoldable pub getline : List ℤ → List ℤ × List ℤ
getline [] = ([], [])
getline (c ∷ cs) =
    let (line, rest) = getline cs in if is_newline c then ([], cs) else (c ∷ line, rest)

unfoldable pub chars_eq : List ℤ → List ℕ → Bool
chars_eq [] [] = true
chars_eq [] (y ∷ ys) = false
chars_eq (x ∷ xs) [] = false
chars_eq (pos x ∷ xs) (y ∷ ys) = x == y && chars_eq xs ys
chars_eq (negsuc x ∷ xs) (y ∷ ys) = false

unfoldable pub is_quit : List ℤ → Bool
unfolding chars_eq
is_quit chat_msg =
    chars_eq chat_msg (b'q' ∷ b'u' ∷ b'i' ∷ b't' ∷ [])
    || chars_eq chat_msg (b'e' ∷ b'x' ∷ b'i' ∷ b't' ∷ [])

-- What goes on outside main in a round of its loop: whether the loop's test finds error_quit set, and what
-- happens to the network while the line is read and behind the lock; a read that fails is what the
-- client sees of a server that goes away.
pub record Round : Type 0 where
  pub error_quit : Bool
  pub typing : List Happening
  pub sleeping : List Happening

-- Under the lock, where there is a connection.
unfoldable pub send_first : Message → Network → NetOutcome Network
send_first msg net =
    get_con_index 0 net
    >>= (λ con. ok (record net { connections = set_con net.connections 0 (send_msg msg con) }))

-- The loop's first `left` rounds, from the one with number `i`.
unfoldable pub chat_loop :
    Host → List ℤ → (ℕ → Round) → ℕ → ℕ → List ℤ → Network → NetOutcome Network
unfolding getline is_quit send_first
chat_loop h username around zero i input net = ok net
chat_loop h username around (suc left) i input net = elim (around i).error_quit [
  | true ↦ ok net
  | false ↦ happen_all (around i).typing net >>= (λ typed. elim (is_quit (getline input).0) [
    | true ↦ ok typed
    | false ↦ elim (get_con_count typed) [
      | zero ↦ ok typed
      | suc others ↦
          send_first (written h (record { user = username; chat_msg = (getline input).0 })) typed
          >>= (λ sent. happen_all (around i).sleeping sent >>= (λ slept.
              process_new_msgs [] slept
              >>= chat_loop h username around left (i + 1) (getline input).1))
    ]
  ])
]

-- A client that is connected after the events `connecting`, up to a round of its loop. Behind the loop it
-- calls network::close.
unfoldable pub chat : Host → (ℕ → Round) → ℕ → List Event → List ℤ → NetOutcome Network
unfolding read_word chat_loop
chat h around rounds connecting input =
    run connecting (set_new_msg_handler (create false))
    >>= chat_loop h (read_word input).0 around rounds 0 (read_word input).1
