-- ===== src/Lib.antt =====
-- VoltNet: messages over TCP connections, built on Boost.Asio. This library models its C++ code under
-- volt_net/ and proves what its parts do.
--
-- The program's parts and the modules that model them:
--
--   Defs         volt_net/include/volt/net/volt_net_defs.hpp: words, messages, the escape values.
--   Endian       volt_net/include/volt/net/volt_endian.hpp: is_big_endian over a host's memory layout.
--                Endian.Memory has the laws of memory images.
--   Serialize    serialize::write_into and its helpers (volt_net/include/volt/net/serialization/,
--                volt_net/src/volt/net/serialization/). Serialize.Escaping describes what they append,
--                Serialize.Wire the bytes of integers.
--   Deserialize  deserialize::read_into and its helpers; Deserialize.Bytes reads integers back.
--   Codec        the promise that a write_into and a read_into for one type give each other, as a
--                record (Codec), its instances for scalars (Codec.Scalars) and containers
--                (Codec.Containers), and the exceptions (Codec.Floats, Codec.Series).
--   Overloads    serialize::write_into and deserialize::read_into as functions on all the types that they
--                handle; Overloads.Fields adds structs, as a program does.
--   NetCon       volt_net/src/volt/net/net_con.cpp: one connection. NetCon.Parser is what the bytes
--                alone decide, NetCon.Bytes one round of handle_read's loop, NetCon.Reading the whole
--                handler, NetCon.Streams a stream in pieces, NetCon.Lifecycle opening and closing,
--                NetCon.Closing several threads that close, NetCon.Racing a read that they
--                overtake, NetCon.Writing and NetCon.Overlap the socket under send_msg,
--                NetCon.Recovery streams that are damaged.
--   MsgPool      volt_net/src/volt/net/messages/msg_pool.cpp; MsgPool.Bounds has its sizes, MsgPool.Aliasing
--                that a vector has one owner.
--   MsgRecPool   volt_net/src/volt/net/messages/msg_rec_pool.cpp; MsgRecPool.Order has the order of
--                delivery, MsgRecPool.Races several threads.
--   Messages     msg_writer, msg_reader and the event types; Messages.Exchange goes from the writer on
--                one machine to the reader on another.
--   Listener     volt_net/src/volt/net/listener.cpp.
--   Network      volt_net/src/volt/net/network.cpp: ids, connections, messages, the destructor.
--                Network.Traffic is a network that runs, with reads of its connections in any
--                order; Network.Delivery shows what its program gets, Network.Lifetimes which
--                handlers can be called for a connection that is gone, Network.Owners which thread
--                runs the destructor, Network.Locks in which order mutexes are taken.
--                Network.Calls is a program that calls its network while that runs and its
--                connections last,
--                Network.Calls.Links two such programs with a connection between them.
--   Chat         tests/single_server and tests/single_client: a server that sends each message on to all
--                its clients. Chat.Objects is what is sent, Chat.Server the server, Chat.Sending its handler,
--                Chat.Relaying one read, Chat.Broadcast a run, Chat.Reading and Chat.Talk the objects that
--                the clients get, Chat.Malformed other messages, Chat.Client a client's main, Chat.Typing
--                and Chat.Greeting what it sends of what its user types, and Chat.Typing.Lost its loop
--                when the server goes away.
--   ClientServer tests/client_server: a program that connects to itself. ClientServer.Reading has the
--                objects that it gets, ClientServer.Rounds its loops, ClientServer.Talking its sending.
--   Connect      volt_net/include/volt/net/AsyncStateHandler.hpp and network::server_connect.
--   Common       names, tests, lists and integers that the modules share.
--   Tests        runs on concrete inputs.
--
-- How they interact: a writer appends escaped bytes to a message (Serialize) and ends it; send_msg hands
-- it to the socket; at the other end handle_read takes the bytes of each read out of the buffer, undoes
-- the escaping and gives each whole message to the handler that add_connection set, which submits it to
-- the received message pool; that one calls the program at once, or when process_new_msgs is called.
-- network owns the connections and the listener, and erases a connection in the handler of its end.
--
-- How code and model correspond: a message_ptr is the list of its bytes (Messages.Sharing says when
-- it may be); an iterator is the rest of the message; a number of a fixed width is a native number
-- below a power of two, and a signed one an integer of Common.Int; an object that is read into is an
-- argument, and its new value is returned. A member function takes the record of its object and
-- returns it changed. What leaves the program (callbacks, asynchronous operations) is recorded in
-- fields of that record. Exceptions and undefined behaviour are results of their own (Outcome in
-- NetCon, NetOutcome in Network, none for an access behind the end of a message). is_big_endian and
-- the IEC 559 flags depend on the machine, an argument of type Host, so that writer and reader may
-- differ. The handler of a message may close its connection: it is an argument that says when. Other
-- threads are explicit: lists of arrivals and of failed rounds of a compare-exchange loop, or
-- interleaved steps.
--
-- Fuel: read_loop is given one round more than there are bytes, since each round but the last takes
-- one, and race_loop as many; notify_loop one more than there are messages queued or arriving. That
-- this is enough is part of the theorems on handle_read and notify_listeners.
--
-- Not modelled: Boost.Asio with its io_context and sockets; the allocation that reserve makes
-- before an array is read; the variadic write_into, whose pack cannot be deduced, and the tuple
-- overload, which does not compile when it is used; in the programs under tests/ printing and the
-- loops that wait, with them the first part of tests/client_server, which connects. Data races on
-- objects that are not atomic, such as a socket that one thread closes and another one reads from,
-- have no defined result in C++ and are left out where threads are interleaved. A std::pair is
-- read as a pair of one type, the only case for which the code can be right.
pub mod Common
pub mod Defs
pub mod Endian
pub mod Serialize
pub mod Deserialize
pub mod Chat
pub mod ClientServer
pub mod Codec
pub mod Overloads
pub mod NetCon
pub mod MsgPool
pub mod MsgRecPool
pub mod Listener
pub mod Network
pub mod Messages
pub mod Connect
mod Tests
