-- ===== src/Chat/Greeting.antt =====
-- The first thing that a client of the chat says (tests/single_client/single_client.cpp).
use volt_net.NetCon.{NetCon}
use volt_net.Network.{Network}
