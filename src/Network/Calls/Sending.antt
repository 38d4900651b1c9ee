-- ===== src/Network/Calls/Sending.antt =====
-- Sending on the connections of a network (volt_net/src/volt/net/network.cpp and net_con.cpp).
use volt_net.Common.{
  ℕ, ◌+◌, ◌≡◌, ◌≢◌, refl, sym, ap, ◌∙◌, length, length-append, map, All, get_elem?, none, some,
  List, [], ◌∷◌, ◌++◌, append_assoc, append-nil, arith,
}
use volt_net.Defs.{Message}
use volt_net.NetCon.{NetCon, send_msg}
use volt_net.NetCon.Reading.{IsReady}
use volt_net.Network.{Network, ok, get_con_index, get_con_loop, set_con}
use volt_net.Network.Connections.{AllBelow, Distinct}
use volt_net.Network.Delivery.Lookups.{ids_of, Extends}
use volt_net.Network.Calls.{send_loop}

get_elem?-middle :
    (front back : List NetCon) (c : NetCon)
    → get_elem? (front ++ (c ∷ back)) (length front) ≡ some c
get_elem?-middle [] back c = refl
get_elem?-middle (x ∷ xs) back c = get_elem?-middle xs back c

set_con-middle :
    (front back : List NetCon) (c d : NetCon)
    → set_con (front ++ (c ∷ back)) (length front) d ≡ front ++ (d ∷ back)
unfolding set_con
set_con-middle [] back c d = refl
set_con-middle (x ∷ xs) back c d = ap (◌∷◌ x) (set_con-middle xs back c d)

-- From a place on, the message goes to every connection.
pub send_loop_lem :
    (msg : Message) (front back : List NetCon) (net : Network) (i : ℕ)
    → net.connections ≡ front ++ back
    → i ≡ length front
    → send_loop (length back) i msg net
      ≡ ok (record net { connections = front ++ map (send_msg msg) back })
unfolding send_loop get_con_index
send_loop_lem msg front [] net i e at = ap (λ cs. ok (record net { connections = cs })) e
send_loop_lem msg front (c ∷ back) net i e at =
    let d = send_msg msg c in
    let found : get_elem? net.connections i ≡ some c =
      ap (λ cs. get_elem? cs i) e
      ∙ ap (get_elem? (front ++ (c ∷ back))) at
      ∙ get_elem?-middle front back c in
    let put : set_con net.connections i d ≡ front ++ (d ∷ back) =
      ap (λ cs. set_con cs i d) e
      ∙ ap (λ j. set_con (front ++ (c ∷ back)) j d) at
      ∙ set_con-middle front back c d in
    let rest =
      send_loop_lem msg (front ++ (d ∷ [])) back
        (record net { connections = set_con net.connections i d }) (i + 1)
        (put ∙ sym (append_assoc front (d ∷ []) back))
        (omega (arith, length-append front (d ∷ []))) in
    rw (send_loop, get_con_index, found)
      (rest ∙ ap (λ cs. ok (record net { connections = cs })) (append_assoc front (d ∷ []) _))

pub send_msg-IsReady : (msg : Message) (c : NetCon) → IsReady c → IsReady (send_msg msg c)
unfolding send_msg
send_msg-IsReady msg c v = record {
  is_open = v.is_open;
  can_close = v.can_close;
  can_deliver = v.can_deliver;
  at_start = v.at_start;
  full = v.full;
  reading = v.reading;
  one_read = v.one_read;
}

pub map-send_msg-IsReady :
    (msg : Message) (cs : List NetCon) → All IsReady cs → All IsReady (map (send_msg msg) cs)
map-send_msg-IsReady msg [] all = tt
map-send_msg-IsReady msg (c ∷ cs) all =
    (send_msg-IsReady msg c all.0, map-send_msg-IsReady msg cs all.1)

pub map-send_msg-AllBelow :
    (n : ℕ) (msg : Message) (cs : List NetCon) → AllBelow n cs → AllBelow n (map (send_msg msg) cs)
unfolding send_msg
map-send_msg-AllBelow n msg [] b = tt
map-send_msg-AllBelow n msg (c ∷ cs) b = (b.0, map-send_msg-AllBelow n msg cs b.1)

map-send_msg-others :
    (k : ℕ) (msg : Message) (cs : List NetCon)
    → All (λ (c : NetCon). c.id ≢ k) cs
    → All (λ (c : NetCon). c.id ≢ k) (map (send_msg msg) cs)
unfolding send_msg
map-send_msg-others k msg [] o = tt
map-send_msg-others k msg (c ∷ cs) o = (o.0, map-send_msg-others k msg cs o.1)

pub map-send_msg-Distinct :
    (msg : Message) (cs : List NetCon) → Distinct cs → Distinct (map (send_msg msg) cs)
unfolding send_msg
map-send_msg-Distinct msg [] d = tt
map-send_msg-Distinct msg (c ∷ cs) d =
    (map-send_msg-others c.id msg cs d.0, map-send_msg-Distinct msg cs d.1)

map-send_msg-ids : (msg : Message) (cs : List NetCon) → ids_of (map (send_msg msg) cs) ≡ ids_of cs
unfolding send_msg
map-send_msg-ids msg [] = refl
map-send_msg-ids msg (c ∷ cs) = ap (◌∷◌ c.id) (map-send_msg-ids msg cs)

pub map-send_msg-Extends : (msg : Message) (cs : List NetCon) → Extends cs (map (send_msg msg) cs)
map-send_msg-Extends msg cs = ([], map-send_msg-ids msg cs ∙ sym (append-nil (ids_of cs)))

-- Any function on connections that keeps their ids.
pub get_con_loop-map :
    (f : NetCon → NetCon)
    → ((c : NetCon) → (f c).id ≡ c.id)
    → (id : ℕ) (cs : List NetCon)
    → get_con_loop id (map f cs) ≡ elim (get_con_loop id cs) [ none ↦ none | some c ↦ some (f c) ]
unfolding get_con_loop
get_con_loop-map f same id [] = refl
get_con_loop-map f same id (c ∷ cs) = ground (arith, same c, get_con_loop-map f same id cs)
