-- ===== src/Chat/Typing/Loop.antt =====
-- The loop of tests/single_client/single_client.cpp, as calls of its network.
use volt_net.Common.{
  ℕ, zero, suc, ◌+◌, ◌==◌, ◌≡◌, refl, sym, ap, subst, ◌∙◌, if_true, Bool-cases, inl, inr, true,
  false, map, get_elem?, length, some, List, [], ◌∷◌, ◌++◌, append-nil, ==_iff,
}
use volt_net.Common.Int.{ℤ}
use volt_net.Defs.{Message}
use volt_net.Endian.{Host}
use volt_net.NetCon.{NetCon, send_msg}
use volt_net.Network.{
  Network, ok, ◌>>=◌, get_con_loop, get_con, get_con_count, get_con_index, set_con,
  process_new_msgs,
}
use volt_net.Network.Traffic.{step, processed, update_con}
use volt_net.Network.Lifetimes.{happen_all}
use volt_net.Network.Delivery.Lookups.{ids_of, Extends}
use volt_net.Network.Calls.{send_to, runs, does, call, call_all}
use volt_net.Network.Calls.Served.{call_all_lem}
use volt_net.Network.Calls.Links.{Prepared}
use volt_net.Network.Calls.Sequences.{
  call_all_from, call_all_one, happen_all-call_all, Prepared-split,
}
use volt_net.Chat.Objects.{written}
use volt_net.Chat.Client.{getline, is_quit, Round, send_first, chat_loop}
use volt_net.Chat.Typing.{said, chat_calls, sent_on-chat_calls}

-- The first connection and its id.
head_of :
    (id : ℕ) (ids : List ℕ) (cons : List NetCon)
    → ids_of cons ≡ id ∷ ids
    → (c : NetCon) × (cs : List NetCon) × (cons ≡ c ∷ cs) × (c.id ≡ id)
head_of id ids [] e = cc
head_of id ids (c ∷ cs) e = (c, cs, refl, cc e)

send_first_lem :
    (id : ℕ) (ids : List ℕ) (msg : Message) (net : Network)
    → ids_of net.connections ≡ id ∷ ids
    → (send_first msg net ≡ call (send_to id msg) net)
      × ((others : ℕ) × (get_con_count net ≡ suc others))
unfolding send_first call get_con get_con_index get_con_count
send_first_lem id ids msg net e =
    let (c, cs, cons, named) = head_of id ids net.connections e in
    let d = send_msg msg c in
    let hit : (c.id == id) ≡ true = (==_iff c.id id).1 named in
    let found : get_elem? net.connections 0 ≡ some c = ap (λ l. get_elem? l 0) cons in
    let put : set_con net.connections 0 d ≡ d ∷ cs =
      unfold set_con in ap (λ l. set_con l 0 d) cons in
    let there : get_con_loop id net.connections ≡ some c =
      ap (get_con_loop id) cons ∙ (unfold get_con_loop in if_true _ _ hit) in
    let updated : update_con id d net.connections ≡ d ∷ cs =
      ap (update_con id d) cons ∙ (unfold update_con in if_true _ _ hit) in
    (
      rw (found, send_first, get_con_index)
          (rw (there, call, get_con)
            (ap (λ l. ok (record net { connections = l })) (put ∙ sym updated))),
      (length cs, ap length cons),
    )

head-Extends :
    (id : ℕ) (ids : List ℕ) (cs ds : List NetCon)
    → ids_of cs ≡ id ∷ ids
    → Extends cs ds
    → (more : List ℕ) × (ids_of ds ≡ id ∷ more)
head-Extends id ids cs ds e (more, eq) = (ids ++ more, eq ∙ ap (λ l. l ++ more) e)

module _ (h : Host) (username : List ℤ) (around : ℕ → Round) (id : ℕ) where
  calls_quit :
      (left i : ℕ) (input : List ℤ)
      → (around i).error_quit ≡ false
      → is_quit (getline input).0 ≡ true
      → chat_calls h username around id (suc left) i input ≡ map does (around i).typing ++ []
  unfolding chat_calls
  calls_quit left i input on quit = rw (on, quit)

  calls_more :
      (left i : ℕ) (input : List ℤ)
      → (around i).error_quit ≡ false
      → is_quit (getline input).0 ≡ false
      → chat_calls h username around id (suc left) i input
        ≡ map does (around i).typing
          ++ (send_to id (written h (record { user = username; chat_msg = (getline input).0 }))
              ∷ (map does (around i).sleeping
                  ++ (runs processed
                      ∷ chat_calls h username around id left (i + 1) (getline input).1)))
  unfolding chat_calls
  calls_more left i input on more = rw (on, more)

  -- A round in which something is said.
  loop_more :
      (left i : ℕ) (input : List ℤ) (net typed sent slept asked : Network) (others : ℕ)
      → (around i).error_quit ≡ false
      → is_quit (getline input).0 ≡ false
      → happen_all (around i).typing net ≡ ok typed
      → get_con_count typed ≡ suc others
      → send_first (written h (record { user = username; chat_msg = (getline input).0 })) typed
        ≡ ok sent
      → happen_all (around i).sleeping sent ≡ ok slept
      → process_new_msgs [] slept ≡ ok asked
      → chat_loop h username around (suc left) i input net
        ≡ chat_loop h username around left (i + 1) (getline input).1 asked
  unfolding chat_loop
  loop_more left i input net typed sent slept asked others on more r1 some_con r2 r3 r4 =
      rw (chat_loop, ◌>>=◌, on, r1, more, some_con, r2, r3, r4)

  loop_stop :
      (left i : ℕ) (input : List ℤ) (net : Network)
      → (around i).error_quit ≡ true
      → chat_loop h username around (suc left) i input net
        ≡ call_all (chat_calls h username around id (suc left) i input) net
  unfolding chat_loop chat_calls call_all
  loop_stop left i input net quit = rw (chat_loop, quit)

  loop_quit :
      (left i : ℕ) (input : List ℤ) (net typed : Network)
      → (around i).error_quit ≡ false
      → is_quit (getline input).0 ≡ true
      → happen_all (around i).typing net ≡ ok typed
      → chat_loop h username around (suc left) i input net ≡ ok typed
  unfolding chat_loop
  loop_quit left i input net typed on quit r1 = rw (chat_loop, ◌>>=◌, on, r1, quit)

  -- The loop is those calls, on a network whose first connection has the id.
  chat_loop-call_all :
      (left i : ℕ) (input : List ℤ) (ids : List ℕ) (net : Network)
      → ids_of net.connections ≡ id ∷ ids
      → Prepared (chat_calls h username around id left i input) net
      → chat_loop h username around left i input net
        ≡ call_all (chat_calls h username around id left i input) net
  chat_loop-call_all zero i input ids net e p = unfold chat_loop chat_calls call_all in refl
  chat_loop-call_all (suc left) i input ids net e p = elim (Bool-cases (around i).error_quit) [
    | inl quit ↦ loop_stop left i input net quit
    | inr on ↦ elim (Bool-cases (is_quit (getline input).0)) [
      | inl quit ↦
          let calls = calls_quit left i input on quit in
          let (typed, ran, p', x) =
            Prepared-split (map does (around i).typing) [] net
              (subst (λ cs. Prepared cs net) calls p) in
          loop_quit left i input net typed on quit (happen_all-call_all (around i).typing net ∙ ran)
          ∙ sym (ap (λ cs. call_all cs net) (calls ∙ append-nil (map does (around i).typing)) ∙ ran)
      | inr more ↦
          let says = written h (record { user = username; chat_msg = (getline input).0 }) in
          let rest = chat_calls h username around id left (i + 1) (getline input).1 in
          let sleeping = map does (around i).sleeping in
          let calls = calls_more left i input on more in
          let (typed, ran1, p1, x1) =
            Prepared-split (map does (around i).typing)
              (send_to id says ∷ (sleeping ++ (runs processed ∷ rest))) net
              (subst (λ cs. Prepared cs net) calls p) in
          let (sent, ran2, p2, x2) =
            Prepared-split (send_to id says ∷ []) (sleeping ++ (runs processed ∷ rest)) typed p1 in
          let (slept, ran3, p3, x3) = Prepared-split sleeping (runs processed ∷ rest) sent p2 in
          let (asked, ran4, p4, x4) = Prepared-split (runs processed ∷ []) rest slept p3 in
          let (ids1, h1) = head-Extends id ids net.connections typed.connections e x1 in
          let (ids2, h2) = head-Extends id ids1 typed.connections sent.connections h1 x2 in
          let (ids3, h3) = head-Extends id ids2 sent.connections slept.connections h2 x3 in
          let (ids4, h4) = head-Extends id ids3 slept.connections asked.connections h3 x4 in
          let (sends, counted) = send_first_lem id ids1 says typed h1 in
          loop_more left i input net typed sent slept asked counted.0 on more
            (happen_all-call_all (around i).typing net ∙ ran1) counted.1
            (sends ∙ sym (call_all_one (send_to id says) typed) ∙ ran2)
            (happen_all-call_all (around i).sleeping sent ∙ ran3)
            (run_processed slept ∙ sym (call_all_one (runs processed) slept) ∙ ran4)
          ∙ chat_loop-call_all left (i + 1) (getline input).1 ids4 asked h4 p4
          ∙ sym (
              ap (λ cs. call_all cs net) calls
              ∙ call_all_from (map does (around i).typing) _ net typed ran1
              ∙ call_all_from (send_to id says ∷ []) _ typed sent ran2
              ∙ call_all_from sleeping _ sent slept ran3
              ∙ call_all_from (runs processed ∷ []) rest slept asked ran4)
    ]
  ]
    where
      run_processed : (net : Network) → process_new_msgs [] net ≡ call (runs processed) net
      run_processed net = unfold call step in refl

  -- The client's loop on a valid network with a handler for messages that calls nothing of the network,
  -- while its connections last: in its rounds only connections are accepted, reads that fit the
  -- buffer finish and messages are asked for, no read fails, and ids are left. Then no step fails, and
  -- on the first connection the client sends, in order, an object with the user's name for each line
  -- that is read before the loop is left, also for the empty lines that are read at the end of the
  -- input.
  pub chat_loop_lem :
      (left : ℕ) (input : List ℤ) (net : Network) (c : NetCon) (cs : List NetCon)
      → net.connections ≡ c ∷ cs
      → c.id ≡ id
      → Prepared (chat_calls h username around id left 0 input) net
      → (after : Network) × (d : NetCon) × (chat_loop h username around left 0 input net ≡ ok after)
        × (get_con_loop id after.connections ≡ some d)
        × (d.writes ≡ c.writes ++ map (written h) (said username around left 0 input))
  chat_loop_lem left input net c cs first named p =
      let (after, ran, valid, delivers, next, extends, each) =
        call_all_lem (chat_calls h username around id left 0 input) net p.valid p.delivers p.proper
          p.room in
      let found : get_con_loop id net.connections ≡ some c =
        ap (get_con_loop id) first
        ∙ (unfold get_con_loop in if_true _ _ ((==_iff c.id id).1 named)) in
      let (d, there, writes, got) = each id c found in
      let ids : ids_of net.connections ≡ id ∷ ids_of cs =
        ap ids_of first ∙ ap (λ i. i ∷ ids_of cs) named in
      (
        after,
        d,
        chat_loop-call_all left 0 input (ids_of cs) net ids p ∙ ran,
        there,
        writes ∙ ap (◌++◌ c.writes) (sent_on-chat_calls h username around id left 0 input),
      )
