-- ===== src/Network/Delivery/Steps.antt =====
-- One event of a running network (volt_net/src/volt/net/network.cpp, net_con.cpp and messages/
-- msg_rec_pool.cpp together), whichever it is.
use volt_net.Common.{
  ℕ, ◌+◌, ◌≤◌, ◌<◌, ◌==◌, ◌≡◌, refl, sym, ap, ◌∙◌, length, drop, drop-append_length, Bool-cases,
  inl, inr, Option, none, some, List, [], ◌∷◌, ◌++◌, append-nil, arith, ==_iff,
}
use mathlib.Core.List.{map-append}
use mathlib.Core.Option.{some-injective}
use volt_net.Defs.{con_id_mod, max_buffer_size}
use volt_net.NetCon.{NetCon}
use volt_net.NetCon.Parser.{parse, state_after}
use volt_net.NetCon.Bytes.{parser_of}
use volt_net.NetCon.Reading.{IsReady}
use volt_net.NetCon.Streams.{tagged, complete_read-Received}
use volt_net.NetCon.Lifecycle.{attached}
use volt_net.Network.{Network, ok, Attempt, get_next_id, get_con_loop}
use volt_net.Network.Ids.{total, get_next_id_fresh}
use volt_net.Network.Connections.{IsValid, accept_connection_lem}
use volt_net.Network.Traffic.{
  Event, accepted, taken, arrived, processed, Fits, submit_calls, update_con, never, step, bytes_in,
}
use volt_net.Network.Delivery.Lookups.{
  get_con_loop-id, get_con_loop-All, update_con-All, update_con-AllBelow, update_con-Distinct,
  get_con_loop-append_found, same-Extends, Extends-trans, update_con-Extends,
}
use volt_net.Network.Delivery.Queueing.{
  Delivers, messages, submit_calls-Added, process_new_msgs-Added,
}
use volt_net.Network.Delivery.Moves.{
  Moved, same-IsValid, quiet-Moved, step_arrived, from_con-new, moved_con,
}

arrived-Moved :
    (i : ℕ) (received : List ℕ) (net : Network) (con : NetCon)
    → IsValid net
    → Delivers net
    → length received ≤ max_buffer_size
    → get_con_loop i net.connections ≡ some con
    → (after : Network) × (step (arrived i received) net ≡ ok after)
      × Moved net (arrived i received) after
arrived-Moved i received net con valid v fits at =
    let named = get_con_loop-id i net.connections con at in
    let (d, eq, r) =
      complete_read-Received never (λ calls. refl) received con
        (get_con_loop-All IsReady i net.connections con at valid.ready) fits in
    let new = drop (length con.new_msg_calls) d.new_msg_calls in
    let cons = update_con i d net.connections in
    let moved = record net { connections = cons } in
    let a = submit_calls-Added new moved (record {
      same_size = v.same_size;
      waits = v.waits;
      has_handler = v.has_handler;
      quiet = v.quiet;
    }) in
    let news : new ≡ tagged i (parse (parser_of con) received) =
      ap (drop (length con.new_msg_calls)) r.messages
      ∙ drop-append_length con.new_msg_calls _
      ∙ ap (λ id. tagged id (parse (parser_of con) received)) named in
    (
      submit_calls new moved,
      step_arrived i received net con d at eq,
      record {
        valid =
            same-IsValid moved (submit_calls new moved)
              (record {
                ready = update_con-All IsReady i d net.connections r.ready valid.ready;
                below =
                    update_con-AllBelow net.next_id i d net.connections (r.same_id ∙ named)
                      valid.below;
                distinct =
                    update_con-Distinct i d net.connections (r.same_id ∙ named) valid.distinct;
              })
              a.same_cons a.same_next;
        next = omega (arith, a.same_next);
        still = a.still;
        rest = a.rest;
        extends =
            Extends-trans net.connections cons _
              (update_con-Extends i d net.connections (r.same_id ∙ named))
              (same-Extends cons _ a.same_cons);
        each = λ id c found.
            let one : i ≡ id → c ≡ con = λ same.
              some-injective c con
                (sym found ∙ ap (λ j. get_con_loop j net.connections) (sym same) ∙ at) in
            let (e, there, parser, writes) =
              moved_con i received net.connections con d at (r.same_id ∙ named) r.parser
                r.same_writes id c found in
            (
              e,
              ap (get_con_loop id) a.same_cons ∙ there,
              from_con-new id i received (messages net) new (messages (submit_calls new moved)) c
                  con one a.all news,
              parser,
              writes,
            );
      },
    )

step_absent :
    (i : ℕ) (received : List ℕ) (net : Network)
    → get_con_loop i net.connections ≡ none
    → step (arrived i received) net ≡ ok net
unfolding step
step_absent i received net at = rw (step, at)

no_bytes :
    (i id : ℕ) (received : List ℕ) (net : Network) (c : NetCon)
    → get_con_loop i net.connections ≡ none
    → get_con_loop id net.connections ≡ some c
    → bytes_in id (arrived i received) ≡ []
unfolding bytes_in
no_bytes i id received net c at found = elim (Bool-cases (i == id)) [
  | inl hit ↦ cc (sym at ∙ ap (λ j. get_con_loop j net.connections) ((==_iff i id).0 hit) ∙ found)
  | inr miss ↦ rw miss
]

accepted-Moved :
    (attempts : List Attempt) (net : Network)
    → IsValid net
    → Delivers net
    → net.next_id + total attempts + 1 < con_id_mod
    → (after : Network) × (step (accepted attempts) net ≡ ok after)
      × Moved net (accepted attempts) after
accepted-Moved attempts net valid v room =
    let (eq, valid', found) = accept_connection_lem attempts net valid room v.quiet in
    let (low, high, counted) = get_next_id_fresh attempts net.next_id room in
    let (id, next_id) = get_next_id attempts net.next_id in
    (
      record net { next_id = next_id; connections = net.connections ++ (attached id ∷ []) },
      unfold step in eq,
      record {
        valid = valid';
        next = omega arith;
        rest = (refl, refl, refl);
        extends = (_, map-append (λ (c : NetCon). c.id) net.connections (attached id ∷ []));
        still = record {
          same_size = v.same_size;
          waits = v.waits;
          has_handler = v.has_handler;
          quiet = v.quiet;
        };
        each = λ id c there. (
          c,
          get_con_loop-append_found id net.connections c _ there,
          unfold bytes_in parse in sym (append-nil _),
          unfold bytes_in state_after in refl,
          refl,
        );
      },
    )

pub step-Moved :
    (e : Event) (net : Network)
    → IsValid net
    → Delivers net
    → Fits e
    → net.next_id + taken e < con_id_mod
    → (after : Network) × (step e net ≡ ok after) × Moved net e after
step-Moved (accepted attempts) net valid v fits room =
    accepted-Moved attempts net valid v (omega arith)
step-Moved (arrived i received) net valid v fits room = go (get_con_loop i net.connections) refl
  where
    go :
        (found : Option NetCon)
        → get_con_loop i net.connections ≡ found
        → (after : Network) × (step (arrived i received) net ≡ ok after)
          × Moved net (arrived i received) after
    go (some con) at = arrived-Moved i received net con valid v fits at
    go none at = (
      net,
      step_absent i received net at,
      quiet-Moved net net (arrived i received) valid
          (record {
            same_cons = refl;
            same_next = refl;
            rest = (refl, refl, refl);
            still = v;
            all = sym (append-nil _);
          })
          (λ id c found. no_bytes i id received net c at found),
    )
step-Moved processed net valid v fits room =
    let (after, eq, a, handed) = process_new_msgs-Added net v in
    (
      after,
      unfold step in eq,
      quiet-Moved net after processed valid a (λ id c found. unfold bytes_in in refl),
    )
