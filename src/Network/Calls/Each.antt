-- ===== src/Network/Calls/Each.antt =====
-- What sending, taking an id and running do to the connections of a network (volt_net/include/volt/net/
-- network.hpp).
use volt_net.Common.{
  ℕ, ◌+◌, ◌≤◌, ◌<◌, ◌==◌, ◌≡◌, refl, sym, ap, ◌∙◌, if_true, if_false, Bool-cases, inl, inr, map,
  none, some, List, [], ◌∷◌, ◌++◌, append-nil, arith, ==_iff,
}
use mathlib.Core.Option.{some-injective}
use volt_net.Defs.{Message, con_id_mod}
use volt_net.NetCon.{NetCon, send_msg}
use volt_net.NetCon.Parser.{parse, state_after}
use volt_net.NetCon.Bytes.{parser_of}
use volt_net.NetCon.Reading.{IsReady}
use volt_net.Network.{Network, ok, Attempt, get_next_id, get_con_loop, get_con, get_con_count}
use volt_net.Network.Ids.{total, get_next_id_fresh}
use volt_net.Network.Connections.{IsValid, AllBelow}
use volt_net.Network.Traffic.{Event, Fits, taken, update_con}
use volt_net.Network.Delivery.Lookups.{
  get_con_loop-id, get_con_loop-All, get_con_loop-update_con, update_con-All, update_con-AllBelow,
  update_con-Distinct, same-Extends, update_con-Extends,
}
use volt_net.Network.Delivery.Queueing.{Delivers}
use volt_net.Network.Delivery.Steps.{step-Moved}
use volt_net.Network.Calls.{Call, send_to, send_all, takes_id, runs, call, sent_in}
use volt_net.Network.Calls.Sending.{
  send_loop_lem, send_msg-IsReady, map-send_msg-IsReady, map-send_msg-AllBelow,
  map-send_msg-Distinct, map-send_msg-Extends, get_con_loop-map,
}
use volt_net.Network.Calls.Effects.{Effect}

AllBelow-mono : (m n : ℕ) (cs : List NetCon) → m ≤ n → AllBelow m cs → AllBelow n cs
AllBelow-mono m n [] h b = tt
AllBelow-mono m n (c ∷ cs) h b = (omega arith, AllBelow-mono m n cs h b.1)

-- Only connections and the next id change.
same-Delivers :
    (cons : List NetCon) (next : ℕ) (net : Network)
    → Delivers net
    → Delivers (record net { connections = cons; next_id = next })
same-Delivers cons next net v = record {
  same_size = v.same_size;
  waits = v.waits;
  has_handler = v.has_handler;
  quiet = v.quiet;
}

-- What a call did, where it succeeds.
abbrev pub Succeeds : Call → Network → Type 0
Succeeds c net = (after : Network) × (call c net ≡ ok after) × Effect net c after

pub send_to-Effect :
    (i : ℕ) (msg : Message) (net : Network) (con : NetCon)
    → IsValid net
    → Delivers net
    → get_con_loop i net.connections ≡ some con
    → Succeeds (send_to i msg) net
unfolding call get_con send_msg sent_in
send_to-Effect i msg net con valid v at =
    let d = send_msg msg con in
    let named = get_con_loop-id i net.connections con at in
    (
      record net { connections = update_con i d net.connections },
      rw (at, call, get_con),
      record {
        valid = record {
          ready =
              update_con-All IsReady i d net.connections
                (send_msg-IsReady msg con
                  (get_con_loop-All IsReady i net.connections con at valid.ready))
                valid.ready;
          below = update_con-AllBelow net.next_id i d net.connections named valid.below;
          distinct = update_con-Distinct i d net.connections named valid.distinct;
        };
        next = omega arith;
        still = same-Delivers (update_con i d net.connections) net.next_id net v;
        extends = update_con-Extends i d net.connections named;
        each = λ id c found.
            let there = get_con_loop-update_con i d net.connections con named at id in
            elim (Bool-cases (i == id)) [
              | inl hit ↦
                  let one : con ≡ c = some-injective con c (
                    sym at
                    ∙ ap (λ j. get_con_loop j net.connections) ((==_iff i id).0 hit)
                    ∙ found) in
                  (
                    d,
                    there ∙ if_true _ _ hit,
                    unfold state_after in ap parser_of one,
                    rw hit (ap (λ (c : NetCon). c.writes ++ (msg ∷ [])) one),
                    unfold parse in sym (append-nil _),
                  )
              | inr miss ↦ (
                c,
                there ∙ if_false _ _ miss ∙ found,
                unfold state_after in refl,
                rw miss (sym (append-nil c.writes)),
                unfold parse in sym (append-nil _),
              )
            ];
      },
    )

pub send_to_none-Effect :
    (i : ℕ) (msg : Message) (net : Network)
    → IsValid net
    → Delivers net
    → get_con_loop i net.connections ≡ none
    → Succeeds (send_to i msg) net
unfolding call get_con sent_in
send_to_none-Effect i msg net valid v at = (
  net,
  rw (at, call, get_con),
  record {
    valid = valid;
    next = omega arith;
    still = v;
    extends = same-Extends net.connections net.connections refl;
    each = λ id c found. elim (Bool-cases (i == id)) [
      | inl hit ↦
          cc (sym at ∙ ap (λ j. get_con_loop j net.connections) ((==_iff i id).0 hit) ∙ found)
      | inr miss ↦ (
        c,
        found,
        unfold state_after in refl,
        rw miss (sym (append-nil c.writes)),
        unfold parse in sym (append-nil _),
      )
    ];
  },
)

pub send_all-Effect :
    (msg : Message) (net : Network) → IsValid net → Delivers net → Succeeds (send_all msg) net
unfolding call get_con_count send_msg sent_in
send_all-Effect msg net valid v =
    let cons = map (send_msg msg) net.connections in
    (
      record net { connections = cons },
      send_loop_lem msg [] net.connections net 0 refl refl,
      record {
        valid = record {
          ready = map-send_msg-IsReady msg net.connections valid.ready;
          below = map-send_msg-AllBelow net.next_id msg net.connections valid.below;
          distinct = map-send_msg-Distinct msg net.connections valid.distinct;
        };
        next = omega arith;
        still = same-Delivers cons net.next_id net v;
        extends = map-send_msg-Extends msg net.connections;
        each = λ id c found. (
          send_msg msg c,
          get_con_loop-map (send_msg msg) (λ c. refl) id net.connections ∙ rw found,
          unfold state_after in refl,
          refl,
          unfold parse in sym (append-nil _),
        );
      },
    )

pub takes_id-Effect :
    (attempts : List Attempt) (net : Network)
    → IsValid net
    → Delivers net
    → net.next_id + total attempts + 1 < con_id_mod
    → Succeeds (takes_id attempts) net
unfolding call sent_in
takes_id-Effect attempts net valid v room =
    let (low, high, counted) = get_next_id_fresh attempts net.next_id room in
    let next = (get_next_id attempts net.next_id).1 in
    (
      record net { next_id = next },
      refl,
      record {
        valid = record {
          ready = valid.ready;
          below = AllBelow-mono net.next_id next net.connections (omega arith) valid.below;
          distinct = valid.distinct;
        };
        next = omega arith;
        still = same-Delivers net.connections next net v;
        extends = same-Extends net.connections net.connections refl;
        each = λ id c found. (
          c,
          found,
          unfold state_after in refl,
          sym (append-nil c.writes),
          unfold parse in sym (append-nil _),
        );
      },
    )

pub runs-Effect :
    (e : Event) (net : Network)
    → IsValid net
    → Delivers net
    → Fits e
    → net.next_id + taken e < con_id_mod
    → Succeeds (runs e) net
unfolding call sent_in
runs-Effect e net valid v fits room =
    let (after, eq, m) = step-Moved e net valid v fits room in
    (
      after,
      eq,
      record {
        valid = m.valid;
        next = m.next;
        still = m.still;
        extends = m.extends;
        each = λ id c found.
            let (d, there, got, parser, writes) = m.each id c found in
            (d, there, parser, writes ∙ sym (append-nil c.writes), got);
      },
    )
