-- ===== src/ClientServer/Rounds.antt =====
-- The loops of tests/client_server/client_server.cpp as calls of the network.
use volt_net.Common.{
  ℕ, zero, suc, ◌+◌, ◌≡◌, refl, ap, ◌∙◌, if◌then◌else◌, Bool-cases, inl, inr, map, replicate, List,
  [], ◌∷◌, ◌++◌, append-nil,
}
use volt_net.Defs.{Message}
use volt_net.Network.Traffic.{Event, processed}
use volt_net.Network.Calls.{Call, send_all, closes, runs, sent_in, sent_on}
use volt_net.Network.Calls.Sequences.{sent_on-append, sent_on-map-runs}
use volt_net.ClientServer.{Around, send_rounds, sending}

-- How many rounds of a loop are begun.
unfoldable pub rounds : (ℕ → Around) → ℕ → ℕ → ℕ
rounds around zero i = 0
rounds around (suc left) i =
    let rest = rounds around left (i + 1) in if (around i).error_quit then 0 else suc rest

-- On every connection one message in each round.
pub sent_on-send_rounds :
    (msg : Message) (around : ℕ → Around) (left i id : ℕ)
    → sent_on id (send_rounds msg around left i) ≡ replicate (rounds around left i) msg
unfolding send_rounds rounds
sent_on-send_rounds msg around zero i id = unfold sent_on in refl
sent_on-send_rounds msg around (suc left) i id = elim (Bool-cases (around i).error_quit) [
  | inl quit ↦ rw quit (unfold sent_on in refl)
  | inr on ↦ rw (
    on,
    sent_on-append id (map runs (around i).before) _,
    sent_on-map-runs id (around i).before,
    sent_all id (map runs (around i).between) _,
    sent_on-map-runs id (around i).between,
    sent_on-send_rounds msg around left (i + 1) id,
  )
]
  where
    sent_all :
        (id : ℕ) (cs ds : List Call)
        → sent_on id (send_all msg ∷ (cs ++ (runs processed ∷ ds)))
          ≡ msg ∷ (sent_on id cs ++ sent_on id ds)
    sent_all id cs ds = unfold sent_on sent_in in ap (◌∷◌ msg) (sent_on-append id cs _)

pub sent_on-sending :
    (msg : Message) (around : ℕ → Around) (late : List Event) (id : ℕ)
    → sent_on id (sending msg around late) ≡ replicate (rounds around 10 0) msg
unfolding sending
sent_on-sending msg around late id =
    sent_on-append id (send_rounds msg around 10 0) _
    ∙ rw
        (
          sent_on-send_rounds msg around 10 0 id,
          sent_on-append id (map runs late) (runs processed ∷ closes ∷ []),
          sent_on-map-runs id late,
        )
        (unfold sent_on sent_in in append-nil _)
