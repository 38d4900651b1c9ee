-- ===== src/Network/Calls/Sequences.antt =====
-- Calls of a network, one after the other (the member functions of volt_net/include/volt/net/
-- network.hpp).
use volt_net.Common.{
  ℕ, ◌+◌, ◌≡◌, refl, sym, ap, ◌∙◌, All-split, map, List, [], ◌∷◌, ◌++◌, append_assoc, arith,
}
use volt_net.Network.{Network, NetOutcome, ok, ◌>>=◌, throws, undefined_behaviour}
use volt_net.Network.Traffic.{Event}
use volt_net.Network.Delivery.Lookups.{Extends}
use volt_net.Network.Lifetimes.{Happening, traffic, read_failed, happen, happen_all}
use volt_net.Network.Calls.{Call, runs, does, call, call_all, sent_in, sent_on}
use volt_net.Network.Calls.Effects.{uses_all, Proper}
use volt_net.Network.Calls.Served.{call_all_lem}
use volt_net.Network.Calls.Links.{Prepared}

pub sent_on-append :
    (id : ℕ) (cs ds : List Call) → sent_on id (cs ++ ds) ≡ sent_on id cs ++ sent_on id ds
unfolding sent_on
sent_on-append id [] ds = refl
sent_on-append id (c ∷ cs) ds = rw (sent_on-append id cs ds) (sym (append_assoc (sent_in id c) _ _))

pub sent_on-map-runs : (id : ℕ) (es : List Event) → sent_on id (map runs es) ≡ []
unfolding sent_on sent_in
sent_on-map-runs id [] = refl
sent_on-map-runs id (e ∷ es) = sent_on-map-runs id es

pub call_all-append :
    (cs ds : List Call) (net : Network)
    → call_all (cs ++ ds) net ≡ (call_all cs net >>= call_all ds)
unfolding call_all
call_all-append [] ds net = refl
call_all-append (c ∷ cs) ds net = go (call c net) (call_all-append cs ds)
  where
    go :
        (o : NetOutcome Network)
        → ((mid : Network) → call_all (cs ++ ds) mid ≡ (call_all cs mid >>= call_all ds))
        → (o >>= call_all (cs ++ ds)) ≡ ((o >>= call_all cs) >>= call_all ds)
    go (ok mid) ih = ih mid
    go (throws x) ih = refl
    go undefined_behaviour ih = refl

pub uses_all-append : (cs ds : List Call) → uses_all (cs ++ ds) ≡ uses_all cs + uses_all ds
uses_all-append [] ds = omega arith
uses_all-append (c ∷ cs) ds = omega (arith, uses_all-append cs ds)

pub sent_on-map-does : (id : ℕ) (hs : List Happening) → sent_on id (map does hs) ≡ []
unfolding sent_on sent_in
sent_on-map-does id [] = refl
sent_on-map-does id (traffic e ∷ hs) = sent_on-map-does id hs
sent_on-map-does id (read_failed err index ∷ hs) = sent_on-map-does id hs

does-call : (h : Happening) (net : Network) → happen h net ≡ call (does h) net
unfolding happen call
does-call (traffic e) net = refl
does-call (read_failed err index) net = refl

pub happen_all-call_all :
    (hs : List Happening) (net : Network) → happen_all hs net ≡ call_all (map does hs) net
unfolding happen_all call_all
happen_all-call_all [] net = refl
happen_all-call_all (h ∷ hs) net =
    ap (λ o. o >>= happen_all hs) (does-call h net)
    ∙ go (call (does h) net) (happen_all-call_all hs)
  where
    go :
        (o : NetOutcome Network)
        → ((mid : Network) → happen_all hs mid ≡ call_all (map does hs) mid)
        → (o >>= happen_all hs) ≡ (o >>= call_all (map does hs))
    go (ok mid) ih = ih mid
    go (throws x) ih = refl
    go undefined_behaviour ih = refl

pub call_all_from :
    (cs ds : List Call) (net mid : Network)
    → call_all cs net ≡ ok mid
    → call_all (cs ++ ds) net ≡ call_all ds mid
call_all_from cs ds net mid ran = call_all-append cs ds net ∙ rw ran

pub call_all_one : (c : Call) (net : Network) → call_all (c ∷ []) net ≡ call c net
unfolding call_all
call_all_one c net = go (call c net)
  where
    go : (o : NetOutcome Network) → (o >>= call_all []) ≡ o
    go (ok mid) = refl
    go (throws x) = refl
    go undefined_behaviour = refl

-- A network that is prepared for some calls and further ones is prepared for these when it has made the
-- former.
pub Prepared-split :
    (cs ds : List Call) (net : Network)
    → Prepared (cs ++ ds) net
    → (mid : Network) × (call_all cs net ≡ ok mid)
      × Prepared ds mid
      × Extends net.connections mid.connections
Prepared-split cs ds net p =
    let (first, second) = All-split Proper cs ds p.proper in
    let (mid, ran, valid, delivers, next, extends, each) =
      call_all_lem cs net p.valid p.delivers first (omega (arith, p.room, uses_all-append cs ds)) in
    (
      mid,
      ran,
      record {
        valid = valid;
        delivers = delivers;
        proper = second;
        room = omega (arith, next, p.room, uses_all-append cs ds);
      },
      extends,
    )
