-- ===== src/Messages/Sharing/Outstanding.antt =====
-- The writes that are outstanding on a connection (volt_net/src/volt/net/net_con.cpp), on shared vectors and
-- on values.
use volt_net.Common.{
  ℕ, zero, suc, ◌≡◌, refl, sym, ap, subst, ◌∙◌, drop, get_elem?, map, All, some, List, [], ◌∷◌,
}
use mathlib.Core.Option.{some-injective}
use volt_net.MsgPool.{erase_idx}
use volt_net.NetCon.{NetCon, Outcome}
use volt_net.NetCon
use volt_net.NetCon.Writing.{Sending, set_left}
use volt_net.Messages.Sharing.{
  MsgVector, Store, Result, runs, throws, undefined, ◌>>=◌, BufferWrite, SharedSending, set_sent,
}
use volt_net.Messages.Sharing.Values.{content_of, view, view_all, Agree}

pub erase_idx-map :
    (store : Store) (ws : List BufferWrite) (i : ℕ)
    → map (view store) (erase_idx ws i) ≡ erase_idx (map (view store) ws) i
unfolding erase_idx
erase_idx-map store [] i = refl
erase_idx-map store (w ∷ ws) zero = refl
erase_idx-map store (w ∷ ws) (suc i) = ap (◌∷◌ (view store w)) (erase_idx-map store ws i)

pub All-erase_idx :
    (P : BufferWrite → Type 0) (ws : List BufferWrite) (i : ℕ) → All P ws → All P (erase_idx ws i)
unfolding erase_idx
All-erase_idx P [] i h = tt
All-erase_idx P (w ∷ ws) zero h = h.1
All-erase_idx P (w ∷ ws) (suc i) h = (h.0, All-erase_idx P ws i h.1)

pub set_sent-map :
    (store : Store) (ws : List BufferWrite) (i n : ℕ) (w : BufferWrite) (v : MsgVector)
    → get_elem? ws i ≡ some w
    → get_elem? store.vectors w.pointer ≡ some v
    → map (view store) (set_sent ws i n) ≡ set_left (map (view store) ws) i (drop n v.content)
unfolding set_sent set_left
set_sent-map store [] i n w v e at = cc
set_sent-map store (x ∷ ws) zero n w v e at =
    let found : get_elem? store.vectors x.pointer ≡ some v =
      ap (λ y. get_elem? store.vectors y.pointer) (some-injective x w e) ∙ at in
    ap
      (λ o.
        record {
          msg = content_of (get_elem? store.vectors x.pointer);
          left = drop n (content_of o);
        }
        ∷ map (view store) ws)
      found
set_sent-map store (x ∷ ws) (suc i) n w v e at =
    ap (◌∷◌ (view store x)) (set_sent-map store ws i n w v e at)

pub All-set_sent :
    (P : BufferWrite → Type 0) (ws : List BufferWrite) (i n : ℕ) (w : BufferWrite)
    → get_elem? ws i ≡ some w
    → P (record w { sent = n })
    → All P ws
    → All P (set_sent ws i n)
unfolding set_sent
All-set_sent P [] i n w e new h = tt
All-set_sent P (x ∷ ws) zero n w e new h =
    (subst (λ y. P (record y { sent = n })) (sym (some-injective x w e)) new, h.1)
All-set_sent P (x ∷ ws) (suc i) n w e new h = (h.0, All-set_sent P ws i n w e new h.1)

abbrev pub AgreeWith : (SharedSending → Type 0) → Result SharedSending → Outcome Sending → Type 0
AgreeWith P (runs s) (Outcome.ok t) = (view_all s ≡ t) × P s
AgreeWith P (throws x c) (Outcome.throws y d) = (x ≡ y) × (c ≡ d)
AgreeWith P _ _ = Unit → ⊥

abbrev pub bind : Outcome Sending → (Sending → Outcome Sending) → Outcome Sending
bind o f = volt_net.NetCon.◌>>=◌ o f

pub Agree-bind :
    (P : SharedSending → Type 0) (o : Result SharedSending) (o' : Outcome Sending)
    (f : SharedSending → Result SharedSending) (g : Sending → Outcome Sending)
    → AgreeWith P o o'
    → ((s : SharedSending) → P s → Agree (f s) (g (view_all s)))
    → Agree (o >>= f) (bind o' g)
Agree-bind P (runs s) (Outcome.ok t) f g h next = subst (λ t. Agree (f s) (g t)) h.0 (next s h.1)
Agree-bind P (throws x c) (Outcome.throws y d) f g h next = h
Agree-bind P (runs s) (Outcome.throws y d) f g h next = absurd (h tt)
Agree-bind P (runs s) Outcome.stuck f g h next = absurd (h tt)
Agree-bind P (throws x c) (Outcome.ok t) f g h next = absurd (h tt)
Agree-bind P (throws x c) Outcome.stuck f g h next = absurd (h tt)
Agree-bind P undefined o' f g h next = absurd (h tt)
