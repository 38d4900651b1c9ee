-- ===== src/NetCon/Racing/Frame.antt =====
-- What threads in net_con::close_con (volt_net/src/volt/net/net_con.cpp) leave as it is.
use volt_net.Common.{
  ℕ, ◌≡◌, refl, subst, ◌∙◌, ap, Bool, true, Bool-cases, inl, inr, get_elem?, Option, none, some,
  List, [], ◌∷◌,
}
use volt_net.NetCon.{NetCon, Outcome, ok, throws, stuck, ◌>>=◌}
use volt_net.NetCon.Closing.{
  Point, loads, stores, cancels, closes, calls, called, skipped, move, Closing, set_point, turn,
  turns,
}

-- A connection that differs from another in what closing changes.
abbrev pub shut : NetCon → Bool → Bool → List ℕ → NetCon
shut c open_now socket closed = record c {
  con_open = open_now;
  sock_open = socket;
  closed_calls = closed;
}

abbrev pub Shuts : NetCon → NetCon → Type 0
Shuts c d =
    (d ≡ shut c d.con_open d.sock_open d.closed_calls) × (d.con_open ≡ true → c.con_open ≡ true)

pub Shuts-trans : (c d e : NetCon) → Shuts c d → Shuts d e → Shuts c e
Shuts-trans c d e f g = (
  g.0 ∙ ap (λ x. shut x e.con_open e.sock_open e.closed_calls) f.0,
  λ open_now. f.1 (g.1 open_now),
)

Shuts-refl : (c : NetCon) → Shuts c c
Shuts-refl c = (refl, λ open_now. open_now)

-- What holds of a result if there is one.
abbrev Ends {ℓ} : {A : Type ℓ} → (A → Type 0) → Outcome A → Type 0
Ends P (ok a) = P a
Ends P (throws x c) = Unit
Ends P stuck = Unit

Ends-bind :
    {A B : Type 0} (P : A → Type 0) (Q : B → Type 0) (o : Outcome A) (f : A → Outcome B)
    → Ends P o
    → ((a : A) → P a → Ends Q (f a))
    → Ends Q (o >>= f)
Ends-bind P Q (ok a) f h next = next a h
Ends-bind P Q (throws x c) f h next = tt
Ends-bind P Q stuck f h next = tt

move-Shuts : (p : Point) (c : NetCon) → Ends (λ m. Shuts c m.0) (move p c)
unfolding move
move-Shuts loads c = Shuts-refl c
move-Shuts stores c = (refl, λ open_now. cc)
move-Shuts cancels c = Shuts-refl c
move-Shuts closes c = (refl, λ open_now. open_now)
move-Shuts calls c = elim (Bool-cases c.has_closed_callback) [
  | inl handler ↦ rw handler (refl, λ open_now. open_now)
  | inr none_set ↦ rw none_set tt
]
move-Shuts called c = Shuts-refl c
move-Shuts skipped c = Shuts-refl c

turn-Shuts : (k : ℕ) (s : Closing) → Ends (λ t. Shuts s.con t.con) (turn k s)
unfolding turn
turn-Shuts k s = go (get_elem? s.threads k)
  where
    go :
        (found : Option Point)
        → Ends
            (λ t. Shuts s.con t.con)
            (elim found [
              | none ↦ ok s
              | some p ↦ move p s.con >>= (λ moved.
                  ok (record { con = moved.0; threads = set_point s.threads k moved.1 }))
            ])
    go none = Shuts-refl s.con
    go (some p) =
        Ends-bind (λ m. Shuts s.con m.0) (λ t. Shuts s.con t.con) (move p s.con) _
          (move-Shuts p s.con) (λ m f. f)

turns-Ends : (ks : List ℕ) (s : Closing) → Ends (λ t. Shuts s.con t.con) (turns ks s)
unfolding turns
turns-Ends [] s = Shuts-refl s.con
turns-Ends (k ∷ ks) s =
    Ends-bind (λ t. Shuts s.con t.con) (λ u. Shuts s.con u.con) (turn k s) (turns ks)
      (turn-Shuts k s) (λ t f. go t f (turns ks t) (turns-Ends ks t))
  where
    go :
        (t : Closing)
        → Shuts s.con t.con
        → (o : Outcome Closing) → Ends (λ u. Shuts t.con u.con) o
        → Ends (λ u. Shuts s.con u.con) o
    go t f (ok u) g = Shuts-trans s.con t.con u.con f g
    go t f (throws x d) g = tt
    go t f stuck g = tt

-- All that a schedule of closing threads changes of the connection is whether it and its socket are open,
-- and the calls of the closed handler; it does not open it again.
pub turns-Shuts : (ks : List ℕ) (s t : Closing) → turns ks s ≡ ok t → Shuts s.con t.con
turns-Shuts ks s t e = subst (Ends (λ u. Shuts s.con u.con)) e (turns-Ends ks s)
