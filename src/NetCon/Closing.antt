-- ===== src/NetCon/Closing.antt =====
-- net_con::close_con (volt_net/src/volt/net/net_con.cpp) when several threads call it: each access of the
-- atomic `con_open` and of the socket is one step.
pub mod Turns
pub mod Callers
use volt_net.Common.{
  ℕ, zero, suc, ◌+◌, ◌≡◌, if◌then◌else◌, false, Bool-cases, inl, inr, get_elem?, none, some, List,
  [], ◌∷◌, ◌++◌, arith,
}
use volt_net.NetCon.{NetCon, bad_function_call, Outcome, ok, throws, ◌>>=◌, close_con}

-- What a thread does next, or whether it called the handler or found the connection closed.
pub data Point : Type 0 where
  loads stores cancels closes calls called skipped : Point

unfoldable pub move : Point → NetCon → Outcome (NetCon × Point)
move loads c = ok (c, if c.con_open then stores else skipped)
move stores c = ok (record c { con_open = false }, cancels)
move cancels c = ok (c, closes)
move closes c = ok (record c { sock_open = false }, calls)
move calls c =
    if c.has_closed_callback
    then ok (record c { closed_calls = c.closed_calls ++ (c.id ∷ []) }, called)
    else throws bad_function_call c
move called c = ok (c, called)
move skipped c = ok (c, skipped)

pub record Closing : Type 0 where
  pub con : NetCon
  pub threads : List Point

abbrev pub set_point : List Point → ℕ → Point → List Point
set_point [] k p = []
set_point (q ∷ qs) zero p = p ∷ qs
set_point (q ∷ qs) (suc k) p = q ∷ set_point qs k p

-- The thread with a number makes its next step.
unfoldable pub turn : ℕ → Closing → Outcome Closing
unfolding move
turn k s = elim (get_elem? s.threads k) [
  | none ↦ ok s
  | some p ↦
      move p s.con
      >>= (λ moved. ok (record { con = moved.0; threads = set_point s.threads k moved.1 }))
]

-- A schedule: which thread makes a step, again and again.
unfoldable pub turns : List ℕ → Closing → Outcome Closing
unfolding turn
turns [] s = ok s
turns (k ∷ ks) s = turn k s >>= turns ks

-- One thread alone does what close_con does, whether the connection is open and whether it has a handler.
pub turns-close_con :
    (c : NetCon)
    → (turns (0 ∷ 0 ∷ 0 ∷ 0 ∷ 0 ∷ []) (record { con = c; threads = loads ∷ [] })
        >>= (λ s. ok s.con))
      ≡ close_con c
unfolding turns turn move close_con
turns-close_con c = elim (Bool-cases c.con_open) [
  | inl open_ ↦ elim (Bool-cases c.has_closed_callback) [
    | inl handler ↦ ground arith
    | inr none_set ↦ ground arith
  ]
  | inr shut ↦ ground arith
]
