-- ===== src/NetCon/Racing/Loads.antt =====
-- The loads of `con_open` in net_con::handle_read (volt_net/src/volt/net/net_con.cpp) between steps of
-- threads that close the connection.
use volt_net.Common.{
  ℕ, zero, suc, ◌≡◌, get_elem?, drop, refl, sym, ap, ◌∙◌, length, List, [], ◌∷◌, arith,
}
use volt_net.NetCon.{NetCon, ok, ◌>>=◌}
use mathlib.Core.Option.{some-injective}
use volt_net.NetCon.Closing.{Closing, turns}
use volt_net.NetCon.Closing.Turns.{Invariant, turns-Invariant}
use volt_net.NetCon.Racing.{Racing, others, load_open}
use volt_net.NetCon.Racing.Frame.{Shuts, turns-Shuts}

-- No thread takes a step before the loads of so many rounds.
abbrev pub quiet : ℕ → List (List ℕ) → List (List ℕ)
quiet zero later = later
quiet (suc j) later = [] ∷ [] ∷ quiet j later

-- No thread takes a step before a load: then nothing has changed after it.
abbrev pub Stays : List (List ℕ) → Closing → Racing → Type 0
Stays ahead s t = (rest : List (List ℕ)) → ahead ≡ [] ∷ rest → (t.now ≡ s) × (t.ahead ≡ rest)

module _ (c : NetCon) (n out : ℕ) where
  -- A change of the connection that closing has nothing to do with.
  pub Invariant-con :
      (s : Closing) (d : NetCon)
      → Invariant c n out 0 s
      → d.id ≡ s.con.id
      → d.has_closed_callback ≡ s.con.has_closed_callback
      → d.closed_calls ≡ s.con.closed_calls
      → d.con_open ≡ s.con.con_open
      → Invariant c n out 0 (record { con = d; threads = s.threads })
  Invariant-con s d v same_id same_handler same_calls same_open = record {
    same_id = same_id ∙ v.same_id;
    can_close = same_handler ∙ v.can_close;
    made = same_calls ∙ v.made;
    while_open = λ e. v.while_open (sym same_open ∙ e);
    when_closed = λ e. v.when_closed (sym same_open ∙ e);
    skips = λ h. same_open ∙ v.skips h;
    as_many = v.as_many;
    few_out = v.few_out;
    kept = λ h. absurd (omega arith);
  }

  pub load_open_lem :
      (r : Racing)
      → Invariant c n out 0 r.now
      → (t : Racing) × (load_open r ≡ ok t)
        × Invariant c n out 0 t.now
        × Shuts r.now.con t.now.con
        × Stays r.ahead r.now t
  unfolding load_open others turns
  load_open_lem r v = go r.ahead
    where
      go :
          (ahead : List (List ℕ))
          → (t : Racing) × (others r.now ahead ≡ ok t)
            × Invariant c n out 0 t.now
            × Shuts r.now.con t.now.con
            × Stays ahead r.now t
      go [] = (record { now = r.now; ahead = [] }, refl, v, (refl, λ e. e), λ rest e. cc)
      go ([] ∷ later) = (
        record { now = r.now; ahead = later },
        refl,
        v,
        (refl, λ e. e),
        λ rest e. (refl, ap (drop 1) e),
      )
      go ((k ∷ ks) ∷ later) =
          let (s, eq, w) = turns-Invariant c n out 0 (k ∷ ks) r.now v in
          (
            record { now = s; ahead = later },
            ap (λ o. o >>= (λ t. ok (record { now = t; ahead = later }))) eq,
            w,
            turns-Shuts (k ∷ ks) r.now s eq,
            λ rest e.
                let first = ap (λ l. get_elem? l 0) e in
                let size = ap length (some-injective _ _ first) in absurd (omega arith),
          )
