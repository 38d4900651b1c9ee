-- ===== src/NetCon/Racing/Rounds.antt =====
-- The loop of net_con::handle_read (volt_net/src/volt/net/net_con.cpp) while other threads close the
-- connection: the bytes that it reads.
use volt_net.Common.{
  ℕ, zero, suc, ◌+◌, ◌≤◌, ◌<◌, ◌≡◌, refl, sym, ap, ◌∙◌, Bool-cases, inl, inr, true, false, length,
  length-append, take, List, [], ◌∷◌, ◌++◌, append_assoc, arith,
}
use volt_net.NetCon.{NetCon, Outcome, ok}
use volt_net.NetCon.Bytes.{get_elem?-middle}
use volt_net.NetCon.Closing.Turns.{Invariant}
use volt_net.NetCon.Racing.{Racing, put_con, load_open, race_loop}
use volt_net.NetCon.Racing.Frame.{Shuts, Shuts-trans}
use volt_net.NetCon.Racing.Loads.{quiet, Stays, Invariant-con, load_open_lem}
use volt_net.NetCon.Racing.Loop.{
  HasRead, HasRead-Shuts, HasRead-none, HasRead-index, HasRead-byte, byte_con, race_byte_lem,
  race_loop_closed, race_loop_end, race_loop_late, race_loop_byte,
}

module _ (c : NetCon) (n out : ℕ) where
  -- All the bytes are read that come before another thread takes a step.
  abbrev Prompt : List ℕ → Racing → ℕ → Type 0
  Prompt bs r k =
      (j : ℕ) (later : List (List ℕ))
      → j ≤ length bs
      → r.now.con.con_open ≡ true
      → r.ahead ≡ quiet j later
      → j ≤ k

  -- The loop has read the first `k` of the bytes; all of them unless the connection has been closed.
  abbrev pub Reads : List ℕ → Racing → Outcome Racing → Type 0
  Reads bs r result =
      (t : Racing) × (k : ℕ) × (i : ℕ) × (result ≡ ok t)
      × Invariant c n out 0 t.now
      × HasRead r.now.con (take k bs) i t.now.con
      × (t.now.con.con_open ≡ true → (k ≡ length bs) × (i ≡ 0))
      × Prompt bs r k

  -- A loop that reads nothing, though two loads find nothing changed: there is nothing to read.
  none-Prompt :
      (bs : List ℕ) (r : Racing)
      → ((rest : List (List ℕ))
          → r.now.con.con_open ≡ true
          → r.ahead ≡ [] ∷ [] ∷ rest
          → 0 ≡ length bs)
      → Prompt bs r 0
  none-Prompt bs r nothing zero later few open_first e = omega arith
  none-Prompt bs r nothing (suc j) later few open_first e =
      absurd (omega (arith, nothing (quiet j later) open_first e))

  -- The loop ends at its own load.
  closed-Reads :
      (bs : List ℕ) (fuel : ℕ) (r t : Racing)
      → load_open r ≡ ok t
      → Invariant c n out 0 t.now
      → Shuts r.now.con t.now.con
      → Stays r.ahead r.now t
      → t.now.con.con_open ≡ false
      → Reads bs r (race_loop (suc fuel) r)
  closed-Reads bs fuel r t eq w same stays shut_now = (
    t,
    0,
    r.now.con.current_index,
    race_loop_closed fuel r t eq shut_now,
    w,
    HasRead-none r.now.con t.now.con same,
    λ still. cc,
    none-Prompt bs r (λ rest open_first e.
        let kept = ap (λ s. s.con.con_open) (stays ([] ∷ rest) e).0 in absurd (cc)),
  )

  -- The loop ends as there is no byte, or none that is still taken.
  reset-Reads :
      (bs : List ℕ) (fuel : ℕ) (r u : Racing)
      → Invariant c n out 0 u.now
      → Shuts r.now.con u.now.con
      → race_loop (suc fuel) r ≡ ok (put_con u (record u.now.con { current_index = 0 }))
      → (u.now.con.con_open ≡ true → 0 ≡ length bs)
      → ((rest : List (List ℕ))
          → r.now.con.con_open ≡ true
          → r.ahead ≡ [] ∷ [] ∷ rest
          → 0 ≡ length bs)
      → Reads bs r (race_loop (suc fuel) r)
  reset-Reads bs fuel r u w same eq all_read nothing = (
    put_con u (record u.now.con { current_index = 0 }),
    0,
    0,
    eq,
    Invariant-con c n out u.now (record u.now.con { current_index = 0 }) w refl refl refl refl,
    HasRead-index r.now.con u.now.con [] _ 0 (HasRead-none r.now.con u.now.con same),
    λ still. (all_read still, refl),
    none-Prompt bs r nothing,
  )

  -- The connection after a byte that is taken from the buffer.
  abbrev taken : ℕ → NetCon → NetCon
  taken b d = byte_con b (record d { current_index = d.current_index + 1 })

  byte-Prompt :
      (b : ℕ) (bs : List ℕ) (r u : Racing) (k : ℕ)
      → Prompt bs (put_con u (taken b u.now.con)) k
      → ((rest : List (List ℕ)) → r.ahead ≡ [] ∷ [] ∷ rest → (u.now ≡ r.now) × (u.ahead ≡ rest))
      → Prompt (b ∷ bs) r (suc k)
  byte-Prompt b bs r u k prompt stays zero later few open_first e = omega arith
  byte-Prompt b bs r u k prompt stays (suc j) later few open_first e =
      let (same, rest) = stays (quiet j later) e in
      let open_then = ap (λ s. s.con.con_open) same ∙ open_first in
      omega (arith, prompt j later (omega arith) open_then rest)

  -- A round that takes a byte, and the rounds after it.
  byte-Reads :
      (b : ℕ) (bs : List ℕ) (fuel : ℕ) (r u : Racing)
      → Shuts r.now.con u.now.con
      → race_loop (suc fuel) r ≡ race_loop fuel (put_con u (taken b u.now.con))
      → Reads bs (put_con u (taken b u.now.con)) (race_loop fuel (put_con u (taken b u.now.con)))
      → ((rest : List (List ℕ)) → r.ahead ≡ [] ∷ [] ∷ rest → (u.now ≡ r.now) × (u.ahead ≡ rest))
      → Reads (b ∷ bs) r (race_loop (suc fuel) r)
  byte-Reads b bs fuel r u same eq (a, k, i, eq_rest, w, read, whole, prompt) stays =
      let d = record u.now.con { current_index = u.now.con.current_index + 1 } in
      (
        a,
        suc k,
        i,
        eq ∙ eq_rest,
        w,
        HasRead-Shuts r.now.con u.now.con a.now.con (b ∷ take k bs) i same
            (HasRead-byte d a.now.con b (take k bs) i read),
        λ still. (ap suc (whole still).0, (whole still).1),
        byte-Prompt b bs r u k prompt stays,
      )

  pub race_loop-Reads :
      (bs : List ℕ) (fuel : ℕ) (r : Racing) (front tail : List ℕ)
      → Invariant c n out 0 r.now
      → length bs < fuel
      → r.now.con.has_new_msg_callback ≡ true
      → r.now.con.buff ≡ front ++ (bs ++ tail)
      → r.now.con.current_index ≡ length front
      → r.now.con.msg_size ≡ length front + length bs
      → Reads bs r (race_loop fuel r)
  race_loop-Reads bs zero r front tail v f h e i m = elim f [ ]
  race_loop-Reads [] (suc fuel) r front tail v f h e i m =
      let (t, eq, w, same, stays) = load_open_lem c n out r v in
      let t_index : t.now.con.current_index ≡ r.now.con.current_index =
        ap (λ x. x.current_index) same.0 in
      let t_size : t.now.con.msg_size ≡ r.now.con.msg_size = ap (λ x. x.msg_size) same.0 in
      elim (Bool-cases t.now.con.con_open) [
        | inl open_now ↦
            reset-Reads [] fuel r t w same (race_loop_end fuel r t eq open_now (omega arith))
              (λ still. refl) (λ rest open_first e. refl)
        | inr shut_now ↦ closed-Reads [] fuel r t eq w same stays shut_now
      ]
  race_loop-Reads (b ∷ bs) (suc fuel) r front tail v f h e i m =
      let (t, eq, w, same, stays) = load_open_lem c n out r v in
      let (u, eq', w', same', stays') = load_open_lem c n out t w in
      let both_stay : (rest : List (List ℕ))
          → r.ahead ≡ [] ∷ [] ∷ rest
          → (u.now ≡ r.now) × (u.ahead ≡ rest) =
        λ rest e.
          (let (kept, left) = stays ([] ∷ rest) e in
            let (kept', left') = stays' rest left in (kept' ∙ kept, left')) in
      let both = Shuts-trans r.now.con t.now.con u.now.con same same' in
      let t_index : t.now.con.current_index ≡ r.now.con.current_index =
        ap (λ x. x.current_index) same.0 in
      let t_size : t.now.con.msg_size ≡ r.now.con.msg_size = ap (λ x. x.msg_size) same.0 in
      let u_buff : u.now.con.buff ≡ front ++ (b ∷ (bs ++ tail)) = ap (λ x. x.buff) both.0 ∙ e in
      let u_index : u.now.con.current_index ≡ length front = ap (λ x. x.current_index) both.0 ∙ i in
      let u_size : u.now.con.msg_size ≡ r.now.con.msg_size = ap (λ x. x.msg_size) both.0 in
      let u_new : u.now.con.has_new_msg_callback ≡ true =
        ap (λ x. x.has_new_msg_callback) both.0 ∙ h in
      let next = put_con u (taken b u.now.con) in
      elim (Bool-cases t.now.con.con_open) [
        | inl open_now ↦ elim (Bool-cases u.now.con.con_open) [
          | inl open_still ↦
              byte-Reads b bs fuel r u both
                (race_loop_byte fuel r t eq open_now u (omega arith) eq' b next open_still
                  (rw (u_buff, u_index) (get_elem?-middle front (bs ++ tail) b))
                  (race_byte_lem b _ open_still w'.can_close u_new))
                (race_loop-Reads bs fuel next (front ++ (b ∷ [])) tail
                  (Invariant-con c n out u.now (taken b u.now.con) w' refl refl refl refl)
                  (omega arith) u_new (u_buff ∙ sym (append_assoc front (b ∷ []) (bs ++ tail)))
                  (omega (arith, length-append front (b ∷ [])))
                  (omega (arith, length-append front (b ∷ []))))
                both_stay
          | inr late ↦
              reset-Reads (b ∷ bs) fuel r u w' both
                (race_loop_late fuel r t eq open_now u (omega arith) eq' late) (λ still. cc)
                (λ rest open_first e.
                  let kept = ap (λ s. s.con.con_open) (both_stay rest e).0 in absurd (cc))
        ]
        | inr shut_now ↦ closed-Reads (b ∷ bs) fuel r t eq w same stays shut_now
      ]
