-- ===== src/NetCon/Racing/Alone.antt =====
-- The two models of net_con::handle_read (volt_net/src/volt/net/net_con.cpp) agree where no other thread
-- closes the connection.
use volt_net.Common.{
  ℕ, zero, suc, ◌==◌, leb, ◌≡◌, refl, if◌then◌else◌, Bool-cases, inl, inr, false, ◌||◌, get_elem?,
  Option-cases, List, [],
}
use volt_net.NetCon.{
  NetCon, Outcome, ok, throws, stuck, ◌>>=◌, handle_read, success, read_loop, get_next_byte,
  schedule_read_handler,
}
use volt_net.NetCon.Closing.{Point}
use volt_net.NetCon.Racing.{
  Racing, put_con, others, load_open, race_next_byte, race_byte, race_loop, race_read,
}

abbrev alone : List Point → NetCon → Racing
alone threads c = record { now = record { con = c; threads = threads }; ahead = [] }

module _ (threads : List Point) where
  byte_alone :
      (fuel : ℕ) (o : Outcome NetCon)
      → ((d : NetCon)
          → race_loop fuel (alone threads d)
            ≡ (read_loop (λ calls. false) fuel d >>= (λ d. ok (alone threads d))))
      → ((o >>= (λ d. ok (alone threads d))) >>= race_loop fuel)
        ≡ ((o >>= read_loop (λ calls. false) fuel) >>= (λ d. ok (alone threads d)))
  byte_alone fuel (ok d) ih = ih d
  byte_alone fuel (throws x d) ih = refl
  byte_alone fuel stuck ih = refl

  loop_alone :
      (fuel : ℕ) (c : NetCon)
      → race_loop fuel (alone threads c)
        ≡ (read_loop (λ calls. false) fuel c >>= (λ d. ok (alone threads d)))
  unfolding race_loop read_loop race_next_byte race_byte load_open others get_next_byte
  loop_alone zero c = refl
  loop_alone (suc fuel) c = elim (Bool-cases c.con_open) [
    | inl open_now ↦ elim (Bool-cases ((c.msg_size == 0) || leb c.msg_size c.current_index)) [
      | inl at_end ↦ rw (open_now, at_end) refl
      | inr more ↦ elim (Option-cases (get_elem? c.buff c.current_index)) [
        | inl missing ↦ rw (open_now, more, missing) refl
        | inr (b, found) ↦ rw (open_now, more, found) (byte_alone fuel _ (loop_alone fuel))
      ]
    ]
    | inr shut_now ↦ rw (shut_now) refl
  ]

  last_alone :
      (o : Outcome NetCon)
      → (((o >>= (λ d. ok (alone threads d))) >>= load_open) >>= (λ t.
          if t.now.con.con_open then ok (put_con t (schedule_read_handler t.now.con)) else ok t))
        ≡ ((o >>= (λ d. if d.con_open then ok (schedule_read_handler d) else ok d))
            >>= (λ d. ok (alone threads d)))
  unfolding load_open others
  last_alone (ok d) = elim (Bool-cases d.con_open) [
    | inl open_now ↦ rw (open_now) refl
    | inr shut_now ↦ rw (shut_now) refl
  ]
  last_alone (throws x d) = refl
  last_alone stuck = refl

  -- Where no other thread takes a step, both models of a successful handle_read have the same result on
  -- every connection, whether it returns or throws.
  pub race_read-handle_read :
      (n : ℕ) (c : NetCon)
      → race_read n (alone threads c)
        ≡ (handle_read (λ calls. false) success n c >>= (λ d. ok (alone threads d)))
  unfolding race_read handle_read
  race_read-handle_read n c =
      rw (loop_alone (suc n) (record c { msg_size = n }))
        (last_alone (read_loop (λ calls. false) (suc n) (record c { msg_size = n })))
