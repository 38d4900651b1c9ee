-- ===== src/NetCon/Racing/Loop.antt =====
-- The loop of net_con::handle_read (volt_net/src/volt/net/net_con.cpp) while other threads close the
-- connection, one round and then all.
use volt_net.Common.{
  ℕ, suc, ◌+◌, ◌≤◌, ◌<◌, ◌≡◌, refl, sym, ap, ◌∙◌, if_true, if_false, true, false, get_elem?, some,
  List, [], ◌∷◌, ◌++◌, append-nil, append_assoc, arith,
}
use mathlib.Core.List.{map-append}
use volt_net.Defs.{Message}
use volt_net.NetCon.{NetCon, ok, ◌>>=◌}
use volt_net.NetCon.Parser.{parse, state_after, advance, completed}
use volt_net.NetCon.Bytes.{parser_of, calls_of, put, handle_byte_lem}
use volt_net.NetCon.Streams.{tagged, deliver_all}
use volt_net.NetCon.Racing.{Racing, put_con, load_open, race_next_byte, race_byte, race_loop}
use volt_net.NetCon.Racing.Frame.{shut, Shuts}

-- A connection that differs from `d` in that these bytes have been read, in the index into the buffer,
-- and in what closing changes.
abbrev pub after_bytes : NetCon → List ℕ → ℕ → NetCon → NetCon
after_bytes d bytes i e = record (shut d e.con_open e.sock_open e.closed_calls) {
  new_msg_calls = d.new_msg_calls ++ tagged d.id (parse (parser_of d) bytes);
  recv_msg = (state_after (parser_of d) bytes).partial;
  next_is_escape = (state_after (parser_of d) bytes).escaped;
  current_index = i;
}

abbrev pub HasRead : NetCon → List ℕ → ℕ → NetCon → Type 0
HasRead d bytes i e = e ≡ after_bytes d bytes i e

pub HasRead-Shuts :
    (d d' e : NetCon) (bytes : List ℕ) (i : ℕ)
    → Shuts d d'
    → HasRead d' bytes i e
    → HasRead d bytes i e
HasRead-Shuts d d' e bytes i f h = h ∙ ap (λ x. after_bytes x bytes i e) f.0

pub HasRead-then :
    (d t u : NetCon) (bytes : List ℕ) (i : ℕ)
    → HasRead d bytes i t
    → Shuts t u
    → HasRead d bytes i u
HasRead-then d t u bytes i h f = f.0 ∙ ap (λ x. shut x u.con_open u.sock_open u.closed_calls) h

pub HasRead-none : (d e : NetCon) → Shuts d e → HasRead d [] d.current_index e
unfolding parse state_after
HasRead-none d e f =
    f.0
    ∙ ap (λ calls. record (shut d e.con_open e.sock_open e.closed_calls) { new_msg_calls = calls })
        (sym (append-nil d.new_msg_calls))

pub HasRead-index :
    (d e : NetCon) (bytes : List ℕ) (i j : ℕ)
    → HasRead d bytes i e
    → HasRead d bytes j (record e { current_index = j })
HasRead-index d e bytes i j h = ap {A = NetCon} (λ x. record x { current_index = j }) h

-- The connection after one byte.
abbrev pub byte_con : ℕ → NetCon → NetCon
byte_con b d = record d {
  new_msg_calls = d.new_msg_calls ++ tagged d.id (completed (parser_of d) b);
  recv_msg = (advance (parser_of d) b).partial;
  next_is_escape = (advance (parser_of d) b).escaped;
}

pub HasRead-byte :
    (d e : NetCon) (b : ℕ) (bytes : List ℕ) (i : ℕ)
    → HasRead (byte_con b d) bytes i e
    → HasRead d (b ∷ bytes) i e
unfolding parse state_after
HasRead-byte d e b bytes i h =
    h
    ∙ ap (λ calls. record (after_bytes (byte_con b d) bytes i e) { new_msg_calls = calls })
        (append_assoc d.new_msg_calls _ _
          ∙ ap (◌++◌ d.new_msg_calls)
              (sym (map-append {B = ℕ × Message} (λ m. (d.id, m)) (completed (parser_of d) b) _)))

pub race_byte_lem :
    (b : ℕ) (r : Racing)
    → r.now.con.con_open ≡ true
    → r.now.con.has_closed_callback ≡ true
    → r.now.con.has_new_msg_callback ≡ true
    → race_byte b r ≡ ok (put_con r (byte_con b r.now.con))
unfolding race_byte
race_byte_lem b r o h1 h2 =
    let d = r.now.con in
    ap (λ result. result >>= (λ d. ok (put_con r d)))
      (handle_byte_lem (λ calls. false) b d o h1 h2
        ∙ ap (λ s. ok (put d s (advance (parser_of d) b)))
            (deliver_all (λ calls. false) d.id (calls_of d) (completed (parser_of d) b)
              (λ calls. refl)))

-- The four ways in which a round can go.
module _ (fuel : ℕ) (r t : Racing) (eq : load_open r ≡ ok t) where
  pub race_loop_closed : t.now.con.con_open ≡ false → race_loop (suc fuel) r ≡ ok t
  unfolding race_loop
  race_loop_closed o = rw (eq, ◌>>=◌) (if_false _ (ok t) o)

  module _ (o : t.now.con.con_open ≡ true) where
    pub race_loop_end :
        t.now.con.msg_size ≤ t.now.con.current_index
        → race_loop (suc fuel) r ≡ ok (put_con t (record t.now.con { current_index = 0 }))
    unfolding race_loop race_next_byte
    race_loop_end h = rw (eq, ◌>>=◌) (if_true _ (ok t) o ∙ ground arith)

    module _ (u : Racing) (more : t.now.con.current_index < t.now.con.msg_size)
        (eq' : load_open t ≡ ok u) where
      pub race_loop_late :
          u.now.con.con_open ≡ false
          → race_loop (suc fuel) r ≡ ok (put_con u (record u.now.con { current_index = 0 }))
      unfolding race_loop race_next_byte
      race_loop_late shut_now = rw (eq, ◌>>=◌) (if_true _ (ok t) o ∙ ground arith)

      pub race_loop_byte :
          (b : ℕ) (w : Racing)
          → u.now.con.con_open ≡ true
          → get_elem? u.now.con.buff u.now.con.current_index ≡ some b
          → race_byte b
              (put_con u (record u.now.con { current_index = u.now.con.current_index + 1 }))
            ≡ ok w
          → race_loop (suc fuel) r ≡ race_loop fuel w
      unfolding race_loop race_next_byte
      race_loop_byte b w open_still found read = rw (eq, ◌>>=◌) (if_true _ (ok t) o ∙ ground arith)
