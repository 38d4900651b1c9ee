-- ===== src/Messages/Sharing/Vectors.antt =====
-- The vectors behind messages, made and written (volt_net/include/volt/net/messages/msg_writer.hpp).
use volt_net.Common.{
  ℕ, zero, suc, ◌<◌, ◌≡◌, refl, ap, ◌∙◌, length, length-append, get_elem?, some, List, [], ◌∷◌,
  ◌++◌, arith,
}
use volt_net.Defs.{Message}
use volt_net.Messages.Sharing.{MsgVector, Store, set_vector, make_vector, push_onto, write_onto}

get_elem?-end :
    (vs : List MsgVector) (v : MsgVector) (a : ℕ)
    → length vs ≡ a
    → get_elem? (vs ++ (v ∷ [])) a ≡ some v
get_elem?-end [] v zero e = refl
get_elem?-end [] v (suc a) e = absurd (omega (arith, e))
get_elem?-end (x ∷ vs) v zero e = absurd (omega (arith, e))
get_elem?-end (x ∷ vs) v (suc a) e = get_elem?-end vs v a (omega (arith, e))

get_elem?-set_vector_same :
    (vs : List MsgVector) (a : ℕ) (v : MsgVector)
    → a < length vs
    → get_elem? (set_vector vs a v) a ≡ some v
get_elem?-set_vector_same [] a v h = absurd (omega (arith, h))
get_elem?-set_vector_same (x ∷ vs) zero v h = refl
get_elem?-set_vector_same (x ∷ vs) (suc a) v h = get_elem?-set_vector_same vs a v (omega arith)

length-set_vector :
    (vs : List MsgVector) (a : ℕ) (v : MsgVector) → length (set_vector vs a v) ≡ length vs
length-set_vector [] a v = refl
length-set_vector (x ∷ vs) zero v = refl
length-set_vector (x ∷ vs) (suc a) v = ap suc (length-set_vector vs a v)

push_onto-content :
    (grown : ℕ → ℕ) (bytes : List ℕ) (v : MsgVector) (store : Store)
    → (push_onto grown bytes v store).content ≡ v.content ++ bytes
unfolding push_onto
push_onto-content grown bytes v store = ground arith

-- A vector that is made and written holds what was written.
pub written_vector :
    (grown : ℕ → ℕ) (a capacity : ℕ) (bytes : Message) (store : Store)
    → length store.vectors ≡ a
    → let after = write_onto grown a bytes (make_vector capacity store) in
      (v : MsgVector) × (get_elem? after.vectors a ≡ some v)
      × (v.content ≡ bytes)
      × (length after.vectors ≡ suc a)
unfolding write_onto make_vector
written_vector grown a capacity bytes store e =
    let new : MsgVector = record {
      content = [];
      capacity = capacity;
      storage = store.next_storage;
    } in
    let made = make_vector capacity store in
    let v = push_onto grown bytes new made in
    let longer = length-append store.vectors (new ∷ []) in
    let at = get_elem?-end store.vectors new a e in
    rw (write_onto, at)
      (
        v,
        get_elem?-set_vector_same (store.vectors ++ (new ∷ [])) a v (omega (arith, longer, e)),
        push_onto-content grown bytes new made,
        length-set_vector (store.vectors ++ (new ∷ [])) a v ∙ omega (arith, longer, e),
      )
