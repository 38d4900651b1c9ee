-- ===== src/Network/Delivery/Lookups.antt =====
-- The connections of a network, found by their ids and put back in a new state
-- (volt_net/src/volt/net/network.cpp, get_con).
use volt_net.Common.{
  ℕ, ◌<◌, ◌==◌, ◌≡◌, ◌≢◌, refl, sym, ap, subst, ◌∙◌, if◌then◌else◌, if_true, if_false, Bool-cases,
  inl, inr, some, List, [], ◌∷◌, ◌++◌, All, map, append-nil, append_assoc, arith, ==_iff,
}
use mathlib.Core.Option.{some-injective}
use volt_net.NetCon.{NetCon}
use volt_net.Network.{get_con_loop}
use volt_net.Network.Connections.{AllBelow, Distinct}
use volt_net.Network.Traffic.{update_con}

pub get_con_loop-id :
    (id : ℕ) (cs : List NetCon) (c : NetCon) → get_con_loop id cs ≡ some c → c.id ≡ id
unfolding get_con_loop
get_con_loop-id id [] c e = cc
get_con_loop-id id (x ∷ xs) c e = elim (Bool-cases (x.id == id)) [
  | inl hit ↦
      ap (λ c. c.id) (sym (some-injective x c (sym (if_true _ _ hit) ∙ e))) ∙ (==_iff x.id id).0 hit
  | inr miss ↦ get_con_loop-id id xs c (sym (if_false _ _ miss) ∙ e)
]

pub get_con_loop-All :
    (P : NetCon → Type 0) (id : ℕ) (cs : List NetCon) (c : NetCon)
    → get_con_loop id cs ≡ some c
    → All P cs
    → P c
unfolding get_con_loop
get_con_loop-All P id [] c e all = cc
get_con_loop-All P id (x ∷ xs) c e all = elim (Bool-cases (x.id == id)) [
  | inl hit ↦ subst P (some-injective x c (sym (if_true _ _ hit) ∙ e)) all.0
  | inr miss ↦ get_con_loop-All P id xs c (sym (if_false _ _ miss) ∙ e) all.1
]

pub update_con-All :
    (P : NetCon → Type 0) (id : ℕ) (d : NetCon) (cs : List NetCon)
    → P d
    → All P cs
    → All P (update_con id d cs)
unfolding update_con
update_con-All P id d [] h all = tt
update_con-All P id d (x ∷ xs) h all = elim (Bool-cases (x.id == id)) [
  | inl hit ↦ rw hit (h, all.1)
  | inr miss ↦ rw miss (all.0, update_con-All P id d xs h all.1)
]

-- The connection is found in its new state, and any other one as it was.
pub get_con_loop-update_con :
    (id : ℕ) (d : NetCon) (cs : List NetCon) (c : NetCon)
    → d.id ≡ id
    → get_con_loop id cs ≡ some c
    → (other : ℕ)
    → get_con_loop other (update_con id d cs)
      ≡ (if id == other then some d else get_con_loop other cs)
unfolding get_con_loop update_con
get_con_loop-update_con id d [] c same found other = cc
get_con_loop-update_con id d (x ∷ xs) c same found other = elim (Bool-cases (x.id == id)) [
  | inl hit ↦ ground (arith, same)
  | inr miss ↦
      ground (
        arith,
        same,
        get_con_loop-update_con id d xs c same (sym (if_false _ _ miss) ∙ found) other,
      )
]

pub update_con-AllBelow :
    (n id : ℕ) (d : NetCon) (cs : List NetCon)
    → d.id ≡ id
    → AllBelow n cs
    → AllBelow n (update_con id d cs)
unfolding update_con
update_con-AllBelow n id d [] same below = tt
update_con-AllBelow n id d (x ∷ xs) same below = elim (Bool-cases (x.id == id)) [
  | inl hit ↦ rw hit (subst (λ k. k < n) ((==_iff x.id id).0 hit ∙ sym same) below.0, below.1)
  | inr miss ↦ rw miss (below.0, update_con-AllBelow n id d xs same below.1)
]

update_con-others :
    (k id : ℕ) (d : NetCon) (cs : List NetCon)
    → d.id ≡ id
    → All (λ (c : NetCon). c.id ≢ k) cs
    → All (λ (c : NetCon). c.id ≢ k) (update_con id d cs)
unfolding update_con
update_con-others k id d [] same others = tt
update_con-others k id d (x ∷ xs) same others = elim (Bool-cases (x.id == id)) [
  | inl hit ↦ rw hit ((λ e. others.0 ((==_iff x.id id).0 hit ∙ sym same ∙ e)), others.1)
  | inr miss ↦ rw miss (others.0, update_con-others k id d xs same others.1)
]

pub update_con-Distinct :
    (id : ℕ) (d : NetCon) (cs : List NetCon)
    → d.id ≡ id
    → Distinct cs
    → Distinct (update_con id d cs)
unfolding update_con
update_con-Distinct id d [] same distinct = tt
update_con-Distinct id d (x ∷ xs) same distinct = elim (Bool-cases (x.id == id)) [
  | inl hit ↦ rw hit (
    subst (λ k. All (λ (c : NetCon). c.id ≢ k) xs) ((==_iff x.id id).0 hit ∙ sym same) distinct.0,
    distinct.1,
  )
  | inr miss ↦
      rw miss (
        update_con-others x.id id d xs same distinct.0,
        update_con-Distinct id d xs same distinct.1,
      )
]

pub get_con_loop-append_found :
    (id : ℕ) (cs : List NetCon) (c d : NetCon)
    → get_con_loop id cs ≡ some c
    → get_con_loop id (cs ++ (d ∷ [])) ≡ some c
unfolding get_con_loop
get_con_loop-append_found id [] c d e = cc
get_con_loop-append_found id (x ∷ xs) c d e = elim (Bool-cases (x.id == id)) [
  | inl hit ↦ rw hit (sym (if_true _ _ hit) ∙ e)
  | inr miss ↦ rw miss (get_con_loop-append_found id xs c d (sym (if_false _ _ miss) ∙ e))
]

abbrev pub ids_of : List NetCon → List ℕ
ids_of = map (λ (c : NetCon). c.id)

-- New connections stand behind the others.
abbrev pub Extends : List NetCon → List NetCon → Type 0
Extends cs ds = (more : List ℕ) × (ids_of ds ≡ ids_of cs ++ more)

pub same-Extends : (cs ds : List NetCon) → ds ≡ cs → Extends cs ds
same-Extends cs ds e = ([], ap ids_of e ∙ sym (append-nil (ids_of cs)))

pub Extends-trans : (cs ds es : List NetCon) → Extends cs ds → Extends ds es → Extends cs es
Extends-trans cs ds es (m, p) (n, q) =
    (m ++ n, q ∙ ap (λ l. l ++ n) p ∙ append_assoc (ids_of cs) m n)

update_con-ids :
    (id : ℕ) (d : NetCon) (cs : List NetCon) → d.id ≡ id → ids_of (update_con id d cs) ≡ ids_of cs
unfolding update_con
update_con-ids id d [] named = refl
update_con-ids id d (x ∷ xs) named = elim (Bool-cases (x.id == id)) [
  | inl hit ↦ rw hit (ap (λ i. i ∷ ids_of xs) (named ∙ sym ((==_iff x.id id).0 hit)))
  | inr miss ↦ rw miss (ap (◌∷◌ x.id) (update_con-ids id d xs named))
]

pub update_con-Extends :
    (id : ℕ) (d : NetCon) (cs : List NetCon) → d.id ≡ id → Extends cs (update_con id d cs)
update_con-Extends id d cs named = ([], update_con-ids id d cs named ∙ sym (append-nil (ids_of cs)))
