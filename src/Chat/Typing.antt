-- ===== src/Chat/Typing.antt =====
-- What a client of the chat calls for what its user types (tests/single_client/single_client.cpp).
pub mod Loop
pub mod Lost
use volt_net.Common.{
  ℕ, zero, suc, ◌+◌, ◌==◌, ◌≡◌, refl, ap, ◌∙◌, if◌then◌else◌, Bool-cases, inl, inr, map, List, [],
  ◌∷◌, ◌++◌, ==_iff,
}
use volt_net.Common.Int.{ℤ}
use volt_net.Defs.{Message}
use volt_net.Endian.{Host}
use volt_net.Network.Traffic.{processed}
use volt_net.Network.Lifetimes.{Happening}
use volt_net.Network.Calls.{Call, send_to, runs, does, sent_in, sent_on}
use volt_net.Network.Calls.Sequences.{sent_on-append, sent_on-map-does}
use volt_net.Chat.Objects.{Test, written}
use volt_net.Chat.Client.{getline, is_quit, Round}

-- What the user says.
unfoldable pub said : List ℤ → (ℕ → Round) → ℕ → ℕ → List ℤ → List Test
said username around zero i input = []
said username around (suc left) i input =
    let rest = said username around left (i + 1) (getline input).1 in
    if (around i).error_quit
    then []
    else if is_quit (getline input).0
    then []
    else record { user = username; chat_msg = (getline input).0 } ∷ rest

module _ (h : Host) (username : List ℤ) (around : ℕ → Round) (id : ℕ) where
  -- The client's calls of its network, where `id` is that of its first connection.
  unfoldable pub chat_calls : ℕ → ℕ → List ℤ → List Call
  chat_calls zero i input = []
  chat_calls (suc left) i input =
      let rest = chat_calls left (i + 1) (getline input).1 in
      let says = written h (record { user = username; chat_msg = (getline input).0 }) in
      if (around i).error_quit
      then []
      else map does (around i).typing
        ++ (if is_quit (getline input).0
            then []
            else send_to id says ∷ (map does (around i).sleeping ++ (runs processed ∷ rest)))

  pub sent_on-chat_calls :
      (left i : ℕ) (input : List ℤ)
      → sent_on id (chat_calls left i input) ≡ map (written h) (said username around left i input)
  unfolding chat_calls said
  sent_on-chat_calls zero i input = unfold sent_on in refl
  sent_on-chat_calls (suc left) i input = elim (Bool-cases (around i).error_quit) [
    | inl quit ↦ rw quit (unfold sent_on in refl)
    | inr on ↦ elim (Bool-cases (is_quit (getline input).0)) [
      | inl quit ↦
          rw (on, quit)
            (sent_on-append id (map does (around i).typing) []
              ∙ rw (sent_on-map-does id (around i).typing) (unfold sent_on in refl))
      | inr more ↦
          let says = written h (record { user = username; chat_msg = (getline input).0 }) in
          rw (on, more)
            (sent_on-append id (map does (around i).typing) _
              ∙ rw (sent_on-map-does id (around i).typing, sends says (around i).sleeping _)
                  (ap (◌∷◌ says) (sent_on-chat_calls left (i + 1) (getline input).1)))
    ]
  ]
    where
      sends :
          (msg : Message) (es : List Happening) (cs : List Call)
          → sent_on id (send_to id msg ∷ (map does es ++ (runs processed ∷ cs)))
            ≡ msg ∷ sent_on id cs
      sends msg es cs =
          unfold sent_on sent_in in
          (rw ((==_iff id id).1 refl)
            (ap (◌∷◌ msg) (sent_on-append id (map does es) _ ∙ rw (sent_on-map-does id es))))
