-- ===== src/Chat/Typing/Lost.antt =====
-- What the loop of tests/single_client/single_client.cpp does when the server goes away.
use volt_net.Common.{
  ℕ, suc, ◌≡◌, ◌≢◌, ap, ◌∙◌, Bool-cases, inl, inr, false, get_elem?, List, [], ◌∷◌, ◌++◌,
}
use volt_net.Common.Int.{ℤ}
use volt_net.Endian.{Host}
use volt_net.NetCon.{NetCon, ErrorCode, success}
use volt_net.Network.{Network, NetOutcome, ok, throws, undefined_behaviour, ◌>>=◌, get_con_count}
use volt_net.Network.Lifetimes.{
  Happening, read_failed, happen, happen_all, fail_read, Runs, fail_read_lem,
}
use volt_net.Chat.Client.{getline, is_quit, Round, chat_loop}

happen_all-append :
    (hs gs : List Happening) (net mid : Network)
    → happen_all hs net ≡ ok mid
    → happen_all (hs ++ gs) net ≡ happen_all gs mid
unfolding happen_all
happen_all-append [] gs net mid e = ap (λ o. o >>= happen_all gs) e
happen_all-append (h ∷ hs) gs net mid e =
    go (happen h net) (λ next. happen_all-append hs gs next mid) e
  where
    go :
        (o : NetOutcome Network)
        → ((next : Network)
            → happen_all hs next ≡ ok mid
            → happen_all (hs ++ gs) next ≡ happen_all gs mid)
        → (o >>= happen_all hs) ≡ ok mid
        → (o >>= happen_all (hs ++ gs)) ≡ happen_all gs mid
    go (ok next) ih e = ih next e
    go (throws x) ih e = cc
    go undefined_behaviour ih e = cc

-- A client in a round of its loop that does not find error_quit set. While the user is asked for a line,
-- things happen that leave it with a valid network that runs, has a handler for messages and none for
-- connections, and with one connection; and then the read of that one fails, since the server went
-- away. Then the connection is removed and the loop is left, whatever the line is and however many
-- rounds are left, and nothing is sent: where the line does not leave the loop, the count of
-- connections does.
pub chat_loop_lost :
    (h : Host) (username : List ℤ) (around : ℕ → Round) (left i : ℕ) (input : List ℤ)
    (before : List Happening) (err : ErrorCode) (net mid : Network) (c : NetCon)
    → (around i).error_quit ≡ false
    → (around i).typing ≡ before ++ (read_failed err 0 ∷ [])
    → happen_all before net ≡ ok mid
    → Runs mid
    → mid.connections ≡ c ∷ []
    → err ≢ success
    → chat_loop h username around (suc left) i input net ≡ ok (record mid { connections = [] })
unfolding chat_loop
chat_loop_lost h username around left i input before err net mid c on types happened v one fails =
    let failed : fail_read err 0 mid ≡ ok (record mid { connections = [] }) =
      fail_read_lem err 0 mid c c [] fails v one (ap (λ cs. get_elem? cs 0) one) in
    let lost : happen_all (around i).typing net ≡ ok (record mid { connections = [] }) =
      ap (λ hs. happen_all hs net) types
      ∙ happen_all-append before (read_failed err 0 ∷ []) net mid happened
      ∙ (unfold happen_all happen in rw failed) in
    elim (Bool-cases (is_quit (getline input).0)) [
      | inl quit ↦ rw (chat_loop, ◌>>=◌, on, lost, quit)
      | inr more ↦ unfold get_con_count in rw (chat_loop, ◌>>=◌, on, lost, more)
    ]
