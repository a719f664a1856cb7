-- ===== src/Protocol/Report/Tests.antt =====
-- A transfer of 30, from 100, up to the line that tests/main.cpp validates.
use zip.Prelude.{◌≡◌, refl, some, true, [], ◌∷◌, arith}
use zip.Packet.{Packet}
use zip.LockedMap.View.{peek}
use zip.Server.{Server, handle_transaction}
use zip.Server.Tests.{local, alice, bob, account, bank, bank-IsReady, pay}
use zip.Net.Address.{ip_string}
use zip.Net.Tests.{platform}
use zip.Prelude.Scan.{ℤ}
use zip.Print.Balance.{validate_balance, HasNoN}
use zip.Client.StopAndWait.{Line, show_response}
use zip.Protocol.Report.{line_text, transfer_is_reported}

alice_held : peek 11 bank.clients ≡ some (account 3 100)
unfolding peek
alice_held = refl

bob_held : peek 22 bank.clients ≡ some (account 0 100)
unfolding peek
bob_held = refl

transfer_is_reported_example :
    (s' : Server) × (handle_transaction local (pay 30) alice bank ≡ some (tt, s'))
    × (answer : Packet) × (s'.sent ≡ record { destination = alice; packet = answer } ∷ [])
    × (line : Line) × (show_response answer bob (pay 30) [] ≡ line ∷ [])
    × (validate_balance (line_text platform (49 ∷ []) line) (ℤ.pos 70) ≡ (true, ℤ.pos 70))
unfolding HasNoN ip_string
transfer_is_reported_example =
    transfer_is_reported platform (49 ∷ []) local (pay 30) alice bob bank (account 3 100)
      (account 0 100) [] bank-IsReady alice_held bob_held (λ e. omega arith) (omega arith)
      (omega arith) (omega arith) (omega arith) (omega arith) ((λ e. omega arith), tt)
      ((λ e. omega arith), tt) ((λ e. omega arith), tt)
