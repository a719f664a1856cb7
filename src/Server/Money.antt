-- ===== src/Server/Money.antt =====
-- The sum of all balances of server/include/server.h, and what the updates of the map do to it.
use zip.Prelude.{ℕ, suc, ◌≡◌, refl, ◌≢◌, ◌+◌, ◌≤◌, some, [], ◌∷◌, arith}
use zip.LockedMap.{LockedMap}
use zip.LockedMap.View.{peek, replace}
use zip.Server.{ClientInfo}

unfoldable pub total : LockedMap ClientInfo → ℕ
total [] = 0
total ((k, e) ∷ m) = e.value.balance + total m

unfoldable pub count : LockedMap ClientInfo → ℕ
count [] = 0
count ((k, e) ∷ m) = suc (count m)

pub total-replace :
    (k : ℕ) (v : ClientInfo) (m : LockedMap ClientInfo) {c : ClientInfo}
    → peek k m ≡ some c
    → total (replace k v m) + c.balance ≡ total m + v.balance
unfolding total peek replace
total-replace k v [] q = absurd (ground arith)
total-replace k v ((j, e) ∷ m) {c} q = ground (arith, total-replace k v m {c = c})

pub count-replace :
    (k : ℕ) (v : ClientInfo) (m : LockedMap ClientInfo) → count (replace k v m) ≡ count m
unfolding count replace
count-replace k v [] = refl
count-replace k v ((j, e) ∷ m) = ground (arith, count-replace k v m)

pub balance-le-total :
    (k : ℕ) (m : LockedMap ClientInfo) {c : ClientInfo} → peek k m ≡ some c → c.balance ≤ total m
unfolding total peek
balance-le-total k [] q = absurd (ground arith)
balance-le-total k ((j, e) ∷ m) {c} q = ground (arith, balance-le-total k m {c = c})

pub balances-le-total :
    (j k : ℕ) (m : LockedMap ClientInfo) {c d : ClientInfo}
    → j ≢ k
    → peek j m ≡ some c
    → peek k m ≡ some d
    → c.balance + d.balance ≤ total m
unfolding total peek
balances-le-total j k [] ne q r = absurd (ground arith)
balances-le-total j k ((i, e) ∷ m) {c} {d} ne q r = ground (
  arith,
  balances-le-total j k m {c = c} {d = d} ne,
  balance-le-total j m {c = c},
  balance-le-total k m {c = d},
)
