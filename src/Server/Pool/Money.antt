-- ===== src/Server/Pool/Money.antt =====
-- What each step of a worker thread does to the sum of all balances.
use zip.Prelude.{
  ℕ, ◌+◌, ◌*◌, ◌^◌, ◌≡◌, ◌<◌, ◌≤◌, Option, some, arith, inl, inr, Option-cases, ℕ_discrete,
}
use zip.Packet.{value, destination_ip}
use zip.Net.Address.{ip}
use zip.LockedMap.{LockedMap, atomic_pair_operation, run_edits, run_edits_aliased}
use zip.LockedMap.View.{IsReady, peek, replace, peek-replace}
use zip.LockedMap.Operations.{read_lem, write_lem, insert_new, insert_known, replace_missing}
use zip.LockedMap.PairOperation.{pair_lem, pair_missing, pair_self}
use zip.Server.{Server, ClientInfo, Local, move_funds, new_client, client_initial_balance}
use zip.Server.Money.{
  total, total-replace, count as accounts, count-replace, balances-le-total, balance-le-total,
}
use zip.Server.Worker.{
  Pc, register, book, look_up, read_source, write_source, read_dest, move, step,
}

-- What the code does not check: a copy that is written back has the balance that is there, and the
-- funds are there when they are moved.
abbrev pub IsCurrent : Pc → LockedMap ClientInfo → Type 0
IsCurrent (write_source p a c) m =
    (c0 : ClientInfo) → peek (ip a) m ≡ some c0 → c0.balance ≡ c.balance
IsCurrent (move p a c) m = (c0 : ClientInfo) → peek (ip a) m ≡ some c0 → value p ≤ c0.balance
IsCurrent _ m = Unit

-- The money that a step brings in: that of an account which it opens.
abbrev pub brings : Pc → Pc → ℕ
brings (register _) (book _) = client_initial_balance
brings _ _ = 0

-- A transfer with the funds there.
move_funds-total :
    (j k amount : ℕ) (m : LockedMap ClientInfo) {r : Option ClientInfo × LockedMap ClientInfo}
    → IsReady m
    → total m < 2 ^ 32
    → ((c : ClientInfo) → peek j m ≡ some c → amount ≤ c.balance)
    → atomic_pair_operation j k (move_funds amount) m ≡ some r
    → total r.1 ≡ total m
unfolding run_edits run_edits_aliased
move_funds-total j k amount m {r} h bound enough e = elim (Option-cases (peek j m)) [
  | inl missing ↦ ground (arith, pair_missing j k (move_funds amount) m h (inl missing))
  | inr (a, p) ↦ elim (Option-cases (peek k m)) [
    | inl missing ↦ ground (arith, pair_missing j k (move_funds amount) m h (inr missing))
    | inr (b, q) ↦ elim (ℕ_discrete j k) [
      | yes same ↦ ground (
        arith,
        pair_self j (move_funds amount) m {a = a} h p,
        enough a p,
        balance-le-total j m {c = a} p,
        total-replace j (run_edits_aliased (move_funds amount) a) m {c = a} p,
      )
      | no differ ↦ ground (
        arith,
        pair_lem j k (move_funds amount) m {a = a} {b = b} h differ p q,
        enough a p,
        balances-le-total j k m {c = a} {d = b} differ p q,
        total-replace k (run_edits (move_funds amount) a b).1 m {c = b} q,
        peek-replace j k (run_edits (move_funds amount) a b).1 m,
        total-replace j (run_edits (move_funds amount) a b).0
            (replace k (run_edits (move_funds amount) a b).1 m) {c = a},
      )
    ]
  ]
]

pub step-total :
    (l : Local) (pc : Pc) (s : Server) {pc' : Pc} {s' : Server}
    → IsReady s.clients
    → total s.clients < 2 ^ 32
    → IsCurrent pc s.clients
    → step l pc s ≡ some (pc', s')
    → total s'.clients ≡ total s.clients + brings pc pc'
unfolding step total
step-total l (register a) s h b g e = elim (Option-cases (peek (ip a) s.clients)) [
  | inl missing ↦ ground (arith, insert_new (ip a) l.address new_client s.clients h missing)
  | inr (c, q) ↦ ground (arith, insert_known (ip a) l.address new_client s.clients {a = c} q)
]
step-total l (look_up a) s h b g e = ground (arith, read_lem (ip a) s.clients h)
step-total l (read_source p a) s h b g e = ground (arith, read_lem (ip a) s.clients h)
step-total l (write_source p a c) s h b g e = elim (Option-cases (peek (ip a) s.clients)) [
  | inl missing ↦
      ground (arith, write_lem (ip a) c s.clients h, replace_missing (ip a) c s.clients missing)
  | inr (c0, q) ↦
      ground
        (arith, write_lem (ip a) c s.clients h, g c0 q, total-replace (ip a) c s.clients {c = c0} q)
]
step-total l (read_dest p a c) s h b g e = ground (arith, read_lem (destination_ip p) s.clients h)
step-total l (move p a c) s h b g e =
    elim (Option-cases
      (atomic_pair_operation (ip a) (destination_ip p) (move_funds (value p)) s.clients)) [
        | inl blocked ↦ ground arith
        | inr (r, q) ↦
            ground (
              arith,
              move_funds-total (ip a) (destination_ip p) (value p) s.clients {r = r} h b g q,
            )
      ]
step-total l _ s h b g e = ground arith

move_funds-count :
    (j k amount : ℕ) (m : LockedMap ClientInfo) {r : Option ClientInfo × LockedMap ClientInfo}
    → IsReady m
    → atomic_pair_operation j k (move_funds amount) m ≡ some r
    → accounts r.1 ≡ accounts m
move_funds-count j k amount m {r} h e = elim (Option-cases (peek j m)) [
  | inl missing ↦ ground (arith, pair_missing j k (move_funds amount) m h (inl missing))
  | inr (a, p) ↦ elim (Option-cases (peek k m)) [
    | inl missing ↦ ground (arith, pair_missing j k (move_funds amount) m h (inr missing))
    | inr (b, q) ↦ elim (ℕ_discrete j k) [
      | yes same ↦ ground (
        arith,
        pair_self j (move_funds amount) m {a = a} h p,
        count-replace j (run_edits_aliased (move_funds amount) a) m,
      )
      | no differ ↦ ground (
        arith,
        pair_lem j k (move_funds amount) m {a = a} {b = b} h differ p q,
        count-replace k (run_edits (move_funds amount) a b).1 m,
        count-replace j (run_edits (move_funds amount) a b).0
            (replace k (run_edits (move_funds amount) a b).1 m),
      )
    ]
  ]
]

-- Each account that is opened brings its initial balance, and none is ever closed.
pub step-accounts :
    (l : Local) (pc : Pc) (s : Server) {pc' : Pc} {s' : Server}
    → IsReady s.clients
    → step l pc s ≡ some (pc', s')
    → client_initial_balance * accounts s'.clients
      ≡ client_initial_balance * accounts s.clients + brings pc pc'
unfolding step accounts
step-accounts l (register a) s h e = elim (Option-cases (peek (ip a) s.clients)) [
  | inl missing ↦ ground (arith, insert_new (ip a) l.address new_client s.clients h missing)
  | inr (c, q) ↦ ground (arith, insert_known (ip a) l.address new_client s.clients {a = c} q)
]
step-accounts l (look_up a) s h e = ground (arith, read_lem (ip a) s.clients h)
step-accounts l (read_source p a) s h e = ground (arith, read_lem (ip a) s.clients h)
step-accounts l (write_source p a c) s h e =
    ground (arith, write_lem (ip a) c s.clients h, count-replace (ip a) c s.clients)
step-accounts l (read_dest p a c) s h e = ground (arith, read_lem (destination_ip p) s.clients h)
step-accounts l (move p a c) s h e =
    elim (Option-cases
      (atomic_pair_operation (ip a) (destination_ip p) (move_funds (value p)) s.clients)) [
        | inl blocked ↦ ground arith
        | inr (r, q) ↦
            ground
              (arith, move_funds-count (ip a) (destination_ip p) (value p) s.clients {r = r} h q)
      ]
step-accounts l _ s h e = ground arith
