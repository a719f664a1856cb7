-- ===== src/Driver/Commands.antt =====
-- The commands that a thread of tests/main.cpp writes to its client, as `run_user_input_loop` of
-- client/src/client.cpp reads them.
use zip.Prelude.{
  ℕ, suc, ◌≤◌, ◌≡◌, ◌≢◌, refl, sym, ap, ◌∙◌, true, false, some, List, [], ◌∷◌, ◌++◌, ◌==◌,
  if◌then◌else◌, add32, leb, arith,
}
use mathlib.Core.List.{append_assoc, append-nil}
use zip.Prelude.Text.{Text, is_empty}
use zip.Prelude.Scan.{ℤ, int_max, decimal, IsWord, IsNumber}
use zip.Packet.{Packet, transaction_request, create_request}
use zip.Net.Address.{Inet}
use zip.Client.{Client}
use zip.Client.Input.{request, next_id, handle_line, handle_line_lem}
use zip.Client.InputLoop.{Input, run_user_input_loop}
use zip.Print.{show}
use zip.Print.Decimal.{show_lem}

-- `cmd`, and what all tests of a thread write, one command after the other.
abbrev pub command : Text → ℕ → Text
command client_ip money_sent = client_ip ++ (32 ∷ (show money_sent ++ (10 ∷ [])))

abbrev pub commands : Text → List ℕ → Text
commands client_ip [] = []
commands client_ip (money_sent ∷ amounts) =
    command client_ip money_sent ++ commands client_ip amounts

-- `std::getline` until the input ends: a last line may have no newline.
unfoldable pub lines_from : Text → Text → List Text
lines_from line [] = if is_empty line then [] else line ∷ []
lines_from line (c ∷ cs) = elim (c == 10) [
  | true ↦ line ∷ lines_from [] cs
  | false ↦ lines_from (line ++ c ∷ []) cs
]

-- Each line with what the memory of `value` holds.
abbrev pub over_memory : (ℕ → ℤ) → ℕ → List Text → Input
over_memory memory n [] = []
over_memory memory n (line ∷ lines) = (memory n, line) ∷ over_memory memory (suc n) lines

abbrev pub AllAtMost : ℕ → List ℕ → Type 0
AllAtMost bound [] = Unit
AllAtMost bound (n ∷ ns) = (n ≤ bound) × AllAtMost bound ns

-- Text without a newline.
unfoldable IsLine : Text → Type 0
IsLine [] = Unit
IsLine (c ∷ cs) = ((c == 10) ≡ false) × IsLine cs

IsLine-++ : (xs ys : Text) → IsLine xs → IsLine ys → IsLine (xs ++ ys)
unfolding IsLine
IsLine-++ [] ys h k = k
IsLine-++ (x ∷ xs) ys h k = (h.0, IsLine-++ xs ys h.1 k)

IsWord-IsLine : (w : Text) → IsWord w → IsLine w
unfolding IsWord IsLine
IsWord-IsLine [] h = tt
IsWord-IsLine (c ∷ w) h = (ground (arith, h.0), IsWord-IsLine w h.1)

IsNumber-IsLine : (ds : Text) → IsNumber ds → IsLine ds
unfolding IsNumber IsLine
IsNumber-IsLine [] h = tt
IsNumber-IsLine (d ∷ ds) h = (ground (arith, h.0), IsNumber-IsLine ds h.1)

lines_from-IsLine :
    (line w rest : Text)
    → IsLine w
    → lines_from line (w ++ (10 ∷ rest)) ≡ (line ++ w) ∷ lines_from [] rest
unfolding lines_from IsLine
lines_from-IsLine line [] rest h = ap (λ l. l ∷ lines_from [] rest) (sym (append-nil line))
lines_from-IsLine line (c ∷ w) rest h =
    rw (lines_from, h.0)
      (lines_from-IsLine (line ++ c ∷ []) w rest h.1
        ∙ ap (λ l. l ∷ lines_from [] rest) (append_assoc line (c ∷ []) w))

no_lines : lines_from [] [] ≡ []
unfolding lines_from
no_lines = refl

in_range : (n m : ℕ) → n ≡ m → m ≤ int_max → (if leb n int_max then n else int_max) ≡ m
in_range n m e le = ground arith

module _ (inet : Inet) (stack : Packet) (first : ℕ) (ip_str : Text) (dest : ℕ)
    (ip_word : IsWord (first ∷ ip_str)) (known : inet.inet_pton (first ∷ ip_str) ≡ some dest)
    (ne : dest ≢ 0) where
  -- A request for each amount, with ids one after the other.
  abbrev pub requests : ℕ → List ℕ → List Packet
  requests n [] = []
  requests n (money_sent ∷ amounts) =
      create_request stack transaction_request n dest money_sent ∷ requests (add32 n 1) amounts

  command_line :
      (money_sent : ℕ) (rest : Text)
      → money_sent ≤ int_max
      → lines_from [] (command (first ∷ ip_str) money_sent ++ rest)
        ≡ ((first ∷ ip_str) ++ (32 ∷ show money_sent)) ∷ lines_from [] rest
  unfolding IsLine
  command_line money_sent rest le =
      let (d, ds, shown, reads, number) = show_lem money_sent (omega arith) in
      let number_line : IsLine (show money_sent) = rw shown (IsNumber-IsLine (d ∷ ds) number) in
      let w = (first ∷ ip_str) ++ (32 ∷ show money_sent) in
      let joined : command (first ∷ ip_str) money_sent ++ rest ≡ w ++ (10 ∷ rest) =
        simp append_assoc in
      rw joined (
        lines_from-IsLine [] w rest (
          IsLine-++ (first ∷ ip_str) (32 ∷ show money_sent) (IsWord-IsLine (first ∷ ip_str) ip_word)
            (refl, number_line)))

  handle_command :
      (c : Client) (before : ℤ) (money_sent : ℕ)
      → money_sent ≤ int_max
      → handle_line inet stack c before ((first ∷ ip_str) ++ (32 ∷ show money_sent))
        ≡ request (create_request stack transaction_request c.next_request_id dest money_sent)
  handle_command c before money_sent le =
      let (d, ds, shown, reads, number) = show_lem money_sent (omega arith) in
      rw shown (
        handle_line_lem inet stack c before first ip_str d ds dest ip_word number known ne
        ∙ ap (λ v. request (create_request stack transaction_request c.next_request_id dest v))
            (in_range (decimal (d ∷ ds)) money_sent reads le))

  -- The commands that a driver's thread writes for any amounts up to 2147483647, read by its client
  -- line by line, become one request for each, in order, with that amount, to the thread's address,
  -- and with consecutive ids (modulo 2^32), whatever the memory of `value` holds. The address is a
  -- word that names an address other than 0.0.0.0.
  pub commands_are_requests :
      (memory : ℕ → ℤ) (k : ℕ) (c : Client) (amounts : List ℕ)
      → AllAtMost int_max amounts
      → run_user_input_loop inet stack c
          (over_memory memory k (lines_from [] (commands (first ∷ ip_str) amounts)))
        ≡ requests c.next_request_id amounts
  unfolding run_user_input_loop
  commands_are_requests memory k c [] h = rw no_lines refl
  commands_are_requests memory k c (money_sent ∷ amounts) h =
      rw
        (
          command_line money_sent (commands (first ∷ ip_str) amounts) h.0,
          handle_command c (memory k) money_sent h.0,
        )
        (ap (λ ps. create_request stack transaction_request c.next_request_id dest money_sent ∷ ps)
          (commands_are_requests memory (suc k) (next_id c) amounts h.1))
