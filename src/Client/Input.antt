-- ===== src/Client/Input.antt =====
-- `run_user_input_loop` of client/src/client.cpp on one line of input: the parse, the checks and
-- the request.
use zip.Prelude.{ℕ, ◌≡◌, ◌≢◌, not, some, ◌∷◌, ◌++◌, leb, if◌then◌else◌, add32, arith}
use zip.Prelude.Text.{Text, is_empty}
use zip.Prelude.Scan.{
  ℤ, int_max, scan_line, decimal, IsWord, IsNumber, scan_line_lem, scan_line_alone,
}
use zip.Packet.{Packet, transaction_request, create_request}
use zip.Net.Address.{Inet, from_text, is_valid, ip}
use zip.Client.{Client}

-- What the loop does with a line.
pub data Reaction : Type 0 where
  ignored : Reaction
  negative_value invalid_address : Reaction
  request : Packet → Reaction

-- `next_request_id++`
abbrev pub next_id : Client → Client
next_id c = record c { next_request_id = add32 c.next_request_id 1 }

module _ (inet : Inet) (stack : Packet) where
  -- The checks, on the address and the value that were read. The cast of a value that is not
  -- negative to `uint32_t` keeps it.
  abbrev pub check_input : Client → Text × ℤ → Reaction
  check_input c (ip_str, ℤ.negsuc _) = negative_value
  check_input c (ip_str, ℤ.pos n) =
      let dest_addr = from_text inet ip_str 0 in
      if not (is_valid dest_addr)
      then invalid_address
      else request (create_request stack transaction_request c.next_request_id (ip dest_addr) n)

  -- The second argument is the memory of `value`, which is not initialised.
  unfoldable pub handle_line : Client → ℤ → Text → Reaction
  handle_line c before line =
      if is_empty line then ignored else check_input c (scan_line before line)

  check_input_lem :
      (c : Client) (ip_str : Text) (n dest : ℕ)
      → inet.inet_pton ip_str ≡ some dest
      → dest ≢ 0
      → check_input c (ip_str, ℤ.pos n)
        ≡ request (create_request stack transaction_request c.next_request_id dest n)
  unfolding from_text
  check_input_lem c ip_str n dest known ne = ground arith

  -- A line of a word, a space and decimal digits, whose word is a valid address other than 0.0.0.0,
  -- makes a request to that address for the number that the digits write, or for 2147483647 where
  -- that number is larger.
  pub handle_line_lem :
      (c : Client) (before : ℤ) (first : ℕ) (ip_str : Text) (d : ℕ) (ds : Text) (dest : ℕ)
      → IsWord (first ∷ ip_str)
      → IsNumber (d ∷ ds)
      → inet.inet_pton (first ∷ ip_str) ≡ some dest
      → dest ≢ 0
      → handle_line c before ((first ∷ ip_str) ++ (32 ∷ (d ∷ ds)))
        ≡ request (
            create_request stack transaction_request c.next_request_id dest
              (if leb (decimal (d ∷ ds)) int_max then decimal (d ∷ ds) else int_max))
  unfolding handle_line
  handle_line_lem c before first ip_str d ds dest w n known ne =
      rw (scan_line_lem before first ip_str w d ds n)
        (check_input_lem c (first ∷ ip_str) _ dest known ne)

  -- A line that is just a valid address other than 0.0.0.0 makes a request for whatever amount the
  -- memory of the uninitialised `value` held, where that is not negative.
  pub amount_is_uninitialised :
      (c : Client) (memory : ℕ) (first : ℕ) (ip_str : Text) (dest : ℕ)
      → IsWord (first ∷ ip_str)
      → inet.inet_pton (first ∷ ip_str) ≡ some dest
      → dest ≢ 0
      → handle_line c (ℤ.pos memory) (first ∷ ip_str)
        ≡ request (create_request stack transaction_request c.next_request_id dest memory)
  unfolding handle_line
  amount_is_uninitialised c memory first ip_str dest w known ne =
      rw (scan_line_alone (ℤ.pos memory) first ip_str w)
        (check_input_lem c (first ∷ ip_str) memory dest known ne)
