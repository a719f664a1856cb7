-- ===== src/Print.antt =====
-- What shared/src/print_utils.cpp prints, as text. The timestamp, which is the local time, is an
-- argument of each function.
pub mod Decimal
pub mod Balance
use zip.Prelude.{
  ℕ, zero, suc, ◌+◌, ◌/◌, ◌%◌, Bool, true, false, List, [], ◌∷◌, ◌++◌, ltb, if◌then◌else◌,
}
use zip.Prelude.Text.{Text}
use zip.Packet.{Packet, destination_ip, value}
use zip.Net.Address.{Inet, from_ip, ip_string}

-- `<<` of an unsigned number: 20 digits are enough for a `uint64_t`.
unfoldable pub show_digits : ℕ → ℕ → Text
show_digits zero n = []
show_digits (suc fuel) n = elim (ltb n 10) [
  | true ↦ (48 + n) ∷ []
  | false ↦ show_digits fuel (n / 10) ++ ((48 + n % 10) ∷ [])
]

abbrev pub show : ℕ → Text
show = show_digits 20

-- The words of the lines.
-- " num_transactions ", "num_transactions ", " total_transferred ", " total_balance "
abbrev num_transactions_bare : Text
num_transactions_bare =
    110 ∷ 117 ∷ 109 ∷ 95 ∷ 116 ∷ 114 ∷ 97 ∷ 110 ∷ 115 ∷ 97 ∷ 99 ∷ 116 ∷ 105 ∷ 111 ∷ 110 ∷ 115 ∷ 32
    ∷ []

abbrev total_transferred_word : Text
total_transferred_word =
    32 ∷ 116 ∷ 111 ∷ 116 ∷ 97 ∷ 108 ∷ 95 ∷ 116 ∷ 114 ∷ 97 ∷ 110 ∷ 115 ∷ 102 ∷ 101 ∷ 114 ∷ 114 ∷ 101
    ∷ 100 ∷ 32 ∷ []

abbrev total_balance_word : Text
total_balance_word =
    32 ∷ 116 ∷ 111 ∷ 116 ∷ 97 ∷ 108 ∷ 95 ∷ 98 ∷ 97 ∷ 108 ∷ 97 ∷ 110 ∷ 99 ∷ 101 ∷ 32 ∷ []

-- " client ", " DUP!!", " id_req ", " dest ", " value "
abbrev client_word : Text
client_word = 32 ∷ 99 ∷ 108 ∷ 105 ∷ 101 ∷ 110 ∷ 116 ∷ 32 ∷ []

abbrev dup_word : Text
dup_word = 32 ∷ 68 ∷ 85 ∷ 80 ∷ 33 ∷ 33 ∷ []

abbrev pub id_req_word : Text
id_req_word = 32 ∷ 105 ∷ 100 ∷ 95 ∷ 114 ∷ 101 ∷ 113 ∷ 32 ∷ []

abbrev pub dest_word : Text
dest_word = 32 ∷ 100 ∷ 101 ∷ 115 ∷ 116 ∷ 32 ∷ []

abbrev pub value_word : Text
value_word = 32 ∷ 118 ∷ 97 ∷ 108 ∷ 117 ∷ 101 ∷ 32 ∷ []

-- " server ", "new_balance ", " server_addr "
abbrev pub server_word : Text
server_word = 32 ∷ 115 ∷ 101 ∷ 114 ∷ 118 ∷ 101 ∷ 114 ∷ 32 ∷ []

abbrev pub new_balance_word : Text
new_balance_word = 110 ∷ 101 ∷ 119 ∷ 95 ∷ 98 ∷ 97 ∷ 108 ∷ 97 ∷ 110 ∷ 99 ∷ 101 ∷ 32 ∷ []

abbrev server_addr_word : Text
server_addr_word = 32 ∷ 115 ∷ 101 ∷ 114 ∷ 118 ∷ 101 ∷ 114 ∷ 95 ∷ 97 ∷ 100 ∷ 100 ∷ 114 ∷ 32 ∷ []

-- `std::endl`
abbrev pub endl : Text
endl = 10 ∷ []

abbrev statistics : ℕ → ℕ → ℕ → Text
statistics num_transactions total_transferred total_balance =
    num_transactions_bare
    ++ (show num_transactions
        ++ (total_transferred_word
            ++ (show total_transferred ++ (total_balance_word ++ (show total_balance ++ endl)))))

pub print_server_state : Text → ℕ → ℕ → ℕ → Text
print_server_state timestamp num_transactions total_transferred total_balance =
    timestamp ++ (32 ∷ statistics num_transactions total_transferred total_balance)

module _ (inet : Inet) where
  abbrev pub ip_text : ℕ → Text
  ip_text a = ip_string inet (from_ip inet a 0)

  pub print_request : Text → ℕ → Packet → Bool → ℕ → ℕ → ℕ → Text
  print_request timestamp client_ip packet is_duplicate num_transactions total_transferred
        total_balance =
      timestamp
      ++ (client_word
          ++ (ip_text client_ip
              ++ ((if is_duplicate then dup_word else [])
                  ++ (id_req_word
                      ++ (show packet.request_id
                          ++ (dest_word
                              ++ (ip_text (destination_ip packet)
                                  ++ (value_word
                                      ++ (show (value packet)
                                          ++ (endl
                                              ++ statistics num_transactions total_transferred
                                                  total_balance))))))))))

  -- The first line of `print_reply`, up to its end.
  unfoldable pub reply_line : Text → ℕ → ℕ → ℕ → ℕ → ℕ → Text
  reply_line timestamp server_ip request_id dest_ip amount new_balance =
      timestamp
      ++ (server_word
          ++ (ip_text server_ip
              ++ (id_req_word
                  ++ (show request_id
                      ++ (dest_word
                          ++ (ip_text dest_ip
                              ++ (value_word
                                  ++ (show amount
                                      ++ (32
                                          ∷ (new_balance_word
                                              ++ (show new_balance ++ endl)))))))))))

  pub print_reply : Text → ℕ → ℕ → ℕ → ℕ → ℕ → Text
  unfolding reply_line
  print_reply timestamp server_ip request_id dest_ip amount new_balance =
      reply_line timestamp server_ip request_id dest_ip amount new_balance ++ endl

  pub print_discovery_reply : Text → ℕ → Text
  print_discovery_reply timestamp server_ip =
      timestamp ++ (server_addr_word ++ (ip_text server_ip ++ (endl ++ endl)))
