-- ===== src/Port/Tests.antt =====
-- Port arguments of server/main.cpp and client/main.cpp.
use zip.Prelude.{◌≡◌, refl, [], ◌∷◌}
use zip.Prelude.Text.{Text}
use zip.Prelude.Scan.{decimal_from, digits, skip_space, stoi}
use zip.Port.{port, parse_port}

-- "70000"
abbrev too_large : Text
too_large = 55 ∷ 48 ∷ 48 ∷ 48 ∷ 48 ∷ []

-- "-1"
abbrev minus_one : Text
minus_one = 45 ∷ 49 ∷ []

minus_one_is_accepted : parse_port minus_one ≡ port 65535
unfolding parse_port stoi skip_space digits decimal_from
minus_one_is_accepted = refl

large_port_wraps : parse_port too_large ≡ port 4464
unfolding parse_port stoi skip_space digits decimal_from
large_port_wraps = refl
