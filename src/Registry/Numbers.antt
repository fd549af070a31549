-- ===== src/Registry/Numbers.antt =====
-- `std::stoi`, as command_registry.cpp and the configuration use it: blanks, a sign, decimal digits.
-- It throws when there is no digit or when the value does not fit an `int`.
use cec_control.Prelude.{
  ℕ, ◌+◌, ◌-◌, ◌*◌, Bool, true, false, [], ◌∷◌, ◌==◌, ltb, leb, ◌&&◌, ◌||◌, if◌then◌else◌, Text,
}

-- The sign, the magnitude and the text behind the last digit; or an exception.
pub data Stoi : Type 0 where
  int : Bool → ℕ → Text → Stoi
  throws : Stoi

abbrev pub is_space : ℕ → Bool
is_space c = c == 32 || leb 9 c && leb c 13

abbrev pub is_digit : ℕ → Bool
is_digit c = leb b'0' c && leb c b'9'

unfoldable pub skip_spaces : Text → Text
skip_spaces [] = []
skip_spaces (c ∷ cs) = if is_space c then skip_spaces cs else c ∷ cs

-- The value of the digits ahead, added to `acc`, and the text behind them.
unfoldable pub read_digits : ℕ → Text → ℕ × Text
read_digits acc [] = (acc, [])
read_digits acc (c ∷ cs) =
    let more = read_digits (acc * 10 + (c - b'0')) cs in if is_digit c then more else (acc, c ∷ cs)

-- The largest magnitude that fits an `int`.
abbrev pub int_limit : Bool → ℕ
int_limit true = 2147483648
int_limit false = 2147483647

fit : Bool → ℕ × Text → Stoi
fit negative (v, rest) = if ltb (int_limit negative) v then throws else int negative v rest

unsigned : Bool → Text → Stoi
unfolding fit
unsigned negative [] = throws
unsigned negative (c ∷ cs) = if is_digit c then fit negative (read_digits 0 (c ∷ cs)) else throws

signed : Text → Stoi
unfolding unsigned
signed [] = throws
signed (c ∷ cs) =
    if c == b'-'
    then unsigned true cs
    else if c == b'+'
    then unsigned false cs
    else unsigned false (c ∷ cs)

unfoldable pub stoi : Text → Stoi
unfolding signed skip_spaces
stoi s = signed (skip_spaces s)
