-- ===== src/Ctype.antt =====
-- isspace, isdigit and isalpha of the C library, in the C locale, for core/expression.c and
-- core/var.c.
use bombyx.Prelude.{ℕ, Bool, ◌&&◌, ◌||◌, leb, ◌==◌}

abbrev pub is_space : ℕ → Bool
is_space c = c == 32 || leb 9 c && leb c 13

abbrev pub is_digit : ℕ → Bool
is_digit c = leb b'0' c && leb c b'9'

abbrev pub is_alpha : ℕ → Bool
is_alpha c = leb b'a' c && leb c b'z' || leb b'A' c && leb c b'Z'
