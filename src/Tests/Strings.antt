-- ===== src/Tests/Strings.antt =====
-- core/sys.c on strings that are written out.
use bombyx.Prelude.{ℕ, ◌≡◌, refl, List, [], ◌∷◌}
use bombyx.Run.{ok}
use bombyx.System.{
  str_replace, result_length, count_old, strstr, replace_loop, counted_down, put_bytes,
}
use bombyx.System.Replaced.{Replaced}

-- "a%%c%%"
abbrev formatted : List ℕ
formatted = 97 ∷ 37 ∷ 37 ∷ 99 ∷ 37 ∷ 37 ∷ []

-- "%%" gives way to "%"
unescaped_text : str_replace 7 formatted (37 ∷ 37 ∷ []) (37 ∷ []) ≡ ok (97 ∷ 37 ∷ 99 ∷ 37 ∷ 0 ∷ [])
unfolding str_replace result_length count_old strstr replace_loop counted_down put_bytes
unescaped_text = refl
