-- ===== src/Text/Words.antt =====
-- `str.split()` and `" ".join`, and the words of a joined text.
use rtc_asr.Prelude.{List, [], ◌∷◌, ◌++◌, if◌then◌else◌}
use rtc_asr.Text.{Text, is_space}

abbrev pub push_word : Text → List Text → List Text
push_word [] ws = ws
push_word (c ∷ w) ws = (c ∷ w) ∷ ws

-- The words of `w ++ s`, where `w` holds no space.
unfoldable pub split_from : Text → Text → List Text
split_from w [] = push_word w []
split_from w (c ∷ s) =
    let here = push_word w (split_from [] s) in
    let on = split_from (w ++ c ∷ []) s in if is_space c then here else on

-- `s.split()`
unfoldable pub words : Text → List Text
unfolding split_from is_space
words s = split_from [] s

-- `" ".join(ws)`
unfoldable pub join_words : List Text → Text
join_words [] = []
join_words (w ∷ []) = w
join_words (w ∷ v ∷ ws) = w ++ 32 ∷ join_words (v ∷ ws)
