-- ===== src/Protocol/Trim.antt =====
-- `trim` of src/Protocol.cpp, and reading words from a stream over a string.
pub mod Blanks
use multi_client_media_strea.Base.{
  ℕ, Bool, true, false, ◌&&◌, ◌||◌, List, [], ◌∷◌, ◌++◌, Bytes, ◌==◌, leb, if◌then◌else◌,
}
use mathlib.Core.List.{reverse}

-- `std::isspace` in the C locale: space, \t \n \v \f \r.
unfoldable pub is_space : ℕ → Bool
is_space c = c == 32 || (leb 9 c && leb c 13)

unfoldable pub is_empty : Bytes → Bool
is_empty [] = true
is_empty (c ∷ s) = false

-- The first loop of `trim`, and `std::ws` on a stream: skip the leading blanks.
unfoldable pub skip_spaces : Bytes → Bytes
skip_spaces [] = []
skip_spaces (c ∷ s) = if is_space c then skip_spaces s else c ∷ s

-- The second loop of `trim` walks back from the end: it drops the trailing blanks.
unfoldable pub drop_trailing : Bytes → Bytes
drop_trailing s = reverse (skip_spaces (reverse s))

unfoldable pub trim : Bytes → Bytes
unfolding skip_spaces drop_trailing
trim s = drop_trailing (skip_spaces s)

-- `operator>>` into a string, after the blanks: the bytes up to the next blank, and what follows.
unfoldable pub span_word : Bytes → Bytes × Bytes
span_word [] = ([], [])
span_word (c ∷ s) =
    let (word, rest) = span_word s in if is_space c then ([], c ∷ s) else (c ∷ word, rest)
