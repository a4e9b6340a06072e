-- ===== src/FilePath.antt =====
-- The parts of `std::filesystem::path` that work on the text alone and that src/FileManager.cpp
-- calls: reading a path, `/`, `is_absolute`, `string` and `lexically_relative`, on POSIX.
pub mod Relative
use multi_client_media_strea.Base.{
  ℕ, zero, suc, ◌+◌, ◌-◌, Bool, true, false, not, ◌&&◌, ◌||◌, List, [], ◌∷◌, ◌++◌, Bytes, codes,
  bytes_eq, ltb, ◌==◌, if◌then◌else◌,
}

-- A path is its root directory, if it has one, and the names behind it. A slash at the end of a
-- name is one more, empty, name.
pub record FilePath : Type 0 where
  pub absolute : Bool
  pub elements : List Bytes

abbrev pub empty_path : FilePath
empty_path = record { absolute = false; elements = [] }

abbrev pub dot : Bytes
dot = b'.' ∷ []

abbrev pub dot_dot : Bytes
dot_dot = b'.' ∷ b'.' ∷ []

abbrev pub no_bytes : Bytes → Bool
no_bytes [] = true
no_bytes (c ∷ s) = false

abbrev pub no_elements : List Bytes → Bool
no_elements [] = true
no_elements (e ∷ es) = false

-- The pieces of a text between its slashes; there is always one.
unfoldable pub pieces : Bytes → Bytes → List Bytes
pieces cur [] = cur ∷ []
pieces cur (c ∷ s) = elim (c == b'/') [
  | true ↦ cur ∷ pieces [] s
  | false ↦ pieces (cur ++ c ∷ []) s
]

-- Slashes in a row count once; the flag says that a name stands in front.
unfoldable pub names : Bool → List Bytes → List Bytes
names seen [] = []
names seen (p ∷ []) = if no_bytes p then (if seen then [] ∷ [] else []) else p ∷ []
names seen (p ∷ (q ∷ ps)) = elim (no_bytes p) [
  | true ↦ names seen (q ∷ ps)
  | false ↦ p ∷ names true (q ∷ ps)
]

pub starts_slash : Bytes → Bool
starts_slash [] = false
starts_slash (c ∷ s) = c == b'/'

unfoldable pub to_path : Bytes → FilePath
unfolding pieces names starts_slash
to_path s = record { absolute = starts_slash s; elements = names false (pieces [] s) }

unfoldable pub drop_last_empty : List Bytes → List Bytes
drop_last_empty [] = []
drop_last_empty (e ∷ []) = if no_bytes e then [] else e ∷ []
drop_last_empty (e ∷ (f ∷ es)) = e ∷ drop_last_empty (f ∷ es)

-- `a / b`
unfoldable pub append : FilePath → FilePath → FilePath
unfolding drop_last_empty
append a b =
    if b.absolute
    then b
    else if no_elements b.elements
    then record a { elements = drop_last_empty a.elements ++ [] ∷ [] }
    else record a { elements = drop_last_empty a.elements ++ b.elements }

unfoldable pub join : List Bytes → Bytes
join [] = []
join (e ∷ []) = e
join (e ∷ (f ∷ es)) = e ++ b'/' ∷ join (f ∷ es)

-- `string()`
unfoldable pub string : FilePath → Bytes
unfolding join
string p = if p.absolute then b'/' ∷ join p.elements else join p.elements

unfoldable pub is_empty_path : FilePath → Bool
is_empty_path p = not p.absolute && no_elements p.elements

-- `std::mismatch` on the names of two paths: what is left of each behind the common names.
unfoldable pub mismatch : List Bytes → List Bytes → List Bytes × List Bytes
mismatch [] bs = ([], bs)
mismatch (a ∷ as') [] = (a ∷ as', [])
mismatch (a ∷ as') (b ∷ bs) = elim (bytes_eq a b) [
  | true ↦ mismatch as' bs
  | false ↦ (a ∷ as', b ∷ bs)
]

-- The names of a path that lead down, and those that lead up.
unfoldable pub count_down : List Bytes → ℕ
count_down [] = 0
count_down (e ∷ es) =
    (if no_bytes e || bytes_eq e dot || bytes_eq e dot_dot then 0 else 1) + count_down es

unfoldable pub count_up : List Bytes → ℕ
count_up [] = 0
count_up (e ∷ es) = (if bytes_eq e dot_dot then 1 else 0) + count_up es

unfoldable pub ups : ℕ → List Bytes → List Bytes
ups zero es = es
ups (suc n) es = dot_dot ∷ ups n es

abbrev pub starts_empty : List Bytes → Bool
starts_empty [] = true
starts_empty (e ∷ es) = no_bytes e

-- The way from the rest `bs` of the base to the rest `as'` of the path.
unfoldable pub relative_rest : List Bytes → List Bytes → FilePath
unfolding count_down count_up ups
relative_rest as' bs =
    let down = count_down bs in
    let up = count_up bs in
    if no_elements as' && no_elements bs
    then record { absolute = false; elements = dot ∷ [] }
    else if down == up && starts_empty as'
    then record { absolute = false; elements = dot ∷ [] }
    else if ltb down up
    then empty_path
    else record { absolute = false; elements = ups (down - up) as' }

-- `lexically_relative`
unfoldable pub lexically_relative : FilePath → FilePath → FilePath
unfolding mismatch relative_rest
lexically_relative p base =
    let (as', bs) = mismatch p.elements base.elements in
    if (p.absolute && not base.absolute) || (not p.absolute && base.absolute)
    then empty_path
    else relative_rest as' bs
