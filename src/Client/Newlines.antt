-- ===== src/Client/Newlines.antt =====
-- Where the first newline of a text stands.
use multi_client_media_strea.Base.{[], ◌∷◌, ◌++◌, ◌≡◌, refl, Bytes}
use multi_client_media_strea.Socket.Lines.{NoNewline}

pub append_cancel : (a x y : Bytes) → a ++ x ≡ a ++ y → x ≡ y
append_cancel [] x y e = e
append_cancel (c ∷ a) x y e = append_cancel a x y (cc)

-- A text has one first newline.
pub first_newline :
    (a b x y : Bytes)
    → NoNewline a
    → NoNewline b
    → a ++ b'\n' ∷ x ≡ b ++ b'\n' ∷ y
    → (a ≡ b) × (x ≡ y)
first_newline [] [] x y ha hb e = (refl, cc)
first_newline [] (d ∷ b) x y ha hb e = absurd (hb.0 (cc))
first_newline (c ∷ a) [] x y ha hb e = absurd (ha.0 (cc))
first_newline (c ∷ a) (d ∷ b) x y ha hb e =
    let (p, q) = first_newline a b x y ha.1 hb.1 (cc) in ((cc), q)

pub newline_inside : (a b : Bytes) → NoNewline (a ++ b'\n' ∷ b) → ⊥
newline_inside [] b h = h.0 refl
newline_inside (c ∷ a) b h = newline_inside a b h.1
