-- ===== src/Protocol/Decimal.antt =====
-- `std::to_string` and `operator<<` of an unsigned integer: the decimal digits, highest first.
pub mod Size
use multi_client_media_strea.Base.{ℕ, zero, suc, ◌+◌, ◌/◌, ◌%◌, [], ◌∷◌, Bytes, ltb, if◌then◌else◌}

-- One round divides by ten; `n + 1` rounds are more than the digits of `n`.
unfoldable pub digits : ℕ → ℕ → Bytes → Bytes
digits zero n out = out
digits (suc fuel) n out =
    let more = digits fuel (n / 10) ((b'0' + n % 10) ∷ out) in
    if ltb n 10 then (b'0' + n) ∷ out else more

unfoldable pub to_string : ℕ → Bytes
unfolding digits
to_string n = digits (suc n) n []
