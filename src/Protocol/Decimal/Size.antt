-- ===== src/Protocol/Decimal/Size.antt =====
-- How long a printed number can be.
use multi_client_media_strea.Base.{
  ℕ, zero, suc, ◌+◌, ◌/◌, ◌%◌, ◌≤◌, [], ◌∷◌, Bytes, arith, length, ltb, Bool-cases, inl, inr,
}
use multi_client_media_strea.Protocol.Decimal.{digits, to_string}

digits-length : (fuel n : ℕ) (out : Bytes) → length (digits fuel n out) ≤ fuel + length out
unfolding digits
digits-length zero n out = omega arith
digits-length (suc fuel) n out = elim (Bool-cases (ltb n 10)) [
  | inl small ↦ rw (small, digits) (omega arith)
  | inr large ↦
      rw (large, digits) (omega (arith, digits-length fuel (n / 10) ((b'0' + n % 10) ∷ out)))
]

pub to_string-length : (n : ℕ) → length (to_string n) ≤ suc n
unfolding to_string
to_string-length n = omega (arith, digits-length (suc n) n [])
