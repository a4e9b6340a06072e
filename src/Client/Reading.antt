-- ===== src/Client/Reading.antt =====
-- The client reads the size that the server writes into the header of a file.
use multi_client_media_strea.Base.{
  ℕ, zero, suc, ◌+◌, ◌*◌, ◌/◌, ◌%◌, ◌^◌, ◌<◌, true, false, [], ◌∷◌, ◌++◌, ◌≡◌, ◌≢◌, refl, ap, ◌∙◌,
  arith, inl, inr, Bool-cases, Bytes, codes, length, ltb, ◌==◌, All,
}
use multi_client_media_strea.Client.{
  is_digit, read_digits, read_magnitude, read_signed, read_unsigned, starts_ok, announces,
  read_header,
}
use multi_client_media_strea.Protocol.{build_get_header}
use multi_client_media_strea.Protocol.Decimal.{digits, to_string}
use multi_client_media_strea.Protocol.Trim.{is_space, skip_spaces}
use multi_client_media_strea.Socket.{strip_return}
use multi_client_media_strea.Socket.Lines.{NoNewline}

abbrev pub IsDigits : Bytes → Type 0
IsDigits = All (λ c. is_digit c ≡ true)

digits-IsDigits : (fuel n : ℕ) (out : Bytes) → IsDigits out → IsDigits (digits fuel n out)
unfolding digits
digits-IsDigits zero n out h = h
digits-IsDigits (suc fuel) n out h = elim (Bool-cases (ltb n 10)) [
  | inl small ↦ rw (small, digits) (ground arith, h)
  | inr large ↦ rw (large, digits) (digits-IsDigits fuel (n / 10) _ (ground arith, h))
]

read_digit :
    (v d : ℕ) (out : Bytes)
    → d < 10
    → read_digits v ((b'0' + d) ∷ out) ≡ read_digits (v * 10 + d) out
unfolding read_digits
read_digit v d out h =
    let digit : is_digit (b'0' + d) ≡ true = ground arith in
    rw digit (ap (λ k. read_digits k out) (omega arith))

-- Reading takes up the digits that printing puts in front.
read_digits-digits :
    (fuel n : ℕ) (out : Bytes) → n < fuel → read_digits 0 (digits fuel n out) ≡ read_digits n out
unfolding digits read_digits
read_digits-digits zero n out h = absurd (omega arith)
read_digits-digits (suc fuel) n out h = elim (Bool-cases (ltb n 10)) [
  | inl small ↦
      rw (small, digits)
        (read_digit 0 n out (ground arith) ∙ ap (λ k. read_digits k out) (omega arith))
  | inr large ↦
      rw (large, digits)
        (read_digits-digits fuel (n / 10) ((b'0' + n % 10) ∷ out) (ground arith)
          ∙ read_digit (n / 10) (n % 10) out (omega arith)
          ∙ ap (λ k. read_digits k out) (omega arith))
]

digits-ne-nil : (fuel n : ℕ) (out : Bytes) → n < fuel → digits fuel n out ≢ []
unfolding digits
digits-ne-nil zero n out h = absurd (omega arith)
digits-ne-nil (suc fuel) n out h = elim (Bool-cases (ltb n 10)) [
  | inl small ↦ rw (small, digits) (λ e. cc)
  | inr large ↦ rw (large, digits) (digits-ne-nil fuel (n / 10) _ (ground arith))
]

pub to_string-IsDigits : (n : ℕ) → IsDigits (to_string n)
unfolding to_string
to_string-IsDigits n = digits-IsDigits (suc n) n [] tt

-- A text of digits that starts with one is read as the number it shows, if that has 64 bits.
read_unsigned-of-IsDigits :
    (s : Bytes) (n : ℕ)
    → IsDigits s
    → s ≢ []
    → read_digits 0 s ≡ n
    → n < 2 ^ 64
    → read_unsigned s ≡ (n, true)
unfolding read_unsigned skip_spaces
read_unsigned-of-IsDigits [] n d ne e h = absurd (ne refl)
read_unsigned-of-IsDigits (c ∷ s) n d ne e h =
    let solid : is_space c ≡ false = unfold is_space in ground (arith, d.0) in
    let no_plus : (c == b'+') ≡ false = ground (arith, d.0) in
    let no_minus : (c == b'-') ≡ false = ground (arith, d.0) in
    let fits : ltb n (2 ^ 64) ≡ true = ground arith in
    rw (solid, skip_spaces)
      (unfold read_signed in
        rw (no_plus, no_minus) (unfold read_magnitude in rw (d.0, e, fits) refl))

-- The size that the client reads from the text of a number is that number.
pub read_unsigned-to_string : (n : ℕ) → n < 2 ^ 64 → read_unsigned (to_string n) ≡ (n, true)
read_unsigned-to_string n h =
    read_unsigned-of-IsDigits (to_string n) n (to_string-IsDigits n)
      (unfold to_string in digits-ne-nil (suc n) n [] (omega arith))
      (unfold to_string read_digits in read_digits-digits (suc n) n [] (omega arith)) h

pub no_byte : (c : ℕ) (s : Bytes) → is_digit c ≡ false → IsDigits s → All (λ d. d ≢ c) s
no_byte c [] n h = tt
no_byte c (d ∷ s) n h = ((λ e. ground (arith, h.0)), no_byte c s n h.1)

pub strip_return-same : (s : Bytes) → All (λ d. d ≢ b'\r') s → strip_return s ≡ s
unfolding strip_return
strip_return-same [] h = refl
strip_return-same (c ∷ []) h = ground arith
strip_return-same (c ∷ (d ∷ s)) h = ap (◌∷◌ c) (strip_return-same (d ∷ s) h.1)

-- For a size of 64 bits, the header that the server writes for a file is one line with no other
-- newline in it and no \r at its end, and from that line the client reads the size.
pub read_header-build_get_header :
    (n : ℕ)
    → n < 2 ^ 64
    → (line : Bytes) × (build_get_header n ≡ line ++ b'\n' ∷ [])
      × NoNewline line
      × (strip_return line ≡ line)
      × (read_header line ≡ announces n)
unfolding build_get_header read_header starts_ok
read_header-build_get_header n h =
    let line = codes "OK " ++ to_string n in
    let d = to_string-IsDigits n in
    (
      line,
      refl,
      (ground arith, (ground arith, (ground arith, no_byte b'\n' _ refl d))),
      strip_return-same line (ground arith, (ground arith, (ground arith, no_byte b'\r' _ refl d))),
      (let long : ltb (length line) 3 ≡ false = ground arith in
          rw (long, read_unsigned-to_string n h) refl),
    )
