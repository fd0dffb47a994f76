-- ===== src/Format.antt =====
-- The conversions of `printf` that the server uses, and `snprintf` into a buffer.
use cn_cw.Common.{
  ℕ, zero, suc, ◌+◌, ◌-◌, ◌/◌, ◌%◌, [], ◌∷◌, ◌++◌, ltb, if◌then◌else◌, Bytes, length, take,
}

-- The digits of `n`; the fuel is more than their number.
unfoldable pub digits : ℕ → ℕ → Bytes
digits zero n = []
digits (suc fuel) n =
    let rest = digits fuel (n / 10) in
    if ltb n 10 then (48 + n) ∷ [] else rest ++ (48 + n % 10) ∷ []

-- `%d` and `%zu` of a number that is not negative.
unfoldable pub decimal : ℕ → Bytes
unfolding digits
decimal n = digits (suc n) n

-- `%02d`.
unfoldable pub decimal2 : ℕ → Bytes
unfolding decimal
decimal2 n = if ltb n 10 then b'0' ∷ decimal n else decimal n

-- `snprintf(buf, size, …)` of a text: the bytes that come before the NUL in `buf`, and the
-- result, the length of the whole text.
abbrev pub snprintf : ℕ → Bytes → Bytes × ℕ
snprintf size text = (take (size - 1) text, length text)
