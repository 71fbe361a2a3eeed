-- ===== src/Setup/Ports.antt =====
-- The text of the server's port is a C string.
use udm.Base.{
  ℕ, zero, suc, ◌+◌, ◌-◌, ◌/◌, ◌%◌, ◌^◌, ◌≡◌, refl, ap, List, [], ◌∷◌, arith, inl, inr, Bool-cases,
  ltb,
}
use udm.Setup.Text.{c_text, to_string, digits}

c_text-digits :
    (fuel n : ℕ) (tail : List ℕ)
    → c_text tail ≡ tail
    → c_text (digits fuel n tail) ≡ digits fuel n tail
unfolding digits c_text
c_text-digits zero n tail whole = whole
c_text-digits (suc fuel) n tail whole = elim (Bool-cases (ltb n 10)) [
  | inl one ↦ rw one (ground (arith, whole))
  | inr more ↦
      rw more (c_text-digits fuel (n / 10) ((b'0' + n % 10) ∷ tail) (ground (arith, whole)))
]

pub c_text-to_string : (port : ℕ) → c_text (to_string port) ≡ to_string port
unfolding to_string c_text
c_text-to_string port = elim (Bool-cases (ltb port (2 ^ 15))) [
  | inl plain ↦ rw plain (c_text-digits 5 port [] refl)
  | inr negative ↦ rw negative (ap (◌∷◌ b'-') (c_text-digits 5 (2 ^ 16 - port) [] refl))
]
