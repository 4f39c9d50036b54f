-- ===== src/Http1/Initial/Values.antt =====
-- The value of a header line, behind its blank: `get_header_value` gives it back.
use odd_box.Base.{
  ◌∷◌, ◌==◌, true, false, refl, sym, ◌≡◌, subst, take-all, length, get_or, is_utf8, is_whitespace,
  Bytes, ℕ,
}
use odd_box.Http1.Initial.{get_header_value, skip_colon, trim_end, trim_to}

-- A value that has a byte, no white space at its ends, no colon at its front, and is UTF-8.
pub record IsValue (v : Bytes) : Type 0 where
  pub front : ℕ
  pub behind : Bytes
  pub whole : v ≡ front ∷ behind
  pub no_space_first : is_whitespace front ≡ false
  pub no_colon : (front == b':') ≡ false
  pub no_space_last : is_whitespace (get_or v (length behind) 0) ≡ false
  pub utf8 : is_utf8 v ≡ true

space : is_whitespace b' ' ≡ true
unfolding is_whitespace
space = refl

skip_colon_lem :
    (b : ℕ) (bs : Bytes)
    → is_whitespace b ≡ false
    → (b == b':') ≡ false
    → skip_colon (b' ' ∷ b ∷ bs) ≡ b ∷ bs
unfolding skip_colon
skip_colon_lem b bs no_space no_colon = rw (space, no_colon, no_space) refl

trim_end_lem :
    (b : ℕ) (bs : Bytes)
    → is_whitespace (get_or (b ∷ bs) (length bs) 0) ≡ false
    → trim_end (b ∷ bs) ≡ b ∷ bs
unfolding trim_end trim_to
trim_end_lem b bs last = rw last (take-all (b ∷ bs))

read_at :
    (b : ℕ) (bs : Bytes)
    → is_whitespace b ≡ false
    → (b == b':') ≡ false
    → is_whitespace (get_or (b ∷ bs) (length bs) 0) ≡ false
    → is_utf8 (b ∷ bs) ≡ true
    → get_header_value (b' ' ∷ b ∷ bs) ≡ b ∷ bs
unfolding get_header_value
read_at b bs no_space no_colon last utf8 =
    rw (skip_colon_lem b bs no_space no_colon, trim_end_lem b bs last, utf8) refl

pub value_read : (v : Bytes) → IsValue v → get_header_value (b' ' ∷ v) ≡ v
value_read v h =
    let last =
      subst (λ x. is_whitespace (get_or x (length h.behind) 0) ≡ false) h.whole h.no_space_last in
    let utf8 = subst (λ x. is_utf8 x ≡ true) h.whole h.utf8 in
    subst (λ x. get_header_value (b' ' ∷ x) ≡ x) (sym h.whole)
      (read_at h.front h.behind h.no_space_first h.no_colon last utf8)
