-- ===== src/Config/Ports/Search.antt =====
-- The loop over the ports ends at the first available one.
use odd_box.Base.{
  not_ltb→le, ltb→lt, ◌∙◌, ap, inr, subst, zero, inl, ltb, ◌%◌, ◌&&◌, ◌^◌, Bool-cases, arith, ◌+◌,
  false, not, ok, suc, true, ◌<◌, List, ◌⊎◌, Option, ◌≡◌, Bool, ◌≤◌, ℕ,
}
use odd_box.Config.Ports.{contains, find_port}

Nat_cases : (m n : ℕ) → m ≤ n → (m ≡ n) ⊎ (suc m ≤ n)
Nat_cases m n h = elim (Bool-cases (ltb m n)) [
  | inl l ↦ inr (ltb→lt m n l)
  | inr g ↦ inl (omega (arith, not_ltb→le m n g))
]

module _ (port_is_free : ℕ → Bool) (random_free_port : Option ℕ) where
  abbrev pub available : List ℕ → ℕ → Bool
  available taken p = not (contains taken p) && port_is_free p

  pub find_port-available :
      (fuel : ℕ) (taken : List ℕ) (p : ℕ) {q : ℕ}
      → find_port port_is_free random_free_port fuel taken p ≡ ok q
      → available taken q ≡ true
  unfolding find_port
  find_port-available zero taken p {q} e = cc
  find_port-available (suc fuel) taken p {q} e =
      ground (arith, find_port-available fuel taken ((p + 1) % 2 ^ 16) {q = q})

  -- The first available port from `start` on.
  pub record IsFirst (taken : List ℕ) (start p : ℕ) : Type 0 where
    pub from_start : start ≤ p
    pub is_available : available taken p ≡ true
    pub none_before : (q : ℕ) → start ≤ q → q < p → available taken q ≡ false

  find_here :
      (fuel : ℕ) (taken : List ℕ) (start : ℕ)
      → available taken start ≡ true
      → find_port port_is_free random_free_port (suc fuel) taken start ≡ ok start
  unfolding find_port
  find_here fuel taken start h = ground arith

  find_next :
      (fuel : ℕ) (taken : List ℕ) (start : ℕ)
      → available taken start ≡ false
      → start + 1 < 2 ^ 16
      → find_port port_is_free random_free_port (suc fuel) taken start
        ≡ find_port port_is_free random_free_port fuel taken (suc start)
  unfolding find_port
  find_next fuel taken start h b =
      let next : (start + 1) % 2 ^ 16 ≡ suc start = omega arith in
      ground (arith, next, ap (find_port port_is_free random_free_port fuel taken) next)

  IsFirst-suc :
      {taken : List ℕ} {start p : ℕ}
      → available taken start ≡ false
      → IsFirst taken (suc start) p
      → IsFirst taken start p
  IsFirst-suc {taken} {start} {p} h f = record {
    from_start = omega (arith, f.from_start);
    is_available = f.is_available;
    none_before = λ q l u. elim (Nat_cases start q l) [
      | inl e ↦ subst (λ n. available taken n ≡ false) e h
      | inr s ↦ f.none_before q s u
    ];
  }

  IsFirst-here :
      {taken : List ℕ} {start : ℕ} → available taken start ≡ true → IsFirst taken start start
  IsFirst-here h = record {
    from_start = omega arith;
    is_available = h;
    none_before = λ q l u. absurd (omega arith);
  }

  pub find_port-IsFirst :
      (k fuel : ℕ) (taken : List ℕ) (start : ℕ)
      → k < fuel
      → start + k < 2 ^ 16
      → available taken (start + k) ≡ true
      → (p : ℕ) × (find_port port_is_free random_free_port fuel taken start ≡ ok p)
        × IsFirst taken start p
  find_port-IsFirst k zero taken start h b a = absurd (omega arith)
  find_port-IsFirst zero (suc fuel) taken start h b a =
      let at_start : start + 0 ≡ start = omega arith in
      let here = subst (λ n. available taken n ≡ true) at_start a in
      (start, find_here fuel taken start here, IsFirst-here here)
  find_port-IsFirst (suc k) (suc fuel) taken start h b a =
      elim (Bool-cases (available taken start)) [
        | inl here ↦ (start, find_here fuel taken start here, IsFirst-here here)
        | inr not_here ↦
            let onward : start + suc k ≡ suc start + k = omega arith in
            let (p, e, f) =
              find_port-IsFirst k fuel taken (suc start) (omega arith) (omega arith)
                (subst (λ n. available taken n ≡ true) onward a) in
            (p, find_next fuel taken start not_here (omega arith) ∙ e, IsFirst-suc not_here f)
      ]
