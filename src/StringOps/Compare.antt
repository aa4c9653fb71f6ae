-- ===== src/StringOps/Compare.antt =====
-- The order that `memcmp` decides.
use os_2024_operatingsalsa.Base.{
  ℕ, zero, suc, ◌+◌, ◌≤◌, ◌<◌, ◌≡◌, refl, inl, inr, ◌↔◌, ltb, ltb→lt, ltb→le, Bytes, Bool-cases, ℤ,
  pos, minus_one, is_zero, true, arith, ℕ_discrete,
}
use os_2024_operatingsalsa.StringOps.{memcmp_loop, memcmp}

-- The bytes `lo .. hi` of the two areas agree.
abbrev pub Agree : Bytes → ℕ → Bytes → ℕ → ℕ → ℕ → Type 0
Agree a s b t lo hi = (j : ℕ) → lo ≤ j → j < hi → a (s + j) ≡ b (t + j)

-- What a result says: equal areas, or the order at the first byte that differs.
pub data Compared (a : Bytes) (s : ℕ) (b : Bytes) (t : ℕ) (lo hi : ℕ) (r : ℤ) : Type 0 where
  same : Agree a s b t lo hi → r ≡ pos 0 → Compared a s b t lo hi r
  below :
      (i : ℕ)
      → lo ≤ i
      → i < hi
      → Agree a s b t lo i
      → a (s + i) < b (t + i)
      → r ≡ minus_one
      → Compared a s b t lo hi r
  above :
      (i : ℕ)
      → lo ≤ i
      → i < hi
      → Agree a s b t lo i
      → b (t + i) < a (s + i)
      → r ≡ pos 1
      → Compared a s b t lo hi r

module _ (a : Bytes) (s : ℕ) (b : Bytes) (t : ℕ) where
  Agree-more : (i hi : ℕ) → a (s + i) ≡ b (t + i) → Agree a s b t (i + 1) hi → Agree a s b t i hi
  Agree-more i hi e h j p q = elim (ℕ_discrete j i) [ yes w ↦ rw w e | no w ↦ h j (omega arith) q ]

  Compared-more :
      (i hi : ℕ) (r : ℤ)
      → i < hi
      → a (s + i) ≡ b (t + i)
      → Compared a s b t (i + 1) hi r
      → Compared a s b t i hi r
  Compared-more i hi r p e (same h q) = same (Agree-more i hi e h) q
  Compared-more i hi r p e (below k lo up h lt q) =
      below k (omega arith) up (Agree-more i k e h) lt q
  Compared-more i hi r p e (above k lo up h lt q) =
      above k (omega arith) up (Agree-more i k e h) lt q

  Compared-loop :
      (left i hi : ℕ) → i + left ≡ hi → Compared a s b t i hi (memcmp_loop left i a s b t)
  unfolding memcmp_loop
  Compared-loop zero i hi e = same (λ j p q. absurd (omega arith)) refl
  Compared-loop (suc left) i hi e = elim (Bool-cases (ltb (a (s + i)) (b (t + i)))) [
    | inl p ↦
        below i (omega arith) (omega arith) (λ j u v. absurd (omega arith)) (ltb→lt _ _ p) (rw p)
    | inr p ↦ elim (Bool-cases (ltb (b (t + i)) (a (s + i)))) [
      | inl q ↦
          above i (omega arith) (omega arith) (λ j u v. absurd (omega arith)) (ltb→lt _ _ q)
            (rw (p, q))
      | inr q ↦
          rw (p, q)
            (Compared-more i hi _ (omega arith) (omega (arith, ltb→le _ _ p, ltb→le _ _ q))
              (Compared-loop left (i + 1) hi (omega arith)))
    ]
  ]

  -- `memcmp` returns 0 for equal areas, and otherwise -1 or 1 by the first byte that differs.
  pub memcmp-Compared : (n : ℕ) → Compared a s b t 0 n (memcmp a s b t n)
  unfolding memcmp
  memcmp-Compared n = Compared-loop n 0 n (omega arith)

  -- Where `memcmp` tests for equality.
  pub memcmp-eq_zero : (n : ℕ) → (is_zero (memcmp a s b t n) ≡ true) ↔ Agree a s b t 0 n
  memcmp-eq_zero n = (λ e. to (memcmp-Compared n) e, λ h. from h (memcmp-Compared n))
    where
      to : {r : ℤ} → Compared a s b t 0 n r → is_zero r ≡ true → Agree a s b t 0 n
      to (same h q) e = h
      to (below i lo up h lt q) e = absurd (ground arith)
      to (above i lo up h lt q) e = absurd (ground arith)

      from : {r : ℤ} → Agree a s b t 0 n → Compared a s b t 0 n r → is_zero r ≡ true
      from h (same k q) = rw q
      from h (below i lo up k lt q) = absurd (omega (arith, h i (omega arith) up))
      from h (above i lo up k lt q) = absurd (omega (arith, h i (omega arith) up))
