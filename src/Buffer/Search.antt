-- ===== src/Buffer/Search.antt =====
-- `sort.Search` of Go's standard library, which `GetSince` calls.
use mizuflow.Base.{
  ℕ, zero, suc, ◌+◌, ◌-◌, ◌/◌, ◌≤◌, ◌<◌, ◌≡◌, Bool, true, false, Bool-cases, inl, inr, arith, ltb,
}

-- `for i < j { h := (i + j) / 2; if !f(h) { i = h + 1 } else { j = h } }; return i`
unfoldable pub search_loop : ℕ → (ℕ → Bool) → ℕ → ℕ → ℕ
search_loop zero f i j = i
search_loop (suc fuel) f i j = elim (ltb i j) [
  | true ↦ elim (f ((i + j) / 2)) [
    | true ↦ search_loop fuel f i ((i + j) / 2)
    | false ↦ search_loop fuel f ((i + j) / 2 + 1) j
  ]
  | false ↦ i
]

-- The interval shrinks in each round, so `n` rounds are enough.
unfoldable pub search : ℕ → (ℕ → Bool) → ℕ
unfolding search_loop
search n f = search_loop n f 0 n

-- What is known of the index `r` that the search over `[0, n)` gives.
pub record IsFirst (f : ℕ → Bool) (n r : ℕ) : Type 0 where
  pub bound : r ≤ n
  pub below : (k : ℕ) → k < r → f k ≡ false
  pub above : (k : ℕ) → r ≤ k → k < n → f k ≡ true

module _ (f : ℕ → Bool) (n : ℕ) (mono : (i j : ℕ) → i ≤ j → j < n → f i ≡ true → f j ≡ true) where
  false_below : (i j : ℕ) → i ≤ j → j < n → f j ≡ false → f i ≡ false
  false_below i j le lt e = elim (Bool-cases (f i)) [
    | inl t ↦ ground (arith, mono i j le lt t)
    | inr t ↦ t
  ]

  search_loop-IsFirst :
      (fuel i j : ℕ)
      → j - i ≤ fuel
      → i ≤ j
      → j ≤ n
      → ((k : ℕ) → k < i → f k ≡ false)
      → ((k : ℕ) → j ≤ k → k < n → f k ≡ true)
      → IsFirst f n (search_loop fuel f i j)
  unfolding search_loop
  search_loop-IsFirst zero i j enough le jn low high = record {
    bound = omega arith;
    below = low;
    above = λ k h. high k (omega arith);
  }
  search_loop-IsFirst (suc fuel) i j enough le jn low high = elim (Bool-cases (ltb i j)) [
    | inl lt ↦
        rw (lt, search_loop)
          (elim (Bool-cases (f ((i + j) / 2))) [
            | inl t ↦
                rw (t, search_loop)
                  (search_loop-IsFirst fuel i ((i + j) / 2) (ground arith) (ground arith)
                    (ground arith) low (λ k h l. mono ((i + j) / 2) k h l t))
            | inr t ↦
                rw (t, search_loop)
                  (search_loop-IsFirst fuel ((i + j) / 2 + 1) j (ground arith) (ground arith) jn
                    (λ k h. false_below k ((i + j) / 2) (omega arith) (ground arith) t) high)
          ])
    | inr ge ↦
        rw (ge, search_loop)
          (record { bound = omega arith; below = low; above = λ k h. high k (ground arith) })
  ]

  pub search-IsFirst : IsFirst f n (search n f)
  unfolding search
  search-IsFirst =
      search_loop-IsFirst n 0 n (omega arith) (omega arith) (omega arith)
        (λ k h. absurd (omega arith)) (λ k h l. absurd (omega arith))
