-- ===== src/Prelude/Members.antt =====
-- Members of the lists that tests keep, and counts of zero.
use mathlib.Core.List.{Memᴰ}
use financial_ai_operator.Prelude.{
  ◌≡◌, ◌↔◌, refl, ap, sym, ◌∙◌, inl, inr, Bool, true, false, ◌&&◌, List, [], ◌∷◌, arith, keep, any,
  length, All, All-imp, Bool-cases,
}

module _ {A : Type 0} where
  pub keep-none :
      (p : A → Bool) (xs : List A) → (length (keep p xs) ≡ 0) ↔ All (λ x. p x ≡ false) xs
  keep-none p [] = (λ h. tt, λ h. refl)
  keep-none p (x ∷ xs) = elim (Bool-cases (p x)) [
    | inl kept ↦ rw kept (λ h. ground arith, λ h. ground arith)
    | inr dropped ↦ rw dropped (λ h. (refl, (keep-none p xs).0 h), λ h. (keep-none p xs).1 h.1)
  ]

  pub keep_twice : (p q : A → Bool) (xs : List A) → keep q (keep p xs) ≡ keep (λ x. p x && q x) xs
  keep_twice p q [] = refl
  keep_twice p q (x ∷ xs) = ground (arith, keep_twice p q xs)

-- An implication between tests, as a test of both.
pub and_false : (p q : Bool) → ((p && q) ≡ false) ↔ (p ≡ true → q ≡ false)
and_false true q = (λ h _. h, λ h. h refl)
and_false false q = (λ h k. cc, λ h. refl)

module _ {A : Type 0} (p q : A → Bool) where
  -- A count of zero: the second test fails wherever the first holds.
  pub none_of :
      (xs : List A)
      → (length (keep (λ x. p x && q x) xs) ≡ 0) ↔ All (λ x. p x ≡ true → q x ≡ false) xs
  none_of xs = (
    λ h.
        All-imp (λ x. (p x && q x) ≡ false) (λ x. p x ≡ true → q x ≡ false)
          (λ x. (and_false (p x) (q x)).0) xs ((keep-none (λ x. p x && q x) xs).0 h),
    λ h. (keep-none (λ x. p x && q x) xs).1 (
        All-imp (λ x. p x ≡ true → q x ≡ false) (λ x. (p x && q x) ≡ false)
          (λ x. (and_false (p x) (q x)).1) xs h),
  )

  module _ {Q : A → Type 0} where
    -- The same for a predicate that the second test refutes.
    pub none_of_iff :
        ((x : A) → (q x ≡ false) ↔ Q x)
        → (xs : List A) → (length (keep (λ x. p x && q x) xs) ≡ 0) ↔ All (λ x. p x ≡ true → Q x) xs
    none_of_iff e xs = (
      λ h.
          All-imp (λ x. p x ≡ true → q x ≡ false) (λ x. p x ≡ true → Q x) (λ x k w. (e x).0 (k w))
            xs ((none_of xs).0 h),
      λ h. (none_of xs).1 (
          All-imp (λ x. p x ≡ true → Q x) (λ x. p x ≡ true → q x ≡ false) (λ x k w. (e x).1 (k w))
            xs h),
    )

module _ {A : Type 0} (p : A → Bool) where
  pub Mem_of-any : (xs : List A) → any p xs ≡ true → (x : A) × Memᴰ x xs × (p x ≡ true)
  Mem_of-any [] h = cc
  Mem_of-any (x ∷ xs) h = elim (Bool-cases (p x)) [
    | inl t ↦ (x, Memᴰ.head refl, t)
    | inr f ↦
        let h' : any p xs ≡ true = rw f at h in
        let (y, m, k) = Mem_of-any xs h' in (y, Memᴰ.tail m, k)
  ]

  pub any_of-Mem : (x : A) (xs : List A) → Memᴰ x xs → p x ≡ true → any p xs ≡ true
  any_of-Mem x [] m h = elim m [ ]
  any_of-Mem x (y ∷ ys) (Memᴰ.head e) h = let t : p y ≡ true = ap p (sym e) ∙ h in rw t refl
  any_of-Mem x (y ∷ ys) (Memᴰ.tail m) h = elim (Bool-cases (p y)) [
    | inl t ↦ rw t refl
    | inr f ↦ rw f (any_of-Mem x ys m h)
  ]

  Mem-cons :
      {x y : A} {xs ys : List A}
      → (Memᴰ x xs → Memᴰ x ys × (p x ≡ true))
      → p y ≡ true
      → Memᴰ x (y ∷ xs)
      → Memᴰ x (y ∷ ys) × (p x ≡ true)
  Mem-cons f t (Memᴰ.head e) = (Memᴰ.head e, ap p e ∙ t)
  Mem-cons f t (Memᴰ.tail m) = let (n, k) = f m in (Memᴰ.tail n, k)

  pub Mem-keep : (x : A) (xs : List A) → Memᴰ x (keep p xs) → Memᴰ x xs × (p x ≡ true)
  Mem-keep x [] m = elim m [ ]
  Mem-keep x (y ∷ ys) m = elim (Bool-cases (p y)) [
    | inl t ↦ let m' : Memᴰ x (y ∷ keep p ys) = rw t at m in Mem-cons (Mem-keep x ys) t m'
    | inr f ↦
        let m' : Memᴰ x (keep p ys) = rw f at m in let (n, k) = Mem-keep x ys m' in (Memᴰ.tail n, k)
  ]

  pub Mem_of-keep : (x : A) (xs : List A) → Memᴰ x xs → p x ≡ true → Memᴰ x (keep p xs)
  Mem_of-keep x [] m h = elim m [ ]
  Mem_of-keep x (y ∷ ys) (Memᴰ.head e) h =
      let t : p y ≡ true = ap p (sym e) ∙ h in rw t (Memᴰ.head e)
  Mem_of-keep x (y ∷ ys) (Memᴰ.tail m) h = elim (Bool-cases (p y)) [
    | inl t ↦ rw t (Memᴰ.tail (Mem_of-keep x ys m h))
    | inr f ↦ rw f (Mem_of-keep x ys m h)
  ]
