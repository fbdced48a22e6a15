-- ===== src/Queue/Rows.antt =====
-- Lemmas on the tables of Queue/Db.antt: updates, counts, searches and the two orders.
use ductile.Common.{
  ℕ, suc, ◌+◌, ◌≤◌, ◌<◌, Bool, true, false, List, [], ◌∷◌, Option, none, some, ◌≡◌, ◌≢◌, ◌⊎◌, refl,
  sym, ap, subst, ◌∙◌, inl, inr, if◌then◌else◌, Bool-cases, arith, length, keep, count, first, All,
  In, All-map_id,
}
use ductile.Queue.Stamp.{stamp_le, stamp_le_refl, stamp_le_total, stamp_le_trans}
use ductile.Queue.Db.{update_where, oldest, latest}
use ductile.Queue.Types.{Job}

module _ {A : Type 0} where
  pub In-keep : (p : A → Bool) (xs : List A) (a : A) → In a (keep p xs) → In a xs × (p a ≡ true)
  In-keep p [] a m = absurd m
  In-keep p (x ∷ xs) a m = elim (Bool-cases (p x)) [
    | inl t ↦ go t (In-keep p xs a) (rw t at m)
    | inr f ↦ let r = In-keep p xs a (rw f at m) in (inr r.0, r.1)
  ]
    where
      go :
          p x ≡ true
          → (In a (keep p xs) → In a xs × (p a ≡ true))
          → (a ≡ x) ⊎ In a (keep p xs)
          → ((a ≡ x) ⊎ In a xs) × (p a ≡ true)
      go t rest (inl e) = (inl e, rw e t)
      go t rest (inr n) = (inr (rest n).0, (rest n).1)

  pub keep-In : (p : A → Bool) (xs : List A) (a : A) → In a xs → p a ≡ true → In a (keep p xs)
  keep-In p [] a m t = absurd m
  keep-In p (x ∷ xs) a (inl e) t = let u : p x ≡ true = rw (← e) t in rw u (inl e)
  keep-In p (x ∷ xs) a (inr m) t = elim (Bool-cases (p x)) [
    | inl u ↦ rw u (inr (keep-In p xs a m t))
    | inr f ↦ rw f (keep-In p xs a m t)
  ]

  pub first-none :
      (p : A → Bool) (xs : List A) → first p xs ≡ none → (a : A) → In a xs → p a ≡ false
  first-none p [] h a m = absurd m
  first-none p (x ∷ xs) h a (inl e) = rw e (ground arith)
  first-none p (x ∷ xs) h a (inr m) = first-none p xs (ground arith) a m

  pub first-none_of :
      (p : A → Bool) (xs : List A) → ((a : A) → In a xs → p a ≡ false) → first p xs ≡ none
  first-none_of p [] h = refl
  first-none_of p (x ∷ xs) h = rw (h x (inl refl)) (first-none_of p xs (λ a m. h a (inr m)))

  pub first-some :
      (p : A → Bool) (xs : List A) (a : A) → first p xs ≡ some a → In a xs × (p a ≡ true)
  first-some p [] a h = cc
  first-some p (x ∷ xs) a h = elim (Bool-cases (p x)) [
    | inl t ↦ let e : x ≡ a = ground arith in (inl (sym e), rw (← e) t)
    | inr f ↦ let r = first-some p xs a (rw f at h) in (inr r.0, r.1)
  ]

  count-In : (p : A → Bool) (xs : List A) (a : A) → In a xs → p a ≡ true → 0 < count p xs
  count-In p [] a m t = absurd m
  count-In p (x ∷ xs) a (inl e) t = let u : p x ≡ true = rw (← e) t in rw u (omega arith)
  count-In p (x ∷ xs) a (inr m) t = omega (arith, count-In p xs a m t)

  pub count-zero : (p : A → Bool) (xs : List A) → ((a : A) → In a xs → p a ≡ false) → count p xs ≡ 0
  count-zero p [] h = refl
  count-zero p (x ∷ xs) h =
      rw (h x (inl refl)) (omega (arith, count-zero p xs (λ a m. h a (inr m))))

  pub zero-count : (p : A → Bool) (xs : List A) (a : A) → count p xs ≡ 0 → In a xs → p a ≡ false
  zero-count p xs a z m = elim (Bool-cases (p a)) [
    | inl t ↦ absurd (omega (arith, count-In p xs a m t))
    | inr f ↦ f
  ]

  -- Where one row at most passes a test, two that pass it are the same.
  pub count_unique :
      (p : A → Bool) (xs : List A) (a b : A)
      → count p xs ≤ 1
      → In a xs
      → In b xs
      → p a ≡ true
      → p b ≡ true
      → a ≡ b
  count_unique p [] a b c m n t u = absurd m
  count_unique p (x ∷ xs) a b c (inl e) (inl f) t u = e ∙ sym f
  count_unique p (x ∷ xs) a b c (inl e) (inr n) t u = absurd (ground (arith, count-In p xs b n u))
  count_unique p (x ∷ xs) a b c (inr m) (inl f) t u = absurd (ground (arith, count-In p xs a m t))
  count_unique p (x ∷ xs) a b c (inr m) (inr n) t u = count_unique p xs a b (omega arith) m n t u

  pub count-keep-le : (p q : A → Bool) (xs : List A) → count q (keep p xs) ≤ count q xs
  count-keep-le p q [] = omega arith
  count-keep-le p q (x ∷ xs) = ground (arith, count-keep-le p q xs)

  pub All-keep {κ} : (P : A → Type κ) (p : A → Bool) (xs : List A) → All P xs → All P (keep p xs)
  All-keep P p [] h = h
  All-keep P p (x ∷ xs) h = elim (Bool-cases (p x)) [
    | inl t ↦ rw t (h.0, All-keep P p xs h.1)
    | inr f ↦ rw f (All-keep P p xs h.1)
  ]

  pub All-of_In {κ} : (P : A → Type κ) (xs : List A) → ((a : A) → In a xs → P a) → All P xs
  All-of_In P [] h = tt
  All-of_In P (x ∷ xs) h = (h x (inl refl), All-of_In P xs (λ a m. h a (inr m)))

  -- An update that brings no new row under a test does not raise the test's count.
  pub count-update-le :
      (p q : A → Bool) (f : A → A) (xs : List A)
      → ((a : A) → In a xs → p a ≡ true → q (f a) ≡ true → q a ≡ true)
      → count q (update_where p f xs) ≤ count q xs
  unfolding update_where
  count-update-le p q f [] h = omega arith
  count-update-le p q f (x ∷ xs) h =
      ground (arith, h x (inl refl), count-update-le p q f xs (λ a m. h a (inr m)))

  -- An update raises a count by the number of the updated rows at most.
  pub count-update-le-add :
      (p q : A → Bool) (f : A → A) (xs : List A)
      → count q (update_where p f xs) ≤ count q xs + count p xs
  unfolding update_where
  count-update-le-add p q f [] = omega arith
  count-update-le-add p q f (x ∷ xs) = ground (arith, count-update-le-add p q f xs)

  pub All-update {κ μ} :
      (P : A → Type κ) (Q : A → Type μ) (p : A → Bool) (f : A → A) (xs : List A)
      → ((a : A) → In a xs → P a → p a ≡ true → Q (f a))
      → ((a : A) → In a xs → P a → p a ≡ false → Q a)
      → All P xs
      → All Q (update_where p f xs)
  unfolding update_where
  All-update P Q p f [] hit miss h = tt
  All-update P Q p f (x ∷ xs) hit miss h =
      let rest = All-update P Q p f xs (λ a m. hit a (inr m)) (λ a m. miss a (inr m)) h.1 in
      elim (Bool-cases (p x)) [
        | inl t ↦ rw t (hit x (inl refl) h.0 t, rest)
        | inr u ↦ rw u (miss x (inl refl) h.0 u, rest)
      ]

  pub In-update :
      (p : A → Bool) (f : A → A) (xs : List A) (b : A)
      → In b (update_where p f xs)
      → (a : A) × In a xs × (b ≡ (if p a then f a else a))
  unfolding update_where
  In-update p f [] b m = absurd m
  In-update p f (x ∷ xs) b (inl e) = (x, inl refl, e)
  In-update p f (x ∷ xs) b (inr m) = let r = In-update p f xs b m in (r.0, inr r.1, r.2)

  length-update :
      (p : A → Bool) (f : A → A) (xs : List A) → length (update_where p f xs) ≡ length xs
  unfolding update_where
  length-update p f [] = refl
  length-update p f (x ∷ xs) = ap suc (length-update p f xs)

oldest-cons-In :
    (x j : Job) (xs : List Job) (o : Option Job)
    → (o ≡ some j → In j xs)
    → (elim o [
      | none ↦ some x
      | some k ↦ some (if stamp_le x.created_at k.created_at then x else k)
    ])
      ≡ some j
    → In j (x ∷ xs)
oldest-cons-In x j xs none rest h = inl (cc)
oldest-cons-In x j xs (some k) rest h = elim (Bool-cases (stamp_le x.created_at k.created_at)) [
  | inl t ↦ inl (ground arith)
  | inr f ↦ inr (rest (ground arith))
]

pub oldest-In : (xs : List Job) (j : Job) → oldest xs ≡ some j → In j xs
unfolding oldest
oldest-In [] j h = cc
oldest-In (x ∷ xs) j h = oldest-cons-In x j xs (oldest xs) (oldest-In xs j) h

-- The row is at or before every row of a table, by creation.
abbrev IsBefore : List Job → Job → Type 0
IsBefore xs j = All (λ i. stamp_le j.created_at i.created_at ≡ true) xs

oldest-cons-le :
    (x j : Job) (xs : List Job) (o : Option Job)
    → ((k : Job) → o ≡ some k → IsBefore xs k)
    → (o ≡ none → xs ≡ [])
    → (elim o [
      | none ↦ some x
      | some k ↦ some (if stamp_le x.created_at k.created_at then x else k)
    ])
      ≡ some j
    → IsBefore (x ∷ xs) j
oldest-cons-le x j xs none rest empty h =
    let e : x ≡ j = ground arith in
    subst (IsBefore (x ∷ xs)) e (rw (empty refl) (stamp_le_refl x.created_at, tt))
oldest-cons-le x j xs (some k) rest empty h =
    elim (Bool-cases (stamp_le x.created_at k.created_at)) [
      | inl t ↦
          let e : x ≡ j = ground arith in
          subst (IsBefore (x ∷ xs)) e (
            stamp_le_refl x.created_at,
            All-map_id _ _ (λ i. stamp_le_trans x.created_at k.created_at i.created_at t) xs
                (rest k refl),
          )
      | inr f ↦
          let e : k ≡ j = ground arith in
          subst (IsBefore (x ∷ xs)) e (stamp_le_total x.created_at k.created_at f, rest k refl)
    ]

oldest-none : (xs : List Job) → oldest xs ≡ none → xs ≡ []
unfolding oldest
oldest-none [] h = refl
oldest-none (x ∷ xs) h = absurd (ground arith)

-- No row that the order sees is before the oldest.
pub oldest-le : (xs : List Job) (j : Job) → oldest xs ≡ some j → IsBefore xs j
unfolding oldest
oldest-le [] j h = tt
oldest-le (x ∷ xs) j h = oldest-cons-le x j xs (oldest xs) (oldest-le xs) (oldest-none xs) h

pub oldest-some : (xs : List Job) (a : Job) → In a xs → oldest xs ≢ none
oldest-some [] a m h = absurd m
oldest-some (x ∷ xs) a m h = cc (oldest-none (x ∷ xs) h)

latest-none : (t : Job → ℕ) (xs : List Job) → latest t xs ≡ none → xs ≡ []
unfolding latest
latest-none t [] h = refl
latest-none t (x ∷ xs) h = absurd (ground arith)

-- The latest of the rows that pass a test: it is missing only if none passes.
pub latest-keep-none :
    (t : Job → ℕ) (p : Job → Bool) (xs : List Job)
    → latest t (keep p xs) ≡ none
    → (j : Job) → In j xs
    → p j ≡ false
latest-keep-none t p xs h j m = elim (Bool-cases (p j)) [
  | inl u ↦ absurd (rw (latest-none t (keep p xs) h) at (keep-In p xs j m u))
  | inr f ↦ f
]
