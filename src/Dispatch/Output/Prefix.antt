-- ===== src/Dispatch/Output/Prefix.antt =====
-- What a bounded buffer of internal/dispatch/output_limit.go holds after any writes.
use ductile.Common.{
  ℕ, zero, suc, ◌+◌, ◌-◌, ◌≤◌, ◌<◌, true, false, List, [], ◌∷◌, ◌++◌, ◌≡◌, refl, sym, ap, ◌∙◌, inl,
  inr, leb, ◌==◌, if◌then◌else◌, Bool-cases, leb→le, arith, length, length-append,
}
use mathlib.Core.List.{append_assoc, append-nil}
use ductile.Common.Int.{ℤ, pos, pos_part, is_pos}
use ductile.Dispatch.Output.{BoundedBuffer, new_bounded_buffer, take, write_within, write}

-- The buffer after each of the writes in turn.
pub write_all : List (List ℕ) → BoundedBuffer → BoundedBuffer
unfolding write
write_all [] b = b
write_all (p ∷ ps) b = write_all ps (write p b)

abbrev pub concat : List (List ℕ) → List ℕ
concat [] = []
concat (p ∷ ps) = p ++ concat ps

take-all : (n : ℕ) (s : List ℕ) → length s ≤ n → take n s ≡ s
take-all zero [] h = refl
take-all zero (b ∷ s) h = absurd (none_below (length s) h)
  where
    none_below : (k : ℕ) → suc k ≤ 0 → ⊥
    none_below k h = omega arith
take-all (suc n) [] h = refl
take-all (suc n) (b ∷ s) h = ap (λ (t : List ℕ). b ∷ t) (take-all n s (omega arith))

take-append : (n : ℕ) (s t : List ℕ) → take n (s ++ t) ≡ take n s ++ take (n - length s) t
take-append zero [] t = refl
take-append zero (b ∷ s) t = zero_left (length s)
  where
    zero_left : (k : ℕ) → [] ≡ take (0 - suc k) t
    zero_left k = let e : 0 - suc k ≡ 0 = omega arith in rw e refl
take-append (suc n) [] t = let e : suc n - 0 ≡ suc n = omega arith in rw e refl
take-append (suc n) (b ∷ s) t =
    let e : suc n - suc (length s) ≡ n - length s = omega arith in
    rw e (ap (λ (u : List ℕ). b ∷ u) (take-append n s t))

length-take : (n : ℕ) (s : List ℕ) → n ≤ length s → length (take n s) ≡ n
length-take zero s h = omega arith
length-take (suc n) [] h = absurd (none_below n h)
  where
    none_below : (k : ℕ) → suc k ≤ 0 → ⊥
    none_below k h = omega arith
length-take (suc n) (b ∷ s) h = ap suc (length-take n s (omega arith))

-- The buffer holds the first bytes of the output so far; once a byte has been dropped it is marked,
-- and not before it is full.
record Holds (limit : ℕ) (seen : List ℕ) (b : BoundedBuffer) : Type 0 where
  limit_kept : b.limit ≡ pos limit
  bytes : b.buf ≡ take limit seen
  dropped : limit < length seen → b.truncated ≡ true
  full : b.truncated ≡ true → limit ≤ length seen

module _ (limit : ℕ) (seen p : List ℕ) (b : BoundedBuffer) (w : Holds limit seen b) where
  full-Holds : limit ≤ length seen → Holds limit (seen ++ p) (write_within 0 p b)
  full-Holds h = record {
    limit_kept = w.limit_kept;
    bytes = w.bytes ∙ sym (take-append limit seen p ∙ rest);
    dropped = λ d. refl;
    full = λ t. omega (arith, length-append seen p);
  }
    where
      rest : take limit seen ++ take (limit - length seen) p ≡ take limit seen
      rest = let e : limit - length seen ≡ 0 = omega arith in rw e (append-nil (take limit seen))

  fits-Holds :
      length seen + length p ≤ limit → Holds limit (seen ++ p) (record b { buf = b.buf ++ p })
  fits-Holds h = record {
    limit_kept = w.limit_kept;
    bytes =
        ap (λ (s : List ℕ). s ++ p) (w.bytes ∙ take-all limit seen (omega arith))
        ∙ sym (take-all limit (seen ++ p) (omega (arith, length-append seen p)));
    dropped = λ d. absurd (short d);
    full = λ t. let f = w.full t in omega (arith, length-append seen p);
  }
    where
      short : limit < length (seen ++ p) → ⊥
      short d = omega (arith, length-append seen p)

  cut-Holds :
      length seen < limit
      → limit < length seen + length p
      → Holds limit
          (seen ++ p)
          (record b { buf = b.buf ++ take (limit - length seen) p; truncated = true })
  cut-Holds h g = record {
    limit_kept = w.limit_kept;
    bytes =
        ap (λ (s : List ℕ). s ++ take (limit - length seen) p) w.bytes
        ∙ sym (take-append limit seen p);
    dropped = λ d. refl;
    full = λ t. omega (arith, length-append seen p);
  }

  within-Holds :
      (remaining : ℕ)
      → remaining ≡ limit - length seen
      → Holds limit (seen ++ p) (write_within remaining p b)
  within-Holds zero e = full-Holds (omega arith)
  within-Holds (suc r) e =
      let some_left : suc r == 0 ≡ false = ground arith in
      elim (Bool-cases (leb (length p) (suc r))) [
        | inl t ↦
            let l = leb→le (length p) (suc r) t in rw (some_left, t) (fits-Holds (omega arith))
        | inr f ↦
            let l : suc r < length p = ground arith in
            rw (some_left, f, e) (cut-Holds (omega arith) (omega arith))
      ]

  remaining-eq : limit - length b.buf ≡ limit - length seen
  remaining-eq = elim (Bool-cases (leb limit (length seen))) [
    | inl t ↦
        let l = leb→le limit (length seen) t in
        let e = length-take limit seen l in rw w.bytes (omega arith)
    | inr f ↦
        let l : length seen < limit = ground arith in
        rw (w.bytes, take-all limit seen (omega arith)) refl
  ]

  opened :
      (l : ℤ)
      → 0 < limit
      → l ≡ pos limit
      → (if is_pos l then write_within (pos_part l - length b.buf) p b else b)
        ≡ write_within (limit - length b.buf) p b
  opened l h e = rw (e, positive limit h) refl
    where
      positive : (n : ℕ) → 0 < n → is_pos (pos n) ≡ true
      positive zero k = absurd (none_below k)
        where
          none_below : 0 < 0 → ⊥
          none_below k = omega arith
      positive (suc n) k = refl

  write-Holds : 0 < limit → Holds limit (seen ++ p) (write p b)
  unfolding write
  write-Holds h =
      rw (opened b.limit h w.limit_kept) (within-Holds (limit - length b.buf) remaining-eq)

write_all-Holds :
    (limit : ℕ) (ps : List (List ℕ)) (seen : List ℕ) (b : BoundedBuffer)
    → 0 < limit
    → Holds limit seen b
    → Holds limit (seen ++ concat ps) (write_all ps b)
unfolding write_all
write_all-Holds limit [] seen b h w = rw (append-nil seen) w
write_all-Holds limit (p ∷ ps) seen b h w =
    rw (← append_assoc seen p (concat ps))
      (write_all-Holds limit ps (seen ++ p) (write p b) h (write-Holds limit seen p b w h))

-- Under a positive limit, whatever the writes, a buffer holds the first bytes of the whole output, up
-- to the limit; it is marked as truncated where the output is longer than the limit, and only where
-- the output has reached it.
pub write_all_lem :
    (limit : ℕ) (ps : List (List ℕ))
    → 0 < limit
    → ((write_all ps (new_bounded_buffer (pos limit))).buf ≡ take limit (concat ps))
      × (limit < length (concat ps)
          → (write_all ps (new_bounded_buffer (pos limit))).truncated ≡ true)
      × ((write_all ps (new_bounded_buffer (pos limit))).truncated ≡ true
          → limit ≤ length (concat ps))
write_all_lem limit ps h =
    let w = write_all-Holds limit ps [] (new_bounded_buffer (pos limit)) h empty in
    (w.bytes, w.dropped, w.full)
  where
    empty : Holds limit [] (new_bounded_buffer (pos limit))
    empty = record {
      limit_kept = refl;
      bytes = sym (take-all limit [] (omega arith));
      dropped = λ d. absurd (none_below d);
      full = λ t. cc;
    }
      where
        none_below : limit < 0 → ⊥
        none_below d = omega arith
