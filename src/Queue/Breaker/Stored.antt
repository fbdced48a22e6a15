-- ===== src/Queue/Breaker/Stored.antt =====
-- Reading back a breaker that `UpsertCircuitBreaker` of internal/queue/queue.go wrote.
use ductile.Common.{
  ℕ, Bool, true, false, List, [], ◌∷◌, ◌++◌, Option, none, some, ◌≡◌, refl, sym, ap, ◌∙◌, inl, inr,
  if◌then◌else◌, Bool-cases, arith, first,
}
use ductile.Common.Text.{Text, text_eq_refl, text_eq→eq, is_empty}
use ductile.Queue.Types.{CircuitBreaker, Result, ok, err, refuse, plugin_empty, command_empty, ◌>>◌}
use ductile.Queue.Db.{Db, update_where}
use ductile.Queue.Breaker.{
  has_breaker, find_breaker, get_circuit_breaker, put_breaker, upsert_circuit_breaker,
}

abbrev pub stamped : ℕ → CircuitBreaker → CircuitBreaker
stamped now b = record b { updated_at = now }

first-update_to :
    (p : CircuitBreaker → Bool) (g old : CircuitBreaker) (xs : List CircuitBreaker)
    → p g ≡ true
    → first p xs ≡ some old
    → first p (update_where p (λ k. g) xs) ≡ some g
unfolding update_where
first-update_to p g old [] t h = cc
first-update_to p g old (x ∷ xs) t h = elim (Bool-cases (p x)) [
  | inl u ↦ rw (u, t) refl
  | inr n ↦ rw (n, n) (first-update_to p g old xs t (rw n at h))
]

first-snoc :
    (p : CircuitBreaker → Bool) (g : CircuitBreaker) (xs : List CircuitBreaker)
    → p g ≡ true
    → first p xs ≡ none
    → first p (xs ++ g ∷ []) ≡ some g
first-snoc p g [] t h = rw t refl
first-snoc p g (x ∷ xs) t h = elim (Bool-cases (p x)) [
  | inl u ↦ absurd (clash (rw u at h))
  | inr n ↦ rw n (first-snoc p g xs t (rw n at h))
]
  where
    clash : some x ≡ none → ⊥
    clash e = cc

first-snoc_other :
    (q : CircuitBreaker → Bool) (g : CircuitBreaker) (xs : List CircuitBreaker)
    → q g ≡ false
    → first q (xs ++ g ∷ []) ≡ first q xs
first-snoc_other q g [] h = rw h refl
first-snoc_other q g (x ∷ xs) h =
    ap (λ (o : Option CircuitBreaker). if q x then some x else o) (first-snoc_other q g xs h)

first-update_to_other :
    (p q : CircuitBreaker → Bool) (g : CircuitBreaker) (xs : List CircuitBreaker)
    → q g ≡ false
    → ((k : CircuitBreaker) → p k ≡ true → q k ≡ false)
    → first q (update_where p (λ k. g) xs) ≡ first q xs
unfolding update_where
first-update_to_other p q g [] h apart = refl
first-update_to_other p q g (x ∷ xs) h apart = elim (Bool-cases (p x)) [
  | inl u ↦ rw (u, h, apart x u) (first-update_to_other p q g xs h apart)
  | inr n ↦ rw n (
      ap (λ (o : Option CircuitBreaker). if q x then some x else o)
        (first-update_to_other p q g xs h apart))
]

own : (b : CircuitBreaker) (now : ℕ) → has_breaker b.plugin b.command (stamped now b) ≡ true
own b now = rw (text_eq_refl b.plugin, text_eq_refl b.command) refl

put_breaker-own :
    (now : ℕ) (b : CircuitBreaker) (db : Db)
    → find_breaker b.plugin b.command (put_breaker now b db) ≡ some (stamped now b)
unfolding put_breaker
put_breaker-own now b db = go (find_breaker b.plugin b.command db) refl
  where
    go :
        (o : Option CircuitBreaker)
        → find_breaker b.plugin b.command db ≡ o
        → find_breaker b.plugin b.command (elim o as (λ m. Db) [
          | none ↦ record db { circuit_breakers = db.circuit_breakers ++ stamped now b ∷ [] }
          | some old ↦ record db {
            circuit_breakers =
                update_where
                  (has_breaker b.plugin b.command)
                  (λ k. stamped now b)
                  db.circuit_breakers;
          }
        ])
          ≡ some (stamped now b)
    go none e =
        first-snoc (has_breaker b.plugin b.command) (stamped now b) db.circuit_breakers (own b now)
          e
    go (some old) e =
        first-update_to (has_breaker b.plugin b.command) (stamped now b) old db.circuit_breakers
          (own b now) e

put_breaker-other :
    (now : ℕ) (b : CircuitBreaker) (db : Db) (plugin command : Text)
    → has_breaker plugin command b ≡ false
    → find_breaker plugin command (put_breaker now b db) ≡ find_breaker plugin command db
unfolding put_breaker
put_breaker-other now b db plugin command h = go (find_breaker b.plugin b.command db)
  where
    apart :
        (k : CircuitBreaker)
        → has_breaker b.plugin b.command k ≡ true
        → has_breaker plugin command k ≡ false
    apart k t =
        let e : k.plugin ≡ b.plugin = text_eq→eq k.plugin b.plugin (ground arith) in
        let f : k.command ≡ b.command = text_eq→eq k.command b.command (ground arith) in rw (e, f) h

    go :
        (o : Option CircuitBreaker)
        → find_breaker plugin command (elim o as (λ m. Db) [
          | none ↦ record db { circuit_breakers = db.circuit_breakers ++ stamped now b ∷ [] }
          | some old ↦ record db {
            circuit_breakers =
                update_where
                  (has_breaker b.plugin b.command)
                  (λ k. stamped now b)
                  db.circuit_breakers;
          }
        ])
          ≡ find_breaker plugin command db
    go none = first-snoc_other (has_breaker plugin command) (stamped now b) db.circuit_breakers h
    go (some old) =
        first-update_to_other (has_breaker b.plugin b.command) (has_breaker plugin command)
          (stamped now b) db.circuit_breakers h apart

upsert-ok :
    (now : ℕ) (b : CircuitBreaker) (db db' : Db)
    → upsert_circuit_breaker now b db ≡ ok db'
    → (is_empty b.plugin ≡ false) × (is_empty b.command ≡ false) × (db' ≡ put_breaker now b db)
unfolding upsert_circuit_breaker
upsert-ok now b db db' h = go (is_empty b.plugin) (is_empty b.command) h
  where
    kept : Result Db → Db
    kept m = elim m [ ok d ↦ d | err e ↦ db ]

    go :
        (x y : Bool)
        → (refuse x plugin_empty >> (refuse y command_empty >> ok (put_breaker now b db))) ≡ ok db'
        → (x ≡ false) × (y ≡ false) × (db' ≡ put_breaker now b db)
    go true y k = cc
    go false true k = cc
    go false false k = (refl, refl, sym (ap kept k))

-- A breaker that was written is read back as written, with the time of the write, and the breaker of
-- any other plugin and command is read as before.
pub get_circuit_breaker-upsert :
    (now : ℕ) (b : CircuitBreaker) (db db' : Db)
    → upsert_circuit_breaker now b db ≡ ok db'
    → (get_circuit_breaker b.plugin b.command db' ≡ ok (some (stamped now b)))
      × ((plugin command : Text)
          → has_breaker plugin command b ≡ false
          → get_circuit_breaker plugin command db' ≡ get_circuit_breaker plugin command db)
unfolding get_circuit_breaker
get_circuit_breaker-upsert now b db db' h =
    let (p, c, e) = upsert-ok now b db db' h in
    (
      rw (e, p, c) (ap (λ (o : Option CircuitBreaker). ok o) (put_breaker-own now b db)),
      λ plugin command n.
          ap
            (λ (o : Option CircuitBreaker).
              refuse (is_empty plugin) plugin_empty
              >> (refuse (is_empty command) command_empty >> ok o))
            (ap (find_breaker plugin command) e ∙ put_breaker-other now b db plugin command n),
    )
