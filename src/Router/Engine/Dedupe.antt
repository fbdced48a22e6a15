-- ===== src/Router/Engine/Dedupe.antt =====
-- What dedupeDispatches keeps.
use ductile.Common.{
  ◌≡◌, refl, subst, inl, inr, true, false, ◌||◌, List, [], ◌∷◌, map, arith, Bool-cases, or-false,
  All, All-map_id, In,
}
use ductile.Common.Text.{Text, text_eq, text_eq_refl, text_eq-false_comm}
use ductile.Router.Index.{Dispatch}
use ductile.Router.Engine.{dispatch_key, is_seen_key, dedupe_from, dedupe_dispatches}

abbrev pub keys : List Dispatch → List Text
keys = map dispatch_key

-- No two dispatches have the same key.
abbrev pub KeysDistinct : List Dispatch → Type 0
KeysDistinct [] = Unit
KeysDistinct (d ∷ ds) = (is_seen_key (dispatch_key d) (keys ds) ≡ false) × KeysDistinct ds

abbrev IsNew : List Text → Dispatch → Type 0
IsNew seen d = is_seen_key (dispatch_key d) seen ≡ false

new_not_in :
    (key : Text) (seen : List Text) (out : List Dispatch)
    → All (IsNew (key ∷ seen)) out
    → is_seen_key key (keys out) ≡ false
unfolding is_seen_key
new_not_in key seen [] h = refl
new_not_in key seen (d ∷ out) h =
    let (other, older) = or-false (text_eq (dispatch_key d) key) _ h.0 in
    rw (text_eq-false_comm (dispatch_key d) key other) (new_not_in key seen out h.1)

dedupe_from-IsNew : (seen : List Text) (ds : List Dispatch) → All (IsNew seen) (dedupe_from seen ds)
unfolding dedupe_from is_seen_key
dedupe_from-IsNew seen [] = tt
dedupe_from-IsNew seen (d ∷ ds) = elim (Bool-cases (is_seen_key (dispatch_key d) seen)) [
  | inl old ↦ rw old (dedupe_from-IsNew seen ds)
  | inr new ↦ rw new (
    new,
    All-map_id (IsNew (dispatch_key d ∷ seen)) (IsNew seen)
        (λ x h. (or-false (text_eq (dispatch_key x) (dispatch_key d)) _ h).1)
        (dedupe_from (dispatch_key d ∷ seen) ds) (dedupe_from-IsNew (dispatch_key d ∷ seen) ds),
  )
]

dedupe_from-distinct : (seen : List Text) (ds : List Dispatch) → KeysDistinct (dedupe_from seen ds)
unfolding dedupe_from
dedupe_from-distinct seen [] = tt
dedupe_from-distinct seen (d ∷ ds) = elim (Bool-cases (is_seen_key (dispatch_key d) seen)) [
  | inl old ↦ rw old (dedupe_from-distinct seen ds)
  | inr new ↦ rw new (
    new_not_in (dispatch_key d) seen _ (dedupe_from-IsNew (dispatch_key d ∷ seen) ds),
    dedupe_from-distinct (dispatch_key d ∷ seen) ds,
  )
]

dedupe_from-old :
    (seen : List Text) (d : Dispatch) (ds : List Dispatch)
    → is_seen_key (dispatch_key d) seen ≡ true
    → dedupe_from seen ds ≡ dedupe_from seen (d ∷ ds)
unfolding dedupe_from
dedupe_from-old seen d ds h = rw h

dedupe_from-new :
    (seen : List Text) (d : Dispatch) (ds : List Dispatch)
    → is_seen_key (dispatch_key d) seen ≡ false
    → d ∷ dedupe_from (dispatch_key d ∷ seen) ds ≡ dedupe_from seen (d ∷ ds)
unfolding dedupe_from
dedupe_from-new seen d ds h = rw h

-- The key is seen already or kept.
abbrev Covered : List Text → List Dispatch → Dispatch → Type 0
Covered seen out d =
    (is_seen_key (dispatch_key d) seen || is_seen_key (dispatch_key d) (keys out)) ≡ true

Covered-new :
    (seen : List Text) (d x : Dispatch) (out : List Dispatch)
    → Covered (dispatch_key d ∷ seen) out x
    → Covered seen (d ∷ out) x
unfolding is_seen_key
Covered-new seen d x out h = ground arith

dedupe_from-covers :
    (seen : List Text) (ds : List Dispatch) → All (Covered seen (dedupe_from seen ds)) ds
unfolding is_seen_key
dedupe_from-covers seen [] = tt
dedupe_from-covers seen (d ∷ ds) = elim (Bool-cases (is_seen_key (dispatch_key d) seen)) [
  | inl old ↦
      subst (λ out. All (Covered seen out) (d ∷ ds)) (dedupe_from-old seen d ds old)
        (rw old refl, dedupe_from-covers seen ds)
  | inr new ↦
      subst (λ out. All (Covered seen out) (d ∷ ds)) (dedupe_from-new seen d ds new)
        (
          ground (arith, text_eq_refl (dispatch_key d)),
          All-map_id (Covered (dispatch_key d ∷ seen) (dedupe_from (dispatch_key d ∷ seen) ds))
              (Covered seen (d ∷ dedupe_from (dispatch_key d ∷ seen) ds))
              (λ x h. Covered-new seen d x _ h) ds (dedupe_from-covers (dispatch_key d ∷ seen) ds),
        )
]

dedupe_from-subset :
    (P : Dispatch → Type 0) (seen : List Text) (ds : List Dispatch)
    → All P ds
    → All P (dedupe_from seen ds)
unfolding dedupe_from
dedupe_from-subset P seen [] h = tt
dedupe_from-subset P seen (d ∷ ds) h = elim (Bool-cases (is_seen_key (dispatch_key d) seen)) [
  | inl old ↦ rw old (dedupe_from-subset P seen ds h.1)
  | inr new ↦ rw new (h.0, dedupe_from-subset P (dispatch_key d ∷ seen) ds h.1)
]

pub dedupe-All :
    (P : Dispatch → Type 0) (ds : List Dispatch) → All P ds → All P (dedupe_dispatches ds)
unfolding dedupe_dispatches
dedupe-All P ds h = dedupe_from-subset P [] ds h

pub In-self : {A : Type 0} (xs : List A) → All (λ x. In x xs) xs
In-self [] = tt
In-self (x ∷ xs) =
    (inl refl, All-map_id (λ y. In y xs) (λ y. In y (x ∷ xs)) (λ y h. inr h) xs (In-self xs))

pub dedupe_dispatches_lem :
    (ds : List Dispatch)
    → KeysDistinct (dedupe_dispatches ds)
      × All (λ d. In d ds) (dedupe_dispatches ds)
      × All (λ d. is_seen_key (dispatch_key d) (keys (dedupe_dispatches ds)) ≡ true) ds
unfolding dedupe_dispatches is_seen_key
dedupe_dispatches_lem ds = (
  dedupe_from-distinct [] ds,
  dedupe_from-subset (λ d. In d ds) [] ds (In-self ds),
  dedupe_from-covers [] ds,
)
