-- ===== src/Queue/Safety/Rows/Lanes.antt =====
-- The running jobs of a lane under the changes of the rows of internal/queue/queue.go.
use ductile.Common.{
  ℕ, ◌≤◌, true, false, List, Option, none, some, ◌≡◌, ap, subst, inl, inr, Bool-cases, ==→eq, arith,
  count, In,
}
use ductile.Common.Text.{Text, text_eq_refl, text_eq→eq}
use ductile.Queue.Rows.{count-keep-le, count-update-le, count-update-le-add, count_unique}
use ductile.Queue.Db.{has_id, has_target, update_where}
use ductile.Queue.Types.{Job, Queue, column_eq}
use ductile.Queue.Enqueue.{new_job}
use ductile.Queue.Dequeue.{start_job, is_running_target, lane_free}
use ductile.Queue.Safety.Rows.{
  RowChange, same, added, started, moved, deleted, IdsUnique, LanesExclusive, count-snoc,
  new_job-idle_count, idle-not-running,
}

column_eq-some : (o : Option Text) (k : Text) → column_eq o k ≡ true → o ≡ some k
column_eq-some none k h = cc
column_eq-some (some c) k h = ap some (text_eq→eq c k h)

has_target-fields :
    (pl c key : Text) (j : Job)
    → has_target pl c key j ≡ true
    → (j.dedupe_key ≡ some key) × (j.plugin ≡ pl) × (j.command ≡ c)
has_target-fields pl c key j h = (
  column_eq-some j.dedupe_key key (ground arith),
  text_eq→eq j.plugin pl (ground arith),
  text_eq→eq j.command c (ground arith),
)

lane_free-key :
    (xs : List Job) (j : Job) (k : Text)
    → j.dedupe_key ≡ some k
    → lane_free xs j ≡ true
    → count (is_running_target j.plugin j.command k) xs ≡ 0
unfolding lane_free
lane_free-key xs j k e l = ==→eq _ _ (rw e at l)

-- A claimed job's lane: no job of it runs before, and the claim starts one row.
lane_free-count :
    (pl c key : Text) (xs : List Job) (j : Job)
    → lane_free xs j ≡ true
    → has_target pl c key j ≡ true
    → count (is_running_target pl c key) xs ≡ 0
unfolding lane_free
lane_free-count pl c key xs j l t =
    let (k, p, m) = has_target-fields pl c key j t in
    subst (λ a. count (is_running_target a c key) xs ≡ 0) p
      (subst (λ a. count (is_running_target j.plugin a key) xs ≡ 0) m (lane_free-key xs j key k l))

-- Ids are unique, so the only row that a claim of `j` starts is `j`.
claim_other_lane :
    (q : Queue) (now : ℕ) (j : Job) (xs : List Job) (pl c key : Text)
    → In j xs
    → IdsUnique xs
    → has_target pl c key j ≡ false
    → (a : Job) → In a xs
    → has_id j.id a ≡ true
    → is_running_target pl c key (start_job q now a) ≡ true
    → is_running_target pl c key a ≡ true
unfolding is_running_target start_job
claim_other_lane q now j xs pl c key m ids f a n t r =
    let e : a ≡ j = count_unique (has_id j.id) xs a j (ids j.id) n m t (text_eq_refl j.id) in
    let u : has_target pl c key a ≡ false = rw e f in ground arith

count-started-le :
    (q : Queue) (now : ℕ) (j : Job) (xs : List Job) (pl c key : Text)
    → In j xs
    → lane_free xs j ≡ true
    → IdsUnique xs
    → count (is_running_target pl c key) xs ≤ 1
    → count (is_running_target pl c key) (update_where (has_id j.id) (start_job q now) xs) ≤ 1
count-started-le q now j xs pl c key m l ids h = elim (Bool-cases (has_target pl c key j)) [
  | inl t ↦ omega (
    arith,
    lane_free-count pl c key xs j l t,
    ids j.id,
    count-update-le-add (has_id j.id) (is_running_target pl c key) (start_job q now) xs,
  )
  | inr f ↦ omega (
    arith,
    h,
    count-update-le (has_id j.id) (is_running_target pl c key) (start_job q now) xs
        (claim_other_lane q now j xs pl c key m ids f),
  )
]

module _ (xs ys : List Job) where
  pub RowChange-LanesExclusive :
      RowChange xs ys → IdsUnique xs → LanesExclusive xs → LanesExclusive ys
  RowChange-LanesExclusive (same e) u h = rw e h
  RowChange-LanesExclusive (added q id now req n e) u h = rw e (λ pl c key. omega (
    arith,
    h pl c key,
    count-snoc (is_running_target pl c key) xs (new_job q id now req),
    new_job-idle_count q id now req pl c key,
  ))
  RowChange-LanesExclusive (started q now j m l e) u h =
      rw e (λ pl c key. count-started-le q now j xs pl c key m l u (h pl c key))
  RowChange-LanesExclusive (moved p f keeps idle e) u h = rw e (λ pl c key. omega (
    arith,
    h pl c key,
    count-update-le p (is_running_target pl c key) f xs
        (λ a m' t. idle-not-running pl c key (f a) a (idle a)),
  ))
  RowChange-LanesExclusive (deleted p e) u h =
      rw e (λ pl c key. omega (arith, h pl c key, count-keep-le p (is_running_target pl c key) xs))
