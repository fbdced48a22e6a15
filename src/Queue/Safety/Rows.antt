-- ===== src/Queue/Safety/Rows.antt =====
-- What an operation of internal/queue/queue.go does to the rows of job_queue: ids, source events and
-- lanes.
pub mod Lanes
use ductile.Common.{
  ℕ, ◌+◌, ◌≤◌, Bool, true, false, ◌&&◌, List, [], ◌∷◌, ◌++◌, Option, none, some, ◌≡◌, refl, inl,
  inr, if◌then◌else◌, Bool-cases, arith, keep, count, first, In, count-append,
}
use ductile.Common.Text.{Text, text_eq, text_eq_refl, text_eq→eq}
use ductile.Queue.Rows.{first-none, count-zero, count-keep-le, count-update-le}
use ductile.Queue.Db.{has_id, update_where}
use ductile.Queue.Types.{running, status_eq, Job, EnqueueRequest, Queue}
use ductile.Queue.Enqueue.{is_conflict, new_job, same_source}
use ductile.Queue.Dequeue.{start_job, is_running_target, lane_free}

-- The row identifies the same unit of work: what no operation changes once the row exists.
pub record SameWork (j k : Job) : Type 0 where
  pub id : j.id ≡ k.id
  pub plugin : j.plugin ≡ k.plugin
  pub command : j.command ≡ k.command
  pub dedupe_key : j.dedupe_key ≡ k.dedupe_key
  pub parent_job_id : j.parent_job_id ≡ k.parent_job_id
  pub source_event_id : j.source_event_id ≡ k.source_event_id

-- How the rows change in one operation.
pub data RowChange (xs ys : List Job) : Type 0 where
  same : ys ≡ xs → RowChange xs ys
  added :
      (q : Queue) (id : Text) (now : ℕ) (req : EnqueueRequest)
      → first (is_conflict id req) xs ≡ none
      → ys ≡ xs ++ new_job q id now req ∷ []
      → RowChange xs ys
  started :
      (q : Queue) (now : ℕ) (c : Job)
      → In c xs
      → lane_free xs c ≡ true
      → ys ≡ update_where (has_id c.id) (start_job q now) xs
      → RowChange xs ys
  moved :
      (p : Job → Bool) (f : Job → Job)
      → ((j : Job) → SameWork (f j) j)
      → ((j : Job) → status_eq (f j).status running ≡ false)
      → ys ≡ update_where p f xs
      → RowChange xs ys
  deleted : (p : Job → Bool) → ys ≡ keep p xs → RowChange xs ys

-- The PRIMARY KEY.
abbrev pub IdsUnique : List Job → Type 0
IdsUnique xs = (id : Text) → count (has_id id) xs ≤ 1

-- The key of the index job_queue_event_source_idx.
pub is_source : Text → Text → Text → Text → Job → Bool
is_source parent event plugin command j =
    same_source (some parent) (some event) j.parent_job_id j.source_event_id
    && (text_eq j.plugin plugin && text_eq j.command command)

abbrev pub SourcesUnique : List Job → Type 0
SourcesUnique xs =
    (parent event plugin command : Text) → count (is_source parent event plugin command) xs ≤ 1

-- A lane, which is a dedupe key with a target, has one running job at most.
abbrev pub LanesExclusive : List Job → Type 0
LanesExclusive xs =
    (plugin command key : Text) → count (is_running_target plugin command key) xs ≤ 1

start_job-SameWork : (q : Queue) (now : ℕ) (j : Job) → SameWork (start_job q now j) j
unfolding start_job
start_job-SameWork q now j = record {
  id = refl;
  plugin = refl;
  command = refl;
  dedupe_key = refl;
  parent_job_id = refl;
  source_event_id = refl;
}

has_id-SameWork : (id : Text) (j k : Job) → SameWork j k → has_id id j ≡ true → has_id id k ≡ true
has_id-SameWork id j k w h = rw (← w.id) h

is_source-SameWork :
    (p e pl c : Text) (j k : Job)
    → SameWork j k
    → is_source p e pl c j ≡ true
    → is_source p e pl c k ≡ true
unfolding is_source
is_source-SameWork p e pl c j k w h =
    rw (← w.plugin, ← w.command, ← w.parent_job_id, ← w.source_event_id) h

count-snoc :
    (p : Job → Bool) (xs : List Job) (j : Job)
    → count p (xs ++ j ∷ []) ≡ count p xs + (if p j then 1 else 0)
count-snoc p xs j = omega (arith, count-append p xs (j ∷ []))

-- The row that an INSERT adds brings no second row under a test that implies a conflict.
count-added-le :
    (q : Queue) (id : Text) (now : ℕ) (req : EnqueueRequest) (p : Job → Bool) (xs : List Job)
    → first (is_conflict id req) xs ≡ none
    → (p (new_job q id now req) ≡ true → (k : Job) → p k ≡ true → is_conflict id req k ≡ true)
    → count p xs ≤ 1
    → count p (xs ++ new_job q id now req ∷ []) ≤ 1
count-added-le q id now req p xs none_found implies h =
    rw (count-snoc p xs (new_job q id now req)) (elim (Bool-cases (p (new_job q id now req))) [
      | inl t ↦ rw t (
          omega (
            arith,
            count-zero p xs (λ a m. elim (Bool-cases (p a)) [
              | inl u ↦ cc (implies t a u, first-none (is_conflict id req) xs none_found a m)
              | inr f ↦ f
            ]),
          ))
      | inr f ↦ rw f (omega arith)
    ])

new_job-has_id :
    (q : Queue) (id i : Text) (now : ℕ) (req : EnqueueRequest) (k : Job)
    → has_id i (new_job q id now req) ≡ true
    → has_id i k ≡ true
    → is_conflict id req k ≡ true
unfolding new_job is_conflict
new_job-has_id q id i now req k h h' =
    let e : id ≡ i = text_eq→eq id i h in
    let e' : k.id ≡ i = text_eq→eq k.id i h' in rw (e, e', text_eq_refl i)

text_eq_join : (a b c : Text) → text_eq a c ≡ true → text_eq b c ≡ true → text_eq b a ≡ true
text_eq_join a b c h k = rw (text_eq→eq a c h, text_eq→eq b c k, text_eq_refl c)

same_source_join :
    (p e : Text) (a b a' b' : Option Text)
    → same_source (some p) (some e) a b ≡ true
    → same_source (some p) (some e) a' b' ≡ true
    → same_source a b a' b' ≡ true
same_source_join p e (some x) (some y) (some x') (some y') h k =
    ground (arith, text_eq_join x x' p, text_eq_join y y' e)
same_source_join p e _ _ _ _ h k = cc

new_job-is_source :
    (q : Queue) (id : Text) (now : ℕ) (req : EnqueueRequest) (p e pl c : Text) (k : Job)
    → is_source p e pl c (new_job q id now req) ≡ true
    → is_source p e pl c k ≡ true
    → is_conflict id req k ≡ true
unfolding new_job is_conflict is_source
new_job-is_source q id now req p e pl c k h h' = ground (
  arith,
  same_source_join p e req.parent_job_id req.source_event_id k.parent_job_id k.source_event_id,
  text_eq_join req.plugin k.plugin pl,
  text_eq_join req.command k.command c,
)

new_job-idle :
    (q : Queue) (id : Text) (now : ℕ) (req : EnqueueRequest) (pl c key : Text)
    → is_running_target pl c key (new_job q id now req) ≡ false
unfolding new_job is_running_target
new_job-idle q id now req pl c key = refl

new_job-idle_count :
    (q : Queue) (id : Text) (now : ℕ) (req : EnqueueRequest) (pl c key : Text)
    → ◌≡◌ {A = ℕ} (if is_running_target pl c key (new_job q id now req) then 1 else 0) 0
new_job-idle_count q id now req pl c key = rw (new_job-idle q id now req pl c key)

idle-not-running :
    (pl c key : Text) (a b : Job)
    → status_eq a.status running ≡ false
    → is_running_target pl c key a ≡ true
    → is_running_target pl c key b ≡ true
unfolding is_running_target
idle-not-running pl c key a b h r = absurd (ground arith)

module _ (xs ys : List Job) where
  pub RowChange-IdsUnique : RowChange xs ys → IdsUnique xs → IdsUnique ys
  RowChange-IdsUnique (same e) h = rw e h
  RowChange-IdsUnique (added q id now req n e) h = rw e (λ i.
      count-added-le q id now req (has_id i) xs n (λ t k u. new_job-has_id q id i now req k t u)
        (h i))
  RowChange-IdsUnique (started q now c m l e) h = rw e (λ i. omega (
    arith,
    h i,
    count-update-le (has_id c.id) (has_id i) (start_job q now) xs
        (λ a m' t. has_id-SameWork i (start_job q now a) a (start_job-SameWork q now a)),
  ))
  RowChange-IdsUnique (moved p f keeps idle e) h = rw e (λ i. omega (
    arith,
    h i,
    count-update-le p (has_id i) f xs (λ a m' t. has_id-SameWork i (f a) a (keeps a)),
  ))
  RowChange-IdsUnique (deleted p e) h =
      rw e (λ i. omega (arith, h i, count-keep-le p (has_id i) xs))

  pub RowChange-SourcesUnique : RowChange xs ys → SourcesUnique xs → SourcesUnique ys
  RowChange-SourcesUnique (same e) h = rw e h
  RowChange-SourcesUnique (added q id now req n e) h = rw e (λ s v l c.
      count-added-le q id now req (is_source s v l c) xs n
        (λ t k u. new_job-is_source q id now req s v l c k t u) (h s v l c))
  RowChange-SourcesUnique (started q now j m l e) h = rw e (λ s v l c. omega (
    arith,
    h s v l c,
    count-update-le (has_id j.id) (is_source s v l c) (start_job q now) xs
        (λ a m' t. is_source-SameWork s v l c (start_job q now a) a (start_job-SameWork q now a)),
  ))
  RowChange-SourcesUnique (moved p f keeps idle e) h = rw e (λ s v l c. omega (
    arith,
    h s v l c,
    count-update-le p (is_source s v l c) f xs
        (λ a m' t. is_source-SameWork s v l c (f a) a (keeps a)),
  ))
  RowChange-SourcesUnique (deleted p e) h =
      rw e (λ s v l c. omega (arith, h s v l c, count-keep-le p (is_source s v l c) xs))
