-- ===== src/Queue/Dedupe/Untrimmed.antt =====
-- The rows that the lookups of `Enqueue` and `DedupeStatus`, in internal/queue/queue.go, pass over for
-- the blanks of their key.
use ductile.Common.{false, List, ◌∷◌, ◌++◌, ◌≡◌}
use ductile.Common.Text.{Text}
use ductile.Queue.Db.{Db, has_target}
use ductile.Queue.Types.{Job, Queue}

-- The table without the row.
abbrev without : Db → List Job → List Job → Db
without db before after = record db { job_queue = before ++ after }

-- The row stands in the table, and no lookup of the key is for it.
record IsUnseen (key : Text) (before after : List Job) (j : Job) (db : Db) : Type 0 where
  pub other : (plugin command : Text) → has_target plugin command key j ≡ false
  pub rows : db.job_queue ≡ before ++ j ∷ after
