-- ===== src/Tasks/Ownership.antt =====
-- A user's tasks are the user's alone.
use south_connect.Prelude.{ℕ, ◌≡◌, ◌≢◌, inl, inr, false, some, List, [], ◌∷◌, arith, Option-cases}
use south_connect.Database.Keyed.{at, always}
use south_connect.Schema.{UserKey, Task, Store, Prisma}
use south_connect.Tasks.{
  CreateTaskDto, UpdateTaskDto, new_task, changed_task, create, update, remove,
}

-- A request with the user who makes it.
pub data TaskRequest : Type 0 where
  creates : (new_id : ℕ) → UserKey → CreateTaskDto → TaskRequest
  updates : (id : ℕ) → UserKey → UpdateTaskDto → TaskRequest
  removes : (id : ℕ) → UserKey → TaskRequest

abbrev pub caller : TaskRequest → UserKey
caller (creates new_id user dto) = user
caller (updates id user dto) = user
caller (removes id user) = user

module _ (prisma : Prisma) where
  unfoldable pub handle : TaskRequest → Store → Store
  handle (creates new_id user dto) s = (create prisma new_id user dto s).1
  handle (updates id user dto) s = (update prisma id user dto s).1
  handle (removes id user) s = (remove prisma id user s).1

  unfoldable pub handle_all : List TaskRequest → Store → Store
  handle_all [] s = s
  handle_all (r ∷ rest) s = handle_all rest (handle r s)

  -- None of the requests is made by the user.
  abbrev pub NotBy : UserKey → List TaskRequest → Type 0
  NotBy user [] = Unit
  NotBy user (r ∷ rest) = (caller r ≢ user) × NotBy user rest

  handle-others :
      (r : TaskRequest) (s : Store) (k : ℕ) (t : Task)
      → caller r ≢ t.user_id
      → prisma.task.find_unique k s.tasks ≡ some t
      → prisma.task.find_unique k (handle r s).tasks ≡ some t
  unfolding handle create update remove changed_task
  handle-others (creates new_id user dto) s k t other found =
      elim (Option-cases (prisma.task.create (λ k t. false) new_id (new_task user dto) s.tasks)) [
        | inl clash ↦ ground (arith, clash, found)
        | inr (table, made) ↦ ground (
          arith,
          made,
          found,
          prisma.task.create-fresh (λ k t. false) new_id (new_task user dto) s.tasks table made,
          prisma.task.find_unique-create (λ k t. false) new_id (new_task user dto) s.tasks table k
              made,
        )
      ]
  handle-others (updates id user dto) s k t other found =
      elim (Option-cases (prisma.task.find_unique id s.tasks)) [
        | inl absent ↦ ground (arith, absent, found)
        | inr (mine, there) ↦ ground (
          arith,
          there,
          found,
          other,
          prisma.task.find_unique-update_many k (at id always) (changed_task dto) s.tasks,
        )
      ]
  handle-others (removes id user) s k t other found =
      elim (Option-cases (prisma.task.find_unique id s.tasks)) [
        | inl absent ↦ ground (arith, absent, found)
        | inr (mine, there) ↦ ground (
          arith,
          there,
          found,
          other,
          prisma.task.find_unique-delete_many k (at id always) s.tasks,
        )
      ]

  -- Whatever the other users ask for, a user's task stays as it is.
  pub task_untouched :
      (requests : List TaskRequest) (s : Store) (k : ℕ) (t : Task)
      → NotBy t.user_id requests
      → prisma.task.find_unique k s.tasks ≡ some t
      → prisma.task.find_unique k (handle_all requests s).tasks ≡ some t
  unfolding handle_all
  task_untouched [] s k t others found = found
  task_untouched (r ∷ rest) s k t others found =
      task_untouched rest (handle r s) k t others.1 (handle-others r s k t others.0 found)
