-- ===== src/Tasks.antt =====
-- modules/tasks/tasks.service.ts: the tasks that a user keeps. The list of them is left out.
pub mod Ownership
use south_connect.Prelude.{
  ℕ, Bool, true, false, not, Option, none, some, ◌==◌, or_else, or_default, if◌then◌else◌,
}
use south_connect.Action.{
  Action, forbidden, not_found, internal_error, ◌>>=◌, ◌>>◌, pure, throw, gets, modify, throw_if,
  or_throw,
}
use south_connect.Database.{Where}
use south_connect.Database.Keyed.{at, always}
use south_connect.Schema.{Text, UserKey, Task, TaskStatus, todo, Store, Prisma}

-- `CreateTaskDto`; the due date is given as a time.
pub record CreateTaskDto : Type 0 where
  pub name : Text
  pub description : Option Text
  pub status : Option TaskStatus
  pub due_date : Option ℕ
  pub url : Option Text
  pub related_item_id : Option Text
  pub related_item_type : Option Text

-- `UpdateTaskDto`; an absent field keeps what is stored, and null clears a description or a URL.
pub record UpdateTaskDto : Type 0 where
  pub name : Option Text
  pub description : Option (Option Text)
  pub status : Option TaskStatus
  pub due_date : Option ℕ
  pub url : Option (Option Text)

abbrev pub new_task : UserKey → CreateTaskDto → Task
new_task user dto = record {
  user_id = user;
  name = dto.name;
  description = dto.description;
  status = or_default dto.status todo;
  due_date = dto.due_date;
  url = dto.url;
  related_item_id = dto.related_item_id;
  related_item_type = dto.related_item_type;
}

unfoldable pub changed_task : UpdateTaskDto → Task → Task
changed_task dto task = record task {
  name = or_default dto.name task.name;
  description = or_default dto.description task.description;
  status = or_default dto.status task.status;
  due_date = or_else dto.due_date task.due_date;
  url = or_default dto.url task.url;
}

module _ (prisma : Prisma) where
  unfoldable pub create : ℕ → UserKey → CreateTaskDto → Action Store ℕ
  create new_id user dto s =
      elim (prisma.task.create (λ k t. false) new_id (new_task user dto) s.tasks) [
        | none ↦ throw internal_error s
        | some t ↦ pure new_id (record s { tasks = t })
      ]

  -- The task, if it is the user's.
  abbrev own_task : ℕ → UserKey → Action Store Task
  own_task id user = do
    found ← gets λ s. prisma.task.find_unique id s.tasks
    task ← or_throw found not_found
    throw_if (not (task.user_id == user)) forbidden
    pure task

  unfoldable pub update : ℕ → UserKey → UpdateTaskDto → Action Store (Unit {0})
  update id user dto = do
    task ← own_task id user
    modify
        λ s. record s { tasks = prisma.task.update_many (at id always) (changed_task dto) s.tasks }

  unfoldable pub remove : ℕ → UserKey → Action Store (Unit {0})
  remove id user = do
    task ← own_task id user
    modify λ s. record s { tasks = prisma.task.delete_many (at id always) s.tasks }
