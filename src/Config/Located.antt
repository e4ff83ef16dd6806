-- ===== src/Config/Located.antt =====
-- Where the directory of a registered task lies.
use infra_loop_kda.Base.{
  String, Bool, true, false, List, [], ◌∷◌, ◌++◌, ◌≡◌, refl, ap, All, Bool-cases, inl, inr,
}
use infra_loop_kda.Base.Outcome.{ok, >>=-eq-ok, ok_injective}
use infra_loop_kda.Json.{
  Json, null, bool, int, text, array, object, Items, nil, cons, values, Fields, get, lookup,
  equals_text,
}
use infra_loop_kda.Json.Repr.{str}
use infra_loop_kda.Paths.{Link, parts_of}
use infra_loop_kda.Paths.Normal.{IsName}
use infra_loop_kda.Paths.Contained.{PlainBelow, safe_join-PlainBelow}
use infra_loop_kda.Config.{tasks_of, find_task, task_entry, task_dir}

-- `isinstance(item, dict) and item.get("id") == task_id`
abbrev pub has_id : String → Json → Bool
has_id task_id (object m) = equals_text (get "id" m) task_id
has_id task_id _ = false

-- The entry is the first of the items that has the identifier.
pub record IsFirst (task_id : String) (items : List Json) (entry : Fields) : Type 0 where
  pub before : List Json
  pub after : List Json
  pub split : items ≡ before ++ object entry ∷ after
  pub has : equals_text (get "id" entry) task_id ≡ true
  pub skipped : All (λ v. has_id task_id v ≡ false) before

IsFirst-cons :
    (task_id : String) (v : Json) {items : List Json} {entry : Fields}
    → has_id task_id v ≡ false
    → IsFirst task_id items entry
    → IsFirst task_id (v ∷ items) entry
IsFirst-cons task_id v h f = record {
  before = v ∷ f.before;
  after = f.after;
  split = ap (λ vs. v ∷ vs) f.split;
  has = f.has;
  skipped = (h, f.skipped);
}

find_task-IsFirst :
    (task_id : String) (vs : Items) {entry : Fields}
    → find_task task_id vs ≡ ok entry
    → IsFirst task_id (values vs) entry
unfolding find_task
find_task-IsFirst task_id nil h = cc
find_task-IsFirst task_id (cons (object m) vs) {entry} h =
    elim (Bool-cases (equals_text (get "id" m) task_id)) [
      | inl is ↦
          let same : m ≡ entry = ok_injective (rw is at h) in
          record {
            before = [];
            after = values vs;
            split = ap (λ e. object e ∷ values vs) same;
            has = rw same at is;
            skipped = tt;
          }
      | inr not_it ↦
          IsFirst-cons task_id (object m) not_it (find_task-IsFirst task_id vs (rw not_it at h))
    ]
find_task-IsFirst task_id (cons null vs) h =
    IsFirst-cons task_id null refl (find_task-IsFirst task_id vs h)
find_task-IsFirst task_id (cons (bool b) vs) h =
    IsFirst-cons task_id (bool b) refl (find_task-IsFirst task_id vs h)
find_task-IsFirst task_id (cons (int z) vs) h =
    IsFirst-cons task_id (int z) refl (find_task-IsFirst task_id vs h)
find_task-IsFirst task_id (cons (text s) vs) h =
    IsFirst-cons task_id (text s) refl (find_task-IsFirst task_id vs h)
find_task-IsFirst task_id (cons (array ws) vs) h =
    IsFirst-cons task_id (array ws) refl (find_task-IsFirst task_id vs h)

-- Under a root of names, a directory that `task_dir` returns is the root followed by the components
-- of the `path` of a registered task, the first of the configuration's tasks with that identifier. No
-- component is `..`, and every entry on the way down from the root is readable and no link.
pub task_dir-PlainBelow :
    (link : List String → Link) (root : List String) (config : Fields) (task_id : String)
    {path : List String}
    → All IsName root
    → task_dir link root config task_id ≡ ok path
    → (tasks : Items) × (entry : Fields) × (tasks_of (lookup "tasks" config) ≡ ok tasks)
      × IsFirst task_id (values tasks) entry
      × (path ≡ root ++ parts_of (str (get "path" entry)))
      × All IsName (parts_of (str (get "path" entry)))
      × PlainBelow link root (parts_of (str (get "path" entry)))
unfolding task_dir task_entry
task_dir-PlainBelow link root config task_id names h =
    let (entry, found, joined) = >>=-eq-ok (task_entry config task_id) _ h in
    let (tasks, given, first) = >>=-eq-ok (tasks_of (lookup "tasks" config)) _ found in
    let (_, is, below, plain) =
      safe_join-PlainBelow link root (str (get "path" entry)) names joined in
    (tasks, entry, given, find_task-IsFirst task_id tasks first, is, below, plain)
