-- ===== src/Host/Backup/Reference.antt =====
-- host/src/health.rs: `parse_backup_job_status` against a description without sorting.
use servatory.Prelude.{
  filter, ℕ, ◌≤◌, ◌≡◌, refl, ap, ◌∙◌, inl, inr, Bool, true, false, not, Option, none, some, List,
  [], ◌∷◌, arith, leb, ◌==◌, if◌then◌else◌, leb→le, Bool-cases, length, any, All,
}
use servatory.Prelude.Text.{Text}
use servatory.Protocol.Snapshot.{BackupJobStatus}
use servatory.Host.Json.{Json, array_of}
use servatory.Host.Backup.{
  runs_here, is_local, start_time, insert_by_start, sort_by_start, max_option, last_success_end,
  last, status_of, age_of, jobs_state, parse_backup_job_status,
}

-- The later of a task and the latest of those behind it, the one behind if both start together.
abbrev pub later : Json → Option Json → Option Json
later x none = some x
later x (some y) = if leb (start_time x) (start_time y) then some y else some x

abbrev pub latest : List Json → Option Json
latest [] = none
latest (t ∷ ts) = later t (latest ts)

-- Tasks that start at this time or later.
abbrev pub From : ℕ → List Json → Type 0
From n ts = All (λ t. n ≤ start_time t) ts

abbrev pub IsSorted : List Json → Type 0
IsSorted [] = Unit
IsSorted (t ∷ ts) = From (start_time t) ts × IsSorted ts

From-mono : (m n : ℕ) (ts : List Json) → m ≤ n → From n ts → From m ts
From-mono m n [] l h = tt
From-mono m n (t ∷ ts) l h = (omega (arith, l, h.0), From-mono m n ts l h.1)

insert-From :
    (n : ℕ) (x : Json) (ts : List Json)
    → n ≤ start_time x
    → From n ts
    → From n (insert_by_start x ts)
insert-From n x [] l h = (l, tt)
insert-From n x (t ∷ ts) l h = elim (Bool-cases (leb (start_time x) (start_time t))) [
  | inl e ↦ rw e (l, h)
  | inr e ↦ rw e (h.0, insert-From n x ts l h.1)
]

insert-IsSorted : (x : Json) (ts : List Json) → IsSorted ts → IsSorted (insert_by_start x ts)
insert-IsSorted x [] h = (tt, tt)
insert-IsSorted x (t ∷ ts) h = elim (Bool-cases (leb (start_time x) (start_time t))) [
  | inl e ↦ rw e ((leb→le _ _ e, From-mono _ _ ts (leb→le _ _ e) h.0), h)
  | inr e ↦ rw e (insert-From (start_time t) x ts (ground arith) h.0, insert-IsSorted x ts h.1)
]

sort-IsSorted : (ts : List Json) → IsSorted (sort_by_start ts)
sort-IsSorted [] = tt
sort-IsSorted (t ∷ ts) = insert-IsSorted t (sort_by_start ts) (sort-IsSorted ts)

last-From :
    (n : ℕ) (t : Json) (ts : List Json)
    → n ≤ start_time t
    → From n ts
    → (u : Json) × (last (t ∷ ts) ≡ some u) × (n ≤ start_time u)
last-From n t [] l h = (t, refl, l)
last-From n t (u ∷ us) l h = last-From n u us h.0 h.1

last-behind :
    (y x : Json) (ts : List Json) → last (y ∷ insert_by_start x ts) ≡ last (insert_by_start x ts)
last-behind y x [] = refl
last-behind y x (t ∷ ts) = elim (Bool-cases (leb (start_time x) (start_time t))) [
  | inl e ↦ rw e refl
  | inr e ↦ rw e refl
]

later-behind :
    (x t : Json) (ts : List Json)
    → leb (start_time x) (start_time t) ≡ false
    → later x (last ts) ≡ later x (last (t ∷ ts))
later-behind x t [] e = rw e refl
later-behind x t (u ∷ us) e = refl

last-insert :
    (x : Json) (ts : List Json) → IsSorted ts → last (insert_by_start x ts) ≡ later x (last ts)
last-insert x [] h = refl
last-insert x (t ∷ ts) h = elim (Bool-cases (leb (start_time x) (start_time t))) [
  | inl e ↦
      let (u, same, l) =
        last-From (start_time x) t ts (leb→le _ _ e) (From-mono _ _ ts (leb→le _ _ e) h.0) in
      rw (e, same) (ground arith)
  | inr e ↦ rw e (last-behind t x ts ∙ last-insert x ts h.1 ∙ later-behind x t ts e)
]

last-sort : (ts : List Json) → last (sort_by_start ts) ≡ latest ts
last-sort [] = refl
last-sort (t ∷ ts) =
    last-insert t (sort_by_start ts) (sort-IsSorted ts) ∙ ap (later t) (last-sort ts)

max_option_swap : (a b c : Option ℕ) → max_option a (max_option b c) ≡ max_option b (max_option a c)
max_option_swap none b c = refl
max_option_swap (some a) none c = refl
max_option_swap (some a) (some b) none = ap some (omega arith)
max_option_swap (some a) (some b) (some c) = ap some (omega arith)

success-insert :
    (x : Json) (ts : List Json)
    → last_success_end (insert_by_start x ts) ≡ last_success_end (x ∷ ts)
success-insert x [] = refl
success-insert x (t ∷ ts) = elim (Bool-cases (leb (start_time x) (start_time t))) [
  | inl e ↦ rw e refl
  | inr e ↦ rw (e, success-insert x ts) (max_option_swap _ _ (last_success_end ts))
]

success-sort : (ts : List Json) → last_success_end (sort_by_start ts) ≡ last_success_end ts
success-sort [] = refl
success-sort (t ∷ ts) = success-insert t (sort_by_start ts) ∙ ap (max_option _) (success-sort ts)

-- What the backup state is, said without an order of the tasks.
abbrev pub described :
    (jobs tasks : Option (List Json)) (host_name : Text) (now : ℕ) → BackupJobStatus × Option ℕ
described none tasks host_name now = (BackupJobStatus.unknown, none)
described (some js) none host_name now =
    if any (runs_here host_name) js
    then (BackupJobStatus.unknown, none)
    else (BackupJobStatus.no_job, none)
described (some js) (some ts) host_name now =
    if any (runs_here host_name) js
    then status_of (latest (filter (is_local host_name) ts))
        (age_of now (last_success_end (filter (is_local host_name) ts)))
    else (BackupJobStatus.no_job, none)

length-filter : (p : Json → Bool) (ts : List Json) → (length (filter p ts) == 0) ≡ not (any p ts)
length-filter p [] = refl
length-filter p (t ∷ ts) = ground (arith, length-filter p ts)

jobs_state-described :
    (jobs tasks : Option (List Json)) (host_name : Text) (now : ℕ)
    → jobs_state jobs tasks host_name now ≡ described jobs tasks host_name now
jobs_state-described none tasks host_name now = refl
jobs_state-described (some js) none host_name now =
    ground (arith, length-filter (runs_here host_name) js)
jobs_state-described (some js) (some ts) host_name now =
    let local_tasks = filter (is_local host_name) ts in
    rw (length-filter (runs_here host_name) js, last-sort local_tasks, success-sort local_tasks)
      (swapped _ _ (any (runs_here host_name) js))
  where
    swapped : {A : Type 0} (x y : A) (b : Bool) → (if not b then x else y) ≡ (if b then y else x)
    swapped x y true = refl
    swapped x y false = refl

-- Whatever the two documents are: without an array of jobs, or of tasks when a job of this host is
-- enabled, the state is unknown; without an enabled job of this host there is no job; else the state
-- is that of the local task with the latest start, the last of those in the document, with the age
-- of the latest end of any successful local task, whatever the order of the tasks is.
pub parse_backup_job_status-described :
    (jobs tasks : Option Json) (host_name : Text) (now : ℕ)
    → parse_backup_job_status jobs tasks host_name now
      ≡ described (array_of jobs) (array_of tasks) host_name now
unfolding parse_backup_job_status
parse_backup_job_status-described jobs tasks host_name now =
    jobs_state-described (array_of jobs) (array_of tasks) host_name now
