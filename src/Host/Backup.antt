-- ===== src/Host/Backup.antt =====
-- host/src/health.rs: what the backup jobs and tasks of Proxmox say. The two documents are given as
-- `serde_json` parses them, `none` when it does not.
pub mod Reference
use servatory.Prelude.{
  filter, ℕ, zero, suc, ◌+◌, ◌-◌, ◌*◌, ◌/◌, ◌%◌, ◌≤◌, ◌<◌, min, max, ◌≡◌, refl, sym, ap, ◌∙◌, ◌≢◌,
  ◌↔◌, ◌⊎◌, inl, inr, Bool, true, false, not, ◌&&◌, ◌||◌, Option, none, some, List, [], ◌∷◌, ◌++◌,
  map, append-nil, append_assoc, arith, ltb, leb, ◌==◌, if◌then◌else◌, ltb→lt, leb→le, ==_iff,
  Bool-cases, Option-cases, is_some, is_some_and, is_none_or, unwrap_or, Result, ok, err, and_then,
  ok_or, bind, is_ok, length, is_empty, get_elem?, set?, take?, take, drop, replicate, all, any,
  All, length-append, length-replicate, All-append, All-split, set-take, Result-cases, length-drop,
  take-append, nil_of_length, zero_plus, suc_plus, drop_nil, drop-drop, drop-append,
}
use servatory.Prelude.Text.{Text, codes, text_eq}
use servatory.Prelude.Words.{clamp_u32}
use servatory.Protocol.Snapshot.{BackupJobStatus}
use servatory.Host.Yaml.{Number}
use servatory.Host.Json.{Json, bool, number, string, get, as_str, as_u64, array_of}

-- `backup_job_enabled`
unfoldable pub backup_job_enabled : Json → Bool
backup_job_enabled job = enabled_by (get (codes "enabled") job)
  where
    enabled_by : Option Json → Bool
    enabled_by none = true
    enabled_by (some (bool enabled)) = enabled
    enabled_by (some (number (Number.natural zero))) = false
    enabled_by (some (number n)) = true
    enabled_by (some (string enabled)) = not (text_eq enabled (codes "0"))
    enabled_by (some _) = false

abbrev pub str_of : Text → Json → Option Text
str_of key v = bind (get key v) as_str

abbrev pub u64_of : Text → Json → Option ℕ
u64_of key v = bind (get key v) as_u64

-- Whether a job runs on this host.
abbrev pub runs_here : Text → Json → Bool
runs_here host_name job =
    backup_job_enabled job
    && is_none_or (str_of (codes "node") job)
        (λ node. is_empty node || text_eq node (codes "all") || text_eq node host_name)

abbrev pub is_local : Text → Json → Bool
is_local host_name task = is_none_or (str_of (codes "node") task) (λ node. text_eq node host_name)

abbrev pub start_time : Json → ℕ
start_time task = unwrap_or (u64_of (codes "starttime") task) 0

abbrev pub end_time : Json → Option ℕ
end_time task = u64_of (codes "endtime") task

abbrev pub is_success : Json → Bool
is_success task = is_some_and (str_of (codes "status") task) (λ status. text_eq status (codes "OK"))

-- `sort_by_key`, which keeps the order of equal keys.
abbrev pub insert_by_start : Json → List Json → List Json
insert_by_start x [] = x ∷ []
insert_by_start x (y ∷ ys) =
    let behind = insert_by_start x ys in
    if leb (start_time x) (start_time y) then x ∷ y ∷ ys else y ∷ behind

abbrev pub sort_by_start : List Json → List Json
sort_by_start [] = []
sort_by_start (x ∷ xs) = insert_by_start x (sort_by_start xs)

abbrev pub max_option : Option ℕ → Option ℕ → Option ℕ
max_option none o = o
max_option (some a) none = some a
max_option (some a) (some b) = some (max a b)

-- The greatest end of a successful task.
abbrev pub last_success_end : List Json → Option ℕ
last_success_end [] = none
last_success_end (t ∷ ts) =
    max_option (if is_success t then end_time t else none) (last_success_end ts)

abbrev pub last : List Json → Option Json
last [] = none
last (t ∷ []) = some t
last (t ∷ u ∷ us) = last (u ∷ us)

abbrev pub status_of : (latest : Option Json) (success_age : Option ℕ) → BackupJobStatus × Option ℕ
status_of none age = (BackupJobStatus.stale, none)
status_of (some latest) age =
    if is_none_or (end_time latest) (λ e. false)
    then (BackupJobStatus.running, age)
    else if is_success latest
    then (BackupJobStatus.healthy, age)
    else (BackupJobStatus.failed, age)

-- An age that an `u32` does not hold is its greatest value.
abbrev pub age_of : (now : ℕ) → Option ℕ → Option ℕ
age_of now none = none
age_of now (some end) = some (clamp_u32 (now - end))

-- What the tasks say.
abbrev pub tasks_state :
    (tasks : Option (List Json)) (host_name : Text) (now_seconds : ℕ) → BackupJobStatus × Option ℕ
tasks_state none host_name now_seconds = (BackupJobStatus.unknown, none)
tasks_state (some ts) host_name now_seconds =
    let local_tasks = sort_by_start (filter (is_local host_name) ts) in
    status_of (last local_tasks) (age_of now_seconds (last_success_end local_tasks))

-- What the jobs say, and the tasks if there is a job.
abbrev pub jobs_state :
    (jobs tasks : Option (List Json)) (host_name : Text) (now_seconds : ℕ)
    → BackupJobStatus × Option ℕ
jobs_state none tasks host_name now_seconds = (BackupJobStatus.unknown, none)
jobs_state (some js) tasks host_name now_seconds =
    if length (filter (runs_here host_name) js) == 0
    then (BackupJobStatus.no_job, none)
    else tasks_state tasks host_name now_seconds

-- `parse_backup_job_status`
unfoldable pub parse_backup_job_status :
    (jobs tasks : Option Json) (host_name : Text) (now_seconds : ℕ) → BackupJobStatus × Option ℕ
parse_backup_job_status jobs tasks host_name now_seconds =
    jobs_state (array_of jobs) (array_of tasks) host_name now_seconds
