-- ===== src/Host/Collect/Sampling.antt =====
-- host/src/health.rs: when `collect` reads its sources.
use servatory.Prelude.{
  ℕ, ◌+◌, ◌≡◌, refl, ap, ◌∙◌, inl, inr, Option, List, [], ◌∷◌, map, ltb, if◌then◌else◌, Bool-cases,
}
use servatory.Prelude.Time.{Instant, Duration}
use servatory.Protocol.Snapshot.{BackupJobStatus, FilesystemUsage, UpsSnapshot, SmartSnapshot}
use servatory.Prelude.Text.{Text}
use servatory.Host.Probe.{ConnectivityProbe}
use servatory.Host.Ups.{UpsCollector, collect}
use servatory.Host.Collect.{
  HealthCollector, Readings, NetworkSnapshot, refresh_due, collected, collect_health,
  network_refresh_interval, filesystem_refresh_interval, backup_refresh_interval,
  ups_refresh_interval, smart_refresh_interval,
}

-- A source that is read at times: when it is next due, and its value. A call before is ignored.
abbrev pub sample {ℓ} : {V : Type ℓ} → Duration → Instant → (V → V) → Instant × V → Instant × V
sample interval now f (next, v) = if ltb now next then (next, v) else (now + interval, f v)

abbrev pub samples {ℓ} :
    {V : Type ℓ} → Duration → List (Instant × (V → V)) → Instant × V → Instant × V
samples interval [] s = s
samples interval ((now, f) ∷ calls) s = samples interval calls (sample interval now f s)

refresh_due-sample {ℓ} :
    {V : Type ℓ} (now next interval : ℕ) (f : V → V) (v : V)
    → ((refresh_due now next interval).1, if (refresh_due now next interval).0 then f v else v)
      ≡ sample interval now f (next, v)
unfolding refresh_due
refresh_due-sample now next interval f v = elim (Bool-cases (ltb now next)) [
  | inl e ↦ rw e refl
  | inr e ↦ rw e refl
]

-- What the collector keeps of each of its sources.
abbrev pub network_of : HealthCollector → Instant × NetworkSnapshot
network_of c = (c.next_network_refresh, c.network)

abbrev pub filesystems_of : HealthCollector → Instant × List FilesystemUsage
filesystems_of c = (c.next_filesystem_refresh, c.filesystem_usage)

abbrev pub backup_of : HealthCollector → Instant × (BackupJobStatus × Option ℕ)
backup_of c = (c.next_backup_refresh, c.backup)

abbrev pub ups_of : HealthCollector → Instant × (UpsCollector × UpsSnapshot)
ups_of c = (c.next_ups_refresh, (c.ups, c.ups_snapshot))

abbrev pub smart_of : HealthCollector → Instant × SmartSnapshot
smart_of c = (c.next_smart_refresh, c.smart)

-- The calls of `collect`, each behind what the threads of the probe have done.
abbrev pub Call : Type 0
Call = (ConnectivityProbe → ConnectivityProbe) × Readings

abbrev pub collects : List Call → HealthCollector → HealthCollector
collects [] c = c
collects ((threads, r) ∷ calls) c =
    collects calls (collect_health r (record c { connectivity = threads c.connectivity })).0

-- A source of the collector, which each call samples.
collects-samples_of :
    {V : Type 0} (paths : List Text) (of : HealthCollector → Instant × V) (interval : ℕ)
    (f : Readings → V → V)
    → ((r : Readings) (c : HealthCollector) (p : ConnectivityProbe)
        → c.filesystems ≡ paths
        → of (collect_health r (record c { connectivity = p })).0
          ≡ sample interval r.now (f r) (of c))
    → (calls : List Call) (c : HealthCollector) → c.filesystems ≡ paths
    → of (collects calls c)
      ≡ samples interval (map (λ (call : Call). (call.1.now, f call.1)) calls) (of c)
unfolding collect_health collected
collects-samples_of paths of interval f one [] c same = refl
collects-samples_of paths of interval f one ((threads, r) ∷ calls) c same =
    collects-samples_of paths of interval f one calls _ same
    ∙ ap (samples interval (map (λ (call : Call). (call.1.now, f call.1)) calls))
        (one r c (threads c.connectivity) same)

-- Whatever is read, and whatever the threads of the probe do between the calls: the collector keeps of
-- the network, the filesystems, the backup, the UPS and the devices exactly what five samplers keep
-- that know nothing of each other: each takes a reading only if the time is not before its next
-- refresh, which it then puts its own interval behind, and keeps what it has otherwise.
pub collects-samples :
    (calls : List Call) (c : HealthCollector)
    → let c' = collects calls c in
      (network_of c'
        ≡ samples network_refresh_interval
            (map (λ (k : Call). (k.1.now, λ v. k.1.network)) calls)
            (network_of c))
      × (filesystems_of c'
          ≡ samples filesystem_refresh_interval
              (map (λ (k : Call). (k.1.now, λ v. map k.1.filesystem c.filesystems)) calls)
              (filesystems_of c))
      × (backup_of c'
          ≡ samples backup_refresh_interval
              (map (λ (k : Call). (k.1.now, λ v. k.1.backup)) calls)
              (backup_of c))
      × (ups_of c'
          ≡ samples ups_refresh_interval
              (map
                (λ (k : Call). (k.1.now, λ (v : UpsCollector × UpsSnapshot). collect k.1.ups v.0))
                calls)
              (ups_of c))
      × (smart_of c'
          ≡ samples smart_refresh_interval
              (map (λ (k : Call). (k.1.now, λ v. k.1.smart)) calls)
              (smart_of c))
unfolding collect_health collected
collects-samples calls c = (
  collects-samples_of c.filesystems network_of _ (λ r v. r.network)
      (λ r c p same. refresh_due-sample r.now _ network_refresh_interval (λ v. r.network) c.network)
      calls c refl,
  collects-samples_of c.filesystems filesystems_of _ (λ r v. map r.filesystem c.filesystems)
      (λ r d p same.
        refresh_due-sample r.now _ filesystem_refresh_interval (λ v. map r.filesystem d.filesystems)
          d.filesystem_usage
        ∙ ap
            (λ paths.
              sample filesystem_refresh_interval r.now (λ v. map r.filesystem paths)
                (filesystems_of d))
            same)
      calls c refl,
  collects-samples_of c.filesystems backup_of _ (λ r v. r.backup)
      (λ r c p same. refresh_due-sample r.now _ backup_refresh_interval (λ v. r.backup) c.backup)
      calls c refl,
  collects-samples_of c.filesystems ups_of _ (λ r v. collect r.ups v.0)
      (λ r c p same.
        refresh_due-sample r.now _ ups_refresh_interval
          (λ (v : UpsCollector × UpsSnapshot). collect r.ups v.0) (c.ups, c.ups_snapshot))
      calls c refl,
  collects-samples_of c.filesystems smart_of _ (λ r v. r.smart)
      (λ r c p same. refresh_due-sample r.now _ smart_refresh_interval (λ v. r.smart) c.smart) calls
      c refl,
)
