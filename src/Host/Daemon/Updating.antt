-- ===== src/Host/Daemon/Updating.antt =====
-- host/src/main.rs: the update keeps the manifests in step with the snapshots.
use servatory.Prelude.{
  ℕ, ◌≡◌, ◌≢◌, refl, sym, ap, ◌∙◌, inl, inr, ◌&&◌, Option, none, some, List, [], ◌∷◌, arith, leb,
  ◌==◌, ==_iff, Bool-cases, ok, bind, length, Result-cases,
}
use servatory.Protocol.Health.{Incident, SoftwareVersion, HealthReport}
use servatory.Protocol.Display.{DisplayConfig}
use servatory.Protocol.Network.{NetworkConfig}
use servatory.Protocol.Snapshot.{HealthSnapshot, set_incidents}
use servatory.Protocol.Message.{HostMessage, DeviceMessage}
use servatory.Protocol.Equality.{
  same, eq_of_same, ne_of_same, DisplayConfig-discrete, NetworkConfig-discrete,
}
use servatory.Protocol.Frame.{Codec}
use servatory.Host.Shutdown.{Effect, sent, World, Env}
use servatory.Host.Config.{Config}
use servatory.Host.Config.Health.{Floats}
use servatory.Host.Config.Evaluate.{evaluate_health}
use servatory.Host.Config.Pages
use servatory.Host.Config.Pages.Counts.{display_config-count, network_config-count}
use servatory.Host.Daemon.{Daemon, Step, goes_on, lost, stops, refuses, Turn, guest_page_count}
use servatory.Host.Daemon.Loop.{
  send_display, send_network, refresh_pages, report_health, update_health,
}
use servatory.Host.Daemon.Log.{
  written-Ends, tried-Ends, display_of, network_of, last_of, last_of-append,
  write_host_message-Writes, Ends, EndsAny, then_do-Ends, bind-Ends,
}
use servatory.Host.Daemon.Manifests.{Refused, Fits, Matched, Inv, Ready, Kept-message, Matched-sent}

module _ (c : Config) (version : SoftwareVersion) (env : Env) (cd : Codec DeviceMessage)
    (fl : Floats) where
  abbrev Keeps : Daemon → List Effect → Type 0
  Keeps = Inv c version env

  abbrev Readies : Daemon → List Effect → Type 0
  Readies = Ready c version env

  -- Between the two manifests of an update: the display's has been sent.
  record Between (display : DisplayConfig) (d : Daemon) (l : List Effect) : Type 0 where
    matched : Matched c version env none none l
    display_sent : last_of display_of l ≡ some display
    network_sent : last_of network_of l ≡ some d.network_config
    display_kept : d.display_config ≡ display
    guest_count : ℕ
    counted : guest_page_count guest_count ≡ d.configured_guest_pages
    network_fits : Pages.network_config c guest_count ≡ ok d.network_config

  -- After them.
  record Updated (display : DisplayConfig) (network : NetworkConfig) (d : Daemon) (l : List Effect)
      : Type 0 where
    matched : Matched c version env none none l
    display_sent : last_of display_of l ≡ some display
    network_sent : last_of network_of l ≡ some network
    display_kept : d.display_config ≡ display
    network_kept : d.network_config ≡ network

  -- The manifests of a session that is established and has them.
  record Sent (d : Daemon) (l : List Effect) : Type 0 where
    kept : Keeps d l
    display_sent : last_of display_of l ≡ some d.display_config
    network_sent : last_of network_of l ≡ some d.network_config

  send_display-Between :
      (display : DisplayConfig) (d : Daemon) (w : World)
      → Sent d w.log
      → Ends (Between display) Keeps (send_display env cd fl c version display d w)
  unfolding send_display
  send_display-Between display d w v =
      elim (Bool-cases (same DisplayConfig-discrete display d.display_config)) [
        | inl e ↦
            let k = eq_of_same DisplayConfig-discrete display d.display_config e in
            rw e (record {
              matched = v.kept.matched;
              display_sent = v.display_sent ∙ ap some (sym k);
              network_sent = v.network_sent;
              display_kept = sym k;
              guest_count = v.kept.guest_count;
              counted = v.kept.counted;
              network_fits = v.kept.shown.network_fits;
            })
        | inr e ↦ rw e (
            written-Ends (Between display) Keeps (HostMessage.display_config display) w.log d _
              (write_host_message-Writes env _ w) v.kept
              (λ w' g. rw g (record {
                matched = Matched-sent c version env w.log _ v.kept.matched tt;
                display_sent = rw (
                    last_of-append display_of w.log
                      (sent (HostMessage.display_config display) ∷ []));
                network_sent = rw (
                  last_of-append network_of w.log (sent (HostMessage.display_config display) ∷ []),
                  v.network_sent,
                );
                display_kept = refl;
                guest_count = v.kept.guest_count;
                counted = v.kept.counted;
                network_fits = v.kept.shown.network_fits;
              })))
      ]

  -- If the network manifest cannot be written, the update is cut off: the daemon has the new display
  -- manifest and the old network manifest.
  Between-Inv :
      (n : ℕ) (display : DisplayConfig) (network : NetworkConfig) (d : Daemon) (l : List Effect)
      → Pages.display_config c version n ≡ ok display
      → Pages.network_config c n ≡ ok network
      → network ≢ d.network_config
      → Refused c version env (HostMessage.network_config network)
      → Between display d l
      → Keeps d l
  Between-Inv n display network d l f g h r v = record {
    matched = v.matched;
    in_sync = inr (v.display_sent ∙ ap some (sym v.display_kept), v.network_sent);
    guest_count = v.guest_count;
    counted = v.counted;
    shown = record {
      display_fits = inr (record {
        other_count = n;
        other_network = network;
        other_display_fits = f ∙ ap ok (sym v.display_kept);
        other_network_fits = g;
        networks_differ = h;
        network_refused = r;
      });
      network_fits = v.network_fits;
    };
  }

  send_network-Updated :
      (n : ℕ) (display : DisplayConfig) (network : NetworkConfig) (d : Daemon) (w : World)
      → Pages.display_config c version n ≡ ok display
      → Pages.network_config c n ≡ ok network
      → Between display d w.log
      → Ends (Updated display network) Keeps (send_network env cd fl c version network d w)
  unfolding send_network
  send_network-Updated n display network d w f g v =
      elim (Bool-cases (same NetworkConfig-discrete network d.network_config)) [
        | inl e ↦
            let k = eq_of_same NetworkConfig-discrete network d.network_config e in
            rw e (record {
              matched = v.matched;
              display_sent = v.display_sent;
              network_sent = v.network_sent ∙ ap some (sym k);
              display_kept = v.display_kept;
              network_kept = sym k;
            })
        | inr e ↦
            let h = ne_of_same NetworkConfig-discrete network d.network_config e in
            rw e (
              tried-Ends (Updated display network) Keeps (HostMessage.network_config network) w.log
                _ d _ (write_host_message-Writes env _ w)
                (λ x r. Between-Inv n display network d w.log f g h (w, x, r) v)
                (λ w' o. rw o (record {
                  matched = Matched-sent c version env w.log _ v.matched tt;
                  display_sent = rw (
                    last_of-append display_of w.log
                        (sent (HostMessage.network_config network) ∷ []),
                    v.display_sent,
                  );
                  network_sent = rw (
                      last_of-append network_of w.log
                        (sent (HostMessage.network_config network) ∷ []));
                  display_kept = v.display_kept;
                  network_kept = refl;
                })))
      ]

  -- Ready for the snapshot of `n` guests.
  record Served (n : ℕ) (d : Daemon) (l : List Effect) : Type 0 where
    kept : Keeps d l
    display_sent : last_of display_of l ≡ some d.display_config
    network_sent : last_of network_of l ≡ some d.network_config
    fits : Fits c version env n d.display_config d.network_config

  -- The manifests depend on the number of guest pages alone.
  Fits-count :
      (m n : ℕ) (display : DisplayConfig) (network : NetworkConfig)
      → guest_page_count m ≡ guest_page_count n
      → Fits c version env n display network
      → Fits c version env m display network
  Fits-count m n display network pages v =
      let e = network_config-count c m n pages in
      record {
        display_fits = elim v.display_fits [
          | inl f ↦ inl (display_config-count c m n pages version ∙ f)
          | inr x ↦ inr x
        ];
        network_fits = e ∙ v.network_fits;
      }

  refresh_pages-Served :
      (n : ℕ) (d : Daemon) (w : World)
      → Sent d w.log
      → EndsAny (Served n) Keeps (refresh_pages env cd fl c version n d w)
  unfolding refresh_pages
  refresh_pages-Served n d w v =
      elim (Bool-cases (guest_page_count n == d.configured_guest_pages)) [
        | inl e ↦
            let pages : guest_page_count n ≡ guest_page_count v.kept.guest_count =
              (==_iff _ _).0 e ∙ sym v.kept.counted in
            rw e (record {
              kept = v.kept;
              display_sent = v.display_sent;
              network_sent = v.network_sent;
              fits =
                  Fits-count n v.kept.guest_count d.display_config d.network_config pages
                    v.kept.shown;
            })
        | inr e ↦ elim (Result-cases (Pages.display_config c version n)) [
          | inr (x, f) ↦ rw (e, f) v.kept
          | inl (display, f) ↦ elim (Result-cases (Pages.network_config c n)) [
            | inr (x, g) ↦ rw (e, f, g) v.kept
            | inl (network, g) ↦
                rw (e, f, g)
                  (then_do-Ends (Between display) Keeps (Served n)
                    (send_display env cd fl c version display d w) _
                    (send_display-Between display d w v)
                    λ d1 w1 b.
                      then_do-Ends (Updated display network) Keeps (Served n)
                        (send_network env cd fl c version network d1 w1) _
                        (send_network-Updated n display network d1 w1 f g b)
                        (λ d2 w2 u. record {
                          kept = record {
                            matched = u.matched;
                            in_sync = inr (
                              u.display_sent ∙ ap some (sym u.display_kept),
                              u.network_sent ∙ ap some (sym u.network_kept),
                            );
                            guest_count = n;
                            counted = refl;
                            shown = record {
                              display_fits = inl (f ∙ ap ok (sym u.display_kept));
                              network_fits = g ∙ ap ok (sym u.network_kept);
                            };
                          };
                          display_sent = u.display_sent ∙ ap some (sym u.display_kept);
                          network_sent = u.network_sent ∙ ap some (sym u.network_kept);
                          fits = record {
                            display_fits = inl (f ∙ ap ok (sym u.display_kept));
                            network_fits = g ∙ ap ok (sym u.network_kept);
                          };
                        }))
          ]
        ]
      ]

  report_health-Inv :
      (t : Turn) (status : HealthReport) (s : HealthSnapshot) (step : Step)
      → Ends (Served (length s.guests.guests)) Keeps step
      → Ends Keeps Keeps (report_health env cd fl c version t status s step)
  unfolding report_health
  report_health-Inv t status s (w, goes_on d) v =
      written-Ends Keeps Keeps (HostMessage.health_snapshot s) w.log _ _
        (write_host_message-Writes env _ w) v.kept
        (λ w' g. rw g (
          Kept-message c version env _ refl refl
            (d.display_config, d.network_config, v.display_sent, v.network_sent, v.fits) v.kept))
  report_health-Inv t status s (w, lost d e) v = v
  report_health-Inv t status s (w, stops d) v = v
  report_health-Inv t status s (w, refuses d e) v = v

  pub update_health-Inv :
      (t : Turn) (d : Daemon) (w : World)
      → Readies d w.log
      → EndsAny Keeps Keeps (update_health env cd fl c version t d w)
  unfolding update_health
  update_health-Inv t d w v =
      elim (Bool-cases (d.handshake_established && leb d.next_update t.update_check)) [
        | inr e ↦ rw e v.0
        | inl e ↦ rw e (
            updated t.health
              (record { kept = v.0; display_sent = ground arith; network_sent = ground arith }))
      ]
    where
      evaluated :
          (s : HealthSnapshot) (step : Step) (o : Option (HealthReport × List Incident))
          → Ends (Served (length s.guests.guests)) Keeps step
          → EndsAny Keeps Keeps (
              bind o (λ (status, incidents). some (
                report_health env cd fl c version t status
                  (set_incidents status incidents s)
                  step)))
      evaluated s step none h = tt
      evaluated s step (some (status, incidents)) h =
          report_health-Inv t status (set_incidents status incidents s) step h

      updated :
          (h : Option HealthSnapshot)
          → Sent d w.log
          → EndsAny Keeps Keeps (elim h [
            | none ↦ some (w, goes_on d)
            | some snapshot ↦
                bind (refresh_pages env cd fl c version (length snapshot.guests.guests) d w) λ step.
                  bind (evaluate_health fl c snapshot) λ (status, incidents). some (
                    report_health env cd fl c version t status
                      (set_incidents status incidents snapshot)
                      step)
          ])
      updated none v = v.kept
      updated (some s) v =
          bind-Ends (Served (length s.guests.guests)) Keeps Keeps Keeps
            (refresh_pages env cd fl c version (length s.guests.guests) d w) _
            (refresh_pages-Served (length s.guests.guests) d w v)
            (λ step h. evaluated s step (evaluate_health fl c s) h)
