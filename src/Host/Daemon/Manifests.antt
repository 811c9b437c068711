-- ===== src/Host/Daemon/Manifests.antt =====
-- host/src/main.rs: the manifests that the stick has when a health snapshot is sent.
use servatory.Prelude.{
  ℕ, ◌≡◌, ◌≢◌, refl, ◌⊎◌, inl, inr, Bool, false, not, ◌&&◌, Option, none, some, List, [], ◌∷◌, ◌++◌,
  arith, ok, err, length, All,
}
use servatory.Protocol.Health.{SoftwareVersion}
use servatory.Protocol.Display.{DisplayConfig}
use servatory.Protocol.Network.{NetworkConfig}
use servatory.Protocol.Message.{HostMessage}
use servatory.Host.Shutdown.{
  Effect, sent, poweroff_called, HostError, World, Env, write_host_message,
}
use servatory.Host.Shutdown.Log.{IsReport}
use servatory.Host.Config.{Config}
use servatory.Host.Config.Pages
use servatory.Host.Daemon.{Daemon, guest_page_count}
use servatory.Host.Daemon.Log.{
  or_else, or_else_assoc, display_of, network_of, last_of, last_of-append, reports_display,
  reports_network,
}

module _ (c : Config) (version : SoftwareVersion) (env : Env) where
  -- A message that a write refuses, in some state of the world.
  abbrev pub Refused : HostMessage → Type 0
  Refused m = (w : World) × (e : HostError) × ((write_host_message env m w).1 ≡ err e)

  -- The display manifest of an update that was cut off: the one of another number of guests, whose
  -- network manifest is not the one at hand and is refused by a write.
  pub record CutOff (display : DisplayConfig) (network : NetworkConfig) : Type 0 where
    pub other_count : ℕ
    pub other_network : NetworkConfig
    pub other_display_fits : Pages.display_config c version other_count ≡ ok display
    pub other_network_fits : Pages.network_config c other_count ≡ ok other_network
    pub networks_differ : other_network ≢ network
    pub network_refused : Refused (HostMessage.network_config other_network)

  -- The network manifest is the one for this number of guests; the display manifest is, too, or is that
  -- of an update that was cut off.
  pub record Fits (guest_count : ℕ) (display : DisplayConfig) (network : NetworkConfig)
      : Type 0 where
    pub display_fits :
        (Pages.display_config c version guest_count ≡ ok display) ⊎ CutOff display network
    pub network_fits : Pages.network_config c guest_count ≡ ok network

  -- What a message finds: after the manifests `display` and `network`, the last ones, if any.
  abbrev pub Finds : Option DisplayConfig → Option NetworkConfig → Effect → Type 0
  Finds display network (sent (HostMessage.health_snapshot s)) =
      (d : DisplayConfig) × (n : NetworkConfig) × (display ≡ some d)
      × (network ≡ some n)
      × Fits (length s.guests.guests) d n
  Finds display network _ = Unit

  -- Every health snapshot of the log stands behind manifests that fit its number of guests.
  abbrev pub Matched : Option DisplayConfig → Option NetworkConfig → List Effect → Type 0
  Matched display network [] = Unit
  Matched display network (e ∷ es) =
      Finds display network e
      × Matched (or_else (display_of e) display) (or_else (network_of e) network) es

  Matched-snoc :
      (display : Option DisplayConfig) (network : Option NetworkConfig) (l : List Effect)
      (e : Effect)
      → Matched display network l
      → Finds (or_else (last_of display_of l) display) (or_else (last_of network_of l) network) e
      → Matched display network (l ++ e ∷ [])
  Matched-snoc display network [] e h k = (k, tt)
  Matched-snoc display network (x ∷ l) e h k =
      let shown = or_else_assoc (last_of display_of l) (display_of x) display in
      let served = or_else_assoc (last_of network_of l) (network_of x) network in
      (h.0, Matched-snoc _ _ l e h.1 (rw (← shown, ← served) k))

  -- The log is matched; if the manifests are `sent`, the last ones in the log are the daemon's; and the
  -- daemon's fit its number of pages.
  pub record Kept (is_sent : Bool) (display : DisplayConfig) (network : NetworkConfig) (pages : ℕ)
      (l : List Effect) : Type 0 where
    pub matched : Matched none none l
    pub in_sync :
        (is_sent ≡ false)
        ⊎ ((last_of display_of l ≡ some display) × (last_of network_of l ≡ some network))
    pub guest_count : ℕ
    pub counted : guest_page_count guest_count ≡ pages
    pub shown : Fits guest_count display network

  abbrev pub Inv : Daemon → List Effect → Type 0
  Inv d =
      Kept (d.handshake_established && not d.manifest_pending) d.display_config d.network_config
        d.configured_guest_pages

  or_else-none : {A : Type 0} (a : Option A) → or_else a none ≡ a
  or_else-none none = refl
  or_else-none (some a) = refl

  -- The log with one more effect, which finds what it needs.
  pub Matched-sent :
      (l : List Effect) (e : Effect)
      → Matched none none l
      → Finds (last_of display_of l) (last_of network_of l) e
      → Matched none none (l ++ e ∷ [])
  Matched-sent l e h k =
      let x = or_else-none (last_of display_of l) in
      let y = or_else-none (last_of network_of l) in Matched-snoc none none l e h (rw (x, y) k)

  pub Matched-reports :
      (display : Option DisplayConfig) (network : Option NetworkConfig) (xs ys : List Effect)
      → Matched display network xs
      → All IsReport ys
      → Matched display network (xs ++ ys)
  Matched-reports display network [] [] h r = tt
  Matched-reports display network [] (y ∷ ys) h r =
      (report_finds y r.0, Matched-reports _ _ [] ys tt r.1)
    where
      report_finds : (y : Effect) → IsReport y → Finds display network y
      report_finds (sent HostMessage.shutdown_accepted) r = tt
      report_finds (sent (HostMessage.shutdown_progress p t n)) r = tt
      report_finds (sent (HostMessage.shutdown_failed p n)) r = tt
      report_finds (sent (HostMessage.display_config d)) r = absurd r
      report_finds (sent (HostMessage.network_config d)) r = absurd r
      report_finds (sent (HostMessage.hello v n)) r = absurd r
      report_finds (sent (HostMessage.health_snapshot s)) r = absurd r
      report_finds poweroff_called r = tt
  Matched-reports display network (x ∷ xs) ys h r = (h.0, Matched-reports _ _ xs ys h.1 r)

  module _ {s : Bool} {display : DisplayConfig} {network : NetworkConfig} {pages : ℕ}
      {l : List Effect} where
    -- A message that is no manifest.
    pub Kept-message :
        (m : HostMessage)
        → display_of (sent m) ≡ none
        → network_of (sent m) ≡ none
        → Finds (last_of display_of l) (last_of network_of l) (sent m)
        → Kept s display network pages l
        → Kept s display network pages (l ++ sent m ∷ [])
    Kept-message m hd hn f v = record {
      matched = Matched-sent l (sent m) v.matched f;
      in_sync = ground (
        arith,
        hd,
        hn,
        last_of-append display_of l (sent m ∷ []),
        last_of-append network_of l (sent m ∷ []),
      );
      guest_count = v.guest_count;
      counted = v.counted;
      shown = v.shown;
    }

    pub Kept-reports :
        (ys : List Effect)
        → All IsReport ys
        → Kept s display network pages l
        → Kept s display network pages (l ++ ys)
    Kept-reports ys r v = record {
      matched = Matched-reports none none l ys v.matched r;
      in_sync = ground (
        arith,
        last_of-append display_of l ys,
        last_of-append network_of l ys,
        reports_display ys r,
        reports_network ys r,
      );
      guest_count = v.guest_count;
      counted = v.counted;
      shown = v.shown;
    }

    -- Manifests that are not sent are in no need to be the last ones.
    pub Kept-pending : Kept s display network pages l → Kept false display network pages l
    Kept-pending v = record {
      matched = v.matched;
      in_sync = inl refl;
      guest_count = v.guest_count;
      counted = v.counted;
      shown = v.shown;
    }

    pub Kept-unsent :
        (e : Effect)
        → s ≡ false
        → Finds (last_of display_of l) (last_of network_of l) e
        → Kept s display network pages l
        → Kept s display network pages (l ++ e ∷ [])
    Kept-unsent e h f v = record {
      matched = Matched-sent l e v.matched f;
      in_sync = inl h;
      guest_count = v.guest_count;
      counted = v.counted;
      shown = v.shown;
    }

    pub Kept-sent :
        (b : Bool)
        → Kept s display network pages l
        → Kept b display network pages (
            (l ++ sent (HostMessage.display_config display) ∷ [])
            ++ sent (HostMessage.network_config network) ∷ [])
    Kept-sent b v =
        let l1 = l ++ sent (HostMessage.display_config display) ∷ [] in
        record {
          matched = Matched-sent l1 _ (Matched-sent l _ v.matched tt) tt;
          in_sync = inr (
            ground (
              arith,
              last_of-append display_of l (sent (HostMessage.display_config display) ∷ []),
              last_of-append display_of l1 (sent (HostMessage.network_config network) ∷ []),
            ),
            ground (
              arith,
              last_of-append network_of l1 (sent (HostMessage.network_config network) ∷ []),
            ),
          );
          guest_count = v.guest_count;
          counted = v.counted;
          shown = v.shown;
        }

  -- Between the manifests and the update: the manifests are sent, if there is a session.
  abbrev pub Ready : Daemon → List Effect → Type 0
  Ready d l = Inv d l × ((d.handshake_established && d.manifest_pending) ≡ false)
