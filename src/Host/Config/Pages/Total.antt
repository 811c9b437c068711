-- ===== src/Host/Config/Pages/Total.antt =====
-- host/src/config.rs: the manifests for any number of guests, once those for none could be made.
use servatory.Prelude.{
  ℕ, ◌≤◌, ◌<◌, max, ◌≡◌, refl, Bool, true, false, Option, none, some, List, [], ◌∷◌, ◌++◌, arith,
  Result, ok, err, and_then, ok_or, is_ok, length,
}
use servatory.Prelude.Text.{Text}
use servatory.Prelude.Words.{u32_max}
use servatory.Protocol.Health.{SoftwareVersion}
use servatory.Protocol.Display.{DisplayView, DisplayConfig, new_display_config}
use servatory.Protocol.Network.{HttpConfig}
use servatory.Host.Config.{
  Config, ViewConfig, unknown_view, ConfigError, ViewLayout, overview, resources, storage,
  power_network, guests, get_view, filesystem_ids, smart_ids, HttpOutput,
}
use servatory.Host.Config.Pages.{
  resolve_indices, view_pages, pages_of, compile_pages_for, display_config, network_config,
  http_config, display_error, with_pages, make_display, make_network, guest_pages, storage_pages,
  div_ceil,
}
use servatory.Host.Config.Pages.Guests.{guest_pages-ok, length-map-range, guests_from}
use servatory.Host.Config.Pages.Chunks.{storage_pages_complete}

-- The result is a list of pages, and not an empty one.
data Filled : Result (List DisplayView) ConfigError → Type 0 where
  filled : (p : DisplayView) (ps : List DisplayView) → Filled (ok (p ∷ ps))

long-Filled : (ps : List DisplayView) → 0 < length ps → Filled (ok ps)
long-Filled [] h = absurd (omega arith)
long-Filled (p ∷ ps) h = filled p ps

abbrev pure : {A : Type 0} → A → Result A ConfigError
pure = ok

abbrev stored :
    Text → Bool → (r s : Result (List ℕ) ConfigError) → Result (List DisplayView) ConfigError
stored title left r s = and_then r (λ fs. and_then s (λ ss. ok (storage_pages title left fs ss)))

abbrev joint : (r s : Result (List DisplayView) ConfigError) → Result (List DisplayView) ConfigError
joint r s = and_then r (λ p. and_then s (λ m. ok (p ++ m)))

module _ (c : Config) (n : ℕ) (few : n ≤ u32_max) where
  guest_pages-Filled : (title : Text) → Filled (guest_pages title n)
  guest_pages-Filled title =
      rw (guest_pages-ok title n few) (
        long-Filled _
          (omega (arith, length-map-range (guests_from title) 0 (div_ceil (max n 1) 4))))

  view_pages-Filled :
      (title : Text) (layout : ViewLayout)
      → is_ok (view_pages c title layout 0) ≡ true
      → Filled (view_pages c title layout n)
  unfolding view_pages
  view_pages-Filled title overview h = filled _ _
  view_pages-Filled title resources h = filled _ _
  view_pages-Filled title (power_network left) h = filled _ _
  view_pages-Filled title (guests true offset limit) h = guest_pages-Filled title
  view_pages-Filled title (guests false offset limit) h = filled _ _
  view_pages-Filled title (storage fs ss left) h =
      storage_Filled (resolve_indices (filesystem_ids c) fs) (resolve_indices (smart_ids c) ss) h
    where
      storage_Filled :
          (r s : Result (List ℕ) ConfigError)
          → is_ok (stored title left r s) ≡ true
          → Filled (stored title left r s)
      storage_Filled (ok fs') (ok ss') k =
          long-Filled _ (storage_pages_complete title left fs' ss').3
      storage_Filled (ok fs') (err e) k = absurd (ground arith)
      storage_Filled (err e) s k = absurd (ground arith)

  -- The pages of a view and those of the views behind it.
  joint-Filled :
      (r0 rn s0 sn : Result (List DisplayView) ConfigError)
      → (is_ok r0 ≡ true → Filled rn)
      → (is_ok s0 ≡ true → is_ok sn ≡ true)
      → is_ok (joint r0 s0) ≡ true
      → Filled (joint rn sn)
  joint-Filled (err e) rn s0 sn f g h = absurd (ground arith)
  joint-Filled (ok p) rn (err e) sn f g h = absurd (ground arith)
  joint-Filled (ok p) rn (ok m) (err e) f g h = absurd (ground (arith, g refl))
  joint-Filled (ok p) rn (ok m) (ok m') f g h = with_more rn (f refl)
    where
      with_more : (r : Result (List DisplayView) ConfigError) → Filled r → Filled (joint r (ok m'))
      with_more _ (filled q qs) = filled q (qs ++ m')

  Filled-is_ok : {r : Result (List DisplayView) ConfigError} → Filled r → is_ok r ≡ true
  Filled-is_ok (filled p ps) = refl

  -- One round of the loop over the views.
  abbrev round :
      Option ViewConfig
      → Text
      → ℕ
      → Result (List DisplayView) ConfigError
      → Result (List DisplayView) ConfigError
  round view id k more =
      and_then (ok_or view (unknown_view id)) (λ v. joint (view_pages c v.title v.layout k) more)

  round-Filled :
      (view : Option ViewConfig) (id : Text) (s0 sn : Result (List DisplayView) ConfigError)
      → (is_ok s0 ≡ true → is_ok sn ≡ true)
      → is_ok (round view id 0 s0) ≡ true
      → Filled (round view id n sn)
  round-Filled none id s0 sn g h = absurd (ground arith)
  round-Filled (some v) id s0 sn g h =
      joint-Filled (view_pages c v.title v.layout 0) (view_pages c v.title v.layout n) s0 sn
        (view_pages-Filled v.title v.layout) g h

  pages_of-is_ok :
      (ids : List Text) → is_ok (pages_of c ids 0) ≡ true → is_ok (pages_of c ids n) ≡ true
  unfolding pages_of
  pages_of-is_ok [] h = refl
  pages_of-is_ok (id ∷ ids) h = Filled-is_ok (
      round-Filled (get_view id c.views) id (pages_of c ids 0) (pages_of c ids n)
        (pages_of-is_ok ids) h)

  compile-Filled :
      (ids : List Text)
      → is_ok (compile_pages_for c ids 0) ≡ true
      → Filled (compile_pages_for c ids n)
  unfolding compile_pages_for pages_of
  compile-Filled [] h = absurd (ground arith)
  compile-Filled (id ∷ ids) h =
      round-Filled (get_view id c.views) id (pages_of c ids 0) (pages_of c ids n)
        (pages_of-is_ok ids) h

  make_display-is_ok :
      (version : SoftwareVersion) (hold delay : ℕ) (ps : List DisplayView) (q : DisplayView)
      (qs : List DisplayView)
      → is_ok (make_display c version hold delay ps) ≡ true
      → is_ok (make_display c version hold delay (q ∷ qs)) ≡ true
  unfolding make_display display_error new_display_config
  make_display-is_ok version hold delay [] q qs h = absurd (ground arith)
  make_display-is_ok version hold delay (p ∷ ps) q qs h = ground arith

  abbrev displayed :
      SoftwareVersion
      → (hold delay : Result ℕ ConfigError) → Result (List DisplayView) ConfigError
      → Result DisplayConfig ConfigError
  displayed version a b r =
      and_then a (λ hold. and_then b (λ delay. and_then r (make_display c version hold delay)))

  displayed-is_ok :
      (version : SoftwareVersion) (a b : Result ℕ ConfigError)
      (r rn : Result (List DisplayView) ConfigError)
      → (is_ok r ≡ true → Filled rn)
      → is_ok (displayed version a b r) ≡ true
      → is_ok (displayed version a b rn) ≡ true
  displayed-is_ok version (err e) b r rn f h = h
  displayed-is_ok version (ok hold) (err e) r rn f h = h
  displayed-is_ok version (ok hold) (ok delay) (err e) rn f h = absurd (ground arith)
  displayed-is_ok version (ok hold) (ok delay) (ok ps) rn f h = shown rn (f refl)
    where
      shown :
          (r : Result (List DisplayView) ConfigError)
          → Filled r
          → is_ok (and_then r (make_display c version hold delay)) ≡ true
      shown _ (filled q qs) = make_display-is_ok version hold delay ps q qs h

  display_config-total :
      (version : SoftwareVersion)
      → is_ok (display_config c version 0) ≡ true
      → is_ok (display_config c version n) ≡ true
  unfolding display_config
  display_config-total version h =
      displayed-is_ok version _ _ (compile_pages_for c c.outputs.stick_views 0) _
        (compile-Filled c.outputs.stick_views) h

  http_config-is_ok :
      (http : Option HttpOutput)
      → is_ok (http_config c http 0) ≡ true
      → is_ok (http_config c http n) ≡ true
  unfolding http_config
  http_config-is_ok none h = refl
  http_config-is_ok (some o) h =
      served (compile_pages_for c o.views 0) (compile_pages_for c o.views n)
        (compile-Filled o.views) h
    where
      served :
          (r rn : Result (List DisplayView) ConfigError)
          → (is_ok r ≡ true → Filled rn)
          → is_ok (and_then r (λ p. pure (with_pages c o p))) ≡ true
          → is_ok (and_then rn (λ p. pure (with_pages c o p))) ≡ true
      served (err e) rn f k = absurd (ground arith)
      served (ok ps) rn f k = shown rn (f refl)
        where
          shown :
              (r : Result (List DisplayView) ConfigError)
              → Filled r
              → is_ok (and_then r (λ p. pure (with_pages c o p))) ≡ true
          shown _ (filled q qs) = refl

  network_config-total : is_ok (network_config c 0) ≡ true → is_ok (network_config c n) ≡ true
  unfolding network_config
  network_config-total h =
      published (http_config c c.outputs.http 0) (http_config c c.outputs.http n)
        (http_config-is_ok c.outputs.http) h
    where
      published :
          (r rn : Result HttpConfig ConfigError)
          → (is_ok r ≡ true → is_ok rn ≡ true)
          → is_ok (and_then r (λ http. pure (make_network c http))) ≡ true
          → is_ok (and_then rn (λ http. pure (make_network c http))) ≡ true
      published (err e) rn f k = absurd (ground arith)
      published (ok a) (err e) f k = f refl
      published (ok a) (ok b) f k = refl

  -- If the manifests for no guests could be made, then so can both manifests for any number of guests
  -- below 2^32.
  pub manifests-total :
      (version : SoftwareVersion)
      → is_ok (display_config c version 0) ≡ true
      → is_ok (network_config c 0) ≡ true
      → (is_ok (display_config c version n) ≡ true) × (is_ok (network_config c n) ≡ true)
  manifests-total version h k = (display_config-total version h, network_config-total k)
