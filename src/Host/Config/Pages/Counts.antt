-- ===== src/Host/Config/Pages/Counts.antt =====
-- host/src/config.rs: the manifests depend on the number of guests only through their pages.
use servatory.Prelude.{ℕ, max, ◌≡◌, refl, true, false, Option, none, some, List, [], ◌∷◌}
use servatory.Prelude.Text.{Text}
use servatory.Protocol.Health.{SoftwareVersion}
use servatory.Host.Config.{
  Config, ViewLayout, overview, resources, storage, power_network, guests, HttpOutput,
}
use servatory.Host.Config.Pages.{
  view_pages, pages_of, compile_pages_for, display_config, network_config, http_config, guest_pages,
  div_ceil,
}

module _ (c : Config) (m n : ℕ) (count : div_ceil (max m 1) 4 ≡ div_ceil (max n 1) 4) where
  guest_pages-count : (title : Text) → guest_pages title m ≡ guest_pages title n
  unfolding guest_pages
  guest_pages-count title = rw count

  view_pages-count :
      (title : Text) (layout : ViewLayout)
      → view_pages c title layout m ≡ view_pages c title layout n
  unfolding view_pages
  view_pages-count title overview = refl
  view_pages-count title resources = refl
  view_pages-count title (storage fs ss left) = refl
  view_pages-count title (power_network left) = refl
  view_pages-count title (guests true offset limit) = guest_pages-count title
  view_pages-count title (guests false offset limit) = refl

  pages_of-count : (ids : List Text) → pages_of c ids m ≡ pages_of c ids n
  unfolding pages_of
  pages_of-count [] = refl
  pages_of-count (id ∷ ids) = simp (pages_of-count ids, view_pages-count)

  compile_pages_for-count :
      (ids : List Text) → compile_pages_for c ids m ≡ compile_pages_for c ids n
  unfolding compile_pages_for
  compile_pages_for-count ids = rw (pages_of-count ids)

  pub display_config-count :
      (version : SoftwareVersion) → display_config c version m ≡ display_config c version n
  unfolding display_config
  display_config-count version = simp (compile_pages_for-count c.outputs.stick_views)

  http_config-count : (http : Option HttpOutput) → http_config c http m ≡ http_config c http n
  unfolding http_config
  http_config-count none = refl
  http_config-count (some h) = rw (compile_pages_for-count h.views)

  pub network_config-count : network_config c m ≡ network_config c n
  unfolding network_config
  network_config-count = rw (http_config-count c.outputs.http)
