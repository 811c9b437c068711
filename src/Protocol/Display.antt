-- ===== src/Protocol/Display.antt =====
-- protocol/src/lib.rs: the display manifest.
use servatory.Prelude.{
  ℕ, Bool, ◌||◌, ◌==◌, leb, if◌then◌else◌, is_empty, Result, ok, err, List, [], ◌∷◌,
}
use servatory.Prelude.Text.{Text, codes}
use servatory.Protocol.Health.{SoftwareVersion}

pub data DisplayPage : Type 0 where
  overview : DisplayPage
  resources : DisplayPage
  storage : (filesystems_left : Bool) (filesystem_indices smart_indices : List ℕ) → DisplayPage
  power_network : (ups_left : Bool) → DisplayPage
  guests : (offset limit : ℕ) → DisplayPage

pub record DisplayLabel : Type 0 where
  pub value : Text

pub record DisplayView : Type 0 where
  pub title : DisplayLabel
  pub page : DisplayPage

pub record DisplayConfig : Type 0 where
  pub shutdown_hold_ms : ℕ
  pub shutdown_animation_delay_ms : ℕ
  pub daemon_version : SoftwareVersion
  pub filesystem_labels : List DisplayLabel
  pub pages : List DisplayView

abbrev pub unknown_version : SoftwareVersion
unknown_version = record { as_str = codes "unknown" }

-- `DisplayConfig::default`
abbrev pub default_display_config : DisplayConfig
default_display_config = record {
  shutdown_hold_ms = 3000;
  shutdown_animation_delay_ms = 200;
  daemon_version = unknown_version;
  filesystem_labels = [];
  pages = record { title = record { value = codes "OVERVIEW" }; page = overview } ∷ [];
}

pub data DisplayConfigError : Type 0 where
  display_config_error : DisplayConfigError

-- `DisplayConfig::new`
unfoldable pub new_display_config :
    ℕ → ℕ → List DisplayLabel → List DisplayView → Result DisplayConfig DisplayConfigError
new_display_config hold delay labels pages =
    if is_empty pages || hold == 0 || leb hold delay
    then err display_config_error
    else ok (record {
      shutdown_hold_ms = hold;
      shutdown_animation_delay_ms = delay;
      daemon_version = unknown_version;
      filesystem_labels = labels;
      pages = pages;
    })
