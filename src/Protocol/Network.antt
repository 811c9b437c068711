-- ===== src/Protocol/Network.antt =====
-- protocol/src/lib.rs: the network manifest.
use servatory.Prelude.{ℕ, Bool, List, Option}
use servatory.Prelude.Text.{Text}
use servatory.Protocol.Display.{DisplayView}

pub record HttpConfig : Type 0 where
  pub enabled : Bool
  pub port : ℕ
  pub hostname : Text
  pub pages : List DisplayView

pub data NotificationPriority : Type 0 where
  default high urgent : NotificationPriority

pub record NotificationSeverities : Type 0 where
  pub warning : Bool
  pub critical : Bool

pub record NtfyConfig : Type 0 where
  pub enabled : Bool
  pub severities : NotificationSeverities
  pub notify_recovery : Bool
  pub warning_priority : NotificationPriority
  pub critical_priority : NotificationPriority
  pub recovery_priority : NotificationPriority
  pub repeat_critical_seconds : Option ℕ
  pub server : Text
  pub click_url : Option Text

pub record NetworkConfig : Type 0 where
  pub http : HttpConfig
  pub ntfy : NtfyConfig
