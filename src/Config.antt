-- ===== src/Config.antt =====
-- internal/config/settings.go
pub mod Loader
mod Tests
use ankiced.Base.{Bool, ℤ}
use ankiced.Text.{Text}

pub record Settings : Type 0 where
  pub db_path : Text
  pub anki_account : Text
  pub http_addr : Text
  pub backup_keep_last_n : ℤ
  pub workers : ℤ
  pub force_apply : Bool
  pub verbose : Bool
  pub full_diff : Bool
  pub report_file : Text
  pub config_path : Text
  pub default_page_size : ℤ
  pub pragma_busy_timeout : ℤ
  pub pragma_journal_mode : Text
  pub pragma_synchronous : Text
