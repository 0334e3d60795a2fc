-- ===== src/Backend/Settings.antt =====
-- The settings methods of server/backend/api.go.
use go_proton_api.Base.{ℕ, String, string_eq, nat_eq, Bool, not, ◌||◌, ◌==◌}
use go_proton_api.Backend.Types.{MailSettings, UserSettings, setting_disabled, setting_enabled}
use go_proton_api.Backend.Updates.{user_settings_update}
use go_proton_api.Backend.Exec.{bad_value, fail_if, pure, ◌>>=◌, ◌>>◌}
use go_proton_api.Backend.Store.{M, with_acc_ret, get_acc, set_acc, post}

unfoldable pub get_mail_settings : String → M MailSettings
unfolding ◌>>=◌
get_mail_settings user_id = with_acc_ret user_id λ p. do acc ← get_acc p; pure acc.mail_settings

-- The four methods `SetMailSettings…`, which differ in the field that they write.
unfoldable pub set_mail_settings : String → (MailSettings → MailSettings) → M MailSettings
unfolding ◌>>=◌
set_mail_settings user_id edit = with_acc_ret user_id λ p. do
  set_acc p (λ acc. record acc { mail_settings = edit acc.mail_settings })
  acc ← get_acc p
  pure acc.mail_settings

unfoldable pub set_mail_settings_attach_public_key : String → Bool → M MailSettings
unfolding set_mail_settings
set_mail_settings_attach_public_key user_id attach =
    set_mail_settings user_id (λ s. record s { attach_pub_key = attach })

unfoldable pub set_mail_settings_sign : String → ℕ → M MailSettings
unfolding set_mail_settings
set_mail_settings_sign user_id sign = set_mail_settings user_id (λ s. record s { sign = sign })

unfoldable pub set_mail_settings_draft_mime_type : String → String → M MailSettings
unfolding set_mail_settings
set_mail_settings_draft_mime_type user_id mime =
    set_mail_settings user_id (λ s. record s { draft_mime_type = mime })

unfoldable pub set_mail_settings_pgp_scheme : String → ℕ → M MailSettings
unfolding set_mail_settings
set_mail_settings_pgp_scheme user_id scheme =
    set_mail_settings user_id (λ s. record s { pgp_scheme = scheme })

unfoldable pub get_user_settings : String → M UserSettings
unfolding ◌>>=◌
get_user_settings user_id = with_acc_ret user_id λ p. do acc ← get_acc p; pure acc.user_settings

-- The body that `SetUserSettingsTelemetry` and `SetUserSettingsCrashReports` share.
unfoldable pub set_user_setting : String → ℕ → (UserSettings → UserSettings) → M UserSettings
unfolding ◌>>=◌
set_user_setting user_id value edit = with_acc_ret user_id λ p. do
  fail_if (not (value == setting_disabled || value == setting_enabled)) bad_value
  set_acc p (λ acc. record acc { user_settings = edit acc.user_settings })
  acc ← get_acc p
  post p (user_settings_update acc.user_settings)
  pure acc.user_settings

unfoldable pub set_user_settings_telemetry : String → ℕ → M UserSettings
unfolding set_user_setting
set_user_settings_telemetry user_id value =
    set_user_setting user_id value (λ s. record s { telemetry = value })

unfoldable pub set_user_settings_crash_reports : String → ℕ → M UserSettings
unfolding set_user_setting
set_user_settings_crash_reports user_id value =
    set_user_setting user_id value (λ s. record s { crash_reports = value })
