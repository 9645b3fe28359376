-- ===== src/Log.antt =====
-- crates/core/src/log.rs: the rows of the local usage log.
pub mod Redaction
use elasticdms_desktop.Prelude.{
  ℕ, ◌≡◌, Bool, true, false, not, ◌&&◌, Option, none, some, List, [], ◌∷◌, if◌then◌else◌, Result,
  ok, err,
}
use elasticdms_desktop.Prelude.Int.{ℤ}
use elasticdms_desktop.Text.{Text, codes, text_eq}

-- `REDACTED`
abbrev pub marker : Text
marker = codes "REDACTED"

pub data LogKind : Type 0 where
  opened open_failed new_version space_reclaimed access_revoked erased_by_order : LogKind
  ingest_accepted ingest_failed device_registered signed_in signed_out : LogKind
  login_required connection_lost connection_restored security_warning : LogKind

pub data Severity : Type 0 where
  info notice warning : Severity

-- `LogKind::severity`
unfoldable pub severity : LogKind → Severity
severity open_failed = warning
severity ingest_failed = warning
severity security_warning = warning
severity erased_by_order = notice
severity access_revoked = notice
severity login_required = notice
severity connection_lost = notice
severity _ = info

-- `LogKind::may_carry_subject`
unfoldable pub may_carry_subject : LogKind → Bool
may_carry_subject erased_by_order = false
may_carry_subject _ = true

pub record Subject : Type 0 where
  pub name : Text
  pub document : Option ℕ
  pub location : Option Text

abbrev is_none {ℓ} : {A : Type ℓ} → Option A → Bool
is_none none = true
is_none (some _) = false

-- `Subject::is_redacted`
unfoldable pub is_redacted : Subject → Bool
is_redacted s = text_eq s.name marker && (is_none s.document && is_none s.location)

-- `Subject::display_name`; the catalogue's sentence for a redacted name is an argument
unfoldable pub display_name : Text → Subject → Text
unfolding is_redacted
display_name sentence s = if is_redacted s then sentence else s.name

pub record LogEntry : Type 0 where
  pub time : ℤ
  pub kind : LogKind
  pub subject : Option Subject
  pub detail : Option Text

pub data LogError : Type 0 where
  must_not_carry_subject : LogKind → LogError

-- `LogEntry::new`, also the `TryFrom<RawLogEntry>` through which rows are deserialized
unfoldable pub new : ℤ → LogKind → Option Subject → Option Text → Result LogError LogEntry
unfolding may_carry_subject
new time kind subject detail =
    if not (is_none subject) && not (may_carry_subject kind)
    then err (must_not_carry_subject kind)
    else ok (record { time = time; kind = kind; subject = subject; detail = detail })

-- `LogEntry::plain`
unfoldable pub plain : ℤ → LogKind → Option Text → LogEntry
plain time kind detail = record { time = time; kind = kind; subject = none; detail = detail }

-- `LogEntry::erased_by_order`
unfoldable pub erased_by_order_entry : ℤ → LogEntry
erased_by_order_entry time = record {
  time = time;
  kind = erased_by_order;
  subject = none;
  detail = none;
}

abbrev redact_subject : Option Subject → Option Subject
redact_subject none = none
redact_subject (some _) = some (record { name = marker; document = none; location = none })

-- `LogEntry::redacted`
unfoldable pub redacted : LogEntry → LogEntry
redacted e = record e { subject = redact_subject e.subject; detail = none }
