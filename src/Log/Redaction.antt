-- ===== src/Log/Redaction.antt =====
-- crates/core/src/log.rs: names and their redaction.
use elasticdms_desktop.Prelude.{◌≡◌, Bool, true, false, none, some, arith}
use elasticdms_desktop.Text.{Text}
use elasticdms_desktop.Log.{LogEntry, Subject, display_name, redacted}

-- Whether a row has a subject at all.
abbrev pub has_subject : LogEntry → Bool
has_subject e = elim e.subject [ none ↦ false | some _ ↦ true ]

-- Two rows of the same kind and time, and alike in having a subject, are the same once redacted:
-- nothing of the name, the document, the place or the detail is left.
pub redacted_erases :
    (e f : LogEntry)
    → e.time ≡ f.time
    → e.kind ≡ f.kind
    → has_subject e ≡ has_subject f
    → redacted e ≡ redacted f
unfolding redacted
redacted_erases e f t k s = ground arith

-- The subject that a redaction leaves is shown by the catalogue's sentence, whatever it is.
pub display_name-redacted :
    (e : LogEntry) (s : Subject) (sentence : Text)
    → (redacted e).subject ≡ some s
    → display_name sentence s ≡ sentence
unfolding redacted display_name
display_name-redacted e s sentence h = ground arith
