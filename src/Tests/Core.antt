-- ===== src/Tests/Core.antt =====
-- Listings, delivery, log and file names at concrete inputs.
use elasticdms_desktop.Prelude.{
  ℕ, ◌≡◌, ◌↔◌, ◌⊎◌, refl, true, none, some, List, [], ◌∷◌, ok, err, All,
}
use elasticdms_desktop.Prelude.Int.{ℤ}
use elasticdms_desktop.Text.{Text, codes}
use elasticdms_desktop.Namespace.{Location, EntryIdentifier}
use elasticdms_desktop.Namespace.Entries.{Entry, EntryContent, FileDetails}
use elasticdms_desktop.Change.{get, index, compare}
use elasticdms_desktop.Change.Compare.{apply_all, apply_all-compare}
use elasticdms_desktop.Change.Reasons.{AreRanked, HasReason, compare_reasons}
use elasticdms_desktop.Delivery.{space_reclaim, actions}
use elasticdms_desktop.Delivery.Rules.{FollowsTable, actions-FollowsTable}
use elasticdms_desktop.Log.{opened, LogEntry, Subject, marker, redacted}
use elasticdms_desktop.Log.Redaction.{redacted_erases}
use elasticdms_desktop.Filename.{
  sanitize, assemble, clean, push_char, replace, is_control, is_whitespace, bounded, avoid_device,
  trim, trim_start, trim_end, truncate_on_bytes, truncate, stem_of, split_first,
}
use elasticdms_desktop.Filename.Siblings.{RawName, plain_name, long_name, named, named_collision}
use elasticdms_desktop.Paths.{is_below}
use elasticdms_desktop.Paths.Below.{LiesBelow, is_below_iff}
use elasticdms_desktop.Filename.Accepted.{check_name-sanitize}
use elasticdms_desktop.Checks.{device, check_name}

abbrev details : Text → FileDetails
details version = record {
  size = 3;
  sha256 = none;
  version = version;
  created = ℤ.pos 1;
  changed = ℤ.pos 2;
  media_type = codes "text/plain";
}

abbrev document : ℕ → Text → Text → Entry
document value name version = record {
  identifier = EntryIdentifier.document (Location.case 41 42) value;
  name = name;
  content = EntryContent.file (details version);
}

abbrev old_listing : List Entry
old_listing = document 1 (codes "a") (codes "v1") ∷ document 2 (codes "b") (codes "v1") ∷ []

abbrev new_listing : List Entry
new_listing = document 3 (codes "c") (codes "v1") ∷ document 2 (codes "b") (codes "v2") ∷ []

apply_all-compare_example :
    get
      (EntryIdentifier.document (Location.case 41 42) 1)
      (apply_all (index old_listing) (compare old_listing new_listing))
    ≡ get (EntryIdentifier.document (Location.case 41 42) 1) (index new_listing)
apply_all-compare_example =
    apply_all-compare old_listing new_listing (EntryIdentifier.document (Location.case 41 42) 1)

compare_reasons_example :
    AreRanked 0 (compare old_listing new_listing)
    × All (HasReason (index old_listing) (index new_listing)) (compare old_listing new_listing)
compare_reasons_example = compare_reasons old_listing new_listing

actions-FollowsTable_example : FollowsTable space_reclaim true (actions space_reclaim true)
actions-FollowsTable_example = actions-FollowsTable space_reclaim true

abbrev invoice : Subject
invoice = record { name = codes "Rechnung.pdf"; document = some 42; location = none }

abbrev invoice_row : LogEntry
invoice_row = record { time = ℤ.pos 1; kind = opened; subject = some invoice; detail = none }

abbrev letter_row : LogEntry
letter_row = record {
  time = ℤ.pos 1;
  kind = opened;
  subject =
      some (record { name = codes "Brief.pdf"; document = none; location = some (codes "Archiv") });
  detail = some (codes "detail");
}

redacted_erases_example : redacted invoice_row ≡ redacted letter_row
redacted_erases_example = redacted_erases invoice_row letter_row refl refl refl

abbrev blank : Subject
blank = record { name = marker; document = none; location = none }

abbrev same : Text → Text
same t = t

check_name-sanitize_example :
    (check_name (sanitize same (codes "con.txt")) ≡ ok tt)
    ⊎ (check_name (sanitize same (codes "con.txt")) ≡ err device)
check_name-sanitize_example = check_name-sanitize same (codes "con.txt")

-- The name of a console device that the list of the core does not have.
check_name-conin : check_name (sanitize same (codes "CONIN$")) ≡ err device
unfolding sanitize clean push_char replace is_control is_whitespace bounded avoid_device trim
    trim_start trim_end truncate_on_bytes truncate stem_of split_first check_name
check_name-conin = refl

-- A dot that stands behind a dot and a space stays at the front.
sanitize-dots : sanitize same (codes ". .x") ≡ codes ".x"
unfolding sanitize clean push_char replace is_control is_whitespace bounded avoid_device trim
    trim_start trim_end truncate_on_bytes truncate stem_of split_first
sanitize-dots = refl

abbrev contract : RawName
contract = record {
  title = codes "Vertrag";
  extension = some (codes "pdf");
  short_form = codes "AAAAAAAA";
}

abbrev annex : RawName
annex = record {
  title = codes " Vertrag";
  extension = some (codes "pdf");
  short_form = codes "BBBBBBBB";
}

named_collision_example :
    (named same same (contract ∷ annex ∷ []) [] contract ≡ long_name same same contract)
    × (named same same (contract ∷ annex ∷ []) [] annex ≡ long_name same same annex)
unfolding plain_name sanitize assemble clean push_char replace is_control is_whitespace bounded
    avoid_device trim trim_start trim_end truncate_on_bytes truncate stem_of split_first
named_collision_example = named_collision same same [] [] [] contract annex [] refl

is_below_iff_example :
    (is_below (codes "a\\b") (codes "a") ≡ true) ↔ LiesBelow (codes "a\\b") (codes "a")
is_below_iff_example = is_below_iff (codes "a\\b") (codes "a")
