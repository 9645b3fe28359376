-- ===== src/Store/Consecutive.antt =====
-- crates/store/src/namespace.rs: the numbers of the journal have no gap, whatever is written.
use elasticdms_desktop.Prelude.{
  ℕ, suc, ◌+◌, ◌-◌, ◌≤◌, ◌<◌, ◌≡◌, refl, ap, inl, inr, List, [], ◌∷◌, ◌++◌, arith, leb, length, ok,
  err, Bool-cases, leb→le, le→leb,
}
use elasticdms_desktop.Prelude.Int.{ℤ}
use elasticdms_desktop.Namespace.EntryIds.{document}
use elasticdms_desktop.Change.{Change, identifier}
use elasticdms_desktop.Store.Journal.{
  JournalEntry, Row, Journal, number_too_large, JournalForm, max_number, stored_form,
  number_changes, drop_until, truncate_journal, journal, redact_rows, rows_after,
}

-- The rows carry the numbers behind `lower` up to `last`, each once, in order.
abbrev pub IsConsecutive : ℕ → List Row → ℕ → Type 0
IsConsecutive lower [] last = lower ≡ last
IsConsecutive lower (row ∷ rows) last =
    (row.entry.sequence ≡ lower + 1) × IsConsecutive (lower + 1) rows last

-- `lower_limit` and `last` say which numbers the journal holds.
abbrev pub IsSound : Journal → Type 0
IsSound j = IsConsecutive j.lower_limit j.rows j.last

IsConsecutive-append :
    (a b c : ℕ) (xs ys : List Row)
    → IsConsecutive a xs b
    → IsConsecutive b ys c
    → IsConsecutive a (xs ++ ys) c
IsConsecutive-append a b c [] ys h k = rw h k
IsConsecutive-append a b c (x ∷ xs) ys h k = (h.0, IsConsecutive-append (a + 1) b c xs ys h.1 k)

IsConsecutive-le : (a b : ℕ) (xs : List Row) → IsConsecutive a xs b → a ≤ b
IsConsecutive-le a b [] h = omega arith
IsConsecutive-le a b (x ∷ xs) h = omega (arith, IsConsecutive-le (a + 1) b xs h.1)

-- What lies behind a bound is consecutive from there on.
drop_until_none :
    (a b bound : ℕ) (xs : List Row) → IsConsecutive a xs b → bound ≤ a → drop_until bound xs ≡ xs
unfolding drop_until
drop_until_none a b bound [] h le = refl
drop_until_none a b bound (x ∷ xs) h le = ground (arith, drop_until_none (a + 1) b bound xs h.1)

drop_until-IsConsecutive :
    (a b bound : ℕ) (xs : List Row)
    → IsConsecutive a xs b
    → a ≤ bound
    → bound ≤ b
    → IsConsecutive bound (drop_until bound xs) b
unfolding drop_until
drop_until-IsConsecutive a b bound [] h le ge = omega arith
drop_until-IsConsecutive a b bound (x ∷ xs) h le ge =
    elim (Bool-cases (leb x.entry.sequence bound)) [
      | inl e ↦ rw e (drop_until-IsConsecutive (a + 1) b bound xs h.1 (ground arith) ge)
      | inr e ↦
          let same : bound ≡ a = ground arith in
          rw (e, drop_until_none (a + 1) b bound xs h.1 (omega arith), same) h
    ]

rows_after-drop_until :
    (sequence : ℕ) (xs : List Row) → rows_after sequence xs ≡ drop_until sequence xs
unfolding rows_after drop_until
rows_after-drop_until sequence [] = refl
rows_after-drop_until sequence (x ∷ xs) = ground (arith, rows_after-drop_until sequence xs)

pub rows_after-IsConsecutive :
    (a b sequence : ℕ) (xs : List Row)
    → IsConsecutive a xs b
    → a ≤ sequence
    → sequence ≤ b
    → IsConsecutive sequence (rows_after sequence xs) b
rows_after-IsConsecutive a b sequence xs h le ge =
    rw (rows_after-drop_until sequence xs) (drop_until-IsConsecutive a b sequence xs h le ge)

-- The changes under the next numbers, as they are returned and as they are stored.
abbrev pub numbered : ℕ → List Change → List JournalEntry
numbered last [] = []
numbered last (c ∷ changes) =
    record { sequence = last + 1; change = c } ∷ numbered (last + 1) changes

abbrev numbered_rows : JournalForm → ℤ → ℕ → List Change → List Row
numbered_rows form time last [] = []
numbered_rows form time last (c ∷ changes) =
    record {
      entry = record { sequence = last + 1; change = stored_form form c };
      time = time;
      document = document (identifier c);
    }
    ∷ numbered_rows form time (last + 1) changes

-- Numbers are given out as long as they fit the database, and else nothing is written.
number_changes_fit :
    (form : JournalForm) (time : ℤ) (last : ℕ) (changes : List Change)
    → last + length changes ≤ max_number
    → number_changes form time last changes
      ≡ ok (numbered_rows form time last changes, numbered last changes)
unfolding number_changes
number_changes_fit form time last [] h = refl
number_changes_fit form time last (c ∷ changes) h =
    rw
      (
        le→leb (last + 1) max_number (omega arith),
        number_changes_fit form time (last + 1) changes (omega arith),
      )
      refl

number_changes_full :
    (form : JournalForm) (time : ℤ) (last : ℕ) (changes : List Change)
    → last ≤ max_number
    → max_number < last + length changes
    → number_changes form time last changes ≡ err (number_too_large (max_number + 1))
unfolding number_changes
number_changes_full form time last [] le h = absurd (omega arith)
number_changes_full form time last (c ∷ changes) le h =
    elim (Bool-cases (leb (last + 1) max_number)) [
      | inl e ↦
          rw
            (
              e,
              number_changes_full form time (last + 1) changes (leb→le (last + 1) max_number e)
                  (omega arith),
            )
            refl
      | inr e ↦ rw e (ap (λ n. err (number_too_large n)) (ground arith))
    ]

numbered_rows-IsConsecutive :
    (form : JournalForm) (time : ℤ) (last : ℕ) (changes : List Change)
    → IsConsecutive last (numbered_rows form time last changes) (last + length changes)
numbered_rows-IsConsecutive form time last [] = omega arith
numbered_rows-IsConsecutive form time last (c ∷ changes) =
    let q : last + suc (length changes) ≡ (last + 1) + length changes = omega arith in
    (refl, rw q (numbered_rows-IsConsecutive form time (last + 1) changes))

truncate_journal_last : (limit : ℕ) (j : Journal) → (truncate_journal limit j).last ≡ j.last
unfolding truncate_journal
truncate_journal_last limit j = ground arith

truncate_journal-IsSound :
    (limit : ℕ) (j : Journal) → IsSound j → IsSound (truncate_journal limit j)
unfolding truncate_journal
truncate_journal-IsSound limit j h = elim (Bool-cases (leb (j.last - j.lower_limit) limit)) [
  | inl e ↦ rw e h
  | inr e ↦ rw e (
      drop_until-IsConsecutive j.lower_limit j.last (j.last - limit) j.rows h (ground arith)
        (omega arith))
]

-- As long as the numbers fit the database, entering changes in a journal without a gap returns
-- each change under the next number, and leaves a journal without a gap up to the last of them,
-- whatever is trimmed.
pub journal_fit :
    (changes : List Change) (time : ℤ) (limit : ℕ) (form : JournalForm) (j : Journal)
    → j.last + length changes ≤ max_number
    → IsSound j
    → (j' : Journal) × (journal changes time limit form j ≡ ok (numbered j.last changes, j'))
      × IsSound j'
      × (j'.last ≡ j.last + length changes)
unfolding journal
journal_fit [] time limit form j fit sound = (j, refl, sound, omega arith)
journal_fit (c ∷ changes) time limit form j fit sound =
    let more : Journal = record {
      rows = j.rows ++ numbered_rows form time j.last (c ∷ changes);
      last = j.last + length (c ∷ changes);
      lower_limit = j.lower_limit;
    } in
    (
      truncate_journal limit more,
      rw (number_changes_fit form time j.last (c ∷ changes) fit) refl,
      truncate_journal-IsSound limit more (
          IsConsecutive-append j.lower_limit j.last more.last j.rows
            (numbered_rows form time j.last (c ∷ changes)) sound
            (numbered_rows-IsConsecutive form time j.last (c ∷ changes))),
      truncate_journal_last limit more,
    )

redact_rows-IsConsecutive :
    (d a b : ℕ) (xs : List Row) → IsConsecutive a xs b → IsConsecutive a (redact_rows d xs) b
unfolding redact_rows
redact_rows-IsConsecutive d a b [] h = h
redact_rows-IsConsecutive d a b (x ∷ xs) h =
    ground (arith, redact_rows-IsConsecutive d (a + 1) b xs h.1)
