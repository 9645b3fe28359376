-- ===== src/Store/Pages.antt =====
-- crates/store/src/namespace.rs: whoever asks the journal page after page gets every change once, in
-- order.
use elasticdms_desktop.Prelude.{
  ℕ, zero, suc, ◌+◌, ◌-◌, ◌≤◌, ◌<◌, ◌≡◌, ◌≢◌, refl, ap, sym, ◌∙◌, inl, inr, true, false, List, [],
  ◌∷◌, ◌++◌, arith, ltb, ◌&&◌, ◌==◌, if◌then◌else◌, length, take, drop, Result, ok, ◌>>=◌,
  Bool-cases,
}
use elasticdms_desktop.Store.Journal.{
  JournalEntry, Row, Journal, JournalError, ChangeState, rows_after, read_rows, last_sequence,
  changes_since,
}
use elasticdms_desktop.Store.Consecutive.{IsConsecutive, IsSound, rows_after-IsConsecutive}

abbrev pub entries_of : List Row → List JournalEntry
entries_of [] = []
entries_of (row ∷ rows) = row.entry ∷ entries_of rows

length-entries_of : (rows : List Row) → length (entries_of rows) ≡ length rows
length-entries_of [] = refl
length-entries_of (row ∷ rows) = ap suc (length-entries_of rows)

IsConsecutive-length : (a b : ℕ) (xs : List Row) → IsConsecutive a xs b → a + length xs ≡ b
IsConsecutive-length a b [] h = omega arith
IsConsecutive-length a b (x ∷ xs) h = omega (arith, IsConsecutive-length (a + 1) b xs h.1)

take-IsConsecutive :
    (n a b : ℕ) (xs : List Row)
    → IsConsecutive a xs b
    → IsConsecutive a (take n xs) (a + length (take n xs))
take-IsConsecutive zero a b xs h = omega arith
take-IsConsecutive (suc n) a b [] h = omega arith
take-IsConsecutive (suc n) a b (x ∷ xs) h =
    let q : a + suc (length (take n xs)) ≡ (a + 1) + length (take n xs) = omega arith in
    (h.0, rw q (take-IsConsecutive n (a + 1) b xs h.1))

read_rows_ok :
    (a b : ℕ) (xs : List Row) → IsConsecutive a xs b → read_rows a xs ≡ ok (entries_of xs)
unfolding read_rows
read_rows_ok a b [] h = refl
read_rows_ok a b (x ∷ xs) h = ground (arith, read_rows_ok (a + 1) b xs h.1)

last_sequence_of :
    (a b : ℕ) (xs : List Row) → IsConsecutive a xs b → last_sequence a (entries_of xs) ≡ b
last_sequence_of a b [] h = h
last_sequence_of a b (x ∷ xs) h = rw h.0 (last_sequence_of (a + 1) b xs h.1)

length-take_full : (n : ℕ) (xs : List Row) → length (take n xs) < n → length (take n xs) ≡ length xs
length-take_full zero xs h = absurd (omega arith)
length-take_full (suc n) [] h = refl
length-take_full (suc n) (x ∷ xs) h = ap suc (length-take_full n xs (omega arith))

none_missing :
    (page rest sequence last max : ℕ) {shown : ℕ}
    → (page < max → page ≡ rest)
    → shown ≡ page
    → sequence + rest ≡ last
    → (ltb (sequence + page) last && ltb shown max) ≡ false
none_missing page rest sequence last max full same whole = ground arith

-- The page behind `sequence`
abbrev pub page : ℕ → ℕ → Journal → List Row
page sequence max j = take max (rows_after sequence j.rows)

abbrev pub until : ℕ → ℕ → Journal → ℕ
until sequence max j = sequence + length (page sequence max j)

-- A sound journal answers every anchor that it still covers: with the next rows, and no error.
changes_since-page :
    (sequence max : ℕ) (j : Journal)
    → IsSound j
    → max ≢ 0
    → j.lower_limit ≤ sequence
    → sequence ≤ j.last
    → changes_since sequence max j
      ≡ ok (record {
        changes = entries_of (page sequence max j);
        until_sequence = until sequence max j;
        more = ltb (until sequence max j) j.last;
      })
unfolding changes_since
changes_since-page sequence max j sound some_rows from to =
    let after = rows_after-IsConsecutive j.lower_limit j.last sequence j.rows sound from to in
    let taken = take-IsConsecutive max sequence j.last (rows_after sequence j.rows) after in
    let read = read_rows_ok sequence (until sequence max j) (page sequence max j) taken in
    let end = last_sequence_of sequence (until sequence max j) (page sequence max j) taken in
    let whole = IsConsecutive-length sequence j.last (rows_after sequence j.rows) after in
    let same = length-entries_of (page sequence max j) in
    let full = length-take_full max (rows_after sequence j.rows) in
    let nonzero : (max == 0) ≡ false = ground arith in
    let covered : ltb sequence j.lower_limit ≡ false = ground arith in
    let known : ltb j.last sequence ≡ false = ground arith in
    let complete : (ltb (until sequence max j) j.last
          && ltb (length (entries_of (page sequence max j))) max)
        ≡ false =
      none_missing (length (page sequence max j)) (length (rows_after sequence j.rows)) sequence
        j.last max full same whole in
    rw (nonzero, covered, known, read, end, complete) refl

-- Who asks page after page, as long as there is more.
abbrev go_on :
    ChangeState → Result JournalError (List JournalEntry) → Result JournalError (List JournalEntry)
go_on p rest = if p.more then (do entries ← rest; ok (p.changes ++ entries)) else ok p.changes

unfoldable pub catch_up : ℕ → ℕ → ℕ → Journal → Result JournalError (List JournalEntry)
catch_up zero sequence max j = ok []
catch_up (suc rounds) sequence max j = do
  p ← changes_since sequence max j
  go_on p (catch_up rounds p.until_sequence max j)

rows_after_later :
    (s u : ℕ) (xs : List Row) → s ≤ u → rows_after u (rows_after s xs) ≡ rows_after u xs
unfolding rows_after
rows_after_later s u [] h = refl
rows_after_later s u (x ∷ xs) h = ground (arith, rows_after_later s u xs h)

rows_after_all : (a b u : ℕ) (xs : List Row) → IsConsecutive a xs b → u ≤ a → rows_after u xs ≡ xs
unfolding rows_after
rows_after_all a b u [] h le = refl
rows_after_all a b u (x ∷ xs) h le = ground (arith, rows_after_all (a + 1) b u xs h.1)

rows_after-drop :
    (k a b u : ℕ) (xs : List Row) → IsConsecutive a xs b → u ≡ a + k → rows_after u xs ≡ drop k xs
unfolding rows_after
rows_after-drop zero a b u xs h e = rows_after_all a b u xs h (omega arith)
rows_after-drop (suc k) a b u [] h e = refl
rows_after-drop (suc k) a b u (x ∷ xs) h e = ground (arith, rows_after-drop k (a + 1) b u xs h.1)

entries_of-take-drop :
    (n : ℕ) (xs : List Row)
    → entries_of (take n xs) ++ entries_of (drop (length (take n xs)) xs) ≡ entries_of xs
entries_of-take-drop zero xs = refl
entries_of-take-drop (suc n) [] = refl
entries_of-take-drop (suc n) (x ∷ xs) = ap (λ t. x.entry ∷ t) (entries_of-take-drop n xs)

take_whole : (n : ℕ) (xs : List Row) → length xs ≤ length (take n xs) → take n xs ≡ xs
take_whole zero [] h = refl
take_whole zero (x ∷ xs) h = absurd (omega arith)
take_whole (suc n) [] h = refl
take_whole (suc n) (x ∷ xs) h = ap (λ t. x ∷ t) (take_whole n xs (omega arith))

-- In a journal without a gap, from a sequence number that it covers, asking page after page ends
-- after at most one round for every change and one more, with all changes behind the number, each
-- once and in order, whatever the size of a page above zero.
pub catch_up_all :
    (rounds sequence max : ℕ) (j : Journal)
    → IsSound j
    → max ≢ 0
    → j.lower_limit ≤ sequence
    → sequence ≤ j.last
    → j.last - sequence < rounds
    → catch_up rounds sequence max j ≡ ok (entries_of (rows_after sequence j.rows))
unfolding catch_up
catch_up_all zero sequence max j sound some_rows from to enough = absurd (omega arith)
catch_up_all (suc rounds) sequence max j sound some_rows from to enough =
    let after = rows_after-IsConsecutive j.lower_limit j.last sequence j.rows sound from to in
    let whole = IsConsecutive-length sequence j.last (rows_after sequence j.rows) after in
    let full = length-take_full max (rows_after sequence j.rows) in
    let at = until sequence max j in
    let rest : rows_after at j.rows
        ≡ drop (length (page sequence max j)) (rows_after sequence j.rows) =
      sym (rows_after_later sequence at j.rows (omega arith))
      ∙ rows_after-drop (length (page sequence max j)) sequence j.last at
          (rows_after sequence j.rows) after refl in
    rw (changes_since-page sequence max j sound some_rows from to)
      (elim (Bool-cases (ltb at j.last)) [
        | inl e ↦
            let later =
              catch_up_all rounds at max j sound some_rows (omega arith) (ltb→le at j.last e) (
                shrinks (length (page sequence max j)) (length (rows_after sequence j.rows))
                  sequence j.last max rounds full whole some_rows e enough) in
            rw (e, later, rest) (ap ok (entries_of-take-drop max (rows_after sequence j.rows)))
        | inr e ↦ rw (e, take_whole max (rows_after sequence j.rows) (ground arith)) refl
      ])
  where
    ltb→le : (a b : ℕ) → ltb a b ≡ true → a ≤ b
    ltb→le a b h = ground arith

    shrinks :
        (page rest sequence last max rounds : ℕ)
        → (page < max → page ≡ rest)
        → sequence + rest ≡ last
        → max ≢ 0
        → ltb (sequence + page) last ≡ true
        → last - sequence < suc rounds
        → last - (sequence + page) < rounds
    shrinks page rest sequence last max rounds full whole some_rows e enough = ground arith
