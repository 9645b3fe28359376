-- ===== src/Engine/Pins.antt =====
-- crates/engine/src/delivery.rs: what a dehydration asks of the platform.
use elasticdms_desktop.Prelude.{
  ℕ, ◌≡◌, refl, inl, inr, Bool, true, false, List, [], ◌∷◌, Result, ok, err, Bool-cases,
}
use elasticdms_desktop.Prelude.Int.{ℤ}
use elasticdms_desktop.Text.{Text}
use elasticdms_desktop.Namespace.{EntryIdentifier}
use elasticdms_desktop.Delivery.{Reason, erasure, access_revoked, space_reclaim, actions}
use elasticdms_desktop.Store.Journal.{JournalEntry, JournalError}
use elasticdms_desktop.Store.Contents.{Contents, placements, remove_document_everywhere}
use elasticdms_desktop.Engine.Platform.{
  LocalState, absent, PlatformError, not_found, not_ready, in_use, operating_system, not_supported,
  FileSystem, Call, Desk, Answers, untouched, with_situation, released, removes,
}
use elasticdms_desktop.Engine.Dehydrate.{
  after_release, release, after_remove, remove_entry, free_in, free_by_state, give_location_free,
  triggered, free_one, free_all, after_removal, remove_document, redact_document, dehydrate_one,
  dehydrate_all, dehydrate,
}

-- How a release may be asked for: space reclamation only of a file that is not pinned, the other
-- reasons with the pin lifted if there is one.
abbrev Lifts : Reason → LocalState → Bool → Type 0
Lifts space_reclaim st unpin = (st.pinned ≡ false) × (unpin ≡ false)
Lifts _ st unpin = unpin ≡ st.pinned

abbrev ReleasedLast : EntryIdentifier → List Call → Type 0
ReleasedLast k (released j st unpin ∷ calls) = j ≡ k
ReleasedLast k _ = ⊥

-- The calls, the latest first: releases as above, and removals only by an erasure and each right
-- after the release of the same entry.
abbrev pub IsLawful : Reason → List Call → Type 0
IsLawful reason [] = Unit
IsLawful reason (released k st unpin ∷ calls) = Lifts reason st unpin × IsLawful reason calls
IsLawful reason (removes k ∷ calls) =
    (reason ≡ erasure) × ReleasedLast k calls × IsLawful reason calls

module _ {F : Type 0} (fs : FileSystem F) where
  after_release_calls :
      (st : LocalState) (r : Result PlatformError (Unit {0}) × F) (call : Call) (w : Desk F)
      → (after_release fs st r call w).calls ≡ call ∷ w.calls
  after_release_calls st (ok _, f) call w = refl
  after_release_calls st (err e, f) call w = refl

  after_remove_calls :
      (r : Result PlatformError (Unit {0}) × F) (call : Call) (w : Desk F)
      → (after_remove fs r call w).calls ≡ call ∷ w.calls
  after_remove_calls (ok _, f) call w = refl
  after_remove_calls (err e, f) call w = refl

  reclaim-IsLawful :
      (k : EntryIdentifier) (st : LocalState) (w : Desk F) (pinned : Bool)
      → st.pinned ≡ pinned
      → IsLawful space_reclaim w.calls
      → IsLawful space_reclaim
          (remove_entry fs k
            (actions space_reclaim pinned)
            (release fs k st (actions space_reclaim pinned) w)).calls
  unfolding actions
  reclaim-IsLawful k st w true e h = h
  reclaim-IsLawful k st w false e h =
      rw (after_release_calls st (fs.dehydrate k false w.platform) (released k st false) w)
        ((e, refl), h)

  free_in-IsLawful :
      (k : EntryIdentifier) (reason : Reason) (st : LocalState) (w : Desk F)
      → IsLawful reason w.calls
      → IsLawful reason (free_in fs k reason st w).calls
  unfolding actions
  free_in-IsLawful k erasure st w h =
      let w' =
        after_release fs st (fs.dehydrate k st.pinned w.platform) (released k st st.pinned) w in
      rw
        (
          after_remove_calls (fs.remove k w'.platform) (removes k) w',
          after_release_calls st (fs.dehydrate k st.pinned w.platform) (released k st st.pinned) w,
        )
        (refl, refl, (refl, h))
  free_in-IsLawful k access_revoked st w h =
      rw (after_release_calls st (fs.dehydrate k st.pinned w.platform) (released k st st.pinned) w)
        (refl, h)
  free_in-IsLawful k space_reclaim st w h = reclaim-IsLawful k st w st.pinned refl h

  free_by_state-IsLawful :
      (k : EntryIdentifier) (reason : Reason) (r : Result PlatformError LocalState) (w : Desk F)
      → IsLawful reason w.calls
      → IsLawful reason (free_by_state fs k reason r w).calls
  free_by_state-IsLawful k reason (ok st) w h = free_in-IsLawful k reason st w h
  free_by_state-IsLawful k reason (err (not_found _)) w h = free_in-IsLawful k reason absent w h
  free_by_state-IsLawful k reason (err not_ready) w h = free_in-IsLawful k reason absent w h
  free_by_state-IsLawful k reason (err (in_use u)) w h = h
  free_by_state-IsLawful k reason (err (operating_system u)) w h = h
  free_by_state-IsLawful k reason (err (not_supported u)) w h = h

  free_one-IsLawful :
      (mounted : Bool) (reason : Reason) (k : EntryIdentifier) (w : Desk F)
      → IsLawful reason w.calls
      → IsLawful reason (free_one fs mounted reason k w).calls
  unfolding give_location_free
  free_one-IsLawful false reason k w h = h
  free_one-IsLawful true reason k w h =
      let w' =
        with_situation (λ s. record s { to_trigger = triggered fs reason k s.to_trigger }) w in
      free_by_state-IsLawful k reason (fs.state k w.platform) w' h

  free_all-IsLawful :
      (mounted : Bool) (reason : Reason) (locations : List EntryIdentifier) (w : Desk F)
      → IsLawful reason w.calls
      → IsLawful reason (free_all fs mounted reason locations w).calls
  unfolding free_all
  free_all-IsLawful mounted reason [] w h = h
  free_all-IsLawful mounted reason (k ∷ locations) w h =
      free_all-IsLawful mounted reason locations (free_one fs mounted reason k w)
        (free_one-IsLawful mounted reason k w h)

  module _ (mounted : Bool) (reason : Reason) (now : ℤ) (limit : ℕ) where
    after_removal_calls :
        (complaint : Text) (r : Result JournalError (List JournalEntry × Contents)) (w : Desk F)
        → (after_removal fs mounted complaint r w).calls ≡ w.calls
    after_removal_calls complaint (err u) w = refl
    after_removal_calls complaint (ok (entries, contents)) w = elim (Bool-cases mounted) [
      | inl e ↦ rw e refl
      | inr e ↦ rw e refl
    ]

    remove_document_calls :
        (a : Answers) (d : ℕ) (w : Desk F)
        → (remove_document fs mounted a reason d now limit w).calls ≡ w.calls
    remove_document_calls a d w = elim (Bool-cases (actions reason false).remove_entry) [
      | inr e ↦ rw e refl
      | inl e ↦ elim (Bool-cases a.removal) [
        | inr n ↦ rw (e, n) refl
        | inl n ↦
            rw (e, n)
              (after_removal_calls a.complaint (remove_document_everywhere d now limit w.contents)
                w)
      ]
    ]

    redact_document_calls :
        (a : Answers) (d : ℕ) (w : Desk F) → (redact_document fs a reason d w).calls ≡ w.calls
    redact_document_calls a d w = elim (Bool-cases (actions reason false).redact_log) [
      | inr e ↦ rw e refl
      | inl e ↦ elim (Bool-cases a.redaction) [ inr n ↦ rw (e, n) refl | inl n ↦ rw (e, n) refl ]
    ]

    dehydrate_one-IsLawful :
        (a : Answers) (d : ℕ) (w : Desk F)
        → IsLawful reason w.calls
        → IsLawful reason (dehydrate_one fs mounted reason now limit (a, d) w).calls
    unfolding dehydrate_one
    dehydrate_one-IsLawful a d w h = elim (Bool-cases a.reads) [
      | inr e ↦ rw e h
      | inl e ↦
          rw (e, redact_document_calls a d _, remove_document_calls a d _)
            (free_all-IsLawful mounted reason (placements d w.contents) _ h)
    ]

    dehydrate_all-IsLawful :
        (documents : List (Answers × ℕ)) (w : Desk F)
        → IsLawful reason w.calls
        → IsLawful reason (dehydrate_all fs mounted reason now limit documents w).calls
    unfolding dehydrate_all
    dehydrate_all-IsLawful [] w h = h
    dehydrate_all-IsLawful ((a, d) ∷ documents) w h =
        dehydrate_all-IsLawful documents (dehydrate_one fs mounted reason now limit (a, d) w)
          (dehydrate_one-IsLawful a d w h)

    -- Whatever the platform and the database answer: space reclamation releases only files that
    -- are not pinned and removes nothing, the other reasons lift the pin with the release if there
    -- is one, and only an erasure removes an entry, each right after its release.
    pub dehydrate-IsLawful :
        (sentence : Text) (documents : List (Answers × ℕ)) (f : F) (c : Contents)
        → IsLawful reason (dehydrate fs mounted now limit sentence reason documents f c).1.calls
    unfolding dehydrate
    dehydrate-IsLawful sentence documents f c =
        dehydrate_all-IsLawful documents
          (record { platform = f; calls = []; contents = c; situation = untouched }) tt
