-- ===== src/Delivery/Rules.antt =====
-- crates/core/src/delivery.rs: the rules on pins, and the volume limit.
use elasticdms_desktop.Prelude.{◌≤◌, ◌≡◌, ◌↔◌, Bool, true, false, ◌&&◌, [], ◌∷◌, length, ok, arith}
use elasticdms_desktop.Delivery.{
  Reason, erasure, access_revoked, space_reclaim, Actions, actions, Command, check,
  max_documents_per_command,
}

-- The table of the module: which occasions release a pin, keep the entry, or speak to the user.
pub record FollowsTable (reason : Reason) (pinned : Bool) (a : Actions) : Type 0 where
  -- A pin is released exactly where a pinned file is dehydrated.
  pub no_pin_left : a.unpin ≡ (a.dehydrate && pinned)
  -- Space reclamation respects the pin, the other two occasions do not.
  pub forced : (a.dehydrate ≡ false) ↔ ((reason ≡ space_reclaim) × (pinned ≡ true))
  -- The entry goes exactly for an erasure, and then the name goes too, and not silently.
  pub entry_gone : (a.remove_entry ≡ true) ↔ (reason ≡ erasure)
  pub name_gone : a.redact_log ≡ a.remove_entry
  pub not_silent : a.notify_user ≡ a.remove_entry
  -- A listing that may have lost a document is fetched again.
  pub listed_again : (a.trigger_reconcile ≡ true) ↔ (reason ≡ access_revoked)

-- For each reason, and for a pinned and an unpinned file: a pin is released exactly where a pinned
-- file is dehydrated, only space reclamation of a pinned file leaves the content, the entry and
-- its name go exactly for an erasure, which notifies the user, and a listing is fetched again
-- exactly for a revoked access.
pub actions-FollowsTable :
    (reason : Reason) (pinned : Bool) → FollowsTable reason pinned (actions reason pinned)
unfolding actions
actions-FollowsTable erasure true = ground arith
actions-FollowsTable _ _ = ground arith

-- The volume limit: what a command may name.
abbrev pub WithinLimit : Command → Type 0
WithinLimit (Command.dehydrate documents _) =
    (1 ≤ length documents) × (length documents ≤ max_documents_per_command)
WithinLimit _ = Unit

-- A command passes the check exactly if it is a dehydration that names at least one and at most
-- 500 documents, or of another kind.
pub check-ok_iff : (c : Command) → (check c ≡ ok tt) ↔ WithinLimit c
unfolding check
check-ok_iff (Command.dehydrate [] r) = ground arith
check-ok_iff (Command.dehydrate (d ∷ ds) r) = ground arith
check-ok_iff _ = ground arith
