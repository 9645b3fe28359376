-- ===== src/Delivery.antt =====
-- crates/core/src/delivery.rs: what a command of the delivery channel may do on this device.
pub mod Rules
use elasticdms_desktop.Prelude.{
  ℕ, Bool, true, false, not, Option, List, [], ◌∷◌, ltb, if◌then◌else◌, length, Result, ok, err,
}
use elasticdms_desktop.Namespace.{Container}

-- `MAX_DOCUMENTS_PER_COMMAND`
abbrev pub max_documents_per_command : ℕ
max_documents_per_command = 500

pub data Reason : Type 0 where
  erasure access_revoked space_reclaim : Reason

pub record Actions : Type 0 where
  pub unpin : Bool
  pub dehydrate : Bool
  pub remove_entry : Bool
  pub trigger_reconcile : Bool
  pub notify_user : Bool
  pub redact_log : Bool

-- `actions`
unfoldable pub actions : Reason → Bool → Actions
actions erasure pinned = record {
  unpin = pinned;
  dehydrate = true;
  remove_entry = true;
  trigger_reconcile = false;
  notify_user = true;
  redact_log = true;
}
actions access_revoked pinned = record {
  unpin = pinned;
  dehydrate = true;
  remove_entry = false;
  trigger_reconcile = true;
  notify_user = false;
  redact_log = false;
}
actions space_reclaim pinned = record {
  unpin = false;
  dehydrate = not pinned;
  remove_entry = false;
  trigger_reconcile = false;
  notify_user = false;
  redact_log = false;
}

pub data Command : Type 0 where
  dehydrate : List ℕ → Reason → Command
  reconcile : Option Container → Command
  sign_out : Command
  refresh_keys : Command

-- How a command turned out
pub data CommandOutcome : Type 0 where
  applied not_applicable rejected failed : CommandOutcome

pub data CommandError : Type 0 where
  without_document : CommandError
  too_many : ℕ → CommandError

-- `check`
unfoldable pub check : Command → Result CommandError (Unit {0})
check (Command.dehydrate [] _) = err without_document
check (Command.dehydrate (d ∷ documents) _) =
    if ltb max_documents_per_command (length (d ∷ documents))
    then err (too_many (length (d ∷ documents)))
    else ok tt
check _ = ok tt
