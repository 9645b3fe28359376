-- ===== src/Wire/Strict.antt =====
-- crates/wire/src/delivery.rs: which envelopes become a command.
use elasticdms_desktop.Prelude.{
  ℕ, ◌≡◌, ◌≢◌, ◌↔◌, ◌⊎◌, inl, inr, refl, sym, Bool, true, false, none, some, List, [], ◌∷◌, ◌==◌,
  arith, ok, if◌then◌else◌, Result-cases, Option-cases, ==_iff,
}
use elasticdms_desktop.Text.{Text, text_eq, text_eq→eq}
use elasticdms_desktop.Namespace.Texts.{parse_container}
use elasticdms_desktop.Delivery.{Command, check}
use elasticdms_desktop.Delivery.Rules.{WithinLimit, check-ok_iff}
use elasticdms_desktop.Wire.Envelope.{
  Json, CommandKind, wire_value, from_wire_value, CommandEnvelope, Reading, seen_before,
  first_duplicate, read_payload, command,
}

-- The kind under which a command stands on the wire.
abbrev kind_of : Command → CommandKind
kind_of (Command.dehydrate _ _) = CommandKind.dehydrate
kind_of (Command.reconcile _) = CommandKind.reconcile
kind_of Command.sign_out = CommandKind.sign_out
kind_of Command.refresh_keys = CommandKind.refresh_keys

abbrev IsFresh : List ℕ → ℕ → Type 0
IsFresh [] d = Unit
IsFresh (e ∷ seen) d = (e ≢ d) × IsFresh seen d

-- No document of the list is among those seen, or stands twice.
abbrev IsDistinct : List ℕ → List ℕ → Type 0
IsDistinct seen [] = Unit
IsDistinct seen (d ∷ documents) = IsFresh seen d × IsDistinct (d ∷ seen) documents

seen_before_iff : (d : ℕ) (seen : List ℕ) → (seen_before d seen ≡ false) ↔ IsFresh seen d
unfolding seen_before
seen_before_iff d [] = ground arith
seen_before_iff d (e ∷ seen) = ground (arith, seen_before_iff d seen)

first_duplicate_iff :
    (seen documents : List ℕ) → (first_duplicate seen documents ≡ none) ↔ IsDistinct seen documents
unfolding first_duplicate
first_duplicate_iff seen [] = ground arith
first_duplicate_iff seen (d ∷ documents) =
    ground (arith, seen_before_iff d seen, first_duplicate_iff (d ∷ seen) documents)

-- The payload says just this command.
abbrev Describes : Reading → Json → Command → Type 0
Describes reading payload (Command.dehydrate documents reason) =
    (reading.dehydrate_payload payload ≡ some (documents, reason)) × IsDistinct [] documents
Describes reading payload (Command.reconcile none) = reading.reconcile_payload payload ≡ some none
Describes reading payload (Command.reconcile (some container)) =
    (t : Text) × (reading.reconcile_payload payload ≡ some (some t))
    × (parse_container t ≡ ok container)
Describes reading payload _ = reading.empty_payload payload ≡ true

-- An envelope that is to be carried out as `c`: for this device, signed, of the kind and the
-- payload of `c`, and within the volume limit.
pub record IsOrder (reading : Reading) (own : ℕ) (e : CommandEnvelope) (c : Command) : Type 0 where
  for_this_device : e.device_id ≡ own
  pub signed : e.server_signature ≢ none
  of_kind : e.kind ≡ wire_value (kind_of c)
  described : Describes reading e.payload c
  pub limited : WithinLimit c

from_wire_value-wire_value : (k : CommandKind) → from_wire_value (wire_value k) ≡ some k
unfolding from_wire_value wire_value
from_wire_value-wire_value CommandKind.dehydrate = refl
from_wire_value-wire_value CommandKind.reconcile = refl
from_wire_value-wire_value CommandKind.sign_out = refl
from_wire_value-wire_value CommandKind.refresh_keys = refl

-- Which of four tests in a row has decided.
first_of_four :
    (p q r s : Bool) {a b c d k : CommandKind}
    → (if p then some a else if q then some b else if r then some c else if s then some d else none)
      ≡ some k
    → ((p ≡ true) × (a ≡ k))
      ⊎ ((q ≡ true) × (b ≡ k))
      ⊎ ((r ≡ true) × (c ≡ k))
      ⊎ ((s ≡ true) × (d ≡ k))
first_of_four p q r s h = ground arith

from_wire_value_sound :
    (text : Text) (k : CommandKind) → from_wire_value text ≡ some k → text ≡ wire_value k
unfolding from_wire_value
from_wire_value_sound text k h =
    elim (first_of_four (text_eq (wire_value CommandKind.dehydrate) text)
      (text_eq (wire_value CommandKind.reconcile) text)
      (text_eq (wire_value CommandKind.sign_out) text)
      (text_eq (wire_value CommandKind.refresh_keys) text) h) [
        | inl (e, a) ↦ cc (a, text_eq→eq (wire_value CommandKind.dehydrate) text e)
        | inr (inl (e, a)) ↦ cc (a, text_eq→eq (wire_value CommandKind.reconcile) text e)
        | inr (inr (inl (e, a))) ↦ cc (a, text_eq→eq (wire_value CommandKind.sign_out) text e)
        | inr (inr (inr (e, a))) ↦ cc (a, text_eq→eq (wire_value CommandKind.refresh_keys) text e)
      ]

read_payload_sound :
    (reading : Reading) (k : CommandKind) (payload : Json) (c : Command)
    → read_payload reading k payload ≡ ok c
    → (k ≡ kind_of c) × Describes reading payload c
unfolding read_payload
read_payload_sound reading CommandKind.dehydrate payload c h =
    elim (Option-cases (reading.dehydrate_payload payload)) [
      | inl e ↦ ground arith
      | inr ((documents, reason), e) ↦ ground (arith, first_duplicate_iff [] documents)
    ]
read_payload_sound reading CommandKind.reconcile payload c h =
    elim (Option-cases (reading.reconcile_payload payload)) [
      | inl e ↦ ground arith
      | inr (none, e) ↦ ground arith
      | inr (some t, e) ↦ elim (Result-cases (parse_container t)) [
        | inl (container, p) ↦
            let q : Command.reconcile (some container) ≡ c = ground arith in
            rw (sym q) (refl, (t, e, p))
        | inr (_, p) ↦ ground arith
      ]
    ]
read_payload_sound reading CommandKind.sign_out payload c h = ground arith
read_payload_sound reading CommandKind.refresh_keys payload c h = ground arith

read_payload_complete :
    (reading : Reading) (payload : Json) (c : Command)
    → Describes reading payload c
    → read_payload reading (kind_of c) payload ≡ ok c
unfolding read_payload
read_payload_complete reading payload (Command.dehydrate documents reason) h =
    ground (arith, first_duplicate_iff [] documents)
read_payload_complete reading payload (Command.reconcile none) h = ground arith
read_payload_complete reading payload (Command.reconcile (some k)) h = ground arith
read_payload_complete reading payload Command.sign_out h = ground arith
read_payload_complete reading payload Command.refresh_keys h = ground arith

-- A command that is read has the kind of the envelope and passes the volume limit.
command_read :
    (reading : Reading) (own : ℕ) (e : CommandEnvelope) (c : Command)
    → command reading own e ≡ ok c
    → ((e.device_id == own) ≡ true)
      × (e.server_signature ≢ none)
      × ((k : CommandKind) × (from_wire_value e.kind ≡ some k)
          × (read_payload reading k e.payload ≡ ok c)
          × (check c ≡ ok tt))
unfolding command
command_read reading own e c h = elim (Option-cases (from_wire_value e.kind)) [
  | inl u ↦ ground arith
  | inr (k, u) ↦ elim (Result-cases (read_payload reading k e.payload)) [
    | inl (d, r) ↦ elim (Result-cases (check d)) [
      | inl (tt, v) ↦ let q : d ≡ c = ground arith in (ground arith, ground arith, (k, u, cc, cc))
      | inr (_, v) ↦ ground arith
    ]
    | inr (_, r) ↦ ground arith
  ]
]

pub command-IsOrder :
    (reading : Reading) (own : ℕ) (e : CommandEnvelope) (c : Command)
    → command reading own e ≡ ok c
    → IsOrder reading own e c
command-IsOrder reading own e c h =
    let (device, signed, (k, known, payload, limit)) = command_read reading own e c h in
    let (kind, described) = read_payload_sound reading k e.payload c payload in
    record {
      for_this_device = (==_iff e.device_id own).0 device;
      signed = signed;
      of_kind = rw (sym kind) (from_wire_value_sound e.kind k known);
      described = described;
      limited = (check-ok_iff c).0 limit;
    }

IsOrder-command :
    (reading : Reading) (own : ℕ) (e : CommandEnvelope) (c : Command)
    → IsOrder reading own e c
    → command reading own e ≡ ok c
unfolding command
IsOrder-command reading own e c h =
    let known : from_wire_value e.kind ≡ some (kind_of c) =
      rw h.of_kind (from_wire_value-wire_value (kind_of c)) in
    let read = read_payload_complete reading e.payload c h.described in
    let limit = (check-ok_iff c).1 h.limited in
    let signed = h.signed in let own_device = h.for_this_device in ground arith

-- An envelope becomes just this command exactly if it is for this device, signed, of the kind of
-- the command, with a payload that says it, without a document twice, and within the volume limit.
pub command_iff :
    (reading : Reading) (own : ℕ) (e : CommandEnvelope) (c : Command)
    → (command reading own e ≡ ok c) ↔ IsOrder reading own e c
command_iff reading own e c = (command-IsOrder reading own e c, IsOrder-command reading own e c)
