-- ===== src/Wire/Envelope.antt =====
-- crates/wire/src/delivery.rs: a command of the delivery channel, from the raw JSON value to the
-- command of the core. What `serde_json` makes of a payload, and the reading of a time, are
-- arguments (`Reading`). The causes in the errors are sentences and left out.
use elasticdms_desktop.Prelude.{
  ℕ, Bool, true, false, not, Option, none, some, List, [], ◌∷◌, ◌==◌, if◌then◌else◌, take, Result,
  ok, err, ◌>>=◌, ok_or, map_err,
}
use elasticdms_desktop.Text.{Text, codes, text_eq}
use elasticdms_desktop.Identifier.{Kind}
use elasticdms_desktop.Identifier
use elasticdms_desktop.Namespace.Texts.{parse_container}
use elasticdms_desktop.Delivery.{Reason, Command, CommandError, CommandOutcome, check}

-- `serde_json::Value`, a number as its digits
mutual
  pub data Json : Type 0 where
    null : Json
    bool : Bool → Json
    number : Text → Json
    string : Text → Json
    array : Elements → Json
    object : Fields → Json

  pub data Elements : Type 0 where
    nothing : Elements
    element : Json → Elements → Elements

  pub data Fields : Type 0 where
    end : Fields
    field : Text → Json → Fields → Fields

-- `Map::get`
unfoldable pub get : Text → Fields → Option Json
get key end = none
get key (field name value rest) = if text_eq name key then some value else get key rest

-- `Option::ok_or_else` of a text, and `str::parse` of an identifier
abbrev as_text : Option Json → Option Text
as_text (some (string t)) = some t
as_text _ = none

-- `text_field`
unfoldable pub text_field : Fields → Text → Option Text
unfolding get
text_field raw name = as_text (get name raw)

abbrev ok_of {ℓ κ} : {E : Type ℓ} {A : Type κ} → Result E A → Option A
ok_of (ok a) = some a
ok_of (err _) = none

-- `text_field(..).and_then(|t| t.parse())`
abbrev parse_field : Kind → Option Text → Option ℕ
parse_field kind none = none
parse_field kind (some t) = ok_of (Identifier.parse kind t)

-- `CommandKind`
pub data CommandKind : Type 0 where
  dehydrate reconcile sign_out refresh_keys : CommandKind

-- `wire_value`
unfoldable pub wire_value : CommandKind → Text
wire_value CommandKind.dehydrate = codes "DEHYDRATE"
wire_value CommandKind.reconcile = codes "RECONCILE"
wire_value CommandKind.sign_out = codes "SIGN_OUT"
wire_value CommandKind.refresh_keys = codes "REFRESH_KEYS"

-- `from_wire_value`: the first kind of the list that has the text
unfoldable pub from_wire_value : Text → Option CommandKind
unfolding wire_value
from_wire_value text =
    if text_eq (wire_value CommandKind.dehydrate) text
    then some CommandKind.dehydrate
    else if text_eq (wire_value CommandKind.reconcile) text
    then some CommandKind.reconcile
    else if text_eq (wire_value CommandKind.sign_out) text
    then some CommandKind.sign_out
    else if text_eq (wire_value CommandKind.refresh_keys) text
    then some CommandKind.refresh_keys
    else none

pub data EnvelopeError : Type 0 where
  without_identifier : EnvelopeError
  unreadable : ℕ → EnvelopeError

-- `EnvelopeError::command`
unfoldable pub acknowledgeable : EnvelopeError → Option ℕ
acknowledgeable without_identifier = none
acknowledgeable (unreadable command) = some command

-- `CommandEnvelope`
pub record CommandEnvelope : Type 0 where
  pub raw : Fields
  pub command_id : ℕ
  pub device_id : ℕ
  pub kind : Text
  pub issued_at : Text
  pub payload : Json
  pub server_signature : Option Text

-- What the code relies on outside: whether a text is a time (`WireTimestamp::read`), and
-- `serde_json::from_value` of the three payload types.
pub record Reading : Type 0 where
  pub is_timestamp : Text → Bool
  pub dehydrate_payload : Json → Option (List ℕ × Reason)
  pub reconcile_payload : Json → Option (Option Text)
  pub empty_payload : Json → Bool

abbrev time_field : Reading → Option Text → Option Text
time_field reading none = none
time_field reading (some t) = if reading.is_timestamp t then some t else none

-- The `match` on `serverSignature`: the outer `none` is the error.
abbrev signature_field : Option Json → Option (Option Text)
signature_field none = some none
signature_field (some null) = some none
signature_field (some (string s)) = some (some s)
signature_field _ = none

-- `CommandEnvelope::from_value`, for an object
abbrev from_object : Reading → Fields → Result EnvelopeError CommandEnvelope
from_object reading raw = do
  command_id ←
      ok_or without_identifier (parse_field Kind.command (text_field raw (codes "commandId")))
  device_id ←
      ok_or (unreadable command_id) (parse_field Kind.device (text_field raw (codes "deviceId")))
  kind ← ok_or (unreadable command_id) (text_field raw (codes "kind"))
  issued_at ← ok_or (unreadable command_id) (time_field reading (text_field raw (codes "issuedAt")))
  payload ← ok_or (unreadable command_id) (get (codes "payload") raw)
  server_signature ←
      ok_or (unreadable command_id) (signature_field (get (codes "serverSignature") raw))
  ok (record {
    raw = raw;
    command_id = command_id;
    device_id = device_id;
    kind = kind;
    issued_at = issued_at;
    payload = payload;
    server_signature = server_signature;
  })

-- `CommandEnvelope::from_value`
unfoldable pub from_value : Reading → Json → Result EnvelopeError CommandEnvelope
from_value reading (object raw) = from_object reading raw
from_value reading _ = err without_identifier

pub data CommandReadError : Type 0 where
  foreign_device : ℕ → ℕ → CommandReadError
  without_signature : CommandReadError
  unknown_kind : Text → CommandReadError
  unreadable_payload : CommandKind → CommandReadError
  duplicate_document : ℕ → CommandReadError
  amount : CommandError → CommandReadError

-- `HashSet::contains`
unfoldable pub seen_before : ℕ → List ℕ → Bool
seen_before d [] = false
seen_before d (e ∷ seen) = if e == d then true else seen_before d seen

-- `document_ids.iter().find(|d| !seen.insert(**d))`
unfoldable pub first_duplicate : List ℕ → List ℕ → Option ℕ
unfolding seen_before
first_duplicate seen [] = none
first_duplicate seen (d ∷ documents) =
    let later = first_duplicate (d ∷ seen) documents in if seen_before d seen then some d else later

abbrev without_duplicate : List ℕ → Reason → Option ℕ → Result CommandReadError Command
without_duplicate documents reason none = ok (Command.dehydrate documents reason)
without_duplicate documents reason (some d) = err (duplicate_document d)

abbrev named_container : Option Text → Result CommandReadError Command
named_container none = ok (Command.reconcile none)
named_container (some t) = do
  container ← map_err (λ _. unreadable_payload CommandKind.reconcile) (parse_container t)
  ok (Command.reconcile (some container))

-- The `match catalogue_kind` of `command`
unfoldable pub read_payload : Reading → CommandKind → Json → Result CommandReadError Command
unfolding first_duplicate
read_payload reading CommandKind.dehydrate payload = do
  n ← ok_or (unreadable_payload CommandKind.dehydrate) (reading.dehydrate_payload payload)
  without_duplicate n.0 n.1 (first_duplicate [] n.0)
read_payload reading CommandKind.reconcile payload = do
  n ← ok_or (unreadable_payload CommandKind.reconcile) (reading.reconcile_payload payload)
  named_container n
read_payload reading CommandKind.sign_out payload =
    if reading.empty_payload payload
    then ok Command.sign_out
    else err (unreadable_payload CommandKind.sign_out)
read_payload reading CommandKind.refresh_keys payload =
    if reading.empty_payload payload
    then ok Command.refresh_keys
    else err (unreadable_payload CommandKind.refresh_keys)

abbrev pub is_none {ℓ} : {A : Type ℓ} → Option A → Bool
is_none none = true
is_none (some _) = false

-- `CommandEnvelope::command`
unfoldable pub command : Reading → ℕ → CommandEnvelope → Result CommandReadError Command
command reading own_device envelope =
    if not (envelope.device_id == own_device)
    then err (foreign_device own_device envelope.device_id)
    else if is_none envelope.server_signature
    then err without_signature
    else (do
      kind ← ok_or (unknown_kind envelope.kind) (from_wire_value envelope.kind)
      c ← read_payload reading kind envelope.payload
      _ ← map_err amount (check c)
      ok c)

-- `MAX_DETAIL_CHARACTER`
abbrev max_detail_character : ℕ
max_detail_character = 500

pub record Acknowledgement : Type 0 where
  pub outcome : CommandOutcome
  pub detail : Option Text

abbrev shortened : Option Text → Option Text
shortened none = none
shortened (some t) = some (take max_detail_character t)

-- `Acknowledgement::new`
unfoldable pub acknowledgement : CommandOutcome → Option Text → Acknowledgement
acknowledgement outcome detail = record { outcome = outcome; detail = shortened detail }
