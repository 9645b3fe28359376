-- ===== src/Checks/SyncRoot.antt =====
-- crates/cfapi/src/checks.rs: the checks of what a sync root is registered with.
use elasticdms_desktop.Prelude.{
  ℕ, ◌≡◌, refl, Bool, true, false, ◌∷◌, ◌++◌, some, ltb, ◌==◌, if◌then◌else◌, length, Result, ok,
  err, ◌>>=◌, map_err,
}
use elasticdms_desktop.Text.{
  Text, contains, split_once, rsplit_once, split_once-append, rsplit_once-append,
}
use elasticdms_desktop.Filename.{is_control, trim}
use elasticdms_desktop.Checks.{utf16_len, any}

-- `MAX_PROVIDER_UTF16`, `MAX_SYNC_ROOT_IDENTIFIER_UTF16`, `MIN_BUILD`
abbrev max_provider_utf16 : ℕ
max_provider_utf16 = 255

abbrev max_sync_root_identifier_utf16 : ℕ
max_sync_root_identifier_utf16 = 255

abbrev min_build : ℕ
min_build = 16299

-- The sentences
pub data PartError : Type 0 where
  part_empty part_separator part_control part_backslash part_too_long : PartError

pub data RootError : Type 0 where
  invalid_provider : Text → PartError → RootError
  invalid_account : Text → PartError → RootError
  identifier_too_long : ℕ → RootError
  display_empty display_control : RootError
  windows_too_old : ℕ → RootError

-- `part_of_the_sync_root_identifier`
unfoldable pub check_part : Text → Result PartError (Unit {0})
unfolding is_control
check_part text =
    if length text == 0
    then err part_empty
    else if contains b'!' text
    then err part_separator
    else if any is_control text
    then err part_control
    else if contains b'\\' text
    then err part_backslash
    else ok tt

-- `check_provider`
unfoldable pub check_provider : Text → Result RootError (Unit {0})
unfolding check_part
check_provider name = map_err (invalid_provider name) (
    check_part name >>= λ _.
    (if ltb max_provider_utf16 (utf16_len name) then err part_too_long else ok tt))

-- `check_account`
unfoldable pub check_account : Text → Result RootError (Unit {0})
unfolding check_part
check_account account = map_err (invalid_account account) (check_part account)

-- `check_sync_root_identifier_length`
unfoldable pub check_sync_root_identifier_length : ℕ → Result RootError (Unit {0})
check_sync_root_identifier_length n =
    if ltb max_sync_root_identifier_utf16 n then err (identifier_too_long n) else ok tt

-- `check_display_name`
unfoldable pub check_display_name : Text → Result RootError (Unit {0})
unfolding trim is_control
check_display_name name =
    if length (trim name) == 0
    then err display_empty
    else if any is_control name
    then err display_control
    else ok tt

-- `check_build`
unfoldable pub check_build : ℕ → Result RootError (Unit {0})
check_build build = if ltb build min_build then err (windows_too_old build) else ok tt

abbrev judged_part : Bool → Bool → Bool → Bool → Result PartError (Unit {0})
judged_part none_there bang control slash =
    if none_there
    then err part_empty
    else if bang
    then err part_separator
    else if control
    then err part_control
    else if slash
    then err part_backslash
    else ok tt

judged_part_ok :
    (none_there bang control slash : Bool)
    → judged_part none_there bang control slash ≡ ok tt
    → bang ≡ false
judged_part_ok true bang control slash h = absurd cc
judged_part_ok false true control slash h = absurd cc
judged_part_ok false false control slash h = refl

check_part_ok : (t : Text) → check_part t ≡ ok tt → contains b'!' t ≡ false
unfolding check_part
check_part_ok t h =
    judged_part_ok (length t == 0) (contains b'!' t) (any is_control t) (contains b'\\' t) h

abbrev bounded_part : Bool → Result PartError (Unit {0})
bounded_part long = if long then err part_too_long else ok tt

check_provider_ok : (t : Text) → check_provider t ≡ ok tt → check_part t ≡ ok tt
unfolding check_provider
check_provider_ok t h = part (check_part t) (ltb max_provider_utf16 (utf16_len t)) h
  where
    part :
        (r : Result PartError (Unit {0})) (long : Bool)
        → map_err (invalid_provider t) (r >>= λ _. bounded_part long) ≡ ok tt
        → r ≡ ok tt
    part (ok u) long h = refl
    part (err e) long h = absurd cc

check_account_ok : (t : Text) → check_account t ≡ ok tt → check_part t ≡ ok tt
unfolding check_account
check_account_ok t h = part (check_part t) h
  where
    part : (r : Result PartError (Unit {0})) → map_err (invalid_account t) r ≡ ok tt → r ≡ ok tt
    part (ok u) h = refl
    part (err e) h = absurd cc

-- A root identifier of an accepted provider, any SID and an accepted account is taken apart at its
-- first `!` behind the provider and at its last `!` before the account.
pub sync_root_parts :
    (provider sid account : Text)
    → check_provider provider ≡ ok tt
    → check_account account ≡ ok tt
    → (split_once b'!' (provider ++ b'!' ∷ (sid ++ b'!' ∷ account))
        ≡ some (provider, sid ++ b'!' ∷ account))
      × (rsplit_once b'!' ((provider ++ b'!' ∷ sid) ++ b'!' ∷ account)
          ≡ some (provider ++ b'!' ∷ sid, account))
sync_root_parts provider sid account p a = (
  split_once-append b'!' provider (sid ++ b'!' ∷ account)
      (check_part_ok provider (check_provider_ok provider p)),
  rsplit_once-append b'!' (provider ++ b'!' ∷ sid) account
      (check_part_ok account (check_account_ok account a)),
)
