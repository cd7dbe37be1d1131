-- ===== src/State.antt =====
-- The saved state of a fixed room (internal/state/state.go): when it is valid, and how it is loaded and
-- saved with the backup of the one before. JSON is an interface, `Json`: what a state is written as,
-- and what a text is read as (`read_any` is `json.Unmarshal`, `read` the strict decoder of `loadOne`).
-- A public key stands with what base64.StdEncoding makes of its text, an address with what
-- netip.ParseAddr does.
pub mod Backup
mod Tests
use opl_core.Prelude.{
  ℕ, ◌≡◌, Bool, true, false, not, ◌&&◌, ◌||◌, List, [], ◌∷◌, if◌then◌else◌, ◌==◌, nat_eq, bytes_eq,
  Bytes, length, Option, some, none, Result, ok, err, is_some, leb,
}
use opl_core.Prelude.Dict.{Dict, lookup, insert}
use opl_core.Prelude.Addr.{Addr, v4, addr_eq}
use opl_core.Codec.Hex
use opl_core.Lease.{member_octet}

pub data Error : Type 0 where
  invalid not_exist failed : Error

pub record Member : Type 0 where
  pub public_key : Bytes
  pub key : Option Bytes
  pub ip : Option Addr
  pub name : Bytes
  pub enabled : Bool
  pub lease_revision : ℕ

pub record Room : Type 0 where
  pub schema_version : ℕ
  pub room_id : Bytes
  pub host_uid : Bytes
  pub pair_port : ℕ
  pub wire_guard_port : ℕ
  pub relay_port : ℕ
  pub join_enabled : Bool
  pub members : List Member
  pub blocked_members : List (Bytes × Option Bytes)
  pub blocked_uids : List Bytes

abbrev pub has_length : ℕ → Option Bytes → Bool
has_length n none = false
has_length n (some decoded) = length decoded == n

-- 8 bytes, in lower-case digits
abbrev pub uid_from : Option Bytes → Bytes → Bool
uid_from none uid = false
uid_from (some decoded) uid = length decoded == 8 && Hex.encode decoded == uid

unfoldable pub valid_member_ip : Addr → Bool
valid_member_ip (v4 a b c d) = a == 10 && b == 0 && c == 23 && leb 2 d && leb d 254
valid_member_ip _ = false

-- the keys that were seen so far, or none if a member is refused
unfoldable pub validate_member : Member → Option Addr → Dict Bytes Bool → Dict Addr Bool → Bool
unfolding valid_member_ip
validate_member member none keys ips = false
validate_member member (some ip) keys ips =
    has_length 32 member.key
    && valid_member_ip ip
    && not (member.lease_revision == 0)
    && not (is_some (lookup member.public_key keys))
    && not (is_some (lookup ip ips))

abbrev pub note_ip : Option Addr → Dict Addr Bool → Dict Addr Bool
note_ip none ips = ips
note_ip (some ip) ips = insert ip true ips

unfoldable pub validate_members :
    List Member → Dict Bytes Bool → Dict Addr Bool → Option (Dict Bytes Bool)
unfolding validate_member
validate_members [] keys ips = some keys
validate_members (member ∷ members) keys ips =
    let rest =
      validate_members members (insert member.public_key true keys) (note_ip member.ip ips) in
    if validate_member member member.ip keys ips then rest else none

unfoldable pub validate_blocked : List (Bytes × Option Bytes) → Dict Bytes Bool → Bool
validate_blocked [] keys = true
validate_blocked ((encoded, key) ∷ items) keys =
    let rest = validate_blocked items (insert encoded true keys) in
    if not (has_length 32 key) || is_some (lookup encoded keys) then false else rest

unfoldable pub validate_uids : Bytes → List Bytes → Dict Bytes Bool → Bool
validate_uids host_uid [] seen = true
validate_uids host_uid (uid ∷ uids) seen =
    let rest = validate_uids host_uid uids (insert uid true seen) in
    if not (uid_from (Hex.decode uid) uid) || uid == host_uid || is_some (lookup uid seen)
    then false
    else rest

abbrev pub then_blocked : Room → Option (Dict Bytes Bool) → Bool
then_blocked value none = false
then_blocked value (some keys) =
    validate_blocked value.blocked_members keys
    && validate_uids value.host_uid value.blocked_uids []

unfoldable pub validate : Room → Bool
unfolding validate_members validate_blocked validate_uids
validate value =
    let members = then_blocked value (validate_members value.members [] []) in
    if not (value.schema_version == 1)
      || not (has_length 16 (Hex.decode value.room_id))
      || value.pair_port == 0
      || value.wire_guard_port == 0
      || value.relay_port == 0
    then false
    else if not (uid_from (Hex.decode value.host_uid) value.host_uid)
    then false
    else members

pub record Json (T : Type 0) : Type 0 where
  pub write : Room → T
  pub read : T → Option Room
  pub read_any : T → Option Room

-- the state's file and its backup; a file is missing, or has some content
pub record Files (T : Type 0) : Type 0 where
  pub main : Option T
  pub backup : Option T

module _ {T : Type 0} (json : Json T) where
  abbrev pub checked : Option Room → Result Error Room
  checked none = err invalid
  checked (some value) = if validate value then ok value else err invalid

  unfoldable pub load_one : Option T → Result Error Room
  load_one none = err not_exist
  load_one (some text) = checked (json.read text)

  -- the error of the first file, where the backup is no better
  abbrev pub load_backup : Error → Result Error Room → Result Error Room
  load_backup e (ok value) = ok value
  load_backup e (err _) = err e

  abbrev pub load_from : Result Error Room → Result Error Room → Result Error Room
  load_from (ok value) backup = ok value
  load_from (err e) backup = load_backup e backup

  unfoldable pub load : Files T → Result Error Room
  unfolding load_one
  load files = load_from (load_one files.main) (load_one files.backup)

  abbrev pub is_valid_text : Option Room → Bool
  is_valid_text none = false
  is_valid_text (some value) = validate value

  -- The old content becomes the backup if it is valid; `writes` says whether each of the two writes
  -- succeeds.
  abbrev pub keep_backup : Bool → Option T → Files T → Files T × Bool
  keep_backup writes none files = (files, true)
  keep_backup writes (some old) files =
      if not (is_valid_text (json.read_any old))
      then (files, true)
      else if not writes
      then (files, false)
      else (record files { backup = some old }, true)

  abbrev pub put_main : Bool → Room → Files T × Bool → Files T × Result Error (Unit {0})
  put_main writes value (files, false) = (files, err failed)
  put_main writes value (files, true) =
      if not writes
      then (files, err failed)
      else (record files { main = some (json.write value) }, ok tt)

  unfoldable pub save : Bool → Bool → Room → Files T → Files T × Result Error (Unit {0})
  save backup_writes writes value files =
      if not (validate value)
      then (files, err invalid)
      else put_main writes value (keep_backup backup_writes files.main files)
