-- ===== src/State/Tests.antt =====
-- Saved states at concrete inputs (internal/state/state_test.go), where a text is the state itself.
use opl_core.Prelude.{◌≡◌, true, false, [], ◌∷◌, Option, some, none, ok, err, refl, text}
use opl_core.Prelude.Addr.{v4}
use opl_core.Prelude.Dict.{lookup, insert}
use opl_core.Prelude.Binary.{zeroes}
use opl_core.Codec.Hex
use opl_core.State.{Room, Member, Json, Files, Error, validate, load, load_one, save}
use opl_core.State.Backup.{load-save}

abbrev itself : Json Room
itself = record { write = λ v. v; read = λ t. some t; read_any = λ t. some t }

abbrev alice : Member
alice = record {
  public_key = text "a";
  key = some (1 ∷ zeroes 31);
  ip = some (v4 10 0 23 2);
  name = text "alice";
  enabled = true;
  lease_revision = 1;
}

abbrev room : Room
room = record {
  schema_version = 1;
  room_id = text "000102030405060708090a0b0c0d0e0f";
  host_uid = text "0123456789abcdef";
  pair_port = 25673;
  wire_guard_port = 25674;
  relay_port = 25675;
  join_enabled = true;
  members = alice ∷ [];
  blocked_members = [];
  blocked_uids = [];
}

-- the same room with another port
abbrev moved : Room
moved = record room { pair_port = 25676 }

abbrev before : Files Room
before = record { main = some room; backup = none }

abbrev after : Files Room
after = record { main = some moved; backup = some room }

saves : save itself true true moved before ≡ (after, ok tt)
unfolding save validate Hex.decode Hex.encode lookup
saves = refl

load-save_example :
    (load itself after ≡ ok moved)
    × ((previous : Room) (damaged : Option Room) (e : Error)
        → load_one itself (some room) ≡ ok previous
        → load_one itself damaged ≡ err e
        → load itself (record after { main = damaged }) ≡ ok previous)
load-save_example = load-save itself true true moved before after (λ t old h. h) refl saves

twice_alice : validate (record room { members = alice ∷ alice ∷ [] }) ≡ false
unfolding validate Hex.decode Hex.encode lookup insert
twice_alice = refl
