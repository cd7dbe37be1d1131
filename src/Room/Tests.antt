-- ===== src/Room/Tests.antt =====
-- A room at concrete inputs (internal/room/room_test.go).
use opl_core.Prelude.{
  ◌≡◌, refl, true, false, [], ◌∷◌, some, none, ok, err, Bytes, arith, bytes_eq, text,
}
use opl_core.Prelude.Dict.{lookup, insert, erase}
use opl_core.Prelude.Addr.{v4}
use opl_core.Codec.Hex
use opl_core.Invite
use opl_core.Prelude.Binary.{zeroes, is_zero}
use opl_core.Lease.Distinct.{new-IsPool}
use opl_core.Room.Reach.Callbacks.{assign_member-IsSound, acknowledged-IsSound}
use opl_core.Lease.{empty, new, assign, first_free, snapshot}
use opl_core.Pairing.Messages.{internal}
use opl_core.Pairing.Server.{Assignment}
use opl_core.Room.{find_lease, Service, Outside, member_auth_key, blocked_uid, outside}
use opl_core.Room.Join.{assign_member, pairing_failed, pairing_acknowledged}
use opl_core.Room.Join.Outcome.{Same, IsNumbered}
use opl_core.Room.Join.Rollback.{
  assign_member-error_restores, pairing_failed-assign_member, stale_report,
}
use opl_core.Room.Start.{CreateOptions, Startup, create}
use opl_core.Room.Reach.{fresh, made, next, creates, assigns, Reach-IsSound}
use opl_core.Room.Reach.Sound.{IsSound}
use opl_core.Room.Members.{remove_key, set_join_enabled, rotate_key, text_or_nil, valid_uid}
use opl_core.Room.Members.Undone.{remove_key-gone}

abbrev room : Service
room = record {
  running = true;
  fixed_room = false;
  fixed_host = false;
  join_enabled = true;
  host_uid = [];
  pair_port = 25673;
  wg_port = 25674;
  relay_port = 25675;
  room_id = [];
  room_key = 1 ∷ zeroes 11;
  host_private = [];
  host_public = 7 ∷ zeroes 31;
  allocator = some empty;
  member_states = [];
  member_psks = [];
  blocked_uids = [];
  runtime_stats = [];
  reported_stats = [];
  member_uids = [];
  pending = [];
  pair_attempt = 0;
  timers = [];
  calls = [];
}

abbrev fine : Outside
fine = record {
  apply_peer = some (λ item psk. true);
  remove_peer = some (λ key. true);
  persist = λ s. true;
  persist_secret = λ s. true;
}

abbrev no_peers : Outside
no_peers = record fine { apply_peer = some (λ item psk. false) }

abbrev no_disk : Outside
no_disk = record fine { persist = λ s. false; persist_secret = λ s. false }

abbrev alice : Bytes
alice = 1 ∷ []

peer_refused :
    assign_member no_peers alice (65 ∷ []) (5 ∷ []) false room
    ≡ ((assign_member no_peers alice (65 ∷ []) (5 ∷ []) false room).0, err internal)
unfolding assign_member assign first_free empty is_zero lookup
peer_refused = refl

room-IsSound : IsSound room
room-IsSound = record { pool = new-IsPool [] empty (unfold new in refl); has_pool = λ on. refl }

room-IsNumbered : IsNumbered alice room
unfolding empty lookup
room-IsNumbered x e = absurd (ground arith)

assign_member-error_restores_example :
    Same room (assign_member no_peers alice (65 ∷ []) (5 ∷ []) false room).0
assign_member-error_restores_example =
    assign_member-error_restores no_peers alice (65 ∷ []) (5 ∷ []) false room room-IsSound
      room-IsNumbered peer_refused

-- a room that alice has joined
abbrev joined : Service
joined =
    pairing_acknowledged alice
      (record { ip = v4 10 0 23 2; revision = 1; created = true; token = 1 })
      (assign_member fine alice (65 ∷ []) (5 ∷ []) false room).0

abbrev again : Service
again = (assign_member fine alice (66 ∷ []) (5 ∷ []) false joined).0

abbrev second : Assignment
second = record { ip = v4 10 0 23 2; revision = 1; created = false; token = 2 }

pairs_again : assign_member fine alice (66 ∷ []) (5 ∷ []) false joined ≡ (again, ok second)
unfolding assign_member assign first_free empty is_zero lookup insert pairing_acknowledged snapshot
    find_lease erase
pairs_again = refl

no_open_pairing : lookup alice joined.pending ≡ none
unfolding assign_member assign first_free empty is_zero lookup insert erase pairing_acknowledged
    snapshot find_lease
no_open_pairing = refl

joined-IsSound : IsSound joined
joined-IsSound =
    acknowledged-IsSound alice
      (record { ip = v4 10 0 23 2; revision = 1; created = true; token = 1 })
      (assign_member fine alice (65 ∷ []) (5 ∷ []) false room).0
      (assign_member-IsSound fine alice (65 ∷ []) (5 ∷ []) false room room-IsSound).left

joined-IsNumbered : IsNumbered alice joined
unfolding assign_member assign first_free empty is_zero lookup insert pairing_acknowledged snapshot
    find_lease erase
joined-IsNumbered x e = ground arith

pairing_failed-assign_member_example : Same joined (pairing_failed fine alice second again)
pairing_failed-assign_member_example =
    pairing_failed-assign_member fine alice (66 ∷ []) (5 ∷ []) false joined joined-IsSound
      joined-IsNumbered no_open_pairing pairs_again refl

one_attempt : joined.pair_attempt ≡ 1
unfolding assign_member assign first_free empty is_zero lookup insert pairing_acknowledged snapshot
    find_lease erase
one_attempt = refl

abbrev first_attempt : Assignment
first_attempt = record second { created = true; token = 1 }

stale_report_example :
    (pairing_failed fine alice first_attempt again ≡ again)
    × (pairing_acknowledged alice first_attempt again ≡ again)
stale_report_example =
    stale_report fine alice (66 ∷ []) (5 ∷ []) false joined first_attempt
      (omega (arith, one_attempt)) (omega (arith, one_attempt)) pairs_again

abbrev uid : Bytes
uid = text "0123456789abcdef"

abbrev named : Service
named = record joined { member_uids = (alice, uid) ∷ [] }

blocks :
    remove_key fine true (some alice) named ≡ ((remove_key fine true (some alice) named).0, ok tt)
unfolding remove_key assign_member assign first_free empty is_zero lookup insert
    pairing_acknowledged snapshot find_lease Hex.encode Hex.decode valid_uid
blocks = refl

remove_key-gone_example :
    (member_auth_key (remove_key fine true (some alice) named).0 alice ≡ none)
    × (lookup alice (remove_key fine true (some alice) named).0.pending ≡ none)
    × (lookup alice (remove_key fine true (some alice) named).0.timers ≡ none)
    × (true ≡ true
        → blocked_uid
            (remove_key fine true (some alice) named).0
            (text_or_nil (lookup alice named.member_uids))
          ≡ true)
remove_key-gone_example = remove_key-gone fine true alice named blocks

abbrev fixed : Service
fixed = record room { fixed_room = true }

cannot_close : set_join_enabled no_disk false fixed ≡ (fixed, err outside)
unfolding set_join_enabled
cannot_close = refl

no_randomness : rotate_key no_disk none fixed ≡ (fixed, err outside)
unfolding rotate_key
no_randomness = refl

-- A room is created, and alice joins it.
abbrev options : CreateOptions
options = record {
  host_uid = uid;
  pair_port = 25673;
  wire_guard_port = 25674;
  fixed_room_key = false;
  fixed_host_key = false;
}

abbrev startup : Startup
startup = record {
  default_host_uid = uid;
  free_pair_port = none;
  free_wire_guard_port = none;
  identity = some ([], 1 ∷ zeroes 11);
  host_key = some (9 ∷ zeroes 31, 7 ∷ zeroes 31);
  start_network = none;
  has_stop_network = false;
  listens = true;
  saved = none;
  secret = none;
}

Reach-IsSound_example :
    IsSound
      (assign_member fine alice
        (65 ∷ [])
        (5 ∷ [])
        false
        (create fine startup options (fresh 0 0)).0).0
Reach-IsSound_example = Reach-IsSound (
    next (next (made 0 0) (creates fine startup options))
      (assigns fine alice (65 ∷ []) (5 ∷ []) false))

created_runs : (create fine startup options (fresh 0 0)).0.running ≡ true
unfolding create Hex.encode Hex.decode Invite.encode Hex.to_lower is_zero
created_runs = refl
