-- ===== src/Room/Reach/Methods.antt =====
-- The methods of the host keep a room sound (internal/room/room.go).
use opl_core.Prelude.{
  Bool, true, false, not, ◌&&◌, [], ◌∷◌, nat_eq, bytes_eq, Bytes, Option, some, none, Result, ok,
  err, is_some, arith, refl, ◌∙◌,
}
use opl_core.Prelude.Dict.{lookup, insert, erase}
use opl_core.Prelude.Addr.{addr_eq}
use opl_core.Lease.{
  Lease, Allocator, new, assign, remove, restore, remove_if_revision, full, invalid,
}
use opl_core.Lease
use opl_core.Invite
use opl_core.Lease.Rebuild.{new-snapshot}
use opl_core.Prelude.{ap}
use opl_core.Room.Members.{room_invite}
use opl_core.Pairing.Messages.{valid_name}
use opl_core.Lease.Distinct.{IsPool, assign-IsPool, remove-IsPool, restore-IsPool, new-IsPool}
use opl_core.Room.{
  Service, Outside, member_lease, call_remove, server_drops, server_key, saved, remove_ok, holds,
}
use opl_core.Room.Members.{
  set_join_enabled, text_or_nil, valid_uid, remove_member, remove_key, remove_found, drop_member,
  undo_drop, reapply, decode_public_key, unblock_uid, rename_member, rename_key, rename_in, renamed,
  rebuilt, rotate_key, rotate_to, clear, stop,
}
use opl_core.Room.Reach.Sound.{
  ArePooled, IsSound, on_allocator-ArePooled, is_some-on_allocator, Leaves, leaves, carry,
  with_pool, Leaves-if, IsSound-if,
}

module _ (out : Outside) where
  pub set_join_enabled-IsSound :
      (enabled : Bool) (s : Service) → IsSound s → Leaves (set_join_enabled out enabled s)
  unfolding set_join_enabled
  set_join_enabled-IsSound enabled s v =
      let changed : Service = record s { join_enabled = enabled } in
      Leaves-if (not s.running) (leaves _ _ v) (
        Leaves-if (not (saved out changed))
          (leaves _ _ (carry s (record changed { join_enabled = s.join_enabled }) refl refl v))
          (leaves _ _ (carry s changed refl refl v)))

  drop_member-IsSound :
      (block : Bool) (key : Bytes) (s : Service) → IsSound s → IsSound (drop_member block key s)
  unfolding drop_member
  drop_member-IsSound block key s v = record {
    pool =
        on_allocator-ArePooled (λ a. (remove key a).0) (λ a w. remove-IsPool key a w) s.allocator
          v.pool;
    has_pool = λ on. is_some-on_allocator (λ a. (remove key a).0) s.allocator ∙ v.has_pool on;
  }

  undo_drop-IsSound :
      (block : Bool) (key : Bytes) (previous : Lease) (before s : Service)
      → IsSound s
      → IsSound (undo_drop block key previous before s)
  unfolding undo_drop
  undo_drop-IsSound block key previous before s v = record {
    pool =
        on_allocator-ArePooled (λ a. (restore previous a).0) (λ a w. restore-IsPool previous a w)
          s.allocator v.pool;
    has_pool = λ on. is_some-on_allocator (λ a. (restore previous a).0) s.allocator ∙ v.has_pool on;
  }

  reapply-IsSound :
      (previous : Lease) (psk : Option Bytes) (s : Service)
      → IsSound s
      → IsSound (reapply out previous psk s)
  unfolding reapply
  reapply-IsSound previous none s v = v
  reapply-IsSound previous (some psk) s v = carry s _ refl refl v

  remove_found-IsSound :
      (block : Bool) (key : Bytes) (s : Service) (o : Option Lease)
      → IsSound s
      → Leaves (remove_found out block key s o)
  unfolding remove_found
  remove_found-IsSound block key s none v = leaves _ _ v
  remove_found-IsSound block key s (some previous) v =
      let dropped = drop_member block key s in
      let told : Service = record dropped { calls = call_remove out.remove_peer key s.calls } in
      let v1 : IsSound told = carry dropped told refl refl (drop_member-IsSound block key s v) in
      let v2 = undo_drop-IsSound block key previous s told v1 in
      Leaves-if (block && not (valid_uid (text_or_nil (lookup key s.member_uids)))) (leaves _ _ v) (
        Leaves-if (not (remove_ok out.remove_peer key)) (leaves _ _ v2) (
          Leaves-if (not (saved out told))
            (leaves _ _ (
              reapply-IsSound previous (lookup key s.member_psks)
                (undo_drop block key previous s told) v2))
            (leaves _ _
              (carry told (record told { calls = server_drops key ∷ told.calls }) refl refl v1))))

  remove_key-IsSound :
      (block : Bool) (key : Option Bytes) (s : Service)
      → IsSound s
      → Leaves (remove_key out block key s)
  unfolding remove_key
  remove_key-IsSound block none s v = leaves _ _ v
  remove_key-IsSound block (some key) s v =
      Leaves-if (not s.running) (leaves _ _ v)
        (remove_found-IsSound block key s (member_lease s.allocator key) v)

  pub remove_member-IsSound :
      (block : Bool) (decoded : Option Bytes) (s : Service)
      → IsSound s
      → Leaves (remove_member out block decoded s)
  unfolding remove_member
  remove_member-IsSound block decoded s v = remove_key-IsSound block (decode_public_key decoded) s v

  pub unblock_uid-IsSound : (uid : Bytes) (s : Service) → IsSound s → Leaves (unblock_uid out uid s)
  unfolding unblock_uid
  unblock_uid-IsSound uid s v =
      let changed : Service = record s { blocked_uids = erase uid s.blocked_uids } in
      let back : Service = record changed { blocked_uids = insert uid true changed.blocked_uids } in
      Leaves-if (not (valid_uid uid)) (leaves _ _ v) (
        Leaves-if (not s.running) (leaves _ _ v) (
          Leaves-if (not (holds (lookup uid s.blocked_uids))) (leaves _ _ v) (
            Leaves-if (not (saved out changed)) (leaves _ _ (carry s back refl refl v))
              (leaves _ _ (carry s changed refl refl v)))))

  rebuilt-is_some :
      (before : Allocator) (s : Service)
      → IsPool before
      → IsSound (record s { allocator = rebuilt (new (Lease.snapshot before)) })
  rebuilt-is_some before s h =
      let (b, made, same, used) = new-snapshot before h in
      with_pool _ b (ap rebuilt made) (new-IsPool (Lease.snapshot before) b made)

  renamed-IsSound :
      (before : Allocator) (s : Service) (r : Allocator × Result Lease.Error (Lease × Bool))
      → IsPool before
      → IsPool r.0
      → Leaves (renamed out before s r)
  unfolding renamed
  renamed-IsSound before s (a, err e) h w = leaves _ _ (with_pool _ a refl w)
  renamed-IsSound before s (a, ok item) h w =
      let changed : Service = record s { allocator = some a } in
      Leaves-if (not (saved out changed)) (leaves _ _ (rebuilt-is_some before changed h))
        (leaves _ _ (with_pool changed a refl w))

  rename_in-IsSound :
      (key name : Bytes) (s : Service) (o : Option Allocator)
      → IsSound s
      → ArePooled o
      → Leaves (rename_in out key name s o)
  unfolding rename_in
  rename_in-IsSound key name s none v w = leaves _ _ v
  rename_in-IsSound key name s (some a) v w =
      Leaves-if (not (is_some (member_lease (some a) key))) (leaves _ _ v)
        (renamed-IsSound a s (assign key name a) w (assign-IsPool key name a w))

  rename_key-IsSound :
      (key : Option Bytes) (name : Bytes) (s : Service)
      → IsSound s
      → Leaves (rename_key out key name s)
  unfolding rename_key
  rename_key-IsSound none name s v = leaves _ _ v
  rename_key-IsSound (some key) name s v =
      Leaves-if (not (valid_name name)) (leaves _ _ v) (
        Leaves-if (not s.running) (leaves _ _ v)
          (rename_in-IsSound key name s s.allocator v v.pool))

  pub rename_member-IsSound :
      (decoded : Option Bytes) (name : Bytes) (s : Service)
      → IsSound s
      → Leaves (rename_member out decoded name s)
  unfolding rename_member
  rename_member-IsSound decoded name s v = rename_key-IsSound (decode_public_key decoded) name s v

  rotate_to-IsSound :
      (next : Bytes) (s : Service) (r : Result Invite.Error Bytes)
      → IsSound s
      → Leaves (rotate_to out next s r)
  unfolding rotate_to
  rotate_to-IsSound next s (err e) v = leaves _ _ v
  rotate_to-IsSound next s (ok code) v =
      let changed : Service = record s { room_key = next } in
      Leaves-if (s.fixed_room && not (out.persist_secret changed))
        (leaves _ _ (carry s (record changed { room_key = s.room_key }) refl refl v))
        (leaves _ _ (carry s (record changed { calls = server_key next ∷ s.calls }) refl refl v))

  pub rotate_key-IsSound :
      (next : Option Bytes) (s : Service) → IsSound s → Leaves (rotate_key out next s)
  unfolding rotate_key
  rotate_key-IsSound none s v = leaves _ _ v
  rotate_key-IsSound (some next) s v =
      Leaves-if (not s.running) (leaves _ _ v)
        (rotate_to-IsSound next s (Invite.encode (room_invite s next)) v)

pub clear-IsSound : (s : Service) → IsSound (clear s)
unfolding clear
clear-IsSound s = record { pool = tt; has_pool = λ on. absurd (ground arith) }

pub stop-IsSound : (s : Service) → IsSound s → IsSound (stop s)
unfolding stop
stop-IsSound s v =
    let halted : Service = record s { running = false; timers = [] } in
    let idle : IsSound halted = record { pool = v.pool; has_pool = λ on. absurd (ground arith) } in
    IsSound-if (not s.running) v (IsSound-if (not s.fixed_room) (clear-IsSound halted) idle)
