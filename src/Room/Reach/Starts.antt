-- ===== src/Room/Reach/Starts.antt =====
-- A room that starts is sound, and one that does not start is none the worse (internal/room/room.go).
use opl_core.Prelude.{
  ℕ, ◌≡◌, Bool, true, false, not, ◌&&◌, List, [], ◌∷◌, if◌then◌else◌, ◌==◌, nat_eq, bytes_eq, Bytes,
  Option, some, none, Result, ok, err, is_some, refl, ◌∙◌, if_either,
}
use opl_core.Prelude.Dict.{Dict, lookup, insert}
use opl_core.Prelude.Addr.{addr_eq}
use opl_core.Lease.{
  Lease, Allocator, new, assign, remove, restore, remove_if_revision, full, invalid,
}
use opl_core.Lease
use opl_core.Lease.Distinct.{IsPool, new-IsPool}
use opl_core.Room.{Service, Outside, MemberStats, Call, saved}
use opl_core.Room.Members.{clear}
use opl_core.Lease.{empty, admit_all}
use opl_core.Room.{server_started, server_closed, apply_ok, call_apply, outside}
use opl_core.Room.Start.{exists, not_exist, unknown}
use opl_core.Room.Start.{
  Startup, CreateOptions, Stat, Saved, create, create_on, create_with, created, bring_up, start,
  start_with, start_members, start_leases, start_network, finish_start, apply_all, restored,
  allocator_of, cleared_with,
}
use opl_core.Room.Stats.{update_member_stats, note_stats, note_stat, leases_of}
use opl_core.Room.Reach.Sound.{ArePooled, IsSound, Leaves, leaves, carry, with_pool, Leaves-if}
use opl_core.Room.Reach.Methods.{clear-IsSound}
use opl_core.Room.Start.{
  network_config, network_ok, call_network, port_or, valid_host, peer_psk, call_stop,
  start_or_create,
}

allocator_of-ArePooled :
    (leases : List Lease) (r : Result Lease.Error Allocator)
    → new leases ≡ r
    → ArePooled (allocator_of r)
allocator_of-ArePooled leases (err e) h = tt
allocator_of-ArePooled leases (ok a) h = new-IsPool leases a h

cleared-IsSound : (f : List Call → List Call) (s : Service) → IsSound (cleared_with f s)
cleared-IsSound f s = carry (clear s) (cleared_with f s) refl refl (clear-IsSound s)

-- A room whose pool is in order may be set running.
runs :
    (s : Service) (a : Allocator)
    → s.allocator ≡ some a
    → IsPool a
    → (cs : List Call) → IsSound (record s { calls = cs; running = true })
runs s a e v cs = with_pool _ a e v

module _ (out : Outside) (up : Startup) where
  bring_up-IsSound :
      (s : Service) (a : Allocator) → s.allocator ≡ some a → IsPool a → Leaves (bring_up out up s)
  unfolding bring_up
  bring_up-IsSound s a e v =
      let config = network_config s in
      let networked : Service = record s { calls = call_network up config s.calls } in
      let listening : Service = record networked { calls = server_started ∷ networked.calls } in
      Leaves-if (not (network_ok up.start_network config)) (leaves _ _ (clear-IsSound networked)) (
        Leaves-if (not up.listens)
          (leaves _ (err outside) (cleared-IsSound (call_stop up) networked))
          (Leaves-if (s.fixed_room && not (out.persist listening))
            (leaves _ (err outside)
              (cleared-IsSound (λ calls. call_stop up (server_closed ∷ calls)) listening))
            (leaves _ (ok tt) (runs s a e v listening.calls))))

  create_with-IsSound :
      (options : CreateOptions) (host_uid : Bytes) (pair_port wg_port : ℕ)
      (identity host_key : Option (Bytes × Bytes)) (s : Service)
      → IsSound s
      → Leaves (create_with out up options host_uid pair_port wg_port identity host_key s)
  unfolding create_with
  create_with-IsSound options host_uid pair_port wg_port none host_key s v = leaves _ _ v
  create_with-IsSound options host_uid pair_port wg_port (some identity) none s v = leaves _ _ v
  create_with-IsSound options host_uid pair_port wg_port (some identity) (some host_key) s v =
      bring_up-IsSound (created options host_uid pair_port wg_port identity host_key s) empty
        (unfold created new admit_all in refl) (new-IsPool [] empty (unfold new admit_all in refl))

  create_on-IsSound :
      (options : CreateOptions) (pair_port wg_port : Option ℕ) (s : Service)
      → IsSound s
      → Leaves (create_on out up options pair_port wg_port s)
  unfolding create_on
  create_on-IsSound options none wg_port s v = leaves _ _ v
  create_on-IsSound options (some pair_port) none s v = leaves _ _ v
  create_on-IsSound options (some pair_port) (some wg_port) s v =
      let host_uid = if options.host_uid == [] then up.default_host_uid else options.host_uid in
      Leaves-if (not (valid_host host_uid pair_port)) (leaves _ _ v) (
        Leaves-if (options.fixed_room_key && not options.fixed_host_key) (leaves _ _ v)
          (create_with-IsSound options host_uid pair_port wg_port up.identity up.host_key s v))

  pub create-IsSound :
      (options : CreateOptions) (s : Service) → IsSound s → Leaves (create out up options s)
  unfolding create
  create-IsSound options s v = Leaves-if s.running (leaves _ _ v) (
      create_on-IsSound options (port_or options.pair_port up.free_pair_port)
        (port_or options.wire_guard_port up.free_wire_guard_port) s v)

  apply_all-allocator :
      (items : List Lease) (s : Service) → (apply_all out items s).0.allocator ≡ s.allocator
  unfolding apply_all
  apply_all-allocator [] s = refl
  apply_all-allocator (item ∷ items) s =
      let psk = peer_psk (lookup item.public_key s.member_psks) s item.public_key in
      let set : Service = record s {
        member_psks = insert item.public_key psk s.member_psks;
        calls = call_apply out.apply_peer item psk s.calls;
      } in
      if_either (λ (r : Service × Bool). r.0.allocator ≡ s.allocator)
        (not (item.enabled && is_some out.apply_peer)) (apply_all-allocator items s)
        (if_either (λ (r : Service × Bool). r.0.allocator ≡ s.allocator)
          (not (apply_ok out.apply_peer item psk)) refl (apply_all-allocator items set))

  finish_start-IsSound :
      (r : Service × Bool) (a : Allocator)
      → r.0.allocator ≡ some a
      → IsPool a
      → Leaves (finish_start out up r)
  unfolding finish_start
  finish_start-IsSound (s, false) a e v = leaves _ _ (cleared-IsSound (call_stop up) s)
  finish_start-IsSound (s, true) a e v =
      Leaves-if (not (out.persist_secret s))
        (leaves _ (err outside) (cleared-IsSound (call_stop up) s))
        (Leaves-if (not up.listens) (leaves _ (err outside) (cleared-IsSound (call_stop up) s))
          (leaves _ (ok tt) (runs s a e v (server_started ∷ s.calls))))

  start_network-IsSound :
      (items : List Lease) (s : Service) (a : Allocator)
      → s.allocator ≡ some a
      → IsPool a
      → Leaves (start_network out up items s)
  unfolding start_network
  start_network-IsSound items s a e v =
      let config = network_config s in
      let networked : Service = record s { calls = call_network up config s.calls } in
      Leaves-if (not (network_ok up.start_network config)) (leaves _ _ (clear-IsSound networked)) (
        finish_start-IsSound (apply_all out items networked) a
          (apply_all-allocator items networked ∙ e) v)

  module _ (saved : Saved) (secret : Bytes × Dict Bytes Bytes) (host_key : Bytes × Bytes) where
    start_leases-IsSound :
        (items : List Lease) (s : Service) (r : Result Lease.Error Allocator)
        → IsSound s
        → new items ≡ r
        → Leaves (start_leases out up saved items secret host_key s r)
    unfolding start_leases
    start_leases-IsSound items s (err e) v h = leaves _ _ v
    start_leases-IsSound items s (ok a) v h =
        start_network-IsSound items (restored saved items a secret host_key s) a
          (unfold restored in refl) (new-IsPool items a h)

    start_members-IsSound :
        (s : Service) (o : Option (List Lease))
        → IsSound s
        → Leaves (start_members out up saved secret host_key s o)
    unfolding start_members
    start_members-IsSound s none v = leaves _ _ v
    start_members-IsSound s (some items) v = start_leases-IsSound items s (new items) v refl

  start_with-IsSound :
      (saved : Option Saved) (secret : Option (Bytes × Dict Bytes Bytes))
      (host_key : Option (Bytes × Bytes)) (s : Service)
      → IsSound s
      → Leaves (start_with out up saved secret host_key s)
  unfolding start_with
  start_with-IsSound none secret host_key s v = leaves _ _ v
  start_with-IsSound (some saved) none host_key s v = leaves _ _ v
  start_with-IsSound (some saved) (some secret) none s v = leaves _ _ v
  start_with-IsSound (some saved) (some secret) (some host_key) s v =
      start_members-IsSound saved secret host_key s saved.members v

  pub start-IsSound : (s : Service) → IsSound s → Leaves (start out up s)
  unfolding start
  start-IsSound s v =
      Leaves-if s.running (leaves _ _ v) (start_with-IsSound up.saved up.secret up.host_key s v)

  pub start_or_create-IsSound :
      (stat : Stat) (options : CreateOptions) (s : Service)
      → IsSound s
      → Leaves (start_or_create out up stat options s)
  unfolding start_or_create
  start_or_create-IsSound exists options s v = start-IsSound s v
  start_or_create-IsSound not_exist options s v = create-IsSound options s v
  start_or_create-IsSound unknown options s v = leaves _ _ v

note_stat-IsSound :
    (o : Option MemberStats) (now : ℕ) (key : Bytes) (s : Service)
    → IsSound s
    → IsSound (note_stat o now key s)
unfolding note_stat
note_stat-IsSound none now key s v = v
note_stat-IsSound (some stat) now key s v = carry s _ refl refl v

note_stats-IsSound :
    (items : List Lease) (stats : Dict Bytes MemberStats) (now : ℕ) (s : Service)
    → IsSound s
    → IsSound (note_stats items stats now s)
unfolding note_stats
note_stats-IsSound [] stats now s v = v
note_stats-IsSound (item ∷ items) stats now s v =
    note_stats-IsSound items stats now _
      (note_stat-IsSound (lookup item.public_key stats) now item.public_key s v)

pub update_member_stats-IsSound :
    (stats : Dict Bytes MemberStats) (now : ℕ) (s : Service)
    → IsSound s
    → IsSound (update_member_stats stats now s)
unfolding update_member_stats
update_member_stats-IsSound stats now s v = note_stats-IsSound (leases_of s.allocator) stats now s v
