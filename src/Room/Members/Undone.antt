-- ===== src/Room/Members/Undone.antt =====
-- Members that are gone, and changes that could not be saved (internal/room/room.go).
use opl_core.Prelude.{
  ◌≡◌, ◌∷◌, Bool, true, not, ◌&&◌, nat_eq, bytes_eq, Bytes, Option, some, none, Result, ok, err,
  arith, refl, Bool-cases, inl, inr, subst,
}
use opl_core.Prelude.Dict.{lookup, lookup-erase_self, lookup-insert_self}
use opl_core.Invite
use opl_core.Lease.{Lease}
use opl_core.Room.{
  server_drops, call_remove, Service, Outside, Error, saved, remove_ok, member_lease, blocked_uid,
  member_auth_key,
}
use opl_core.Room.Members.{
  drop_member, remove_found, remove_key, text_or_nil, set_join_enabled, rotate_key, rotate_to,
  valid_uid,
}

abbrev told : Outside → Bool → Bytes → Service → Service
told out block key s = record (drop_member block key s) {
  calls = call_remove out.remove_peer key s.calls;
}

abbrev dropped : Outside → Bool → Bytes → Service → Service
dropped out block key s = record (told out block key s) {
  calls = server_drops key ∷ call_remove out.remove_peer key s.calls;
}

remove_found_ok :
    (out : Outside) (block : Bool) (key : Bytes) (s : Service) (found : Option Lease) {s' : Service}
    → remove_found out block key s found ≡ (s', ok tt)
    → dropped out block key s ≡ s'
unfolding remove_found
remove_found_ok out block key s none h = absurd cc
remove_found_ok out block key s (some item) h =
    let invalid_id = block && not (valid_uid (text_or_nil (lookup key s.member_uids))) in
    elim (Bool-cases invalid_id) [
      | inl bad ↦ absurd (let g = simp bad at h in cc)
      | inr fine ↦ elim (Bool-cases (remove_ok out.remove_peer key)) [
        | inr bad ↦ absurd (let g = simp (fine, bad) at h in cc)
        | inl told_peer ↦ elim (Bool-cases (saved out (told out block key s))) [
          | inr bad ↦ absurd (let g = simp (fine, told_peer, bad) at h in cc)
          | inl good ↦ let g = simp (fine, told_peer, good) at h in cc
        ]
      ]
    ]

remove_key_ok :
    (out : Outside) (block : Bool) (key : Bytes) (s : Service) {s' : Service}
    → remove_key out block (some key) s ≡ (s', ok tt)
    → (s.running ≡ true) × (dropped out block key s ≡ s')
unfolding remove_key
remove_key_ok out block key s h = elim (Bool-cases s.running) [
  | inl on ↦ (on, remove_found_ok out block key s (member_lease s.allocator key) (simp on at h))
  | inr off ↦ absurd (let g = simp off at h in cc)
]

module _ (out : Outside) (block : Bool) (key : Bytes) (s : Service) where
  told-key : member_auth_key (dropped out block key s) key ≡ none
  unfolding drop_member member_auth_key
  told-key = ground (arith, lookup-erase_self key s.member_psks)

  told-pending :
      (lookup key (dropped out block key s).pending ≡ none)
      × (lookup key (dropped out block key s).timers ≡ none)
  unfolding drop_member
  told-pending = (lookup-erase_self key s.pending, lookup-erase_self key s.timers)

  told-blocked :
      s.running ≡ true
      → block ≡ true
      → blocked_uid (dropped out block key s) (text_or_nil (lookup key s.member_uids)) ≡ true
  unfolding drop_member blocked_uid
  told-blocked on b =
      let uid = text_or_nil (lookup key s.member_uids) in
      rw (on, b, lookup-insert_self uid true s.blocked_uids) refl

-- A member that was removed cannot authenticate with a key of its own any more, has no open pairing,
-- and, if it was blocked, its id is refused.
pub remove_key-gone :
    (out : Outside) (block : Bool) (key : Bytes) (s : Service) {s' : Service}
    → remove_key out block (some key) s ≡ (s', ok tt)
    → (member_auth_key s' key ≡ none)
      × (lookup key s'.pending ≡ none)
      × (lookup key s'.timers ≡ none)
      × (block ≡ true → blocked_uid s' (text_or_nil (lookup key s.member_uids)) ≡ true)
remove_key-gone out block key s {s'} h =
    let (on, e) = remove_key_ok out block key s h in
    subst
      (λ (x : Service).
        (member_auth_key x key ≡ none)
        × (lookup key x.pending ≡ none)
        × (lookup key x.timers ≡ none)
        × (block ≡ true → blocked_uid x (text_or_nil (lookup key s.member_uids)) ≡ true))
      e
      (
        told-key out block key s,
        (told-pending out block key s).0,
        (told-pending out block key s).1,
        told-blocked out block key s on,
      )

set_join_enabled-error :
    (out : Outside) (enabled : Bool) (s : Service) {s' : Service} {e : Error}
    → set_join_enabled out enabled s ≡ (s', err e)
    → s' ≡ s
unfolding set_join_enabled
set_join_enabled-error out enabled s h = elim (Bool-cases s.running) [
  | inr off ↦ let g = simp off at h in cc
  | inl on ↦ elim (Bool-cases (saved out (record s { join_enabled = enabled }))) [
    | inr bad ↦ let g = simp on at h in cc
    | inl good ↦ absurd (let g = simp on at h in cc)
  ]
]

rotate_to-error :
    (out : Outside) (next : Bytes) (s : Service) (code : Result Invite.Error Bytes) {s' : Service}
    {e : Error}
    → rotate_to out next s code ≡ (s', err e)
    → s' ≡ s
unfolding rotate_to
rotate_to-error out next s (err e) h = cc
rotate_to-error out next s (ok code) h =
    elim (Bool-cases (s.fixed_room && not (out.persist_secret (record s { room_key = next })))) [
      | inl bad ↦ let g = simp bad at h in cc
      | inr good ↦ absurd (let g = simp good at h in cc)
    ]

rotate_key-error :
    (out : Outside) (random : Option Bytes) (s : Service) {s' : Service} {e : Error}
    → rotate_key out random s ≡ (s', err e)
    → s' ≡ s
unfolding rotate_key
rotate_key-error out none s h = cc
rotate_key-error out (some next) s h = elim (Bool-cases s.running) [
  | inr off ↦ let g = simp off at h in cc
  | inl on ↦ rotate_to-error out next s _ (simp on at h)
]

-- Opening or closing the room to joiners, or rotating its key, changes nothing when it fails.
pub unchanged_on_error :
    (out : Outside) (enabled : Bool) (random : Option Bytes) (s : Service) {t r : Service}
    {e f : Error}
    → set_join_enabled out enabled s ≡ (t, err e)
    → rotate_key out random s ≡ (r, err f)
    → (t ≡ s) × (r ≡ s)
unchanged_on_error out enabled random s h k =
    (set_join_enabled-error out enabled s h, rotate_key-error out random s k)
