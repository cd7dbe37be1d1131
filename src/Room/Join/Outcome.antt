-- ===== src/Room/Join/Outcome.antt =====
-- How an attempt to pair may come out (internal/room/room.go, `assign`).
use opl_core.Prelude.{
  ◌+◌, ◌≡◌, Bool, false, not, ◌&&◌, ◌||◌, ◌==◌, ==_iff, nat_eq, bytes_eq, Bytes, Option, some, none,
  Result, ok, err, is_some, arith, refl, Bool-cases, Option-cases, inl, inr, subst, sym, ◌≢◌,
}
use opl_core.Prelude.Dict.{
  Dict, lookup, insert, erase, lookup-insert, lookup-erase, lookup-insert_self,
}
use opl_core.Pairing.Messages.{room_full, internal}
use opl_core.Pairing.Messages
use opl_core.Pairing.Server.{Assignment}
use opl_core.Lease.{Lease, Allocator, assign, u64, full, invalid}
use opl_core.Lease
use opl_core.Room.{
  Service, Outside, put_back, saved, apply_ok, on_allocator, member_lease, enabled_member, pairing,
}
use opl_core.Room.Find.{find_lease-snapshot}
use opl_core.Room.Reach.Sound.{IsSound, ArePooled}
use opl_core.Room.Join.Undo.{SamePool, SamePool-refl, leased, undo-assign}
use opl_core.Room.Join.{
  undo_lease, rollback_pair, attempt, pair_pending, set_peer, mark_pairing, pair_psk, granted,
  grant_member, assign_member,
}

module _ {ℓ} {V : Type ℓ} where
  lookup-put_back :
      (k j : Bytes) (m m' : Dict Bytes V)
      → (((k == j) ≡ false) → lookup j m' ≡ lookup j m)
      → lookup j (put_back k (lookup k m) m') ≡ lookup j m
  lookup-put_back k j m m' h = elim (Option-cases (lookup k m)) [
    | inl e ↦ rw e (ground (arith, lookup-erase k j m', ==_iff k j))
    | inr (v, e) ↦ rw e (ground (arith, lookup-insert k j v m', ==_iff k j))
  ]

  lookup-put_back-insert :
      (k j : Bytes) (v : V) (m : Dict Bytes V)
      → lookup j (put_back k (lookup k m) (insert k v m)) ≡ lookup j m
  lookup-put_back-insert k j v m =
      lookup-put_back k j m (insert k v m) (λ h. ground (arith, lookup-insert k j v m))

  lookup-erase-insert :
      (k j : Bytes) (v : V) (m : Dict Bytes V)
      → lookup k m ≡ none
      → lookup j (erase k (insert k v m)) ≡ lookup j m
  lookup-erase-insert k j v m h =
      ground (arith, lookup-insert k j v m, lookup-erase k j (insert k v m), ==_iff k j)

-- Two states that agree in what the members' peers, states, open pairings and leases are, for every
-- key, in the octets that are marked as used, and in what concerns the room as a whole.
pub record Same (s t : Service) : Type 0 where
  pub psks : (j : Bytes) → lookup j t.member_psks ≡ lookup j s.member_psks
  pub states : (j : Bytes) → lookup j t.member_states ≡ lookup j s.member_states
  pub pending : (j : Bytes) → lookup j t.pending ≡ lookup j s.pending
  pub running : t.running ≡ s.running
  pub join_enabled : t.join_enabled ≡ s.join_enabled
  pub room_key : t.room_key ≡ s.room_key
  pub blocked : t.blocked_uids ≡ s.blocked_uids
  pub pool : SamePool s.allocator t.allocator

Same-refl : (s : Service) → Same s s
Same-refl s = record {
  psks = λ j. refl;
  states = λ j. refl;
  pending = λ j. refl;
  running = refl;
  join_enabled = refl;
  room_key = refl;
  blocked = refl;
  pool = SamePool-refl s.allocator;
}

-- The lease that the key has, if it has one, was given out with a revision.
abbrev pub IsNumbered : Bytes → Service → Type 0
IsNumbered key s = (x : Lease) → leased s.allocator key ≡ some x → x.revision ≢ 0

-- The pool as a rollback finds it: taking the key's lease back gives that of before, in a sound room.
abbrev pub Undoes : Bytes → Service → Option Allocator → Type 0
Undoes key s q =
    IsSound s
    → IsNumbered key s
    → SamePool s.allocator (on_allocator (undo_lease key (member_lease s.allocator key)) q)

-- Two states that agree everywhere but at one member, whose lease can be taken back.
pub record Apart (key : Bytes) (s t : Service) : Type 0 where
  pub psks : (j : Bytes) → (key == j) ≡ false → lookup j t.member_psks ≡ lookup j s.member_psks
  pub states :
      (j : Bytes) → (key == j) ≡ false → lookup j t.member_states ≡ lookup j s.member_states
  pub pending : (j : Bytes) → (key == j) ≡ false → lookup j t.pending ≡ lookup j s.pending
  pub running : t.running ≡ s.running
  pub join_enabled : t.join_enabled ≡ s.join_enabled
  pub room_key : t.room_key ≡ s.room_key
  pub blocked : t.blocked_uids ≡ s.blocked_uids
  pub pool : Undoes key s t.allocator

pub rollback-Same :
    (out : Outside) (key : Bytes) (s t : Service)
    → lookup key s.pending ≡ none
    → Apart key s t
    → IsSound s
    → IsNumbered key s
    → Same s (rollback_pair out key (pair_pending key s) t)
unfolding rollback_pair pair_pending
rollback-Same out key s t free r sound numbered = record {
  psks = λ j. lookup-put_back key j s.member_psks t.member_psks (r.psks j);
  states = λ j. lookup-put_back key j s.member_states t.member_states (r.states j);
  pending = λ j. ground (arith, lookup-erase key j t.pending, r.pending j, ==_iff key j);
  running = r.running;
  join_enabled = r.join_enabled;
  room_key = r.room_key;
  blocked = r.blocked;
  pool = r.pool sound numbered;
}

module _ (out : Outside) (key psk : Bytes) (existing : Bool) (item : Lease) (a : Allocator)
    (s : Service) (undoes : Undoes key s (some a)) where
  set_peer-Apart : Apart key s (set_peer out key psk existing item a s)
  unfolding set_peer
  set_peer-Apart = record {
    psks = λ j n. ground (arith, lookup-insert key j psk s.member_psks);
    states = λ j n. refl;
    pending = λ j n. ground (arith, lookup-insert key j (pair_pending key s) s.pending);
    running = refl;
    join_enabled = refl;
    room_key = refl;
    blocked = refl;
    pool = undoes;
  }

set_peer-pending :
    (out : Outside) (key psk : Bytes) (existing : Bool) (item : Lease) (a : Allocator) (s : Service)
    → lookup key (set_peer out key psk existing item a s).pending ≡ some (pair_pending key s)
unfolding set_peer
set_peer-pending out key psk existing item a s = lookup-insert_self key _ s.pending

mark_pairing-Apart :
    (key : Bytes) (s t : Service) → Apart key s t → Apart key s (mark_pairing key t)
mark_pairing-Apart key s t r = record {
  psks = r.psks;
  states = λ j n. ground (arith, lookup-insert key j pairing t.member_states, r.states j n);
  pending = r.pending;
  running = r.running;
  join_enabled = r.join_enabled;
  room_key = r.room_key;
  blocked = r.blocked;
  pool = r.pool;
}

pub dropped-Apart :
    (key : Bytes) (s t : Service)
    → Apart key s t
    → Apart key s (record t { pending = erase key t.pending })
dropped-Apart key s t r = record {
  psks = r.psks;
  states = r.states;
  pending = λ j n. ground (arith, lookup-erase key j t.pending, r.pending j n);
  running = r.running;
  join_enabled = r.join_enabled;
  room_key = r.room_key;
  blocked = r.blocked;
  pool = r.pool;
}

-- How an attempt may come out.
pub data Outcome (out : Outside) (key : Bytes) (s : Service)
    : Service × Result Messages.Error Assignment → Type 0 where
  rolled_back :
      {t : Service} {e : Messages.Error}
      → (IsSound s → IsNumbered key s → Same s t)
      → Outcome out key s (t, err e)
  started :
      {t : Service} {g : Assignment}
      → Apart key s t
      → lookup key t.pending ≡ some (pair_pending key s)
      → g.token ≡ u64 (s.pair_attempt + 1)
      → Outcome out key s (t, ok g)

attempt-Outcome :
    (out : Outside) (key room_key : Bytes) (existing : Bool) (item : Lease) (created : Bool)
    (a : Allocator) (s : Service)
    → lookup key s.pending ≡ none
    → Undoes key s (some a)
    → Outcome out key s (attempt out key room_key existing item created a s)
unfolding attempt
attempt-Outcome out key room_key existing item created a s free undoes =
    let psk = pair_psk existing room_key (lookup key s.member_psks) s.host_public key in
    let peered = set_peer out key psk existing item a s in
    let apart = set_peer-Apart out key psk existing item a s undoes in
    let marked = mark_pairing-Apart key s peered apart in
    elim (Bool-cases (not existing && not (apply_ok out.apply_peer item psk))) [
      | inl bad ↦ rw bad (rolled_back (rollback-Same out key s peered free apart))
      | inr fine ↦ elim (Bool-cases (saved out (mark_pairing key peered))) [
        | inr bad ↦
            rw (fine, bad)
              (rolled_back (rollback-Same out key s (mark_pairing key peered) free marked))
        | inl good ↦
            rw (fine, good) (started marked (set_peer-pending out key psk existing item a s) refl)
      ]
    ]

granted-Outcome :
    (out : Outside) (key room_key : Bytes) (existing : Bool) (s : Service)
    (r : Allocator × Result Lease.Error (Lease × Bool))
    → lookup key s.pending ≡ none
    → ((item : Lease × Bool) → r.1 ≡ ok item → Undoes key s (some r.0))
    → Outcome out key s (granted out key room_key existing s r)
unfolding granted
granted-Outcome out key room_key existing s (a, err full) free undoes =
    rolled_back (λ sound numbered. Same-refl s)
granted-Outcome out key room_key existing s (a, err invalid) free undoes =
    rolled_back (λ sound numbered. Same-refl s)
granted-Outcome out key room_key existing s (a, ok (item, created)) free undoes =
    attempt-Outcome out key room_key existing item created a s free (undoes (item, created) refl)

assign-Undoes :
    (key name : Bytes) (s : Service) (a : Allocator) {item : Lease} {created : Bool}
    → s.allocator ≡ some a
    → (assign key name a).1 ≡ ok (item, created)
    → Undoes key s (some (assign key name a).0)
unfolding member_lease
assign-Undoes key name s a {item} {created} e h sound numbered =
    subst
      (λ p.
        ArePooled p
        → ((x : Lease) → leased p key ≡ some x → x.revision ≢ 0)
        → SamePool p (some (undo_lease key (member_lease p key) (assign key name a).0)))
      (sym e)
      (λ pool positive.
        subst (λ q. SamePool (some a) (some (undo_lease key q (assign key name a).0)))
          (sym (find_lease-snapshot a key pool))
          (undo-assign key name a {item = item} {created = created} pool.0 positive h))
      sound.pool numbered

grant_member-Outcome :
    (out : Outside) (key name room_key : Bytes) (existing : Bool) (s : Service)
    (a : Option Allocator)
    → s.allocator ≡ a
    → lookup key s.pending ≡ none
    → Outcome out key s (grant_member out key name room_key existing s a)
unfolding grant_member
grant_member-Outcome out key name room_key existing s none e free =
    rolled_back (λ sound numbered. Same-refl s)
grant_member-Outcome out key name room_key existing s (some a) e free =
    granted-Outcome out key room_key existing s (assign key name a) free
      (λ (item, created) h. assign-Undoes key name s a e h)

pub assign_member-Outcome :
    (out : Outside) (key name room_key : Bytes) (existing : Bool) (s : Service)
    → Outcome out key s (assign_member out key name room_key existing s)
unfolding assign_member
assign_member-Outcome out key name room_key existing s =
    let previous = member_lease s.allocator key in
    let disabled =
      existing && (not (enabled_member previous) || not (is_some (lookup key s.member_psks))) in
    elim (Bool-cases s.running) [
      | inr stopped ↦ simp stopped (rolled_back (λ sound numbered. Same-refl s))
      | inl running ↦ elim (Bool-cases (not s.join_enabled && not (is_some previous))) [
        | inl paused ↦ simp (running, paused) (rolled_back (λ sound numbered. Same-refl s))
        | inr open_room ↦ elim (Option-cases (lookup key s.pending)) [
          | inr (p, busy) ↦
              simp (running, open_room, busy) (rolled_back (λ sound numbered. Same-refl s))
          | inl free ↦ elim (Bool-cases disabled) [
            | inl bad ↦
                simp (running, open_room, free, bad) (rolled_back (λ sound numbered. Same-refl s))
            | inr fine ↦
                simp (running, open_room, free, fine)
                  (grant_member-Outcome out key name room_key existing s s.allocator refl free)
          ]
        ]
      ]
    ]

pub Outcome-error :
    {out : Outside} {key : Bytes} {s s' : Service} {e : Messages.Error}
    {r : Service × Result Messages.Error Assignment}
    → Outcome out key s r
    → r ≡ (s', err e)
    → IsSound s
    → IsNumbered key s
    → Same s s'
Outcome-error {s = s} {s' = s'} (rolled_back {t = t} same) h sound numbered =
    let e : t ≡ s' = cc in subst (Same s) e (same sound numbered)
Outcome-error (started apart p g) h sound numbered = absurd cc

pub Outcome-ok :
    {out : Outside} {key : Bytes} {s s' : Service} {g : Assignment}
    {r : Service × Result Messages.Error Assignment}
    → Outcome out key s r
    → r ≡ (s', ok g)
    → Apart key s s'
      × (lookup key s'.pending ≡ some (pair_pending key s))
      × (g.token ≡ u64 (s.pair_attempt + 1))
Outcome-ok (rolled_back same) h = absurd cc
Outcome-ok {key = key} {s = s} {s' = s'} (started {t = t} {g = f} apart p q) h =
    let e : t ≡ s' = cc in
    (
      subst (Apart key s) e apart,
      subst (λ (x : Service). lookup key x.pending ≡ some (pair_pending key s)) e p,
      cc,
    )
