-- ===== src/Pairing/Stats/RoundTrip.antt =====
-- Traffic reports and device lists are read as they were written (internal/pairing/network.go).
use opl_core.Prelude.{
  ℕ, suc, ◌+◌, ◌≡◌, ◌<◌, ◌≤◌, ◌%◌, true, false, List, [], ◌∷◌, ◌++◌, Bytes, length, take, drop, ok,
  arith, refl, sym, ap, ◌∙◌, subst, append_assoc, append-nil, length-append, take-append_front,
  drop-append_front, ◌==◌, nat_eq, ltb, get_or-append_past, ok_inj, Bool-cases, inl, inr,
}
use opl_core.Prelude.Addr.{Addr, v4, is4}
use opl_core.Prelude.Binary.{
  at, slice, put_u16, put_u64, get_u16, get_u64, get_u64-put_u64, get_u64-drop, put_u64-IsArray,
  get_u16-put_u16, put_u16-IsArray,
}
use opl_core.Discovery.Frame.{addr_at}
use opl_core.Pairing.Messages.{valid_uid, ip_bytes}
use opl_core.Pairing.Stats.{
  Device, StatsReport, marshal_stats_report, parse_stats_report, marshal_device, marshal_entries,
  marshal_devices, device_at, parse_entries, parse_devices,
}

abbrev pub IsU64 : ℕ → Type 0
IsU64 n = n < 18446744073709551616

pub record IsReport (v : StatsReport) : Type 0 where
  pub rx : IsU64 v.rx_bytes
  pub tx : IsU64 v.tx_bytes
  pub timestamp : IsU64 v.timestamp_ms

-- A device that the host lists: its id is valid, its address an IPv4 address.
pub record IsListed (v : Device) : Type 0 where
  pub uid : valid_uid v.uid ≡ true
  pub ip : is4 v.virtual_ip ≡ true
  pub rx : IsU64 v.rx_bytes
  pub tx : IsU64 v.tx_bytes
  pub latency : IsU64 v.latency_ms

abbrev pub AreListed : List Device → Type 0
AreListed [] = Unit {0}
AreListed (d ∷ ds) = IsListed d × AreListed ds

-- A word behind `i` bytes.
get_u64-field :
    (i : ℕ) (front rest : Bytes) (v : ℕ)
    → length front ≡ i
    → IsU64 v
    → get_u64 (front ++ (put_u64 v ++ rest)) i ≡ v
get_u64-field i front rest v n h =
    ap (get_u64 (front ++ (put_u64 v ++ rest))) (omega arith)
    ∙ sym (get_u64-drop i 0 (front ++ (put_u64 v ++ rest)))
    ∙ ap (λ r. get_u64 r 0) (drop-append_front i front (put_u64 v ++ rest) n)
    ∙ get_u64-put_u64 v rest h

-- Three words in a row.
words :
    (i : ℕ) (front rest : Bytes) (x y z : ℕ)
    → length front ≡ i
    → IsU64 x
    → IsU64 y
    → IsU64 z
    → (b : Bytes) → front ++ (put_u64 x ++ (put_u64 y ++ (put_u64 z ++ rest))) ≡ b
    → (get_u64 b i ≡ x)
      × (get_u64 b (8 + i) ≡ y)
      × (get_u64 b (16 + i) ≡ z)
      × (drop (24 + i) b ≡ rest)
      × (length b ≡ 24 + i + length rest)
words i front rest x y z n p q r b e =
    let lx = (put_u64-IsArray x).0 in
    let ly = (put_u64-IsArray y).0 in
    let lz = (put_u64-IsArray z).0 in
    let f1 = front ++ put_u64 x in
    let f2 = f1 ++ put_u64 y in
    let f3 = f2 ++ put_u64 z in
    let n1 : length f1 ≡ 8 + i = omega (arith, length-append front (put_u64 x)) in
    let n2 : length f2 ≡ 16 + i = omega (arith, length-append f1 (put_u64 y)) in
    let n3 : length f3 ≡ 24 + i = omega (arith, length-append f2 (put_u64 z)) in
    let e1 : f1 ++ (put_u64 y ++ (put_u64 z ++ rest)) ≡ b = append_assoc front (put_u64 x) _ ∙ e in
    let e2 : f2 ++ (put_u64 z ++ rest) ≡ b = append_assoc f1 (put_u64 y) _ ∙ e1 in
    let e3 : f3 ++ rest ≡ b = append_assoc f2 (put_u64 z) _ ∙ e2 in
    (
      subst (λ s. get_u64 s i ≡ x) e (get_u64-field i front _ x n p),
      subst (λ s. get_u64 s (8 + i) ≡ y) e1 (get_u64-field (8 + i) f1 _ y n1 q),
      subst (λ s. get_u64 s (16 + i) ≡ z) e2 (get_u64-field (16 + i) f2 _ z n2 r),
      subst (λ s. drop (24 + i) s ≡ rest) e3 (drop-append_front (24 + i) f3 rest n3),
      subst (λ s. length s ≡ 24 + i + length rest) e3 (omega (arith, length-append f3 rest)),
    )

uid_length : (uid : Bytes) → valid_uid uid ≡ true → (8 ≤ length uid) × (length uid ≤ 31)
unfolding valid_uid
uid_length uid h = ground arith

report_ok :
    (v : StatsReport) {b : Bytes}
    → marshal_stats_report v ≡ ok b
    → (valid_uid v.uid ≡ true)
      × (length v.uid % 256
            ∷ (v.uid ++ (put_u64 v.rx_bytes ++ (put_u64 v.tx_bytes ++ put_u64 v.timestamp_ms)))
          ≡ b)
unfolding marshal_stats_report
report_ok v h = elim (Bool-cases (valid_uid v.uid)) [
  | inl good ↦ (good, ok_inj (rw good at h))
  | inr bad ↦ absurd (ground arith)
]

-- A report that can be marshalled, with counters of 64 bits, is read back from its bytes.
pub parse-marshal_stats_report :
    (v : StatsReport) {b : Bytes}
    → IsReport v
    → marshal_stats_report v ≡ ok b
    → parse_stats_report b ≡ ok v
unfolding parse_stats_report
parse-marshal_stats_report v {b} s h =
    let (good, eq) = report_ok v h in
    let n = uid_length v.uid good in
    let exact : length v.uid % 256 ≡ length v.uid = omega arith in
    let tail = put_u64 v.rx_bytes ++ (put_u64 v.tx_bytes ++ (put_u64 v.timestamp_ms ++ [])) in
    let front = length v.uid ∷ v.uid in
    let e : front ++ tail ≡ b =
      ap (λ r. length v.uid ∷ (v.uid ++ (put_u64 v.rx_bytes ++ (put_u64 v.tx_bytes ++ r))))
        (append-nil (put_u64 v.timestamp_ms))
      ∙ ap
          (λ k.
            k ∷ (v.uid ++ (put_u64 v.rx_bytes ++ (put_u64 v.tx_bytes ++ put_u64 v.timestamp_ms))))
          (sym exact)
      ∙ eq in
    let (rx, tx, time, last, size) =
      words (1 + length v.uid) front [] v.rx_bytes v.tx_bytes v.timestamp_ms (omega arith) s.rx s.tx
        s.timestamp b e in
    let first : at b 0 ≡ length v.uid = subst (λ r. at r 0 ≡ length v.uid) e refl in
    let id : slice b 1 (1 + length v.uid) ≡ v.uid =
      subst (λ r. slice r 1 (1 + length v.uid) ≡ v.uid) e
        (ap (λ k. take k (v.uid ++ tail)) (omega arith)
          ∙ take-append_front (length v.uid) v.uid tail refl) in
    let at_tx : 9 + length v.uid ≡ 8 + (1 + length v.uid) = omega arith in
    let at_time : 17 + length v.uid ≡ 16 + (1 + length v.uid) = omega arith in
    rw (first, id, good, ap (get_u64 b) at_tx, ap (get_u64 b) at_time, rx, tx, time) (ground arith)

is4-bytes : (d : Device) → is4 d.virtual_ip ≡ true → length (ip_bytes d.virtual_ip) ≡ 4
is4-bytes d h = four d.virtual_ip h
  where
    four : (ip : Addr) → is4 ip ≡ true → length (ip_bytes ip) ≡ 4
    four (v4 a b c e) g = refl
    four _ g = absurd (ground arith)

-- An address behind `n` bytes.
addr_field :
    (n : ℕ) (front rest : Bytes) (ip : Addr)
    → is4 ip ≡ true
    → length front ≡ n
    → addr_at (front ++ (ip_bytes ip ++ rest)) n ≡ ip
addr_field n front rest (v4 a b c d) h k =
    let full = front ++ (a ∷ b ∷ c ∷ d ∷ rest) in
    let n0 : n + 0 ≡ n = omega arith in
    let byte0 : at full n ≡ a =
      ap (at full) (sym n0) ∙ get_or-append_past n 0 front (a ∷ b ∷ c ∷ d ∷ rest) 0 k in
    rw (
      byte0,
      get_or-append_past n 1 front (a ∷ b ∷ c ∷ d ∷ rest) 0 k,
      get_or-append_past n 2 front (a ∷ b ∷ c ∷ d ∷ rest) 0 k,
      get_or-append_past n 3 front (a ∷ b ∷ c ∷ d ∷ rest) 0 k,
    )
addr_field n front rest _ h k = absurd (ground arith)

-- An entry in front of others: its fields, what is behind it, and its length.
entry-read :
    (d : Device) (rest : Bytes)
    → IsListed d
    → (b : Bytes) → marshal_device d ++ rest ≡ b
    → (at b 0 ≡ length d.uid)
      × (device_at b (length d.uid) ≡ d)
      × (drop (29 + length d.uid) b ≡ rest)
      × (length b ≡ 29 + length d.uid + length rest)
unfolding marshal_device device_at
entry-read d rest s b h =
    let n = uid_length d.uid s.uid in
    let exact : length d.uid % 256 ≡ length d.uid = omega arith in
    let tail = put_u64 d.rx_bytes ++ (put_u64 d.tx_bytes ++ (put_u64 d.latency_ms ++ rest)) in
    let front = length d.uid ∷ d.uid in
    let e : front ++ (ip_bytes d.virtual_ip ++ tail) ≡ b = sym (simp (append_assoc, exact)) ∙ h in
    let ip_size = is4-bytes d s.ip in
    let size : length (front ++ ip_bytes d.virtual_ip) ≡ 5 + length d.uid =
      omega (arith, length-append front (ip_bytes d.virtual_ip)) in
    let (rx, tx, time, last, total) =
      words (5 + length d.uid) (front ++ ip_bytes d.virtual_ip) rest d.rx_bytes d.tx_bytes
        d.latency_ms size s.rx s.tx s.latency b
        (append_assoc front (ip_bytes d.virtual_ip) tail ∙ e) in
    let first : at b 0 ≡ length d.uid = subst (λ r. at r 0 ≡ length d.uid) e refl in
    let id : slice b 1 (1 + length d.uid) ≡ d.uid =
      subst (λ r. slice r 1 (1 + length d.uid) ≡ d.uid) e
        (ap (λ k. take k (d.uid ++ (ip_bytes d.virtual_ip ++ tail))) (omega arith)
          ∙ take-append_front (length d.uid) d.uid (ip_bytes d.virtual_ip ++ tail) refl) in
    let ip : addr_at b (1 + length d.uid) ≡ d.virtual_ip =
      subst (λ r. addr_at r (1 + length d.uid) ≡ d.virtual_ip) e
        (addr_field (1 + length d.uid) front tail d.virtual_ip s.ip (omega arith)) in
    let at_tx : 13 + length d.uid ≡ 8 + (5 + length d.uid) = omega arith in
    let at_time : 21 + length d.uid ≡ 16 + (5 + length d.uid) = omega arith in
    let at_end : 29 + length d.uid ≡ 24 + (5 + length d.uid) = omega arith in
    (
      first,
      rw (id, ip, ap (get_u64 b) at_tx, ap (get_u64 b) at_time, rx, tx, time) refl,
      ap (λ k. drop k b) at_end ∙ last,
      omega arith,
    )

pub length-marshal_device : (d : Device) → IsListed d → length (marshal_device d) ≤ 60
length-marshal_device d s =
    let (first, device, rest, size) = entry-read d [] s _ refl in
    let n = uid_length d.uid s.uid in
    let same : length (marshal_device d ++ []) ≡ length (marshal_device d) =
      ap length (append-nil (marshal_device d)) in
    omega arith

-- one round of the loop, on an entry that is there
parse_step :
    (count : ℕ) (b rest : Bytes) (d : Device) (ds : List Device)
    → valid_uid d.uid ≡ true
    → at b 0 ≡ length d.uid
    → device_at b (length d.uid) ≡ d
    → drop (29 + length d.uid) b ≡ rest
    → length b ≡ 29 + length d.uid + length rest
    → parse_entries count rest ≡ ok ds
    → parse_entries (suc count) b ≡ ok (d ∷ ds)
unfolding parse_entries device_at
parse_step count b rest d ds good first device behind size more =
    let id : slice b 1 (1 + length d.uid) ≡ d.uid = ap (λ x. x.uid) device in
    let not_empty : (length b == 0) ≡ false = ground arith in
    let long : ltb (length b) (29 + length d.uid) ≡ false = ground arith in
    let good' : valid_uid (slice b 1 (1 + length d.uid)) ≡ true = rw id good in
    rw (first, not_empty, long, good', behind, more) (ap (λ x. ok (x ∷ ds)) device)

entries-read :
    (ds : List Device) → AreListed ds → parse_entries (length ds) (marshal_entries ds) ≡ ok ds
unfolding marshal_entries
entries-read [] s = unfold parse_entries in refl
entries-read (d ∷ ds) s =
    let (first, device, rest, size) = entry-read d (marshal_entries ds) s.0 _ refl in
    parse_step (length ds) _ (marshal_entries ds) d ds s.0.uid first device rest size
      (entries-read ds s.1)

-- A list of at most 253 devices with valid ids, IPv4 addresses and counters of 64 bits is read back
-- from its bytes.
pub parse-marshal_devices :
    (ds : List Device) → AreListed ds → length ds ≤ 253 → parse_devices (marshal_devices ds) ≡ ok ds
unfolding parse_devices marshal_devices
parse-marshal_devices ds s n =
    let exact : length ds % 65536 ≡ length ds = omega arith in
    let two = (put_u16-IsArray (length ds)).0 in
    rw
      (
        exact,
        get_u16-front (length ds) (marshal_entries ds) (omega arith),
        drop-append_front 2 (put_u16 (length ds)) (marshal_entries ds) two,
        length-append (put_u16 (length ds)) (marshal_entries ds),
        two,
        entries-read ds s,
      )
      (ground arith)
  where
    get_u16-front : (k : ℕ) (r : Bytes) → k < 65536 → get_u16 (put_u16 k ++ r) 0 ≡ k
    get_u16-front k r h = get_u16-put_u16 k r h
