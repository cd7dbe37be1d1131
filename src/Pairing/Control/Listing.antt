-- ===== src/Pairing/Control/Listing.antt =====
-- The host's answer to a report, and what the member makes of it (internal/pairing/network.go,
-- `control`, `marshalDevices`, `parseDevices` and `Sync`).
use opl_core.Prelude.{
  ℕ, ◌+◌, ◌*◌, ◌%◌, ◌≡◌, ◌≤◌, ◌<◌, Bool, true, false, List, [], ◌∷◌, if◌then◌else◌, ◌==◌, nat_eq,
  bytes_eq, Bytes, length, ltb, some, Result, ok, err, arith, refl, sym, ap, ◌∙◌, subst, append-nil,
  length-append, Bool-cases, inl, inr,
}
use opl_core.Prelude.Dict.{Dict, insert}
use opl_core.Prelude.Addr.{Addr, zero_addr, addr_eq, addr_less}
use opl_core.Prelude.Sort.{sort, sort_insert}
use opl_core.Prelude.Sort.Order.{IsSorted, sort-Perm, sort-IsSorted, length-sort, addr_less_asym}
use mathlib.Core.List.{Perm}
use opl_core.Prelude.Binary.{put_u16, put_u16-IsArray, get_u16-put_u16}
use opl_core.Pairing.Messages.{Error, protocol}
use opl_core.Pairing.Messages.Frames.{read_frame, valid_frame_type}
use opl_core.Pairing.Stats.{
  Device, StatsReport, marshal_device, marshal_entries, marshal_devices, parse_devices,
}
use opl_core.Pairing.Stats.RoundTrip.{
  IsListed, AreListed, parse-marshal_devices, length-marshal_device,
}
use opl_core.Pairing.Server.{ServerConfig}
use opl_core.Pairing.Client.{sync_answer, devices_of, with_latency}
use opl_core.Pairing.Client.Framed.{framed, read-framed}
use opl_core.Pairing.Control.{Server, values, listing, device_of, answer_report, disabled}

module _ (less : Device → Device → Bool) where
  sort_insert-AreListed :
      (d : Device) (ds : List Device)
      → IsListed d
      → AreListed ds
      → AreListed (sort_insert less d ds)
  unfolding sort_insert
  sort_insert-AreListed d [] h hs = (h, tt)
  sort_insert-AreListed d (e ∷ ds) h hs = elim (Bool-cases (less e d)) [
    | inl lower ↦ rw lower (hs.0, sort_insert-AreListed d ds h hs.1)
    | inr higher ↦ rw higher (h, hs)
  ]

  sort-AreListed : (ds : List Device) → AreListed ds → AreListed (sort less ds)
  unfolding sort
  sort-AreListed [] hs = tt
  sort-AreListed (d ∷ ds) hs = sort_insert-AreListed d (sort less ds) hs.0 (sort-AreListed ds hs.1)

values-insert-AreListed :
    (key : Bytes) (d : Device) (m : Dict Bytes Device)
    → IsListed d
    → AreListed (values m)
    → AreListed (values (insert key d m))
unfolding values insert
values-insert-AreListed key d [] h hs = (h, tt)
values-insert-AreListed key d ((k, e) ∷ m) h hs = elim (Bool-cases (k == key)) [
  | inl same ↦ rw same (h, hs.1)
  | inr other ↦ rw other (hs.0, values-insert-AreListed key d m h hs.1)
]

listing-AreListed :
    (host : Device) (m : Dict Bytes Device)
    → IsListed host
    → AreListed (values m)
    → AreListed (listing host m)
unfolding listing
listing-AreListed host m h hs = sort-AreListed _ _ (with_host (host.virtual_ip == zero_addr))
  where
    with_host : (b : Bool) → AreListed (if b then values m else host ∷ values m)
    with_host true = hs
    with_host false = (h, hs)

length-marshal_entries :
    (ds : List Device) → AreListed ds → length (marshal_entries ds) ≤ 60 * length ds
unfolding marshal_entries
length-marshal_entries [] hs = omega arith
length-marshal_entries (d ∷ ds) hs = omega (
  arith,
  length-append (marshal_device d) (marshal_entries ds),
  length-marshal_device d hs.0,
  length-marshal_entries ds hs.1,
)

length-marshal_devices :
    (ds : List Device) → AreListed ds → length (marshal_devices ds) ≤ 2 + 60 * length ds
unfolding marshal_devices
length-marshal_devices ds hs = omega (
  arith,
  length-append (put_u16 (length ds % 65536)) (marshal_entries ds),
  (put_u16-IsArray (length ds % 65536)).0,
  length-marshal_entries ds hs,
)

refused :
    {A : Type 0} (a b : ℕ) (x : Result Error A)
    → 253 < b
    → (if ltb (2 + a) 2 then err protocol else if ltb 253 b then err protocol else x) ≡ err protocol
refused a b x h = ground arith

-- A list of more than 253 devices is refused by its reader.
parse_devices-too_many :
    (ds : List Device)
    → 253 < length ds
    → length ds < 65536
    → parse_devices (marshal_devices ds) ≡ err protocol
unfolding parse_devices marshal_devices
parse_devices-too_many ds n m =
    let exact : length ds % 65536 ≡ length ds = omega arith in
    rw
      (
        exact,
        get_u16-put_u16 (length ds) (marshal_entries ds) (omega arith),
        length-append (put_u16 (length ds)) (marshal_entries ds),
        (put_u16-IsArray (length ds)).0,
      )
      (refused (length (marshal_entries ds)) (length ds) _ n)

-- What a member makes of the frame with a list.
sync_answer-listing :
    (elapsed : ℕ) (ds : List Device)
    → AreListed ds
    → length ds ≤ 254
    → (length ds ≤ 253
        → sync_answer elapsed (read_frame (framed 6 (marshal_devices ds)))
          ≡ ok (with_latency elapsed ds))
      × (length ds ≡ 254
          → sync_answer elapsed (read_frame (framed 6 (marshal_devices ds))) ≡ err protocol)
unfolding sync_answer valid_frame_type devices_of
sync_answer-listing elapsed ds hs n =
    let (w, r) =
      read-framed 6 (marshal_devices ds) [] refl (omega (arith, length-marshal_devices ds hs)) in
    let r' : read_frame (framed 6 (marshal_devices ds)) ≡ ok (6, marshal_devices ds, []) =
      ap read_frame (sym (append-nil (framed 6 (marshal_devices ds)))) ∙ r in
    (
      (λ few. rw (r', parse-marshal_devices ds hs few) refl),
      (λ many. rw (r', parse_devices-too_many ds (omega arith) (omega arith)) refl),
    )

-- The devices that a member is to hear of: those of the table, and the host if it has an address.
abbrev pub all_devices : Device → Dict Bytes Device → List Device
all_devices host devices =
    if host.virtual_ip == zero_addr then values devices else host ∷ values devices

-- `ds` lists each of `all` once, and no device in it has a lower address than the one in front of it.
pub record IsListing (all ds : List Device) : Type 0 where
  pub each : Perm ds all
  pub ordered : IsSorted (λ (x y : Device). addr_less x.virtual_ip y.virtual_ip) ds

listing-IsListing :
    (host : Device) (devices : Dict Bytes Device)
    → IsListing (all_devices host devices) (listing host devices)
unfolding listing
listing-IsListing host devices = record {
  each = sort-Perm _ (all_devices host devices);
  ordered =
      sort-IsSorted _ (λ (x y : Device). addr_less_asym x.virtual_ip y.virtual_ip)
        (all_devices host devices);
}

length-listing :
    (host : Device) (devices : Dict Bytes Device)
    → length (listing host devices) ≡ length (all_devices host devices)
unfolding listing
length-listing host devices = length-sort _ (all_devices host devices)

-- A report of a known member, where the host, the devices of the table and the reporting device can be
-- listed, and the table with the reporting device and the host, if it has an address, are `all`: the
-- member reads the host's answer as a list of each of `all` once, in the order of the addresses, its
-- own latency to the host filled in, as long as `all` has at most 253 entries. With 254, which the
-- host and 253 members make, the answer is refused as a protocol error.
pub sync_answer-answer_report :
    {S : Type 0} (config : ServerConfig S) (connection : ℕ) (key : Bytes) (ip : Addr)
    (now elapsed : ℕ) (server : Server) (s : S) (report : StatsReport) (all : List Device)
    → all
      ≡ all_devices config.host_device
          (insert key (device_of server key ip now report) server.devices)
    → disabled config connection key ip config.known_member s ≡ false
    → IsListed config.host_device
    → AreListed (values server.devices)
    → IsListed (device_of server key ip now report)
    → length all ≤ 254
    → (frame : Bytes) × (ds : List Device) × ((answer_report config connection key ip now server s
          report).written
        ≡ some frame)
      × IsListing all ds
      × (length all ≤ 253 → sync_answer elapsed (read_frame frame) ≡ ok (with_latency elapsed ds))
      × (length all ≡ 254 → sync_answer elapsed (read_frame frame) ≡ err protocol)
unfolding answer_report
sync_answer-answer_report config connection key ip now elapsed server s report all every known host
      table own n =
    let devices = insert key (device_of server key ip now report) server.devices in
    let ds = listing config.host_device devices in
    let size : length ds ≡ length all =
      length-listing config.host_device devices ∙ ap length (sym every) in
    let hs =
      listing-AreListed config.host_device devices host (
        values-insert-AreListed key (device_of server key ip now report) server.devices own
          table) in
    let (few, many) = sync_answer-listing elapsed ds hs (omega (arith, size, n)) in
    (
      framed 6 (marshal_devices ds),
      ds,
      rw known refl,
      subst (λ xs. IsListing xs ds) (sym every) (listing-IsListing config.host_device devices),
      (λ h. few (omega (arith, size, h))),
      (λ h. many (omega (arith, size, h))),
    )
