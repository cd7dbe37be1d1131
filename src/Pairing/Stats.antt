-- ===== src/Pairing/Stats.antt =====
-- The traffic reports of members and the host's list of devices (internal/pairing/network.go). An
-- `int64` is the 64-bit word of its two's complement, and a device's virtual address is the address
-- that its text is the text of.
pub mod RoundTrip
use opl_core.Prelude.{
  ℕ, zero, suc, ◌+◌, ◌-◌, ◌≡◌, ◌<◌, ◌≤◌, ◌%◌, Bool, true, false, not, ◌&&◌, ◌||◌, List, [], ◌∷◌,
  ◌++◌, if◌then◌else◌, ◌==◌, nat_eq, Bytes, length, take, drop, Result, ok, err, ltb, leb, ◌>>=◌,
  ◌>>◌, reject,
}
use opl_core.Prelude.Addr.{Addr}
use opl_core.Prelude.Binary.{at, slice, put_u16, put_u64, get_u16, get_u64}
use opl_core.Discovery.Frame.{addr_at}
use opl_core.Pairing.Messages.{Error, protocol, valid_uid, ip_bytes}

abbrev pub max_devices : ℕ
max_devices = 253

pub record Device : Type 0 where
  pub latency_ms : ℕ
  pub uid : Bytes
  pub virtual_ip : Addr
  pub rx_bytes : ℕ
  pub tx_bytes : ℕ

pub record StatsReport : Type 0 where
  pub timestamp_ms : ℕ
  pub uid : Bytes
  pub rx_bytes : ℕ
  pub tx_bytes : ℕ

unfoldable pub marshal_stats_report : StatsReport → Result Error Bytes
marshal_stats_report report =
    if not (valid_uid report.uid)
    then err protocol
    else ok (
        length report.uid % 256
        ∷ (report.uid
            ++ (put_u64 report.rx_bytes
                ++ (put_u64 report.tx_bytes ++ put_u64 report.timestamp_ms))))

unfoldable pub parse_stats_report : Bytes → Result Error StatsReport
parse_stats_report payload =
    let uid_length = at payload 0 in
    let report : StatsReport = record {
      uid = slice payload 1 (1 + uid_length);
      rx_bytes = get_u64 payload (1 + uid_length);
      tx_bytes = get_u64 payload (9 + uid_length);
      timestamp_ms = get_u64 payload (17 + uid_length);
    } in
    if ltb (length payload) 26
    then err protocol
    else if not (length payload == 25 + uid_length)
    then err protocol
    else if not (valid_uid report.uid)
    then err protocol
    else ok report

-- one entry of the list
unfoldable pub marshal_device : Device → Bytes
marshal_device device =
    length device.uid % 256
    ∷ (device.uid
        ++ (ip_bytes device.virtual_ip
            ++ (put_u64 device.rx_bytes ++ (put_u64 device.tx_bytes ++ put_u64 device.latency_ms))))

unfoldable pub marshal_entries : List Device → Bytes
unfolding marshal_device
marshal_entries [] = []
marshal_entries (device ∷ devices) = marshal_device device ++ marshal_entries devices

unfoldable pub marshal_devices : List Device → Bytes
unfolding marshal_entries
marshal_devices devices = put_u16 (length devices % 65536) ++ marshal_entries devices

-- the entry that stands at the front of what is left, its id `uid_length` bytes long
unfoldable pub device_at : Bytes → ℕ → Device
device_at rest uid_length = record {
  uid = slice rest 1 (1 + uid_length);
  virtual_ip = addr_at rest (1 + uid_length);
  rx_bytes = get_u64 rest (5 + uid_length);
  tx_bytes = get_u64 rest (13 + uid_length);
  latency_ms = get_u64 rest (21 + uid_length);
}

-- The loop, with `count` entries to go: what is behind `offset`, and the entries read after it.
unfoldable pub parse_entries : ℕ → Bytes → Result Error (List Device)
unfolding device_at
parse_entries zero rest = if not (length rest == 0) then err protocol else ok []
parse_entries (suc count) rest = do
  let uid_length = at rest 0
  reject (length rest == 0) protocol
  reject (ltb (length rest) (29 + uid_length)) protocol
  reject (not (valid_uid (slice rest 1 (1 + uid_length)))) protocol
  devices ← parse_entries count (drop (29 + uid_length) rest)
  ok (device_at rest uid_length ∷ devices)

unfoldable pub parse_devices : Bytes → Result Error (List Device)
unfolding parse_entries
parse_devices payload =
    let count = get_u16 payload 0 in
    if ltb (length payload) 2
    then err protocol
    else if ltb max_devices count
    then err protocol
    else parse_entries count (drop 2 payload)
