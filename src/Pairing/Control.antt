-- ===== src/Pairing/Control.antt =====
-- The server after a pairing (internal/pairing/network.go): its tables of devices, and `control`, which
-- answers the reports of one member. A connection is known by its number. `mu` and `writeMu` make the
-- accesses to the tables and the writes single steps.
pub mod Listing
use opl_core.Prelude.{
  ℕ, ◌+◌, ◌-◌, ◌≡◌, Bool, true, false, not, ◌&&◌, ◌||◌, List, [], ◌∷◌, ◌++◌, if◌then◌else◌, ◌==◌,
  nat_eq, bytes_eq, Bytes, Option, some, none, Result, ok, err, ltb, leb,
}
use opl_core.Prelude.Dict.{Dict, lookup, insert, erase}
use opl_core.Prelude.Addr.{Addr, zero_addr, addr_eq, addr_less}
use opl_core.Prelude.Sort.{sort}
use opl_core.Pairing.Messages.{Error, ClientRequest}
use opl_core.Pairing.Messages.Frames.{
  write_frame, read_frame, frame_pair_result, frame_stats_report, frame_device_snapshot,
}
use opl_core.Pairing.Auth.{bytes_or_nil}
use opl_core.Pairing.Stats.{Device, StatsReport, parse_stats_report, marshal_devices}
use opl_core.Pairing.Server.{
  ServerConfig, Connection, PairRun, Assignment, pair, status_member_disabled,
}

pub record Server : Type 0 where
  pub devices : Dict Bytes Device
  pub member_uids : Dict Bytes Bytes
  pub device_owners : Dict Bytes ℕ
  pub room_key : Bytes

abbrev pub set_room_key : Bytes → Server → Server
set_room_key room_key server = record server { room_key = room_key }

-- `RemoveMember`: the tables, and the connection that is told, if there is one
unfoldable pub remove_member : Bytes → Server → Server × Option ℕ
remove_member key server = (
  record server {
    devices = erase key server.devices;
    member_uids = erase key server.member_uids;
    device_owners = erase key server.device_owners;
  },
  lookup key server.device_owners,
)

-- the last lines of `pair`: the id of a member that paired
unfoldable pub remember : Option (ClientRequest × Assignment) → Server → Server
remember none server = server
remember (some (request, assignment)) server = record server {
  member_uids = insert request.client_public_key request.uid server.member_uids;
}

-- `expectedUID`, if it is not empty, else the id of the report
abbrev pub checked_uid : Option Bytes → Bytes → Bytes
checked_uid none reported = reported
checked_uid (some expected) reported = if expected == [] then reported else expected

-- the latency: 0 for a time that is not positive as an `int64`, or that is ahead of the clock
abbrev pub latency : ℕ → ℕ → ℕ
latency now sent =
    if sent == 0 || leb 9223372036854775808 sent || ltb now sent then 0 else now - sent

unfoldable pub device_of : Server → Bytes → Addr → ℕ → StatsReport → Device
device_of server key ip now report = record {
  uid = checked_uid (lookup key server.member_uids) report.uid;
  virtual_ip = ip;
  rx_bytes = report.rx_bytes;
  tx_bytes = report.tx_bytes;
  latency_ms = latency now report.timestamp_ms;
}

unfoldable pub values : Dict Bytes Device → List Device
values [] = []
values ((key, device) ∷ rest) = device ∷ values rest

-- the list that is sent: the host, if it has an address, and the members, by address
unfoldable pub listing : Device → Dict Bytes Device → List Device
unfolding values sort
listing host devices =
    let members = values devices in
    sort (λ x y. addr_less x.virtual_ip y.virtual_ip)
      (if host.virtual_ip == zero_addr then members else host ∷ members)

-- `s.deviceOwners[key] == connection`
abbrev pub owned : ℕ → Option ℕ → Bool
owned connection none = false
owned connection (some owner) = owner == connection

-- What a round of the loop leaves: the tables, the state of the room, the frame it writes, and whether
-- the loop goes on if that could be written.
pub record Round (S : Type 0) : Type 0 where
  pub server : Server
  pub state : S
  pub written : Option Bytes
  pub goes_on : Bool

module _ {S : Type 0} (config : ServerConfig S) (connection : ℕ) (key : Bytes) (ip : Addr) where
  -- `config.KnownMember != nil && !config.KnownMember(key)`
  abbrev pub disabled : Option (S → Bytes → Bool) → S → Bool
  disabled none s = false
  disabled (some f) s = not (f s key)

  abbrev pub reported : Option (Bytes → Device → S → S) → Device → S → S
  reported none device s = s
  reported (some f) device s = f key device s

  -- `return`
  abbrev pub closed : Server → S → Round S
  closed server s = record { server = server; state = s; written = none; goes_on = false }

  -- a report that could be read
  unfoldable pub answer_report : ℕ → Server → S → StatsReport → Round S
  unfolding device_of listing
  answer_report now server s report =
      let device = device_of server key ip now report in
      let devices = insert key device server.devices in
      if disabled config.known_member s
      then record {
        server = server;
        state = s;
        goes_on = false;
        written = some (bytes_or_nil (write_frame frame_pair_result (status_member_disabled ∷ [])));
      }
      else record {
        server = record server {
          devices = devices;
          device_owners = insert key connection server.device_owners;
        };
        state = reported config.report_stats device s;
        written = some (
            bytes_or_nil (
              write_frame frame_device_snapshot
                (marshal_devices (listing config.host_device devices))));
        goes_on = true;
      }

  unfoldable pub control_report : ℕ → Server → S → Result Error StatsReport → Round S
  unfolding answer_report
  control_report now server s (err e) = closed server s
  control_report now server s (ok report) = answer_report now server s report

  unfoldable pub control_frame : ℕ → Server → S → Result Error (ℕ × Bytes × Bytes) → Round S
  unfolding control_report
  control_frame now server s (err e) = closed server s
  control_frame now server s (ok frame) =
      if not (frame.0 == frame_stats_report)
      then closed server s
      else control_report now server s (parse_stats_report frame.1)

  -- the deferred clean-up, when the loop has ended
  unfoldable pub leave : Server → Server
  leave server =
      if owned connection (lookup key server.device_owners)
      then record server {
        devices = erase key server.devices;
        device_owners = erase key server.device_owners;
      }
      else server
