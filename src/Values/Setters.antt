-- ===== src/Values/Setters.antt =====
-- The setters of binary/v1/types.go: FromTime of DateTime, Timestamp, Date and Time, and FromUUID,
-- FromString and New of Uuid. Each gives the receiver after the call.
use ignite3_go_client.Base.{Bytes, Option, none, some}
use ignite3_go_client.Base.Result.{Error, Result, ok, panic}
use ignite3_go_client.Values.{Time}

-- google/uuid: Parse gives a UUID beside an error, too; New takes from a source of random bytes,
-- and panics when that fails (none).
record UuidLib (R : Type 0) : Type 0 where
  parse : Bytes → Bytes × Option Error
  fresh : R → Option Bytes × R

-- All four types hold a time.Time.
abbrev from_time : Time → Time → Time
from_time d t = t

abbrev from_uuid : Bytes → Bytes → Bytes
from_uuid u uid = uid

module _ {R : Type 0} (lib : UuidLib R) where
  -- `u.UUID, _ = uuid.Parse(uid)`: the error is lost, and u is set all the same.
  abbrev from_string : Bytes → Bytes → Bytes
  from_string u uid = (lib.parse uid).0

  -- The outcome, the UUID after it and the source.
  abbrev assigned : Bytes → Option Bytes × R → Result (Unit {0}) × Bytes × R
  assigned u (some v, r) = (ok tt, v, r)
  assigned u (none, r) = (panic, u, r)

  abbrev new_uuid : Bytes → R → Result (Unit {0}) × Bytes × R
  new_uuid u r = assigned u (lib.fresh r)
