-- ===== src/Packets.antt =====
-- netreplay/core/packets/models.py: what the parser hands to the flow engine. Of `info`, the two
-- entries that the flow engine reads and writes; times are microseconds.
use Prim.Native.String.{String}
use net_replay.Common.{ℕ, Bool, Option, List}

pub record Info : Type 0 where
  pub tcp_flags : Option ℕ
  pub flow_started : Option Bool

pub record ParsedPacket : Type 0 where
  pub ts : ℕ
  pub source : String
  pub destination : String
  pub protocol : String
  pub src_port : Option ℕ
  pub dst_port : Option ℕ
  pub length : ℕ
  pub raw : List ℕ
  pub flow_id : Option ℕ
  pub ttl : Option ℕ
  pub info : Info
  pub payload : List ℕ
