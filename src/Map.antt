-- ===== src/Map.antt =====
-- src/map/mod.rs: what a map, one layer of a proxy chain, is given and gives back. `C` and `U` are
-- the connections and datagram connections, `D` the data that a layer reports, `E` its errors.
pub mod Ext
pub mod Fold
pub mod Listen
pub mod Counter
pub mod HttpProxy
pub mod HttpFilter
use ruci.Prelude.{Bool, true, false, Option, some, [], ◌∷◌, Bytes}
use ruci.Net.Addr.{Addr}
use ruci.Net.Cid.{Cid}

-- `generator` carries a channel, which no map looks into.
pub data Stream (C U : Type 0) : Type 0 where
  conn : C → Stream C U
  addr_conn : U → Stream C U
  generator : Stream C U
  none : Stream C U

unfoldable pub is_none_or_generator : {C U : Type 0} → Stream C U → Bool
is_none_or_generator Stream.none = true
is_none_or_generator generator = true
is_none_or_generator (conn _) = false
is_none_or_generator (addr_conn _) = false

-- The fields `dynamic_data` and `shutdown_rx` carry handles that only the caller uses.
pub record MapResult (C U D E : Type 0) : Type 0 where
  pub a : Option Addr
  pub b : Option Bytes
  pub c : Stream C U
  pub d : Option D
  pub e : Option E
  pub new_id : Option Cid
  pub no_timeout : Bool

-- src/utils/mod.rs
unfoldable pub buf_to_ob : Bytes → Option Bytes
buf_to_ob [] = Option.none
buf_to_ob (b ∷ bs) = some (b ∷ bs)

module _ {C U D E : Type 0} where
  abbrev pub build :
      Option Addr → Option Bytes → Stream C U → Option D → Option E → MapResult C U D E
  build a b c d e = record {
    a = a;
    b = b;
    c = c;
    d = d;
    e = e;
    new_id = Option.none;
    no_timeout = false;
  }

  -- Error, buffer, connection: the connection goes on to a fallback.
  abbrev pub ebc : E → Bytes → C → MapResult C U D E
  ebc e buf c = build Option.none (buf_to_ob buf) (conn c) Option.none (some e)

  abbrev pub buf_err : Bytes → E → MapResult C U D E
  buf_err buf e = build Option.none (buf_to_ob buf) Stream.none Option.none (some e)

  abbrev pub err_str : E → MapResult C U D E
  err_str e = build Option.none Option.none Stream.none Option.none (some e)
