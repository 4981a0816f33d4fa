-- ===== src/Map/Counter.antt =====
-- src/map/counter.rs: a connection that counts what is read from and written to its base. `B` is the
-- base; the two counters are u64 and wrap around.
use ruci.Prelude.{
  ℕ, ◌+◌, ◌-◌, ◌%◌, ◌^◌, ◌<◌, ◌≡◌, Option, some, none, List, [], ◌∷◌, arith, Bytes, length,
}
use ruci.Net.ReadBuf.{ReadBuf, Polled, ready}
use ruci.Net.Cid.{Cid}
use ruci.Map.{Stream, MapResult, conn, addr_conn, generator, build, err_str}
use ruci.Map.Ext.{MapParams, ProxyBehavior, decode}

pub record CounterConn (B : Type 0) : Type 0 where
  pub cid : Cid
  pub ub : ℕ
  pub db : ℕ
  pub base : B

-- What a poll of a write gives.
pub data Taken : Type 0 where
  pending : Taken
  failed : ℕ → Taken
  taken : ℕ → Taken

unfoldable pub fetch_add : ℕ → ℕ → ℕ
fetch_add x n = (x + n) % 2 ^ 64

module _ {B : Type 0} where
  on_read : ℕ → CounterConn B → (Polled × ReadBuf) × B → (Polled × ReadBuf) × CounterConn B
  unfolding fetch_add
  on_read previous_len c ((ready, buf), b) =
      let n = length buf.filled - previous_len in
      ((ready, buf), record c { base = b; db = fetch_add c.db n })
  on_read previous_len c (r, b) = (r, record c { base = b })

  unfoldable pub poll_read :
      (ReadBuf → B → (Polled × ReadBuf) × B)
      → ReadBuf
      → CounterConn B
      → (Polled × ReadBuf) × CounterConn B
  unfolding on_read
  poll_read base_read buf c = on_read (length buf.filled) c (base_read buf c.base)

  on_write : CounterConn B → Taken × B → Taken × CounterConn B
  unfolding fetch_add
  on_write c (taken u, b) = (taken u, record c { base = b; ub = fetch_add c.ub u })
  on_write c (pending, b) = (pending, record c { base = b })
  on_write c (failed e, b) = (failed e, record c { base = b })

  unfoldable pub poll_write :
      (Bytes → B → Taken × B) → Bytes → CounterConn B → Taken × CounterConn B
  unfolding on_write
  poll_write base_write buf c = on_write c (base_write buf c.base)

-- Early data that were decoded before are counted as read.
early : ProxyBehavior → Option Bytes → ℕ
early decode (some ed) = length ed
early _ _ = 0

pub data MapError : Type 0 where
  without_stream with_generator : MapError

module _ {B U D : Type 0} where
  on_stream :
      Cid
      → ProxyBehavior
      → MapParams B U D
      → Stream B U
      → Option (MapResult (CounterConn B) U D MapError)
  unfolding early
  on_stream cid behavior params (conn c) =
      let counted : CounterConn B = record {
        cid = cid;
        ub = 0;
        db = early behavior params.b;
        base = c;
      } in
      some (build params.a params.b (conn counted) none none)
  on_stream cid behavior params (addr_conn _) = none
  on_stream cid behavior params Stream.none = some (err_str without_stream)
  on_stream cid behavior params generator = some (err_str with_generator)

  -- `none` is the panic of `todo!()`; the handles of the counters, `dynamic_data`, are left out.
  unfoldable pub maps :
      Cid → ProxyBehavior → MapParams B U D → Option (MapResult (CounterConn B) U D MapError)
  unfolding on_stream
  maps cid behavior params = on_stream cid behavior params params.c

module _ {B : Type 0} (base_write : Bytes → B → Taken × B) where
  amount : Taken → ℕ
  amount (taken u) = u
  amount _ = 0

  -- Successive writes: how many bytes were taken, and the connection after.
  pub writes : List Bytes → CounterConn B → ℕ × CounterConn B
  writes [] c = (0, c)
  writes (bs ∷ rest) c =
      let r = poll_write base_write bs c in
      let later = writes rest r.1 in (amount r.0 + later.0, later.1)

  on_write-ub :
      (c : CounterConn B) (r : Taken × B)
      → c.ub < 2 ^ 64
      → (on_write c r).1.ub ≡ (c.ub + amount (on_write c r).0) % 2 ^ 64
        × (on_write c r).1.ub < 2 ^ 64
  unfolding on_write fetch_add amount
  on_write-ub c (taken u, b) h = (omega arith, omega arith)
  on_write-ub c (pending, b) h = (omega arith, omega arith)
  on_write-ub c (failed e, b) h = (omega arith, omega arith)

  -- Over successive writes, of which any may be pending or fail, the counter grows by the bytes that
  -- the base took, modulo 2^64.
  pub writes-ub :
      (bufs : List Bytes) (c : CounterConn B)
      → c.ub < 2 ^ 64
      → (writes bufs c).1.ub ≡ (c.ub + (writes bufs c).0) % 2 ^ 64
  unfolding writes poll_write
  writes-ub [] c h = omega arith
  writes-ub (bs ∷ rest) c h =
      let (e, small) = on_write-ub c (base_write bs c.base) h in
      omega (arith, e, writes-ub rest (on_write c (base_write bs c.base)).1 small)
