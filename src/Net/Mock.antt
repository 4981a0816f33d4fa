-- ===== src/Net/Mock.antt =====
-- src/net/helpers.rs: `MockTcpStream` and `MockTcpStream2`, streams in memory. The shared vector of
-- `write_target` is its contents.
pub mod Writes
use ruci.Prelude.{ℕ, Option, some, none, [], ◌∷◌, ◌++◌, min, Bytes, length, take, drop}
use ruci.Net.ReadBuf.{ReadBuf, Polled, put}

pub record MockTcpStream : Type 0 where
  pub read_data : Bytes
  pub write_data : Bytes
  pub write_target : Option Bytes

-- Both streams read in the same way.
unfoldable pub poll_read : ReadBuf → MockTcpStream → (Polled × ReadBuf) × MockTcpStream
unfolding put
poll_read buf m =
    let size = min (length m.read_data) buf.initialized in
    (put (take size m.read_data) buf, record m { read_data = drop size m.read_data })

write_data_in : Bytes → Bytes → Bytes
write_data_in [] x = x
write_data_in (b ∷ bs) x = b ∷ bs ++ x

write_in : Option Bytes → Bytes → MockTcpStream → MockTcpStream
unfolding write_data_in
write_in (some v) buf m = record m { write_target = some (v ++ buf) }
write_in none buf m = record m { write_data = write_data_in m.write_data buf }

-- `MockTcpStream::poll_write`, with the number of bytes that it took.
unfoldable pub poll_write : Bytes → MockTcpStream → ℕ × MockTcpStream
unfolding write_in
poll_write buf m = (length buf, write_in m.write_target buf m)

write2_in : Option Bytes → Bytes → MockTcpStream → MockTcpStream
write2_in (some v) buf m = record m { write_target = some (v ++ buf) }
write2_in none buf m = record m { write_data = m.write_data ++ buf }

-- `MockTcpStream2::poll_write`
unfoldable pub poll_write2 : Bytes → MockTcpStream → ℕ × MockTcpStream
unfolding write2_in
poll_write2 buf m = (length buf, write2_in m.write_target buf m)
