-- ===== src/Net/Conn.antt =====
-- A connection as a handshake sees it: what its reads will answer, and what was written to it. Each
-- `read` takes from the first answer what the slice has room for; the end of the answers is the end
-- of the stream. (src/net/mod.rs: `Conn`.)
use ruci.Prelude.{ℕ, List, [], ◌∷◌, ◌++◌, Bytes, take, drop}
use ruci.Prelude.Monad.{Outcome, ok, err}

pub data Answer : Type 0 where
  chunk : Bytes → Answer
  failed : Answer

pub data IoError : Type 0 where
  read_failed : IoError

pub record Conn : Type 0 where
  pub answers : List Answer
  pub written : Bytes

-- What is left of an answer stays the next one.
left_over : Bytes → List Answer → List Answer
left_over [] rest = rest
left_over (b ∷ bs) rest = chunk (b ∷ bs) ∷ rest

read_from : List Answer → ℕ → Conn → Outcome IoError Bytes × Conn
unfolding left_over
read_from [] room c = (ok [], c)
read_from (failed ∷ rest) room c = (err read_failed, record c { answers = rest })
read_from (chunk bs ∷ rest) room c =
    (ok (take room bs), record c { answers = left_over (drop room bs) rest })

-- `base.read(&mut buf[..room])`
unfoldable pub read : ℕ → Conn → Outcome IoError Bytes × Conn
unfolding read_from
read room c = read_from c.answers room c

-- `write_all`; a `write` of a few bytes is taken whole.
abbrev pub write_all : Bytes → Conn → Conn
write_all bs c = record c { written = c.written ++ bs }
