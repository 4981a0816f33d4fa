-- ===== src/Tests/Streams.antt =====
-- The streams of src/net/helpers.rs on concrete inputs.
use ruci.Prelude.{ℕ, take, drop, min, ◌≡◌, ◌<◌, refl, none, some, [], ◌∷◌, ◌++◌, codes, arith}
use ruci.Net.ReadBuf.{ReadBuf, put, uninit, ready}
use ruci.Net.Mock.{MockTcpStream, poll_write, poll_write2}
use ruci.Net.Mock
use ruci.Net.EarlyData.{EarlyDataWrapper, from, poll_read}
use ruci.Net.EarlyData.Conserve.{unread, reads, reads-conserve}
use ruci.Net.EarlyData.Progress.{poll_read-progress}

abbrev stream : MockTcpStream
stream = record { read_data = codes "behind"; write_data = codes "a"; write_target = none }

-- The wrapper of the tests in src/net/helpers.rs, with bytes of its own.
abbrev wrapped : EarlyDataWrapper MockTcpStream
wrapped = record { ed = some (codes "early"); base = stream }

from_test : from (codes "early") stream ≡ wrapped
unfolding from
from_test = refl

reads-conserve_example :
    (reads (3 ∷ 4 ∷ 4 ∷ []) wrapped).0 ++ unread (reads (3 ∷ 4 ∷ 4 ∷ []) wrapped).1
    ≡ codes "earlybehind"
reads-conserve_example = reads-conserve (3 ∷ 4 ∷ 4 ∷ []) wrapped

-- A buffer that is filled in part.
abbrev half : ReadBuf
half = record { filled = 1 ∷ []; initialized = 3; capacity = 4 }

poll_read-progress_example :
    (n : ℕ) × (0 < n)
    × ((poll_read Mock.poll_read half wrapped).0.0 ≡ ready)
    × ((poll_read Mock.poll_read half wrapped).0.1.filled
        ≡ 1 ∷ take (min n 3) (codes "earlybehind"))
    × (unread (poll_read Mock.poll_read half wrapped).1 ≡ drop (min n 3) (codes "earlybehind"))
poll_read-progress_example = poll_read-progress half wrapped (omega arith) (omega arith)

-- Into a buffer of which nothing is initialized a read gives nothing, though bytes are left.
uninit_test : (poll_read Mock.poll_read (uninit 9) wrapped).0.1.filled ≡ []
unfolding poll_read put
uninit_test = refl
