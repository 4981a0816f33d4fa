-- ===== src/Net/Helpers/Safe.antt =====
-- `socks5_bytes_to_addr` on any input (src/net/helpers.rs).
use ruci.Prelude.{
  ℕ, ◌+◌, ◌<◌, ◌≤◌, [], ◌∷◌, Bytes, IsByte, All, length, arith, drop, take, be_value, length-drop,
}
use ruci.Prelude.Monad.{Outcome, ok, err, panic, get_be, take_bytes}
use ruci.Net.Addr.{Addr, IpName}
use ruci.Net.Helpers.{
  WireError, max_len_socks5_bytes, read_ip4, read_ip6, read_domain, read_ipname,
  socks5_bytes_to_addr,
}

-- No panic; and a success takes `lo` to `hi` of the `n` bytes and leaves two or more.
abbrev TakesIpName : ℕ → Outcome WireError IpName × Bytes → Type 0
TakesIpName n (ok a, b) = (2 ≤ length b) × (length b + 1 ≤ n) × (n ≤ length b + 256)
TakesIpName n (err e, b) = Unit {0}
TakesIpName n (panic, b) = ⊥

read_ip4-TakesIpName : (b : Bytes) → TakesIpName (length b) (read_ip4 b)
unfolding read_ip4 get_be take_bytes
read_ip4-TakesIpName b = ground (arith, length-drop 4 b)

read_ip6-TakesIpName : (b : Bytes) → TakesIpName (length b) (read_ip6 b)
unfolding read_ip6 get_be take_bytes
read_ip6-TakesIpName b = ground (arith, length-drop 16 b)

first-IsByte : (b : Bytes) → All IsByte b → be_value 0 (take 1 b) < 256
unfolding be_value
first-IsByte [] h = omega arith
first-IsByte (x ∷ b) h = omega arith

read_domain-TakesIpName : (b : Bytes) → All IsByte b → TakesIpName (length b) (read_domain b)
unfolding read_domain get_be take_bytes
read_domain-TakesIpName b h =
    ground
      (arith, first-IsByte b h, length-drop 1 b, length-drop (be_value 0 (take 1 b)) (drop 1 b))

read_ipname-TakesIpName :
    (at : ℕ) (b : Bytes) → All IsByte b → TakesIpName (length b) (read_ipname at b)
unfolding read_ipname
read_ipname-TakesIpName at b h =
    ground (arith, read_ip4-TakesIpName b, read_ip6-TakesIpName b, read_domain-TakesIpName b h)

drop_one-IsByte : (b : Bytes) → All IsByte b → All IsByte (drop 1 b)
drop_one-IsByte [] h = tt
drop_one-IsByte (x ∷ b) h = h.1

abbrev pub TakesAddr : ℕ → Outcome WireError Addr × Bytes → Type 0
TakesAddr n (ok a, b) = (length b + 4 ≤ n) × (n ≤ length b + max_len_socks5_bytes)
TakesAddr n (err e, b) = Unit {0}
TakesAddr n (panic, b) = ⊥

-- On any bytes the decoder does not panic, since its length checks cover every read; and a success
-- takes 4 to `MAX_LEN_SOCKS5_BYTES` bytes off the front.
pub socks5_bytes_to_addr-TakesAddr :
    (buf : Bytes) → All IsByte buf → TakesAddr (length buf) (socks5_bytes_to_addr buf)
unfolding socks5_bytes_to_addr get_be take_bytes
socks5_bytes_to_addr-TakesAddr buf h = ground (
  arith,
  length-drop 1 buf,
  read_ipname-TakesIpName (be_value 0 (take 1 buf)) (drop 1 buf) (drop_one-IsByte buf h),
  length-drop 2 (read_ipname (be_value 0 (take 1 buf)) (drop 1 buf)).1,
)
