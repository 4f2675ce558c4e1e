-- ===== src/SocketOps/ByteOrder/Laws.antt =====
-- The conversions that boost_asio/socket_ops.cc writes out.
use boost_asio.Base.{ℕ, ◌^◌, ◌<◌, ◌≡◌, arith}
use boost_asio.SocketOps.ByteOrder.{
  Endian, little, big, bytes_of_long, long_of_bytes, bytes_of_short, network_to_host_long,
  host_to_network_long, network_to_host_short, host_to_network_short, ByteOrder,
}

-- On a machine of either byte order, for every 32-bit word: `host_to_network_long` puts its bytes
-- into memory with the most significant one first, the result is below 2 ^ 32, and
-- `network_to_host_long` undoes it, and is undone by it.
pub host_to_network_long_lem :
    (e : Endian) (v : ℕ)
    → v < 2 ^ 32
    → (bytes_of_long e (host_to_network_long e v) ≡ bytes_of_long big v)
      × (host_to_network_long e v < 2 ^ 32)
      × (network_to_host_long e (host_to_network_long e v) ≡ v)
      × (host_to_network_long e (network_to_host_long e v) ≡ v)
unfolding host_to_network_long network_to_host_long
host_to_network_long_lem little v lt = (ground arith, omega arith, omega arith, omega arith)
host_to_network_long_lem big v lt = (ground arith, omega arith, omega arith, omega arith)

-- The same for every 16-bit word.
pub host_to_network_short_lem :
    (e : Endian) (v : ℕ)
    → v < 2 ^ 16
    → (bytes_of_short e (host_to_network_short e v) ≡ bytes_of_short big v)
      × (host_to_network_short e v < 2 ^ 16)
      × (network_to_host_short e (host_to_network_short e v) ≡ v)
      × (host_to_network_short e (network_to_host_short e v) ≡ v)
unfolding host_to_network_short network_to_host_short
host_to_network_short_lem little v lt = (ground arith, omega arith, omega arith, omega arith)
host_to_network_short_lem big v lt = (ground arith, omega arith, omega arith, omega arith)

pub host_to_network_long_twice :
    (e : Endian) (v : ℕ) → v < 2 ^ 32 → host_to_network_long e (host_to_network_long e v) ≡ v
unfolding host_to_network_long
host_to_network_long_twice little v lt = omega arith
host_to_network_long_twice big v lt = omega arith

-- The functions that are written out meet the interface.
abbrev pub runtime_order : Endian → ByteOrder
runtime_order e = record {
  to_host_long = network_to_host_long e;
  to_network_long = host_to_network_long e;
  to_host_short = network_to_host_short e;
  to_network_short = host_to_network_short e;
  load_long = long_of_bytes e;
  store_long = bytes_of_long e;
  to_host_long-to_network_long = λ v lt. (host_to_network_long_lem e v lt).2;
  to_network_long-to_host_long = λ v lt. (host_to_network_long_lem e v lt).3;
  to_network_long_twice = host_to_network_long_twice e;
  to_network_long-lt = λ v lt. (host_to_network_long_lem e v lt).1;
  to_host_short-to_network_short = λ v lt. (host_to_network_short_lem e v lt).2;
  to_network_short-lt = λ v lt. (host_to_network_short_lem e v lt).1;
}
