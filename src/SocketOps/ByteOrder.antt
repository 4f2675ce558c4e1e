-- ===== src/SocketOps/ByteOrder.antt =====
-- The conversions of byte order in boost_asio/socket_ops.cc. Where BOOST_ASIO_WINDOWS_RUNTIME is
-- defined they are written out, on the bytes that a word has in memory; elsewhere they are
-- `::ntohl`, `::htonl`, `::ntohs` and `::htons`. What the addresses need of either is the interface
-- `ByteOrder`.
pub mod Laws
use boost_asio.Base.{ℕ, ◌+◌, ◌*◌, ◌/◌, ◌%◌, ◌^◌, ◌<◌, ◌≡◌}

-- How the machine lays a word out in memory.
pub data Endian : Type 0 where
  little big : Endian

-- The bytes of a `uint32_t`, from the lowest address on.
pub record Bytes4 : Type 0 where
  pub b0 : ℕ
  pub b1 : ℕ
  pub b2 : ℕ
  pub b3 : ℕ

abbrev pub byte : ℕ → ℕ → ℕ
byte value place = value / place % 2 ^ 8

-- `reinterpret_cast<unsigned char*>(&value)`, read
abbrev pub bytes_of_long : Endian → ℕ → Bytes4
bytes_of_long little v = record {
  b0 = byte v 1;
  b1 = byte v (2 ^ 8);
  b2 = byte v (2 ^ 16);
  b3 = byte v (2 ^ 24);
}
bytes_of_long big v = record {
  b0 = byte v (2 ^ 24);
  b1 = byte v (2 ^ 16);
  b2 = byte v (2 ^ 8);
  b3 = byte v 1;
}

-- the word that the bytes make
abbrev pub long_of_bytes : Endian → Bytes4 → ℕ
long_of_bytes little b = b.b0 + b.b1 * 2 ^ 8 + b.b2 * 2 ^ 16 + b.b3 * 2 ^ 24
long_of_bytes big b = b.b0 * 2 ^ 24 + b.b1 * 2 ^ 16 + b.b2 * 2 ^ 8 + b.b3

-- the two bytes of a `uint16_t`
abbrev pub bytes_of_short : Endian → ℕ → ℕ × ℕ
bytes_of_short little v = (byte v 1, byte v (2 ^ 8))
bytes_of_short big v = (byte v (2 ^ 8), byte v 1)

abbrev pub short_of_bytes : Endian → ℕ × ℕ → ℕ
short_of_bytes little b = b.0 + b.1 * 2 ^ 8
short_of_bytes big b = b.0 * 2 ^ 8 + b.1

-- the four functions, in their BOOST_ASIO_WINDOWS_RUNTIME branches
unfoldable pub network_to_host_long : Endian → ℕ → ℕ
network_to_host_long e value =
    let p = bytes_of_long e value in p.b0 * 2 ^ 24 + p.b1 * 2 ^ 16 + p.b2 * 2 ^ 8 + p.b3

unfoldable pub host_to_network_long : Endian → ℕ → ℕ
host_to_network_long e value = long_of_bytes e (record {
  b0 = byte value (2 ^ 24);
  b1 = byte value (2 ^ 16);
  b2 = byte value (2 ^ 8);
  b3 = byte value 1;
})

unfoldable pub network_to_host_short : Endian → ℕ → ℕ
network_to_host_short e value = let p = bytes_of_short e value in p.0 * 2 ^ 8 + p.1

unfoldable pub host_to_network_short : Endian → ℕ → ℕ
host_to_network_short e value = short_of_bytes e (byte value (2 ^ 8), byte value 1)

-- What a client relies on, with the word that four bytes make in memory (`memcpy`) and back.
pub record ByteOrder : Type 0 where
  pub to_host_long : ℕ → ℕ
  pub to_network_long : ℕ → ℕ
  pub to_host_short : ℕ → ℕ
  pub to_network_short : ℕ → ℕ
  pub load_long : Bytes4 → ℕ
  pub store_long : ℕ → Bytes4
  pub to_host_long-to_network_long : (v : ℕ) → v < 2 ^ 32 → to_host_long (to_network_long v) ≡ v
  pub to_network_long-to_host_long : (v : ℕ) → v < 2 ^ 32 → to_network_long (to_host_long v) ≡ v
  pub to_network_long_twice : (v : ℕ) → v < 2 ^ 32 → to_network_long (to_network_long v) ≡ v
  pub to_network_long-lt : (v : ℕ) → v < 2 ^ 32 → to_network_long v < 2 ^ 32
  pub to_host_short-to_network_short : (v : ℕ) → v < 2 ^ 16 → to_host_short (to_network_short v) ≡ v
  pub to_network_short-lt : (v : ℕ) → v < 2 ^ 16 → to_network_short v < 2 ^ 16
