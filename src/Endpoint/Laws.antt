-- ===== src/Endpoint/Laws.antt =====
-- What boost_asio/endpoint.hpp keeps of a port and of an address.
use boost_asio.Base.{ℕ, ◌^◌, ◌<◌, ◌≡◌, refl, ◌==◌, if◌then◌else◌, arith}
use boost_asio.SocketOps.ByteOrder.{ByteOrder}
use boost_asio.SocketOps.Inet.{af_inet}
use boost_asio.Base.Ends.{returns, undefined, throw_error}
use boost_asio.Address.{Address, to_v4, to_v6, v6_to_bytes}
use boost_asio.Endpoint.{
  Endpoint, v4, v6, default_endpoint, is_v4, then_do, endpoint_of_family, sockaddr4,
  endpoint_of_address, port, set_port, address, set_address,
}

module _ (order : ByteOrder) where
  -- Setting the port of an endpoint to a 16-bit number, and reading it back, gives the number; the
  -- address and the family stay. So it is for an endpoint that is made of a family and a port, which
  -- is an IPv4 endpoint just if the family is AF_INET.
  pub port-set_port :
      (e : Endpoint) (p family : ℕ)
      → p < 2 ^ 16
      → (port order (set_port order e p) ≡ p)
        × (address order (set_port order e p) ≡ address order e)
        × (is_v4 (set_port order e p) ≡ is_v4 e)
        × (port order (endpoint_of_family order family p) ≡ p)
        × (is_v4 (endpoint_of_family order family p) ≡ (family == af_inet))
  unfolding port set_port address is_v4 endpoint_of_family
  port-set_port (v4 d) p family lt =
      let back = order.to_host_short-to_network_short p lt in
      (back, refl, refl, ground (arith, back), ground arith)
  port-set_port (v6 d) p family lt =
      let back = order.to_host_short-to_network_short p lt in
      (back, refl, refl, ground (arith, back), ground arith)

  -- An endpoint made of an address and a 16-bit port forgets the address: with an IPv4 address the
  -- result is the default endpoint with the port, whatever the address was, and with an IPv6 address
  -- its construction is undefined. Setting the address of an endpoint that has the port does the
  -- same.
  pub endpoint_of_address_forgets :
      (a : Address) (e : Endpoint) (p : ℕ)
      → p < 2 ^ 16
      → (endpoint_of_address order a p
          ≡ (if a.is_v4 then returns (set_port order default_endpoint p) else undefined))
        × (set_address order (set_port order e p) a ≡ endpoint_of_address order a p)
  unfolding endpoint_of_address set_address sockaddr4 set_port port then_do to_v4 to_v6 v6_to_bytes
      throw_error
  endpoint_of_address_forgets a (v4 d) p lt =
      let back = order.to_host_short-to_network_short p lt in (ground arith, rw back refl)
  endpoint_of_address_forgets a (v6 d) p lt =
      let back = order.to_host_short-to_network_short p lt in (ground arith, rw back refl)
