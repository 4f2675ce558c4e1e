-- ===== src/Endpoint.antt =====
-- boost_asio/endpoint.hpp, and boost_asio/basic_endpoint.hpp over tcp.hpp. The union of the socket
-- addresses is the one that its family says; ports and the IPv4 address are in network order.
pub mod Laws
mod Tests
use boost_asio.Base.{ℕ, ◌%◌, ◌^◌, ◌==◌, if◌then◌else◌, Bool, true, false, List}
use boost_asio.SocketOps.ByteOrder.{ByteOrder}
use boost_asio.SocketOps.Inet.{af_inet, af_inet6}
use boost_asio.Base.Ends.{Ends, returns, throws, undefined}
use boost_asio.Address.{
  AddressV4, AddressV6, Address, zeros, address_of_v4, address_of_v6, to_v4, to_v6, v6_to_bytes,
  v4_of_uint, v4_to_uint,
}

-- `sockaddr_in` and `sockaddr_in6`
pub record Sockaddr4 : Type 0 where
  pub sin_port : ℕ
  pub sin_addr : ℕ

pub record Sockaddr6 : Type 0 where
  pub sin6_port : ℕ
  pub sin6_flowinfo : ℕ
  pub sin6_addr : List ℕ
  pub sin6_scope_id : ℕ

pub data Endpoint : Type 0 where
  v4 : Sockaddr4 → Endpoint
  v6 : Sockaddr6 → Endpoint

-- INADDR_ANY
abbrev pub inaddr_any : ℕ
inaddr_any = 0

-- `endpoint()`
abbrev pub default_endpoint : Endpoint
default_endpoint = v4 (record { sin_port = 0; sin_addr = inaddr_any })

unfoldable pub is_v4 : Endpoint → Bool
is_v4 (v4 d) = true
is_v4 (v6 d) = false

-- `tcp` by its family, with `v4()`, and its `type` (SOCK_STREAM) and `protocol` (IPPROTO_TCP)
pub record Tcp : Type 0 where
  pub family : ℕ

abbrev pub tcp_v4 : Tcp
tcp_v4 = record { family = af_inet }

unfoldable pub tcp_type : Tcp → ℕ
tcp_type t = 1

unfoldable pub tcp_protocol : Tcp → ℕ
tcp_protocol t = 6

-- `tcp::v4().family()`, what `basic_endpoint::protocol` gives, whatever the endpoint
unfoldable pub protocol : Endpoint → ℕ
protocol e = tcp_v4.family

-- What follows the end of a call.
unfoldable pub then_do {ℓ κ} : {A : Type ℓ} {B : Type κ} → Ends A → (A → Ends B) → Ends B
then_do (returns a) f = f a
then_do (throws ec) f = throws ec
then_do undefined f = undefined

module _ (order : ByteOrder) where
  -- `endpoint(family, port)`
  unfoldable pub endpoint_of_family : ℕ → ℕ → Endpoint
  endpoint_of_family family port =
      if family == af_inet
      then v4 (record { sin_port = order.to_network_short port; sin_addr = inaddr_any })
      else v6 (record {
        sin6_port = order.to_network_short port;
        sin6_flowinfo = 0;
        sin6_addr = zeros 16;
        sin6_scope_id = 0;
      })

  -- `data_.v4` of `endpoint(addr, port)`: the address is assigned, and then INADDR_ANY.
  unfoldable pub sockaddr4 : AddressV4 → ℕ → Sockaddr4
  sockaddr4 a port =
      let assigned : Sockaddr4 = record {
        sin_port = order.to_network_short port;
        sin_addr = order.to_network_long (v4_to_uint order a);
      } in
      record assigned { sin_addr = inaddr_any }

  -- `endpoint(addr, port)`
  unfoldable pub endpoint_of_address : Address → ℕ → Ends Endpoint
  endpoint_of_address a port =
      if a.is_v4
      then then_do (to_v4 a) (λ ipv4. returns (v4 (sockaddr4 ipv4 port)))
      else then_do (to_v6 a) (λ ipv6. then_do (v6_to_bytes ipv6) (λ bytes. returns (
          v6 (record {
            sin6_port = order.to_network_short port;
            sin6_flowinfo = 0;
            sin6_addr = bytes;
            sin6_scope_id = ipv6.scope_id % 2 ^ 32;
          }))))

  -- `port()`
  unfoldable pub port : Endpoint → ℕ
  port (v4 d) = order.to_host_short d.sin_port
  port (v6 d) = order.to_host_short d.sin6_port

  -- `port(port)`
  unfoldable pub set_port : Endpoint → ℕ → Endpoint
  set_port (v4 d) port = v4 (record d { sin_port = order.to_network_short port })
  set_port (v6 d) port = v6 (record d { sin6_port = order.to_network_short port })

  -- `address()`
  unfoldable pub address : Endpoint → Address
  address (v4 d) = address_of_v4 (v4_of_uint order (order.to_host_long d.sin_addr))
  address (v6 d) = address_of_v6 (record { s6_addr = d.sin6_addr; scope_id = d.sin6_scope_id })

  -- `address(addr)`
  unfoldable pub set_address : Endpoint → Address → Ends Endpoint
  set_address e a = endpoint_of_address a (port e)
