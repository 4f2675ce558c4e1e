-- ===== src/Endpoint/Tests.antt =====
-- The endpoint 127.0.0.1:80 and its address, on a little-endian machine.
use boost_asio.Base.{◌≡◌, if◌then◌else◌, arith}
use boost_asio.SocketOps.ByteOrder.{little, ByteOrder}
use boost_asio.SocketOps.ByteOrder.Laws.{runtime_order}
use boost_asio.Base.Ends.{returns, undefined}
use boost_asio.Address.{address_of_v4}
use boost_asio.Endpoint.{
  Sockaddr4, v4, default_endpoint, endpoint_of_address, set_port, set_address,
}
use boost_asio.Endpoint.Laws.{endpoint_of_address_forgets}

abbrev order : ByteOrder
order = runtime_order little

abbrev loopback : Sockaddr4
loopback = record { sin_port = 20480; sin_addr = 16777343 }

endpoint_of_address_forgets_example :
    (endpoint_of_address order (address_of_v4 (record { s_addr = 16777343 })) 8080 ≡ (
      if (address_of_v4 (record { s_addr = 16777343 })).is_v4
      then returns (set_port order default_endpoint 8080)
      else undefined))
    × (set_address order
          (set_port order (v4 loopback) 8080)
          (address_of_v4 (record { s_addr = 16777343 }))
        ≡ endpoint_of_address order (address_of_v4 (record { s_addr = 16777343 })) 8080)
endpoint_of_address_forgets_example =
    endpoint_of_address_forgets order (address_of_v4 (record { s_addr = 16777343 })) (v4 loopback)
      8080 (omega arith)
