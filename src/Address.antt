-- ===== src/Address.antt =====
-- boost_asio/address_v4.hpp, address_v6.hpp and address.hpp. The conversions of byte order and the C
-- library's `::inet_ntop` and `::inet_pton` are parameters.
pub mod Laws
mod Tests
use boost_asio.Base.{
  ℕ, zero, suc, ◌==◌, if◌then◌else◌, Bool, true, false, not, Option, none, some, List, [], ◌∷◌,
}
use boost_asio.Base.Int.{ℤ, is_positive}
use boost_asio.Base.Ends.{Ends, returns, throws, undefined, throw_error}
use boost_asio.SocketOps.{Os}
use boost_asio.SocketOps.ByteOrder.{Bytes4, ByteOrder}
use boost_asio.SocketOps.Inet.{
  Text, Library, Printed, af_inet, af_inet6, max_addr_v6_str_len, inet_ntop, inet_pton,
}

-- `in_addr`: the word in network order
pub record AddressV4 : Type 0 where
  pub s_addr : ℕ

-- `in6_addr` and the scope
pub record AddressV6 : Type 0 where
  pub s6_addr : List ℕ
  pub scope_id : ℕ

pub record Address : Type 0 where
  pub is_v4 : Bool
  pub ipv4_address : AddressV4
  pub ipv6_address : AddressV6

-- the default constructors
abbrev pub any_v4 : AddressV4
any_v4 = record { s_addr = 0 }

abbrev pub zeros : ℕ → List ℕ
zeros zero = []
zeros (suc n) = 0 ∷ zeros n

abbrev pub any_v6 : AddressV6
any_v6 = record { s6_addr = zeros 16; scope_id = 0 }

abbrev pub any : Address
any = record { is_v4 = true; ipv4_address = any_v4; ipv6_address = any_v6 }

-- the constructors from an address of either kind
abbrev pub address_of_v4 : AddressV4 → Address
address_of_v4 a = record { is_v4 = true; ipv4_address = a; ipv6_address = any_v6 }

abbrev pub address_of_v6 : AddressV6 → Address
address_of_v6 a = record { is_v4 = false; ipv4_address = any_v4; ipv6_address = a }

-- `address_v6(bytes, scope_id)`; the tests of the bytes are never made, as for `address_v4`.
unfoldable pub v6_of_bytes : List ℕ → ℕ → AddressV6
v6_of_bytes bytes scope_id = record { s6_addr = bytes; scope_id = scope_id }

-- `scope_id(id)`
unfoldable pub set_scope_id : AddressV6 → ℕ → AddressV6
set_scope_id a id = record a { scope_id = id }

abbrev pub max_addr_v4_str_len : ℕ
max_addr_v4_str_len = 256

-- EFAULT, `std::errc::bad_address`
abbrev pub bad_address : ℕ
bad_address = 14

unfoldable pub to_v4 : Address → Ends AddressV4
to_v4 a = throw_error (not a.is_v4) bad_address (returns a.ipv4_address)

unfoldable pub to_v6 : Address → Ends AddressV6
to_v6 a = throw_error a.is_v4 bad_address (returns a.ipv6_address)

-- The two functions `to_bytes` copy the bytes and return nothing, which is undefined.
unfoldable pub v4_to_bytes : AddressV4 → Ends Bytes4
v4_to_bytes a = undefined

unfoldable pub v6_to_bytes : AddressV6 → Ends (List ℕ)
v6_to_bytes a = undefined

-- The four bytes of an array that a call has filled.
abbrev pub four_bytes : List ℕ → Bytes4
four_bytes (a ∷ b ∷ c ∷ d ∷ rest) = record { b0 = a; b1 = b; b2 = c; b3 = d }
four_bytes _ = record { b0 = 0; b1 = 0; b2 = 0; b3 = 0 }

abbrev pub bytes_list : Bytes4 → List ℕ
bytes_list b = b.b0 ∷ b.b1 ∷ b.b2 ∷ b.b3 ∷ []

-- What `make_address` gives, with the error code.
pub record Made {ℓ} (A : Type ℓ) (W : Type 0) : Type ℓ where
  pub result : A
  pub ec : ℕ
  pub os : Os W

module _ (order : ByteOrder) where
  -- `address_v4(bytes)`; the tests of the bytes are never made, since an `unsigned char` is at most
  -- 0xFF.
  unfoldable pub v4_of_bytes : Bytes4 → AddressV4
  v4_of_bytes bytes = record { s_addr = order.load_long bytes }

  -- `address_v4(addr)`
  unfoldable pub v4_of_uint : ℕ → AddressV4
  v4_of_uint addr = record { s_addr = order.to_network_long addr }

  unfoldable pub v4_to_uint : AddressV4 → ℕ
  v4_to_uint a = order.to_network_long a.s_addr

-- `std::string(addr)` of what `inet_ntop` returned, behind `throw_error(addr, ec)`
unfoldable pub string_of_printed : {W : Type 0} → Printed W → Ends Text
string_of_printed r = elim r.text [
  | some text ↦ throw_error true r.ec (returns text)
  | none ↦ throw_error false r.ec undefined
]

unfoldable pub string_of : {W : Type 0} → Option (Printed W) → Ends Text
string_of none = undefined
string_of (some r) = string_of_printed r

-- Reading a text fails with an error that is thrown.
unfoldable pub or_throw {ℓ} : {A : Type ℓ} {W : Type 0} → Made A W → Ends A
or_throw m = throw_error (not (m.ec == 0)) m.ec (returns m.result)

module _ {W : Type 0} (order : ByteOrder) (lib : Library)
    (ntop : ℕ → List ℕ → ℕ → Os W → Option Text × Os W)
    (pton : ℕ → Text → Os W → (ℤ × List ℕ) × Os W) where
  unfoldable pub v4_to_string : AddressV4 → Os W → Ends Text
  v4_to_string a os = string_of (
      inet_ntop lib (ntop af_inet) af_inet (bytes_list (order.store_long a.s_addr))
        max_addr_v4_str_len 0 os)

  unfoldable pub v6_to_string : AddressV6 → Os W → Ends Text
  v6_to_string a os =
      string_of (inet_ntop lib (ntop af_inet6) af_inet6 a.s6_addr max_addr_v6_str_len a.scope_id os)

  unfoldable pub to_string : Address → Os W → Ends Text
  to_string a os =
      if a.is_v4 then v4_to_string a.ipv4_address os else v6_to_string a.ipv6_address os

  unfoldable pub make_address_v4 : Text → Os W → Made AddressV4 W
  make_address_v4 str os =
      let r = inet_pton lib (pton af_inet) af_inet str (zeros 4) false 0 os in
      record {
        result =
            if not (is_positive r.value) then any_v4 else v4_of_bytes order (four_bytes r.bytes);
        ec = r.ec;
        os = r.os;
      }

  -- Both branches return the default address.
  unfoldable pub make_address_v6 : Text → Os W → Made AddressV6 W
  make_address_v6 str os =
      let r = inet_pton lib (pton af_inet6) af_inet6 str (zeros 16) true 0 os in
      record { result = if not (is_positive r.value) then any_v6 else any_v6; ec = r.ec; os = r.os }

  unfoldable pub make_address : Text → Os W → Made Address W
  make_address str os =
      let a = make_address_v4 str os in
      let b = make_address_v6 str a.os in
      if a.ec == 0
      then record { result = address_of_v4 a.result; ec = a.ec; os = a.os }
      else if b.ec == 0
      then record { result = address_of_v6 b.result; ec = b.ec; os = b.os }
      else record { result = any; ec = b.ec; os = b.os }
