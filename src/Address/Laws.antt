-- ===== src/Address/Laws.antt =====
-- What boost_asio/address.hpp, address_v4.hpp and address_v6.hpp make of numbers and texts.
use boost_asio.Base.{
  ℕ, ◌%◌, ◌^◌, ◌≡◌, refl, ◌⊎◌, ◌==◌, if◌then◌else◌, true, Option, none, some, List, arith,
  Option-cases, Bool-cases, inl, inr,
}
use boost_asio.Base.Int.{ℤ}
use boost_asio.SocketOps.{Os, clear_last_error}
use boost_asio.SocketOps.ByteOrder.{ByteOrder}
use boost_asio.SocketOps.Inet.{Text, Library, af_inet, af_inet6, with_scope, after_print, inet_ntop}
use boost_asio.Base.Ends.{Ends, throws, undefined, throw_error}
use boost_asio.Address.{
  Address, any_v6, any, bytes_list, string_of_printed, string_of, to_string, v4_to_string,
  v6_to_string, make_address, make_address_v4, make_address_v6,
}

-- What `to_string` does with the call of `::inet_ntop` that it makes: `shown` is a text that the
-- call gave, with its scope.
abbrev pub Ending : {W : Type 0} → Option Text × Os W → (Text → Option Text) → Ends Text → Type 0
Ending call shown ended =
    ((call.0 ≡ none) × (ended ≡ undefined))
    ⊎ (text : Text) × (call.0 ≡ some text)
      × (((shown text ≡ none) × (ended ≡ undefined))
          ⊎ (((whole : Text) × (shown text ≡ some whole)) × (ended ≡ throws call.1.errno)))

module _ {W : Type 0} (lib : Library) where
  string_of-Ending :
      (sys : List ℕ → ℕ → Os W → Option Text × Os W) (af : ℕ) (bytes : List ℕ) (size scope_id : ℕ)
      (os : Os W)
      → Ending
          (sys bytes (size % 2 ^ 32) (record os { errno = 0 }))
          (with_scope lib af bytes size scope_id)
          (string_of (inet_ntop lib sys af bytes size scope_id os))
  unfolding string_of string_of_printed throw_error inet_ntop after_print clear_last_error
  string_of-Ending sys af bytes size scope_id os =
      elim (Option-cases (sys bytes (size % 2 ^ 32) (record os { errno = 0 })).0) [
        | inl e ↦ inl (e, rw (e, inet_ntop) refl)
        | inr (text, e) ↦ inr (
          text,
          e,
          elim (Option-cases (with_scope lib af bytes size scope_id text)) [
            | inl long ↦ inl (long, rw (e, inet_ntop) (rw (long, after_print) refl))
            | inr (whole, fits) ↦
                inr ((whole, fits), rw (e, inet_ntop) (rw (fits, after_print) refl))
          ],
        )
      ]

module _ {W : Type 0} (order : ByteOrder) (lib : Library)
    (ntop : ℕ → List ℕ → ℕ → Os W → Option Text × Os W)
    (pton : ℕ → Text → Os W → (ℤ × List ℕ) × Os W) where
  -- `to_string` of an address never returns a text. It calls `::inet_ntop` once, with errno 0 and
  -- room for 256 characters: where that gives a text, it throws whatever errno the call has left,
  -- since the condition of `throw_error` is the text, unless the text of an IPv6 address has a scope
  -- that does not fit behind it, which is undefined; and where it gives null, a string is made of
  -- the null pointer, which is undefined.
  pub to_string-Ending :
      (a : Address) (os : Os W)
      → let af = if a.is_v4 then af_inet else af_inet6 in
        let bytes =
          if a.is_v4
          then bytes_list (order.store_long a.ipv4_address.s_addr)
          else a.ipv6_address.s6_addr in
        let scope_id = if a.is_v4 then 0 else a.ipv6_address.scope_id in
        Ending
          (ntop af bytes 256 (record os { errno = 0 }))
          (with_scope lib af bytes 256 scope_id)
          (to_string order lib ntop pton a os)
  unfolding to_string v4_to_string v6_to_string
  to_string-Ending a os = elim (Bool-cases a.is_v4) [
    | inl v4 ↦ rw v4 (
        string_of-Ending lib (ntop af_inet) af_inet
          (bytes_list (order.store_long a.ipv4_address.s_addr)) 256 0 os)
    | inr v6 ↦ rw v6 (
        string_of-Ending lib (ntop af_inet6) af_inet6 a.ipv6_address.s6_addr 256
          a.ipv6_address.scope_id os)
  ]

  -- Whatever the text, `make_address` never keeps an IPv6 address: if it reads the text as IPv4 the
  -- result has that address; if not, it is the default address, or, without an error, the IPv6
  -- address "::" with scope 0.
  pub make_address_loses :
      (str : Text) (os : Os W)
      → let m = make_address order lib ntop pton str os in
        (m.result.ipv6_address ≡ any_v6)
        × ((m.result.is_v4 ≡ true) ⊎ (m.ec ≡ 0))
        × (m.result.ipv4_address ≡ (
            if (make_address_v4 order lib ntop pton str os).ec == 0
            then (make_address_v4 order lib ntop pton str os).result
            else any.ipv4_address))
  unfolding make_address make_address_v6
  make_address_loses str os = (ground arith, ground arith, ground arith)
