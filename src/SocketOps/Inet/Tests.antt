-- ===== src/SocketOps/Inet/Tests.antt =====
-- The interface "lo" with index 1 and the address "fe80::", over a library that prints a number as
-- one character.
use boost_asio.Base.{
  ℕ, ◌+◌, ◌-◌, ◌==◌, ◌≡◌, refl, if◌then◌else◌, true, ◌&&◌, Option, none, some, List, [], ◌∷◌, arith,
}
use boost_asio.Base.Int.{ℤ, pos}
use boost_asio.SocketOps.{Os}
use boost_asio.SocketOps.Inet.{
  Text, Library, af_inet6, scope_name, is_link_local, is_multicast_link_local, inet_ntop, inet_pton,
}
use boost_asio.SocketOps.Inet.Laws.{IsDocumented, inet_pton-inet_ntop}

abbrev lo : Text
lo = 108 ∷ 111 ∷ []

abbrev index_of : Text → ℕ
index_of (a ∷ b ∷ []) = if (a == 108) && (b == 111) then 1 else 0
index_of _ = 0

abbrev number_of : Text → ℕ
number_of (c ∷ cs) = c - 48
number_of [] = 0

abbrev name_of : ℕ → Option Text
name_of i = if i == 1 then some lo else none

abbrev one_interface : Library
one_interface = record {
  if_indextoname = name_of;
  if_nametoindex = index_of;
  print_unsigned = λ n. (n + 48) ∷ [];
  atoi = number_of;
}

one_interface-IsDocumented : IsDocumented one_interface
one_interface-IsDocumented = record {
  index = λ i name named. ground arith;
  number = λ n lt. omega arith;
}

abbrev fe80_text : Text
fe80_text = 102 ∷ 101 ∷ 56 ∷ 48 ∷ 58 ∷ 58 ∷ []

abbrev fe80_bytes : List ℕ
fe80_bytes = 254 ∷ 128 ∷ 0 ∷ 0 ∷ 0 ∷ 0 ∷ 0 ∷ 0 ∷ 0 ∷ 0 ∷ 0 ∷ 0 ∷ 0 ∷ 0 ∷ 0 ∷ 0 ∷ []

abbrev ntop : List ℕ → ℕ → Os Unit → Option Text × Os Unit
ntop bytes size os = (some fe80_text, os)

abbrev pton : Text → Os Unit → (ℤ × List ℕ) × Os Unit
pton text os = ((pos 1, fe80_bytes), os)

abbrev idle : Os Unit
idle = record { errno = 0; world = tt }

inet_pton-inet_ntop_example :
    (shown : Text) × (inet_ntop one_interface ntop af_inet6 fe80_bytes 256 1 idle
      ≡ some (record { text = some shown; ec = 0; os = idle }))
    × ((inet_pton one_interface pton af_inet6 shown [] true 0 idle).value ≡ pos 1)
    × ((inet_pton one_interface pton af_inet6 shown [] true 0 idle).bytes ≡ fe80_bytes)
    × ((inet_pton one_interface pton af_inet6 shown [] true 0 idle).scope_id ≡ 1)
unfolding boost_asio.SocketOps.clear_last_error scope_name is_link_local is_multicast_link_local
inet_pton-inet_ntop_example =
    inet_pton-inet_ntop one_interface ntop pton fe80_bytes [] 256 1 0 0 fe80_text idle idle idle
      idle one_interface-IsDocumented refl (ground arith) (ground arith) (ground arith)
      (ground arith) refl refl
