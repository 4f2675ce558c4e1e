-- ===== src/Address/Tests.antt =====
-- A system whose calls always succeed with the same text and bytes.
use boost_asio.Base.{ℕ, Option, none, some, List, [], ◌∷◌}
use boost_asio.Base.Int.{ℤ, pos}
use boost_asio.SocketOps.{Os}
use boost_asio.SocketOps.ByteOrder.{little}
use boost_asio.SocketOps.ByteOrder.Laws.{runtime_order}
use boost_asio.SocketOps.Inet.{Text, Library, af_inet, with_scope}
use boost_asio.Address.{any, to_string}
use boost_asio.Address.Laws.{Ending, to_string-Ending}

abbrev no_interface : Library
no_interface = record {
  if_indextoname = λ i. none;
  if_nametoindex = λ name. 0;
  print_unsigned = λ n. n ∷ [];
  atoi = λ text. 0;
}

abbrev ntop : ℕ → List ℕ → ℕ → Os Unit → Option Text × Os Unit
ntop af bytes size os = (some (49 ∷ []), os)

abbrev pton : ℕ → Text → Os Unit → (ℤ × List ℕ) × Os Unit
pton af text os = ((pos 1, 127 ∷ 0 ∷ 0 ∷ 1 ∷ []), os)

abbrev idle : Os Unit
idle = record { errno = 0; world = tt }

to_string-Ending_example :
    Ending
      (ntop af_inet (0 ∷ 0 ∷ 0 ∷ 0 ∷ []) 256 idle)
      (with_scope no_interface af_inet (0 ∷ 0 ∷ 0 ∷ 0 ∷ []) 256 0)
      (to_string (runtime_order little) no_interface ntop pton any idle)
to_string-Ending_example = to_string-Ending (runtime_order little) no_interface ntop pton any idle
