-- ===== src/CallStack/Tests.antt =====
-- A thread that is in `run` of scheduler 1, from there in that of scheduler 2, and again in that of
-- scheduler 1, within which a context of key 3 was entered.
use boost_asio.Base.{ℕ, ◌≡◌, some, List, [], ◌∷◌, ◌++◌, arith}
use boost_asio.CallStack.{Context, enter, leave, contains, next_by_key}
use boost_asio.CallStack.Laws.{contains_innermost}

abbrev context : ℕ → ℕ → Context ℕ
context k v = record { key = k; value = v }

abbrev inner_contexts : List (Context ℕ)
inner_contexts = context 3 30 ∷ []

abbrev outer_contexts : List (Context ℕ)
outer_contexts = context 2 20 ∷ context 1 10 ∷ []

contains_innermost_example :
    (contains 1 (inner_contexts ++ enter outer_contexts 1 11) ≡ some 11)
    × (next_by_key (context 1 11) outer_contexts ≡ contains 1 (leave (enter outer_contexts 1 11)))
contains_innermost_example =
    contains_innermost 1 11 inner_contexts outer_contexts (ground arith, tt)
