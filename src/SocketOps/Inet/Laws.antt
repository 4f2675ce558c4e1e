-- ===== src/SocketOps/Inet/Laws.antt =====
-- Addresses and their scopes as text, in boost_asio/socket_ops.cc.
use boost_asio.Base.{
  ℕ, suc, ◌%◌, ◌^◌, ◌≤◌, ◌<◌, ◌≡◌, refl, ap, ◌∙◌, ◌≢◌, ◌==◌, true, Option, none, some, List, [],
  ◌∷◌, ◌++◌, length, arith, Bool-cases, Option-cases, inl, inr,
}
use boost_asio.Base.Int.{ℤ, pos}
use boost_asio.SocketOps.{Os, clear_last_error}
use boost_asio.SocketOps.Inet.{
  Text, af_inet6, percent, Library, scope_name, split_scope, parse_scope, with_scope, append_scope,
  after_print, inet_ntop, inet_pton,
}

-- No '%' stands in the text.
abbrev pub IsPlain : Text → Type 0
IsPlain [] = Unit
IsPlain (c ∷ cs) = (c ≢ percent) × IsPlain cs

-- What is documented of the C library: `if_nametoindex` undoes `if_indextoname`, and `atoi` reads
-- what "%lu" prints of a number that fits.
pub record IsDocumented (lib : Library) : Type 0 where
  pub index : (i : ℕ) (name : Text) → lib.if_indextoname i ≡ some name → lib.if_nametoindex name ≡ i
  pub number : (n : ℕ) → n < 2 ^ 31 → lib.atoi (lib.print_unsigned n) ≡ n

split_scope-plain : (text : Text) → IsPlain text → split_scope text ≡ (text, none)
unfolding split_scope
split_scope-plain [] h = refl
split_scope-plain (c ∷ cs) h = ground (arith, h.0, split_scope-plain cs h.1)

split_scope-percent :
    (text name : Text) → IsPlain text → split_scope (text ++ percent ∷ name) ≡ (text, some name)
unfolding split_scope
split_scope-percent [] name h = refl
split_scope-percent (c ∷ cs) name h = ground (arith, h.0, split_scope-percent cs name h.1)

parse_scope-scope_name :
    (lib : Library) (bytes : List ℕ) (scope_id : ℕ)
    → IsDocumented lib
    → scope_id < 2 ^ 31
    → scope_id ≢ 0
    → lib.if_nametoindex (lib.print_unsigned scope_id) ≡ 0
    → parse_scope lib bytes (some (scope_name lib bytes scope_id)) ≡ scope_id
unfolding parse_scope scope_name
parse_scope-scope_name lib bytes scope_id doc lt nonzero no_name =
    elim (Option-cases (lib.if_indextoname (scope_id % 2 ^ 32))) [
      | inl e ↦ ground (arith, e, no_name, doc.number scope_id)
      | inr p ↦
          ground (arith, p.1, doc.index (scope_id % 2 ^ 32) p.0 p.1, no_name, doc.number scope_id)
    ]

module _ {W : Type 0} (lib : Library) where
  printed :
      (sys : List ℕ → ℕ → Os W → Option Text × Os W) (bytes : List ℕ) (size scope_id : ℕ)
      (os os' : Os W) (text shown : Text)
      → sys bytes (size % 2 ^ 32) (clear_last_error os) ≡ (some text, os')
      → with_scope lib af_inet6 bytes size scope_id text ≡ some shown
      → inet_ntop lib sys af_inet6 bytes size scope_id os
        ≡ some (record { text = some shown; ec = os'.errno; os = os' })
  unfolding inet_ntop after_print
  printed sys bytes size scope_id os os' text shown e fits =
      rw (e, inet_ntop)
        (rw (fits, after_print)
          (ap (λ (o : Os W). some (record { text = some shown; ec = o.errno; os = o }))
            (ap (λ r. r.1) e)))

  parsed :
      (sys : Text → Os W → (ℤ × List ℕ) × Os W) (src text : Text) (name : Option Text)
      (dest bytes : List ℕ) (old n : ℕ) (os os' : Os W)
      → split_scope src ≡ (text, name)
      → length text ≤ 256
      → sys text (clear_last_error os) ≡ ((pos (suc n), bytes), os')
      → let p = inet_pton lib sys af_inet6 src dest true old os in
        (p.value ≡ pos (suc n)) × (p.bytes ≡ bytes) × (p.scope_id ≡ parse_scope lib bytes name)
  unfolding inet_pton
  parsed sys src text none dest bytes old n os os' split short e =
      (ground (arith, split, e), ground (arith, split, e), ground (arith, split, e))
  parsed sys src text (some name) dest bytes old n os os' split short e =
      (ground (arith, split, e), ground (arith, split, e), ground (arith, split, e))

  -- What `inet_ntop` prints of an IPv6 address and a scope below 2 ^ 31, `inet_pton` reads back:
  -- the same bytes and the same scope, whether the scope is printed as the name of an interface or
  -- as a number. The text with the scope is assumed to fit the buffer, no interface to be named by
  -- the digits of this scope, the calls of the same name to read back the address without a scope,
  -- which has no '%' and at most 256 characters, and the C library to be as documented.
  pub inet_pton-inet_ntop :
      (ntop : List ℕ → ℕ → Os W → Option Text × Os W) (pton : Text → Os W → (ℤ × List ℕ) × Os W)
      (bytes dest : List ℕ) (size scope_id old n : ℕ) (text : Text) (os os' next next' : Os W)
      → IsDocumented lib
      → lib.if_nametoindex (lib.print_unsigned scope_id) ≡ 0
      → scope_id < 2 ^ 31
      → IsPlain text
      → length text ≤ 256
      → length (text ++ percent ∷ scope_name lib bytes scope_id) < size
      → ntop bytes (size % 2 ^ 32) (clear_last_error os) ≡ (some text, os')
      → pton text (clear_last_error next) ≡ ((pos (suc n), bytes), next')
      → (shown : Text) × (inet_ntop lib ntop af_inet6 bytes size scope_id os
          ≡ some (record { text = some shown; ec = os'.errno; os = os' }))
        × ((inet_pton lib pton af_inet6 shown dest true old next).value ≡ pos (suc n))
        × ((inet_pton lib pton af_inet6 shown dest true old next).bytes ≡ bytes)
        × ((inet_pton lib pton af_inet6 shown dest true old next).scope_id ≡ scope_id)
  unfolding parse_scope with_scope append_scope
  inet_pton-inet_ntop ntop pton bytes dest size scope_id old n text os os' next next' doc no_name lt
        plain short fits p q =
      elim (Bool-cases (scope_id == 0)) [
        | inl zero_scope ↦
            let back =
              parsed pton text text none dest bytes old n next next' (split_scope-plain text plain)
                short q in
            (
              text,
              printed ntop bytes size scope_id os os' text text p (rw zero_scope refl),
              back.0,
              back.1,
              back.2 ∙ ground (arith, zero_scope),
            )
        | inr scoped ↦
            let name = scope_name lib bytes scope_id in
            let back =
              parsed pton (text ++ percent ∷ name) text (some name) dest bytes old n next next'
                (split_scope-percent text name plain) short q in
            (
              text ++ percent ∷ name,
              printed ntop bytes size scope_id os os' text (text ++ percent ∷ name) p
                  (ground (arith, scoped, fits)),
              back.0,
              back.1,
              back.2
                  ∙ parse_scope-scope_name lib bytes scope_id doc lt (ground (arith, scoped))
                      no_name,
            )
      ]
