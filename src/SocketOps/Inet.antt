-- ===== src/SocketOps/Inet.antt =====
-- `inet_ntop` and `inet_pton` of boost_asio/socket_ops.cc: the calls of the same name, and the
-- scope of an IPv6 address behind a '%'. A text is the list of its characters, without the 0 at its
-- end.
pub mod Laws
mod Tests
use boost_asio.Base.{
  ℕ, ◌+◌, ◌%◌, ◌^◌, ◌/◌, ◌==◌, ltb, if◌then◌else◌, Bool, true, false, not, ◌&&◌, ◌||◌, Option, none,
  some, List, [], ◌∷◌, ◌++◌, length,
}
use boost_asio.Base.Int.{ℤ, pos, is_positive}
use boost_asio.SocketOps.{Os, clear_last_error, invalid_argument}

abbrev pub Text : Type 0
Text = List ℕ

-- AF_INET and AF_INET6
abbrev pub af_inet : ℕ
af_inet = 2

abbrev pub af_inet6 : ℕ
af_inet6 = 10

abbrev pub max_addr_v6_str_len : ℕ
max_addr_v6_str_len = 256

-- '%'
abbrev pub percent : ℕ
percent = 37

-- the first two bytes of an address, as far as they are there
abbrev pub byte_at : List ℕ → ℕ → ℕ
byte_at [] i = 0
byte_at (b ∷ bs) i = if i == 0 then b else elim bs [ [] ↦ 0 | c ∷ cs ↦ c ]

-- `(s6_addr[0] == 0xfe) && ((s6_addr[1] & 0xc0) == 0x80)`
pub is_link_local : List ℕ → Bool
is_link_local bytes = (byte_at bytes 0 == 254) && (byte_at bytes 1 / 64 % 4 == 2)

-- `(s6_addr[0] == 0xff) && ((s6_addr[1] & 0x0f) == 0x02)`
pub is_multicast_link_local : List ℕ → Bool
is_multicast_link_local bytes = (byte_at bytes 0 == 255) && (byte_at bytes 1 % 16 == 2)

-- What the C library has: names of interfaces, and numbers as text.
pub record Library : Type 0 where
  pub if_indextoname : ℕ → Option Text
  pub if_nametoindex : Text → ℕ
  pub print_unsigned : ℕ → Text  -- `sprintf("%lu")`
  pub atoi : Text → ℕ  -- as an unsigned long

-- The text that `inet_ntop` leaves in `dest`, if it does not return null.
pub record Printed (W : Type 0) : Type 0 where
  pub text : Option Text
  pub ec : ℕ
  pub os : Os W

-- The name behind the '%'.
unfoldable pub scope_name : Library → List ℕ → ℕ → Text
scope_name lib bytes scope_id =
    if not (is_link_local bytes) && not (is_multicast_link_local bytes)
    then lib.print_unsigned scope_id
    else elim (lib.if_indextoname (scope_id % 2 ^ 32)) [
      | none ↦ lib.print_unsigned scope_id
      | some name ↦ name
    ]

-- `strchr(src, '%')`: what stands before the first one, and what stands behind it.
unfoldable pub split_scope : Text → Text × Option Text
split_scope [] = ([], none)
split_scope (c ∷ cs) =
    let r = split_scope cs in if c == percent then ([], some cs) else (c ∷ r.0, r.1)

-- What `inet_pton` gives: its result, the error, the bytes in `dest`, and `*scope_id`.
pub record Parsed (W : Type 0) : Type 0 where
  pub value : ℤ
  pub ec : ℕ
  pub bytes : List ℕ
  pub scope_id : ℕ
  pub os : Os W

-- `*scope_id`, behind an address that was parsed.
unfoldable pub parse_scope : Library → List ℕ → Option Text → ℕ
parse_scope lib bytes none = 0
parse_scope lib bytes (some name) =
    let index =
      if is_link_local bytes || is_multicast_link_local bytes then lib.if_nametoindex name else 0 in
    if index == 0 then lib.atoi name else index

-- `strcat(dest, if_name)`; `none` is undefined: the text, the '%', the name and the 0 at the end do
-- not fit `dest`.
unfoldable pub append_scope : ℕ → Text → Text → Option Text
append_scope size text name =
    let shown = text ++ percent ∷ name in if ltb (length shown) size then some shown else none

-- The text with its scope, if it has one.
unfoldable pub with_scope : Library → ℕ → List ℕ → ℕ → ℕ → Text → Option Text
with_scope lib af bytes size scope_id text =
    if (af == af_inet6) && not (scope_id == 0)
    then append_scope size text (scope_name lib bytes scope_id)
    else some text

module _ {W : Type 0} (lib : Library) where
  -- Behind a call of `::inet_ntop` that gave a text, which is `dest` then.
  unfoldable pub after_print : ℕ → List ℕ → ℕ → ℕ → Os W → Text → Option (Printed W)
  after_print af bytes size scope_id os text = elim (with_scope lib af bytes size scope_id text) [
    | none ↦ none
    | some shown ↦ some (record { text = some shown; ec = os.errno; os = os })
  ]

  -- `inet_ntop`, where `dest` has `size` characters, and `none` is undefined; `::inet_ntop` is the
  -- parameter, with the bytes and the length.
  unfoldable pub inet_ntop :
      (List ℕ → ℕ → Os W → Option Text × Os W)
      → ℕ
      → List ℕ
      → (size : ℕ) → ℕ
      → Os W
      → Option (Printed W)
  inet_ntop sys af bytes size scope_id os =
      let r = sys bytes (size % 2 ^ 32) (clear_last_error os) in
      elim r.0 [
        | none ↦ some (record {
          text = none;
          ec = if r.1.errno == 0 then invalid_argument else r.1.errno;
          os = r.1;
        })
        | some text ↦ after_print af bytes size scope_id r.1 text
      ]

  -- `inet_pton`, given what `dest` and `*scope_id` hold, and whether `scope_id` is not null;
  -- `::inet_pton` is the parameter, with the text, and gives the bytes too.
  unfoldable pub inet_pton :
      (Text → Os W → (ℤ × List ℕ) × Os W) → ℕ → Text → List ℕ → Bool → ℕ → Os W → Parsed W
  inet_pton sys af src dest has_scope scope_id os =
      let is_v6 = af == af_inet6 in
      let (before, name) = if is_v6 then split_scope src else (src, none) in
      let os' = clear_last_error os in
      let ((value, bytes), os'') = sys before os' in
      let too_long : Bool = elim name [
        | none ↦ false
        | some n ↦ ltb max_addr_v6_str_len (length before)
      ] in
      if too_long
      then record {
        value = pos 0;
        ec = invalid_argument;
        bytes = dest;
        scope_id = scope_id;
        os = os';
      }
      else record {
        value = value;
        ec = if not (is_positive value) && (os''.errno == 0) then invalid_argument else os''.errno;
        bytes = bytes;
        scope_id =
            if is_positive value && is_v6 && has_scope
            then parse_scope lib bytes name
            else scope_id;
        os = os'';
      }
