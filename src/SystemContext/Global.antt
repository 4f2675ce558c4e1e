-- ===== src/SystemContext/Global.antt =====
-- boost_asio/global.hpp: the one object of a type, by which system_executor.hpp finds its context.
-- `std::call_once` is the interface `CallOnce`; a call of it is one step, since a second caller
-- waits for the first. A constructor that throws is left out.
use mathlib.Core.Path.{subst}
use boost_asio.Base.{
  ℕ, zero, suc, ◌≡◌, refl, Bool, true, false, arith, ap, ◌∙◌, Option, none, some, List, [], ◌∷◌,
  ◌++◌, All,
}

-- What `std::once_flag` and `std::call_once` promise for functions that return.
pub record CallOnce (Flag : Type 0) : Type 1 where
  pub fresh : Flag
  pub call_once : {S : Type 0} → (S → S) → Flag → S → Flag × S
  pub IsUsed : Flag → Type 0
  pub first : {S : Type 0} (f : S → S) (s : S) → (call_once f fresh s).1 ≡ f s
  pub first_used : {S : Type 0} (f : S → S) (s : S) → IsUsed (call_once f fresh s).0
  pub again :
      {S : Type 0} (f : S → S) (flag : Flag) (s : S) → IsUsed flag → call_once f flag s ≡ (flag, s)

-- The promise can be kept: a flag that is set by the first call.
abbrev pub call_by_flag : {S : Type 0} → (S → S) → Bool → S → Bool × S
call_by_flag f false s = (true, f s)
call_by_flag f true s = (true, s)

pub call_by_flag-set :
    {S : Type 0} (f : S → S) (flag : Bool) (s : S) → flag ≡ true → call_by_flag f flag s ≡ (flag, s)
call_by_flag-set f false s h = ground arith
call_by_flag-set f true s h = refl

abbrev pub by_flag : CallOnce Bool
by_flag = record {
  fresh = false;
  call_once = call_by_flag;
  IsUsed = λ flag. flag ≡ true;
  first = λ f s. refl;
  first_used = λ f s. refl;
  again = call_by_flag-set;
}

-- `instance_`, with how many objects were constructed and which were deleted; an object is its
-- number.
pub record Instance : Type 0 where
  pub ptr : Option ℕ
  pub constructed : ℕ
  pub deleted : List ℕ

-- static initialisation
abbrev pub zeroed : Instance
zeroed = record { ptr = none; constructed = 0; deleted = [] }

unfoldable pub do_init : Instance → Instance
do_init i = record i { ptr = some i.constructed; constructed = suc i.constructed }

-- `~global_impl`; deleting a null pointer does nothing.
unfoldable pub destroy_global : Instance → Instance
destroy_global i = elim i.ptr [ none ↦ i | some p ↦ record i { deleted = i.deleted ++ p ∷ [] } ]

module _ {Flag : Type 0} (once : CallOnce Flag) where
  -- `global()`; a null pointer that is dereferenced is `none`.
  unfoldable pub global : Flag → Instance → (Flag × Instance) × Option ℕ
  global flag i = let r = once.call_once do_init flag i in (r, r.1.ptr)

  -- Some calls in a row, with what they give.
  pub globals : ℕ → Flag → Instance → (Flag × Instance) × List (Option ℕ)
  globals zero flag i = ((flag, i), [])
  globals (suc n) flag i =
      let r = global flag i in let rest = globals n r.0.0 r.0.1 in (rest.0, r.1 ∷ rest.1)

  globals-used :
      (n : ℕ) (flag : Flag) (i : Instance)
      → once.IsUsed flag
      → ((globals n flag i).0.1 ≡ i) × All (λ p. p ≡ i.ptr) (globals n flag i).1
  unfolding globals global
  globals-used zero flag i used = (refl, tt)
  globals-used (suc n) flag i used =
      let (same, given) = globals-used n flag i used in
      rw (once.again do_init flag i used) (same, (refl, given))

  -- With `std::call_once` as documented, however many calls of `global` are made, at least one, and
  -- in whatever order threads make them: one object is constructed, each call gives that object,
  -- and the destructor of the instance deletes it, and nothing else.
  pub globals-once :
      (n : ℕ)
      → let r = globals (suc n) once.fresh zeroed in
        (r.0.1.constructed ≡ 1)
        × All (λ p. p ≡ some 0) r.1
        × ((destroy_global r.0.1).deleted ≡ 0 ∷ [])
  unfolding globals global destroy_global do_init
  globals-once n =
      let (flag, i) = once.call_once do_init once.fresh zeroed in
      let made = once.first do_init zeroed in
      let (same, given) = globals-used n flag i (once.first_used do_init zeroed) in
      let ended = same ∙ made in
      (
        ap (λ (j : Instance). j.constructed) ended,
        (
          ap (λ (j : Instance). j.ptr) made,
          subst (λ p. All (λ q. q ≡ p) (globals n flag i).1) (ap (λ (j : Instance). j.ptr) made)
              given,
        ),
        ap (λ j. (destroy_global j).deleted) ended,
      )
