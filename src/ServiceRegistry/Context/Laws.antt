-- ===== src/ServiceRegistry/Context/Laws.antt =====
-- No service of a context of boost_asio/execution_context.cc is leaked or deleted twice.
use mathlib.Core.Path.{subst}
use mathlib.Core.Option.{some-injective}
use boost_asio.Base.{
  sym, ℕ, ◌+◌, ◌≡◌, refl, ap, ◌∙◌, inl, inr, ◌==◌, ltb, if◌then◌else◌, none, some, List, [], ◌∷◌,
  ◌++◌, map, arith, Option-cases, total, total-append,
}
use boost_asio.ServiceRegistry.{
  Services, find, assign, settle, add_service, shutdown_services, destroy_services,
}
use boost_asio.ServiceRegistry.Laws.{IsSorted, assign-IsSorted}
use boost_asio.ServiceRegistry.Context.{
  Context, deleted_by, after_settle, ContextStep, begin_use, finish_use, add, ContextReach,
  shut_down, delete, acts, destroy_context,
}

abbrev pub is_one : ℕ → ℕ → ℕ
is_one s service = if service == s then 1 else 0

abbrev pub is_one_of : ℕ → ℕ × ℕ → ℕ
is_one_of s entry = is_one s entry.1

-- How often a service is registered, in the hand of a thread, and deleted, together.
abbrev pub owners : ℕ → Context → ℕ
owners s c =
    total (is_one_of s) c.services + total (is_one_of s) c.pending + total (is_one s) c.deleted

total-assign :
    (s : ℕ) (m : Services) (key service : ℕ)
    → find m key ≡ none
    → total (is_one_of s) (assign m key service) ≡ total (is_one_of s) m + is_one s service
unfolding find assign
total-assign s [] key service h = omega arith
total-assign s (entry ∷ m) key service h = ground (arith, h, total-assign s m key service)

settle-owners :
    (s : ℕ) (m : Services) (key service : ℕ) (deleted : List ℕ)
    → total (is_one_of s) (settle m key service).services
        + total (is_one s) (deleted_by (settle m key service).deleted deleted)
      ≡ total (is_one_of s) m + total (is_one s) deleted + is_one s service
unfolding settle
settle-owners s m key service deleted = elim (Option-cases (find m key)) [
  | inl absent ↦ rw (absent, settle) (omega (arith, total-assign s m key service absent))
  | inr p ↦ rw (p.1, settle) (omega arith)
]

add_service-total :
    (s : ℕ) (m m' : Services) (key service : ℕ)
    → add_service m key service ≡ some m'
    → total (is_one_of s) m' ≡ total (is_one_of s) m + is_one s service
unfolding add_service
add_service-total s m m' key service e = elim (Option-cases (find m key)) [
  | inl absent ↦
      let added : some (assign m key service) ≡ some m' = rw (absent, add_service) at e in
      ap (λ x. total (is_one_of s) x) (sym (some-injective _ _ added))
      ∙ total-assign s m key service absent
  | inr p ↦ let clash : none ≡ some m' = rw (p.1, add_service) at e in ground (arith, clash)
]

-- Each service that is constructed has one owner.
abbrev IsOwned : Context → Type 0
IsOwned c = (s : ℕ) → owners s c ≡ (if ltb s c.constructed then 1 else 0)

ContextStep-IsOwned : {c c' : Context} → IsOwned c → ContextStep c c' → IsOwned c'
ContextStep-IsOwned {c} owned (begin_use key absent) s = ground (arith, owned s)
ContextStep-IsOwned {c} owned (finish_use before after key service e) s =
    let split =
      ap (λ l. total (is_one_of s) l) e
      ∙ total-append (is_one_of s) before ((key, service) ∷ after) in
    let same : owners s (after_settle c (before ++ after) (settle c.services key service))
        ≡ owners s c =
      omega (
        arith,
        split,
        total-append (is_one_of s) before after,
        settle-owners s c.services key service c.deleted,
      ) in
    same ∙ owned s
ContextStep-IsOwned {c} owned (add key {services} e) s =
    ground (arith, owned s, add_service-total s c.services services key c.constructed e)

ContextReach-IsOwned : {c : Context} → ContextReach c → IsOwned c
ContextReach-IsOwned ContextReach.here s = ground arith
ContextReach-IsOwned (ContextReach.next r st) s = ContextStep-IsOwned (ContextReach-IsOwned r) st s

settle-IsSorted :
    (m : Services) (key service : ℕ) → IsSorted m → IsSorted (settle m key service).services
unfolding settle
settle-IsSorted m key service h = elim (Option-cases (find m key)) [
  | inl absent ↦ rw (absent, settle) (assign-IsSorted m key service h)
  | inr p ↦ rw (p.1, settle) h
]

add_service-IsSorted :
    (m m' : Services) (key service : ℕ)
    → add_service m key service ≡ some m'
    → IsSorted m
    → IsSorted m'
unfolding add_service
add_service-IsSorted m m' key service e h = elim (Option-cases (find m key)) [
  | inl absent ↦
      let added : some (assign m key service) ≡ some m' = rw (absent, add_service) at e in
      subst IsSorted (some-injective _ _ added) (assign-IsSorted m key service h)
  | inr p ↦ let clash : none ≡ some m' = rw (p.1, add_service) at e in ground (arith, clash)
]

ContextReach-IsSorted : {c : Context} → ContextReach c → IsSorted c.services
ContextReach-IsSorted ContextReach.here = tt
ContextReach-IsSorted (ContextReach.next r (begin_use key absent)) = ContextReach-IsSorted r
ContextReach-IsSorted (ContextReach.next {c} r (finish_use before after key service e)) =
    settle-IsSorted c.services key service (ContextReach-IsSorted r)
ContextReach-IsSorted (ContextReach.next {c} r (add key {services} e)) =
    add_service-IsSorted c.services services key c.constructed e (ContextReach-IsSorted r)

-- The services of a registry, in the order of their keys.
abbrev pub registered : Services → List ℕ
registered m = map (λ entry. entry.1) m

total-registered : (s : ℕ) (m : Services) → total (is_one s) (registered m) ≡ total (is_one_of s) m
total-registered s [] = refl
total-registered s (entry ∷ m) = omega (arith, total-registered s m)

-- However threads use and add services, when none of them is inside `use_service` any more:
-- destroying the context shuts the registered services down and deletes them afterwards, both in the
-- order of the registry, which is that of the keys, each key once; and of the services that were
-- constructed each is deleted once, by then or by the `use_service` that was late; no other is
-- deleted.
pub destroy_context-once :
    {c : Context} (s : ℕ)
    → ContextReach c
    → c.pending ≡ []
    → ((destroy_context c.services).0
        ≡ acts shut_down (registered c.services) ++ acts delete (registered c.services))
      × IsSorted c.services
      × (total (is_one s) c.deleted + total (is_one s) (registered c.services)
          ≡ (if ltb s c.constructed then 1 else 0))
unfolding destroy_context shutdown_services destroy_services
destroy_context-once {c} s r idle =
    let none_pending = ap (λ l. total (is_one_of s) l) idle in
    let same : total (is_one s) c.deleted + total (is_one s) (registered c.services) ≡ owners s c =
      omega (arith, none_pending, total-registered s c.services) in
    (refl, ContextReach-IsSorted r, same ∙ ContextReach-IsOwned r s)
