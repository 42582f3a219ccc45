-- ===== src/System/Reads.antt =====
-- store/store.go: the reads that delete what they find expired, as steps of a node.
use redis_glass.Prelude.{
  ℕ, length, ◌≡◌, refl, true, Option, none, some, List, [], ◌∷◌, ◌++◌, append-nil, append_assoc,
  sym, Bytes, ℤ, lookup, Bool-cases, inl, inr,
}
use mathlib.Core.Path.{subst}
use redis_glass.Store.{
  Entry, Store, is_expired, found, get_read, get_finish, get, exists_key, exists, ttl_finish, ttl,
}
use redis_glass.Aof.{Command}
use redis_glass.Aof.Rewrite.{Aof}
use redis_glass.Aof.Node.{Node, forget, Reach, here, next}
use redis_glass.Commands.State.{Handler, Clock}
use redis_glass.Commands.Strings.{handle_get, handle_exists, handle_ttl}
use redis_glass.Commands.State.{wrong_number}
use redis_glass.System.Log.{Follows, node, stay_put}

pub Reach-trans :
    (l : Node) {cs : List Command} (m : Node) {ds : List Command} (n : Node)
    → Reach l cs m
    → Reach m ds n
    → Reach l (cs ++ ds) n
Reach-trans l {cs} m n r here = subst (λ xs. Reach l xs m) (sym (append-nil cs)) r
Reach-trans l {cs} m n r (next {m = t} {cs = xs} {ds = ys} r' st) =
    subst (λ zs. Reach l zs n) (append_assoc cs xs ys) (next (Reach-trans l m t r r') st)

module _ (a : Aof) (pending : Option Store) where
  -- What a read leaves, from what it found.
  abbrev pub PathTo : Store → Store → Type 0
  PathTo s s' = Reach (node s a pending) [] (node s' a pending)

  get_found :
      (now : ℤ) (k : Bytes) (o : Option Entry) (s : Store)
      → lookup k s.strings ≡ o
      → PathTo s (get_finish k (found now o) s).1
  unfolding found get_finish
  get_found now k none s q = here
  get_found now k (some x) s q = elim (Bool-cases (is_expired now x)) [
    | inl old ↦ rw old (next here (forget (node s a pending) now k x q old))
    | inr fresh ↦ rw fresh here
  ]

  get_path : (now : ℤ) (k : Bytes) (s : Store) → PathTo s (get now k s).1
  unfolding get get_read
  get_path now k s = get_found now k (lookup k s.strings) s refl

  exists_path : (clock : ℕ → ℤ) (ks : List Bytes) (s : Store) → PathTo s (exists clock ks s).1
  unfolding exists exists_key
  exists_path clock [] s = here
  exists_path clock (k ∷ ks) s =
      Reach-trans (node s a pending) (node (get (clock (length ks)) k s).1 a pending) _
        (get_path (clock (length ks)) k s) (exists_path clock ks (get (clock (length ks)) k s).1)

  ttl_found :
      (now until : ℤ) (k : Bytes) (o : Option Entry) (s : Store)
      → lookup k s.strings ≡ o
      → PathTo s (ttl_finish until k (found now o) s).1
  unfolding found ttl_finish
  ttl_found now until k none s q = here
  ttl_found now until k (some x) s q = elim (Bool-cases (is_expired now x)) [
    | inl old ↦ rw old (next here (forget (node s a pending) now k x q old))
    | inr fresh ↦ rw fresh here
  ]

  ttl_path : (now until : ℤ) (k : Bytes) (s : Store) → PathTo s (ttl now until k s).1
  unfolding ttl get_read
  ttl_path now until k s = ttl_found now until k (lookup k s.strings) s refl

module _ (failure : Bytes) (clock : Clock) (h : Handler) (a : Aof) (pending : Option Store)
    (e : h.aof ≡ some a) (o : a.is_open ≡ true) where
  by_path :
      (s : Store)
      → PathTo a pending h.store s
      → Follows h.store a pending [] (record h { store = s })
  by_path s r = record { aof = a; same = e; opened = o; path = r }

  pub handle_get-Follows :
      (args : List Bytes) → Follows h.store a pending [] (handle_get failure clock args h).1
  unfolding handle_get wrong_number
  handle_get-Follows (k ∷ []) = by_path _ (get_path a pending clock.now k h.store)
  handle_get-Follows _ = stay_put h.store a pending h refl e o

  pub handle_exists-Follows :
      (args : List Bytes) → Follows h.store a pending [] (handle_exists failure clock args h).1
  unfolding handle_exists wrong_number
  handle_exists-Follows [] = stay_put h.store a pending h refl e o
  handle_exists-Follows (k ∷ ks) = by_path _ (exists_path a pending clock.each (k ∷ ks) h.store)

  pub handle_ttl-Follows :
      (args : List Bytes) → Follows h.store a pending [] (handle_ttl failure clock args h).1
  unfolding handle_ttl wrong_number
  handle_ttl-Follows (k ∷ []) = by_path _ (ttl_path a pending clock.now clock.until k h.store)
  handle_ttl-Follows _ = stay_put h.store a pending h refl e o
