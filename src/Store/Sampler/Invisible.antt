-- ===== src/Store/Sampler/Invisible.antt =====
-- store/store.go: `sampleExpire` and what GET, the lists and the hashes show.
use redis_glass.Prelude.{
  ℕ, zero, suc, ◌≡◌, refl, ◌∙◌, true, Option, none, some, List, [], ◌∷◌, length, Bytes, lookup, ℤ,
  ◌≤ℤ◌, ◌==◌, if-keeps, Bool-cases, inl, inr,
}
use redis_glass.Store.{Entry, Store, is_expired, delete_expired}
use redis_glass.Store.Expiry.{view, view-delete_expired}
use redis_glass.Store.Sampler.{
  sample_size, max_rounds_per_tick, sample_found, sample_key, sample_loop, sample_rounds,
  sample_expire,
}

-- GET finds the same under each key from `later` on, and the lists and hashes are the same. EXPIRE, DEL
-- and the counts of INFO may still tell a deleted key from an expired one that is stored.
pub record SameFrom (later : ℤ) (s s' : Store) : Type 0 where
  pub views : (j : Bytes) → view later s' j ≡ view later s j
  pub lists : s'.lists ≡ s.lists
  pub hashes : s'.hashes ≡ s.hashes

SameFrom-refl : (later : ℤ) (s : Store) → SameFrom later s s
SameFrom-refl later s = record { views = λ j. refl; lists = refl; hashes = refl }

SameFrom-trans :
    (later : ℤ) (s t u : Store) → SameFrom later s t → SameFrom later t u → SameFrom later s u
SameFrom-trans later s t u h k = record {
  views = λ j. k.views j ∙ h.views j;
  lists = k.lists ∙ h.lists;
  hashes = k.hashes ∙ h.hashes;
}

delete_expired-SameFrom :
    (now later : ℤ) (k : Bytes) (e : Entry) (s : Store)
    → lookup k s.strings ≡ some e
    → is_expired now e ≡ true
    → now ≤ℤ later
    → SameFrom later s (delete_expired k s)
delete_expired-SameFrom now later k e s h x le = record {
  views = view-delete_expired now later k e s h x le;
  lists = unfold delete_expired in refl;
  hashes = unfold delete_expired in refl;
}

sample_found-SameFrom :
    (now later : ℤ) (k : Bytes) (o : Option Entry) (s : Store)
    → lookup k s.strings ≡ o
    → now ≤ℤ later
    → SameFrom later s (sample_found now k o s).1
unfolding sample_found
sample_found-SameFrom now later k none s h le = record {
  views = λ j. unfold view in refl;
  lists = refl;
  hashes = refl;
}
sample_found-SameFrom now later k (some e) s h le = elim (Bool-cases (is_expired now e)) [
  | inl x ↦ rw x (delete_expired-SameFrom now later k e s h x le)
  | inr x ↦ rw x (SameFrom-refl later s)
]

sample_loop-SameFrom :
    (room : ℕ) (now later : ℤ) (order : List Bytes) (s : Store)
    → now ≤ℤ later
    → SameFrom later s (sample_loop room now order s).2
unfolding sample_loop
sample_loop-SameFrom zero now later order s le = SameFrom-refl later s
sample_loop-SameFrom (suc room) now later [] s le = SameFrom-refl later s
sample_loop-SameFrom (suc room) now later (k ∷ order) s le =
    SameFrom-trans later s (sample_key now k s).1 _
      (unfold sample_key in sample_found-SameFrom now later k (lookup k s.strings) s refl le)
      (sample_loop-SameFrom room now later order (sample_key now k s).1 le)

module _ (clock : ℕ → ℤ) (order : ℕ → Store → List Bytes) (later : ℤ)
    (before : (r : ℕ) → clock r ≤ℤ later) where
  sample_rounds-SameFrom : (r : ℕ) (s : Store) → SameFrom later s (sample_rounds clock order r s)
  unfolding sample_rounds
  sample_rounds-SameFrom zero s = SameFrom-refl later s
  sample_rounds-SameFrom (suc r) s =
      let h = sample_loop-SameFrom sample_size (clock r) later (order r s) s (before r) in
      if-keeps (SameFrom later s) (length s.expiry_keys == 0) s _ (SameFrom-refl later s) (
        if-keeps (SameFrom later s) _ _ _ h
          (SameFrom-trans later s _ _ h (sample_rounds-SameFrom r _)))

  -- Whatever the order in which the keys are sampled, a tick changes no list, no hash, and no entry that
  -- GET finds under a key at or after the last time at which the sampler read the clock.
  pub sample_expire-SameFrom : (s : Store) → SameFrom later s (sample_expire clock order s)
  unfolding sample_expire
  sample_expire-SameFrom s = sample_rounds-SameFrom max_rounds_per_tick s
