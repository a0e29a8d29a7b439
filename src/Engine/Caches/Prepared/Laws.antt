-- ===== src/Engine/Caches/Prepared/Laws.antt =====
-- The cache of prepared statements against the history of its calls.
use dart_odbc_fast.Prelude.{
  ℕ, suc, ◌+◌, ◌%◌, ◌^◌, ◌≤◌, ◌==◌, true, false, if◌then◌else◌, List, [], ◌∷◌, Option, none, some,
  ◌≡◌, refl, ◌∙◌, ◌≢◌, ◌⊎◌, inl, inr, arith, Bool-cases,
}
use dart_odbc_fast.Engine.Lru.{Lru}
use dart_odbc_fast.Engine.Lru.Forgets.{Store, assign, Holds, create-Holds, put-Holds, clear-Holds}
use dart_odbc_fast.Engine.Caches.Prepared.{
  PreparedStatementCache, new_cache, get_or_insert, record_execution, clear, len,
}

pub data Op (K : Type 0) : Type 0 where
  lookup : K → Op K
  execution : Op K
  wipe : Op K

abbrev pub lookups : {K : Type 0} → List (Op K) → ℕ
lookups [] = 0
lookups (lookup k ∷ ops) = suc (lookups ops)
lookups (_ ∷ ops) = lookups ops

abbrev pub executions : {K : Type 0} → List (Op K) → ℕ
executions [] = 0
executions (execution ∷ ops) = suc (executions ops)
executions (_ ∷ ops) = executions ops

-- The statements looked up since the last `clear`.
abbrev pub prepared :
    {K : Type 0} → Discrete K → List (Op K) → Store K (Unit {0}) → Store K (Unit {0})
prepared dec [] store = store
prepared dec (lookup k ∷ ops) store = prepared dec ops (assign dec k tt store)
prepared dec (wipe ∷ ops) store = prepared dec ops (λ k. none)
prepared dec (execution ∷ ops) store = prepared dec ops store

abbrev pub capacity : ℕ → ℕ
capacity max_size = if max_size == 0 then 100 else max_size

module _ {K : Type 0} (dec : Discrete K) (lru : Lru K (Unit {0})) where
  unfoldable pub step : Op K → PreparedStatementCache lru → PreparedStatementCache lru
  step (lookup k) c = (get_or_insert lru k c).1
  step execution c = record_execution lru c
  step wipe c = clear lru c

  unfoldable pub run : List (Op K) → PreparedStatementCache lru → PreparedStatementCache lru
  unfolding step
  run [] c = c
  run (op ∷ ops) c = run ops (step op c)

  -- After `asked` lookups and `ran` executions.
  pub record Counts (max_size asked ran : ℕ) (c : PreparedStatementCache lru)
      (store : Store K (Unit {0})) : Type 0 where
    pub lookups_counted : (c.cache_hits + c.cache_misses) % 2 ^ 64 ≡ asked % 2 ^ 64
    pub executions_counted : c.total_executions ≡ ran % 2 ^ 64
    pub prepares_are_misses : c.total_prepares ≡ c.cache_misses
    pub bounded : lru.cap c.cache ≡ capacity max_size
    pub truthful : Holds dec lru c.cache store

  -- A statement that is found is noted as looked up, and the cache still holds only what was.
  widen-Holds :
      (k : K) (c : lru.Cache) (store : Store K (Unit {0}))
      → Holds dec lru c store
      → Holds dec lru c (assign dec k tt store)
  widen-Holds k c store h j = widened (dec j k) (lru.peek j c) (h j)
    where
      widened :
          (d : Dec (j ≡ k)) (found : Option (Unit {0}))
          → (found ≡ none) ⊎ (found ≡ store j)
          → (found ≡ none) ⊎ (found ≡ (elim d [ yes _ ↦ some tt | no _ ↦ store j ]))
      widened (yes e) none p = inl refl
      widened (yes e) (some u) p = inr refl
      widened (no n) found p = p

  module _ (max_size asked ran : ℕ) (c : PreparedStatementCache lru) (store : Store K (Unit {0}))
      (h : Counts max_size asked ran c store) where
    lookup-Counts :
        (k : K) → Counts max_size (suc asked) ran (get_or_insert lru k c).1 (assign dec k tt store)
    unfolding get_or_insert
    lookup-Counts k = elim (Bool-cases (lru.contains k c.cache)) [
      | inl found ↦
          rw (get_or_insert, found)
            (record {
              lookups_counted = omega (arith, h.lookups_counted);
              executions_counted = h.executions_counted;
              prepares_are_misses = h.prepares_are_misses;
              bounded = h.bounded;
              truthful = widen-Holds k c.cache store h.truthful;
            })
      | inr missing ↦
          rw (get_or_insert, missing)
            (record {
              lookups_counted = omega (arith, h.lookups_counted);
              executions_counted = h.executions_counted;
              prepares_are_misses = rw h.prepares_are_misses refl;
              bounded = lru.cap-put k tt c.cache ∙ h.bounded;
              truthful = put-Holds dec lru k tt c.cache store h.truthful;
            })
    ]

    execution-Counts : Counts max_size asked (suc ran) (record_execution lru c) store
    unfolding record_execution
    execution-Counts = record {
      lookups_counted = h.lookups_counted;
      executions_counted = omega (arith, h.executions_counted);
      prepares_are_misses = h.prepares_are_misses;
      bounded = h.bounded;
      truthful = h.truthful;
    }

    wipe-Counts : Counts max_size asked ran (clear lru c) (λ k. none)
    unfolding clear
    wipe-Counts = record {
      lookups_counted = h.lookups_counted;
      executions_counted = h.executions_counted;
      prepares_are_misses = h.prepares_are_misses;
      bounded = lru.cap-clear c.cache ∙ h.bounded;
      truthful = clear-Holds dec lru c.cache;
    }

  run-Counts :
      (max_size asked ran : ℕ) (ops : List (Op K)) (c : PreparedStatementCache lru)
      (store : Store K (Unit {0}))
      → Counts max_size asked ran c store
      → Counts max_size
          (asked + lookups ops)
          (ran + executions ops)
          (run ops c)
          (prepared dec ops store)
  unfolding run
  run-Counts max_size asked ran [] c store h =
      let a : asked + 0 ≡ asked = omega arith in let r : ran + 0 ≡ ran = omega arith in rw (a, r) h
  run-Counts max_size asked ran (lookup k ∷ ops) c store h =
      let a : asked + suc (lookups ops) ≡ suc asked + lookups ops = omega arith in
      rw a (
        run-Counts max_size (suc asked) ran ops _ (assign dec k tt store)
          (lookup-Counts max_size asked ran c store h k))
  run-Counts max_size asked ran (execution ∷ ops) c store h =
      let r : ran + suc (executions ops) ≡ suc ran + executions ops = omega arith in
      rw r (
        run-Counts max_size asked (suc ran) ops _ store
          (execution-Counts max_size asked ran c store h))
  run-Counts max_size asked ran (wipe ∷ ops) c store h =
      run-Counts max_size asked ran ops _ (λ k. none) (wipe-Counts max_size asked ran c store h)

  new-Counts : (max_size : ℕ) → Counts max_size 0 0 (new_cache lru max_size) (λ k. none)
  unfolding new_cache
  new-Counts max_size = record {
    lookups_counted = refl;
    executions_counted = refl;
    prepares_are_misses = refl;
    bounded = lru.cap-create (capacity max_size) (ground arith);
    truthful = create-Holds dec lru (capacity max_size);
  }

  stored_lem :
      (found stored : Option (Unit {0}))
      → found ≢ none
      → (found ≡ none) ⊎ (found ≡ stored)
      → stored ≡ some tt
  stored_lem none stored n p = absurd (n refl)
  stored_lem (some u) none n (inl e) = cc
  stored_lem (some u) none n (inr e) = cc
  stored_lem (some u) (some v) n p = refl

  seen_lem :
      (k : K) (c : PreparedStatementCache lru) (store : Store K (Unit {0}))
      → Holds dec lru c.cache store
      → (get_or_insert lru k c).0 ≡ true
      → store k ≡ some tt
  unfolding get_or_insert
  seen_lem k c store h answer = elim (lru.contains-peek k c.cache) [
    | inl (found, present) ↦ stored_lem (lru.peek k c.cache) (store k) present (h k)
    | inr (missing, absent) ↦
        let no_answer : (get_or_insert lru k c).0 ≡ false = rw (get_or_insert, missing) refl in
        cc (answer, no_answer)
  ]

  contains-put : (k : K) (c : lru.Cache) → lru.contains k (lru.put k tt c) ≡ true
  contains-put k c = elim (lru.contains-peek k (lru.put k tt c)) [
    | inl (found, _) ↦ found
    | inr (_, absent) ↦ cc (lru.peek-put_self k tt c, absent)
  ]

  found_again :
      (k : K) (c : PreparedStatementCache lru)
      → (get_or_insert lru k (get_or_insert lru k c).1).0 ≡ true
  unfolding get_or_insert
  found_again k c = elim (Bool-cases (lru.contains k c.cache)) [
    | inl found ↦ rw (get_or_insert, found) (rw (get_or_insert, found) refl)
    | inr missing ↦ rw (get_or_insert, missing, contains-put k c.cache) refl
  ]

  -- After any calls on a new cache: hits and misses together are the lookups, modulo 2^64; each miss,
  -- and nothing else, is counted as a preparation; the executions are counted modulo 2^64; the cache
  -- holds at most its capacity, which is the size asked for, or 100 if that is 0; and a lookup
  -- answers true only for a statement that was looked up since the last `clear`. A statement looked
  -- up twice in a row is found the second time.
  pub prepared_cache_lem :
      (max_size : ℕ) (ops : List (Op K)) (k : K)
      → (let c = run ops (new_cache lru max_size) in
          ((c.cache_hits + c.cache_misses) % 2 ^ 64 ≡ lookups ops % 2 ^ 64)
          × (c.total_prepares ≡ c.cache_misses)
          × (c.total_executions ≡ executions ops % 2 ^ 64)
          × (len lru c ≤ capacity max_size)
          × ((get_or_insert lru k c).0 ≡ true → prepared dec ops (λ j. none) k ≡ some tt)
          × ((get_or_insert lru k (get_or_insert lru k c).1).0 ≡ true))
  unfolding len
  prepared_cache_lem max_size ops k =
      let c = run ops (new_cache lru max_size) in
      let h =
        run-Counts max_size 0 0 ops (new_cache lru max_size) (λ j. none) (new-Counts max_size) in
      (
        omega (arith, h.lookups_counted),
        h.prepares_are_misses,
        omega (arith, h.executions_counted),
        omega (arith, lru.len-cap c.cache, h.bounded),
        seen_lem k c (prepared dec ops (λ j. none)) h.truthful,
        found_again k c,
      )
