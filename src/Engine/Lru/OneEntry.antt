-- ===== src/Engine/Lru/OneEntry.antt =====
-- A cache that keeps the last entry alone does all that is assumed of an LRU cache.
use dart_odbc_fast.Prelude.{
  ℕ, ◌≤◌, max, Bool, true, false, Option, none, some, ◌≡◌, refl, ◌≢◌, ◌⊎◌, inl, inr, arith,
}
use native.Mathlib.Decide.{ℕ_discrete}
use dart_odbc_fast.Engine.Lru.{Lru}

abbrev pub peek_entry : {V : Type 0} → ℕ → Option (ℕ × V) → Option V
peek_entry k none = none
peek_entry k (some (j, v)) = elim (ℕ_discrete k j) [ yes _ ↦ some v | no _ ↦ none ]

abbrev pub pop_entry : {V : Type 0} → ℕ → Option (ℕ × V) → Option (ℕ × V)
pop_entry k none = none
pop_entry k (some (j, v)) = elim (ℕ_discrete k j) [ yes _ ↦ none | no _ ↦ some (j, v) ]

abbrev pub is_some : {V : Type 0} → Option V → Bool
is_some none = false
is_some (some v) = true

abbrev pub entries : {V : Type 0} → Option V → ℕ
entries none = 0
entries (some v) = 1

pub is_some_lem :
    {V : Type 0} (o : Option V)
    → ((is_some o ≡ true) × (o ≢ none)) ⊎ ((is_some o ≡ false) × (o ≡ none))
is_some_lem none = inr (refl, refl)
is_some_lem (some v) = inl (refl, λ e. cc)

pub put_self_lem : {V : Type 0} (k : ℕ) (v : V) → peek_entry k (some (k, v)) ≡ some v
put_self_lem {V} k v = found (ℕ_discrete k k)
  where
    found :
        (d : Dec (k ≡ k))
        → (let r : Option V = elim d [ yes _ ↦ some v | no _ ↦ none ] in r) ≡ some v
    found (yes _) = refl
    found (no n) = absurd (n refl)

pub put_ne_lem : {V : Type 0} (k j : ℕ) (v : V) → j ≢ k → peek_entry j (some (k, v)) ≡ none
put_ne_lem {V} k j v ne = missing (ℕ_discrete j k)
  where
    missing :
        (d : Dec (j ≡ k)) → (let r : Option V = elim d [ yes _ ↦ some v | no _ ↦ none ] in r) ≡ none
    missing (yes e) = absurd (ne e)
    missing (no _) = refl

pub pop_self_lem : {V : Type 0} (k : ℕ) (o : Option (ℕ × V)) → peek_entry k (pop_entry k o) ≡ none
pop_self_lem k none = refl
pop_self_lem {V} k (some (j, v)) = popped (ℕ_discrete k j)
  where
    popped :
        (d : Dec (k ≡ j))
        → peek_entry k (let r : Option (ℕ × V) = elim d [ yes _ ↦ none | no _ ↦ some (j, v) ] in r)
          ≡ none
    popped (yes _) = refl
    popped (no n) = put_ne_lem j k v n

pub pop_ne_lem :
    {V : Type 0} (k j : ℕ) (o : Option (ℕ × V))
    → j ≢ k
    → peek_entry j (pop_entry k o) ≡ peek_entry j o
pop_ne_lem k j none ne = refl
pop_ne_lem {V} k j (some (i, v)) ne = kept (ℕ_discrete k i)
  where
    kept :
        (d : Dec (k ≡ i))
        → peek_entry j (let r : Option (ℕ × V) = elim d [ yes _ ↦ none | no _ ↦ some (i, v) ] in r)
          ≡ peek_entry j (some (i, v))
    kept (yes e) = rw (← e) (rw (put_ne_lem k j v ne) refl)
    kept (no _) = refl

pub entries_lem : {V : Type 0} (n : ℕ) (o : Option V) → entries o ≤ max n 1
entries_lem n none = omega arith
entries_lem n (some v) = omega arith

pub max_lem : (n : ℕ) → 1 ≤ n → max n 1 ≡ n
max_lem n h = omega arith

abbrev pub one_entry : (V : Type 0) → Lru ℕ V
one_entry V = record {
  Cache = ℕ × Option (ℕ × V);
  create = λ n. (n, none);
  peek = λ k c. peek_entry k c.1;
  get = λ k c. (peek_entry k c.1, c);
  contains = λ k c. is_some (peek_entry k c.1);
  put = λ k v c. (c.0, some (k, v));
  pop = λ k c. (c.0, pop_entry k c.1);
  clear = λ c. (c.0, none);
  len = λ c. entries c.1;
  cap = λ c. max c.0 1;
  peek-create = λ n k. refl;
  get-peek = λ k c. refl;
  peek-get = λ k j c. refl;
  contains-peek = λ k c. is_some_lem (peek_entry k c.1);
  peek-put_self = λ k v c. put_self_lem k v;
  peek-put_ne = λ k j v c ne. inr (put_ne_lem k j v ne);
  peek-pop_self = λ k c. pop_self_lem k c.1;
  peek-pop_ne = λ k j c ne. pop_ne_lem k j c.1 ne;
  peek-clear = λ k c. refl;
  len-cap = λ c. entries_lem c.0 c.1;
  cap-create = λ n h. max_lem n h;
  cap-get = λ k c. refl;
  cap-put = λ k v c. refl;
  cap-pop = λ k c. refl;
  cap-clear = λ c. refl;
}
