-- ===== src/Engine/Lru/Forgets.antt =====
-- A cache forgets, but it never invents: each entry is the last one stored under its key.
use dart_odbc_fast.Prelude.{Option, none, some, ◌≡◌, ◌⊎◌, inl, inr}
use dart_odbc_fast.Engine.Lru.{Lru}

-- What has been stored, with the last value under each key.
abbrev pub Store : Type 0 → Type 0 → Type 0
Store K V = K → Option V

abbrev pub assign : {K V : Type 0} → Discrete K → K → V → Store K V → Store K V
assign dec k v store j = elim (dec j k) [ yes _ ↦ some v | no _ ↦ store j ]

module _ {K V : Type 0} (dec : Discrete K) (lru : Lru K V) where
  abbrev pub Holds : lru.Cache → Store K V → Type 0
  Holds c store = (k : K) → (lru.peek k c ≡ none) ⊎ (lru.peek k c ≡ store k)

  pub create-Holds : (n : _) → Holds (lru.create n) (λ k. none)
  create-Holds n k = inl (lru.peek-create n k)

  pub get-Holds :
      (k : K) (c : lru.Cache) (store : Store K V) → Holds c store → Holds (lru.get k c).1 store
  get-Holds k c store h j = rw (lru.peek-get k j c) (h j)

  pub put-Holds :
      (k : K) (v : V) (c : lru.Cache) (store : Store K V)
      → Holds c store
      → Holds (lru.put k v c) (assign dec k v store)
  put-Holds k v c store h j = stored (dec j k)
    where
      stored :
          (d : Dec (j ≡ k))
          → (lru.peek j (lru.put k v c) ≡ none)
            ⊎ (lru.peek j (lru.put k v c) ≡ (elim d [ yes _ ↦ some v | no _ ↦ store j ]))
      stored (yes e) = inr (rw e (lru.peek-put_self k v c))
      stored (no n) = elim (lru.peek-put_ne k j v c n) [
        | inl same ↦ rw same (h j)
        | inr gone ↦ inl gone
      ]

  pub pop-Holds :
      (k : K) (c : lru.Cache) (store : Store K V) → Holds c store → Holds (lru.pop k c) store
  pop-Holds k c store h j = popped (dec j k)
    where
      popped :
          Dec (j ≡ k) → (lru.peek j (lru.pop k c) ≡ none) ⊎ (lru.peek j (lru.pop k c) ≡ store j)
      popped (yes e) = inl (rw e (lru.peek-pop_self k c))
      popped (no n) = rw (lru.peek-pop_ne k j c n) (h j)

  pub clear-Holds : (c : lru.Cache) → Holds (lru.clear c) (λ k. none)
  clear-Holds c k = inl (lru.peek-clear k c)
