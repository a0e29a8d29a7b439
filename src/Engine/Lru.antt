-- ===== src/Engine/Lru.antt =====
-- `LruCache` of the lru crate: its operations, and what its documentation says of them. `peek` looks
-- without touching the order of use.
pub mod Forgets
pub mod OneEntry
use dart_odbc_fast.Prelude.{ℕ, ◌≤◌, Bool, true, false, Option, none, some, ◌≡◌, ◌≢◌, ◌⊎◌}

pub record Lru (K V : Type 0) : Type 1 where
  pub Cache : Type 0
  pub create : ℕ → Cache
  pub peek : K → Cache → Option V
  pub get : K → Cache → Option V × Cache
  pub contains : K → Cache → Bool
  pub put : K → V → Cache → Cache
  pub pop : K → Cache → Cache
  pub clear : Cache → Cache
  pub len : Cache → ℕ
  pub cap : Cache → ℕ
  pub peek-create : (n : ℕ) (k : K) → peek k (create n) ≡ none
  pub get-peek : (k : K) (c : Cache) → (get k c).0 ≡ peek k c
  pub peek-get : (k j : K) (c : Cache) → peek j (get k c).1 ≡ peek j c
  pub contains-peek :
      (k : K) (c : Cache)
      → ((contains k c ≡ true) × (peek k c ≢ none)) ⊎ ((contains k c ≡ false) × (peek k c ≡ none))
  pub peek-put_self : (k : K) (v : V) (c : Cache) → peek k (put k v c) ≡ some v
  pub peek-put_ne :
      (k j : K) (v : V) (c : Cache)
      → j ≢ k
      → (peek j (put k v c) ≡ peek j c) ⊎ (peek j (put k v c) ≡ none)
  pub peek-pop_self : (k : K) (c : Cache) → peek k (pop k c) ≡ none
  pub peek-pop_ne : (k j : K) (c : Cache) → j ≢ k → peek j (pop k c) ≡ peek j c
  pub peek-clear : (k : K) (c : Cache) → peek k (clear c) ≡ none
  pub len-cap : (c : Cache) → len c ≤ cap c
  pub cap-create : (n : ℕ) → 1 ≤ n → cap (create n) ≡ n
  pub cap-get : (k : K) (c : Cache) → cap (get k c).1 ≡ cap c
  pub cap-put : (k : K) (v : V) (c : Cache) → cap (put k v c) ≡ cap c
  pub cap-pop : (k : K) (c : Cache) → cap (pop k c) ≡ cap c
  pub cap-clear : (c : Cache) → cap (clear c) ≡ cap c
