-- ===== src/Handles/Alloc.antt =====
-- The search for a free connection id.
use dart_odbc_fast.Prelude.{
  ℕ, zero, suc, ◌+◌, ◌%◌, ◌^◌, ◌<◌, ◌≤◌, true, false, ◌==◌, if◌then◌else◌, List, [], ◌∷◌, length,
  none, some, ◌≡◌, arith,
}
use dart_odbc_fast.Handles.{contains_key, alloc_conn_id}

-- The id found is not zero, not in use, and of 32 bits, and so is the next candidate.
pub alloc_conn_id_sound :
    (attempts next : ℕ) (keys : List ℕ) (id : ℕ)
    → next < 2 ^ 32
    → (alloc_conn_id attempts next keys).0 ≡ some id
    → (1 ≤ id) × (id < 2 ^ 32) × (contains_key id keys ≡ false)
unfolding alloc_conn_id
alloc_conn_id_sound zero next keys id h e = cc
alloc_conn_id_sound (suc attempts) next keys id h e =
    ground (arith, alloc_conn_id_sound attempts ((next + 1) % 2 ^ 32) keys id (omega arith))

-- The list without an id.
erase : ℕ → List ℕ → List ℕ
erase id [] = []
erase id (k ∷ keys) = let rest = erase id keys in if k == id then rest else k ∷ rest

erase-le : (id : ℕ) (keys : List ℕ) → length (erase id keys) ≤ length keys
unfolding erase
erase-le id [] = omega arith
erase-le id (k ∷ keys) = ground (arith, erase-le id keys)

erase-lt :
    (id : ℕ) (keys : List ℕ) → contains_key id keys ≡ true → length (erase id keys) < length keys
unfolding erase contains_key
erase-lt id [] h = cc
erase-lt id (k ∷ keys) h = ground (arith, erase-lt id keys, erase-le id keys)

contains_key-erase :
    (c id : ℕ) (keys : List ℕ)
    → (c == id) ≡ false
    → contains_key c keys ≡ true
    → contains_key c (erase id keys) ≡ true
unfolding erase contains_key
contains_key-erase c id [] h m = cc
contains_key-erase c id (k ∷ keys) h m = ground (arith, contains_key-erase c id keys h)

-- Each of the candidates of a number of attempts is in the list.
Taken : ℕ → ℕ → List ℕ → Type 0
Taken attempts next taken = (i : ℕ) → i < attempts → contains_key ((next + i) % 2 ^ 32) taken ≡ true

Taken-le :
    (attempts next : ℕ) (taken : List ℕ)
    → attempts < 2 ^ 32
    → next < 2 ^ 32
    → Taken attempts next taken
    → attempts ≤ length taken
unfolding Taken
Taken-le zero next taken few small all = omega arith
Taken-le (suc attempts) next taken few small all =
    let here : contains_key next taken ≡ true =
      (let e : (next + 0) % 2 ^ 32 ≡ next = omega arith in rw e at (all 0 (omega arith))) in
    let more : (i : ℕ)
        → i < attempts
        → contains_key (((next + 1) % 2 ^ 32 + i) % 2 ^ 32) (erase next taken) ≡ true =
      λ i lt.
        let e : ((next + 1) % 2 ^ 32 + i) % 2 ^ 32 ≡ (next + suc i) % 2 ^ 32 = omega arith in
        let other : ((next + suc i) % 2 ^ 32 == next) ≡ false = ground arith in
        rw e (
          contains_key-erase ((next + suc i) % 2 ^ 32) next taken other
            (all (suc i) (omega arith))) in
    omega (
      arith,
      Taken-le attempts ((next + 1) % 2 ^ 32) (erase next taken) (omega arith) (omega arith) more,
      erase-lt next taken here,
    )

failed_lem :
    (attempts next : ℕ) (keys : List ℕ)
    → next < 2 ^ 32
    → (alloc_conn_id attempts next keys).0 ≡ none
    → Taken attempts next (0 ∷ keys)
unfolding alloc_conn_id Taken contains_key
failed_lem zero next keys small e i lt = absurd (omega arith)
failed_lem (suc attempts) next keys small e zero lt =
    let same : (next + 0) % 2 ^ 32 ≡ next = omega arith in rw same (ground arith)
failed_lem (suc attempts) next keys small e (suc i) lt =
    let same : (next + suc i) % 2 ^ 32 ≡ ((next + 1) % 2 ^ 32 + i) % 2 ^ 32 = omega arith in
    let rest : (alloc_conn_id attempts ((next + 1) % 2 ^ 32) keys).0 ≡ none = ground arith in
    rw same (failed_lem attempts ((next + 1) % 2 ^ 32) keys (omega arith) rest i (omega arith))

-- The search fails only if there are as many ids in use as it has attempts, less the one for zero.
pub alloc_conn_id_full :
    (attempts next : ℕ) (keys : List ℕ)
    → attempts < 2 ^ 32
    → next < 2 ^ 32
    → (alloc_conn_id attempts next keys).0 ≡ none
    → attempts ≤ length keys + 1
alloc_conn_id_full attempts next keys few small e =
    omega
      (arith, Taken-le attempts next (0 ∷ keys) few small (failed_lem attempts next keys small e))
