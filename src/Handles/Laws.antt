-- ===== src/Handles/Laws.antt =====
-- What opening and closing a connection keep.
use dart_odbc_fast.Prelude.{
  ℕ, zero, suc, ◌+◌, ◌%◌, ◌^◌, ◌<◌, ◌≤◌, true, false, ◌==◌, List, [], ◌∷◌, All, length, Option,
  none, some, ok, err, ◌≡◌, ◌≢◌, refl, ap, ◌⊎◌, inl, inr, arith, Bool-cases, ==_self,
}
use dart_odbc_fast.Error.{OdbcError, format, internal_error, invalid_handle}
use dart_odbc_fast.Handles.{
  max_conn_id_alloc_attempts, HandleManager, ids, lookup, remove, contains_key, alloc_conn_id,
  create_connection, get_connection, remove_connection,
}
use dart_odbc_fast.Handles.Alloc.{alloc_conn_id_sound, alloc_conn_id_full}

abbrev pub IsId : ℕ → Type 0
IsId k = (1 ≤ k) × (k < 2 ^ 32)

abbrev pub Distinct : List ℕ → Type 0
Distinct [] = Unit
Distinct (k ∷ keys) = (contains_key k keys ≡ false) × Distinct keys

next_lem :
    (attempts next : ℕ) (keys : List ℕ)
    → next < 2 ^ 32
    → (alloc_conn_id attempts next keys).1 < 2 ^ 32
unfolding alloc_conn_id
next_lem zero next keys h = h
next_lem (suc attempts) next keys h =
    ground (arith, next_lem attempts ((next + 1) % 2 ^ 32) keys (omega arith))

module _ {ℓ} {C : Type ℓ} where
  -- No id is zero, all have 32 bits, and no two are the same.
  pub record IsValid (h : HandleManager C) : Type ℓ where
    pub next : h.next_conn_id < 2 ^ 32
    pub keys : All IsId (ids h.connections)
    pub distinct : Distinct (ids h.connections)

  length-ids : (entries : List (ℕ × C)) → length (ids entries) ≡ length entries
  length-ids [] = refl
  length-ids ((k, c) ∷ entries) = ap suc (length-ids entries)

  lookup-absent :
      (id : ℕ) (entries : List (ℕ × C))
      → contains_key id (ids entries) ≡ false
      → lookup id entries ≡ none
  unfolding lookup contains_key
  lookup-absent id [] h = refl
  lookup-absent id ((k, c) ∷ entries) h = ground (arith, lookup-absent id entries)

  lookup-remove_self : (id : ℕ) (entries : List (ℕ × C)) → lookup id (remove id entries) ≡ none
  unfolding lookup remove
  lookup-remove_self id [] = refl
  lookup-remove_self id ((k, c) ∷ entries) = ground (arith, lookup-remove_self id entries)

  lookup-remove_other :
      (k id : ℕ) (entries : List (ℕ × C))
      → (k == id) ≡ false
      → lookup k (remove id entries) ≡ lookup k entries
  unfolding lookup remove
  lookup-remove_other k id [] h = refl
  lookup-remove_other k id ((j, c) ∷ entries) h = ground (arith, lookup-remove_other k id entries h)

  remove-absent :
      (k id : ℕ) (entries : List (ℕ × C))
      → contains_key k (ids entries) ≡ false
      → contains_key k (ids (remove id entries)) ≡ false
  unfolding remove contains_key
  remove-absent k id [] h = refl
  remove-absent k id ((j, c) ∷ entries) h = ground (arith, remove-absent k id entries)

  remove-keys :
      (id : ℕ) (entries : List (ℕ × C))
      → All IsId (ids entries) × Distinct (ids entries)
      → All IsId (ids (remove id entries)) × Distinct (ids (remove id entries))
  unfolding remove
  remove-keys id [] h = (tt, tt)
  remove-keys id ((k, c) ∷ entries) h =
      let rest = remove-keys id entries (h.0.1, h.1.1) in
      elim (Bool-cases (k == id)) [
        | inl e ↦ rw (remove, e) rest
        | inr e ↦ rw (remove, e) ((h.0.0, rest.0), (remove-absent k id entries h.1.0, rest.1))
      ]

  -- A new connection is found by its id, the others are found as before, and the id is not in use.
  abbrev pub Opened : HandleManager C → ℕ → C → HandleManager C → Type ℓ
  Opened h id c h' =
      (contains_key id (ids h.connections) ≡ false)
      × (get_connection h' id ≡ ok c)
      × ((k : ℕ) → (id == k) ≡ false → lookup k h'.connections ≡ lookup k h.connections)

  create_step :
      (c : C) (h : HandleManager C) (m : Option ℕ × ℕ)
      → IsValid h
      → h.has_env ≡ true
      → alloc_conn_id max_conn_id_alloc_attempts h.next_conn_id (ids h.connections) ≡ m
      → m.1 < 2 ^ 32
      → ((id : ℕ) × (h' : HandleManager C) × (create_connection (ok c) h ≡ (ok id, h'))
          × IsValid h'
          × Opened h id c h')
        ⊎ ((e : OdbcError) × (h' : HandleManager C) × (create_connection (ok c) h ≡ (err e, h'))
            × IsValid h'
            × (h'.connections ≡ h.connections)
            × (999 ≤ length h.connections))
  unfolding create_connection get_connection lookup
  create_step c h (some id, next) v env e small =
      let sound =
        alloc_conn_id_sound 1000 h.next_conn_id (ids h.connections) id v.next (ap (λ m. m.0) e) in
      inl (
        id,
        record h { next_conn_id = next; connections = (id, c) ∷ h.connections },
        rw (env, e, ap (λ m. m.1) e, env) refl,
        record {
          next = small;
          keys = ((sound.0, sound.1), v.keys);
          distinct = (sound.2, v.distinct);
        },
        (sound.2, rw (get_connection, lookup, ==_self id) refl, λ k other. rw (lookup, other) refl),
      )
  create_step c h (none, next) v env e small = inr (
    internal_error (format "Failed to allocate connection ID after max attempts" []),
    record h { next_conn_id = next },
    rw (env, e, ap (λ m. m.1) e, env) refl,
    record { next = small; keys = v.keys; distinct = v.distinct },
    refl,
    omega (
      arith,
      alloc_conn_id_full 1000 h.next_conn_id (ids h.connections) (omega arith) v.next
          (ap (λ m. m.0) e),
      length-ids h.connections,
    ),
  )

  -- When the environment is there and the driver connects, opening a connection gives it an id that
  -- is not zero and not in use, also after the 32-bit counter has wrapped around, and touches no other
  -- connection; it fails only if 999 connections or more are open.
  pub create_connection_lem :
      (c : C) (h : HandleManager C)
      → IsValid h
      → h.has_env ≡ true
      → ((id : ℕ) × (h' : HandleManager C) × (create_connection (ok c) h ≡ (ok id, h'))
          × IsValid h'
          × Opened h id c h')
        ⊎ ((e : OdbcError) × (h' : HandleManager C) × (create_connection (ok c) h ≡ (err e, h'))
            × IsValid h'
            × (h'.connections ≡ h.connections)
            × (999 ≤ length h.connections))
  create_connection_lem c h v env =
      create_step c h (alloc_conn_id max_conn_id_alloc_attempts h.next_conn_id (ids h.connections))
        v env refl (next_lem 1000 h.next_conn_id (ids h.connections) v.next)

  remove_step :
      (id : ℕ) (h : HandleManager C) (m : Option C)
      → IsValid h
      → lookup id h.connections ≡ m
      → (h' : HandleManager C) × (((lookup id h.connections ≢ none)
            × (remove_connection id h ≡ (ok tt, h')))
          ⊎ ((lookup id h.connections ≡ none)
              × (remove_connection id h ≡ (err (invalid_handle id), h'))))
        × IsValid h'
        × (get_connection h' id ≡ err (invalid_handle id))
        × ((k : ℕ) → (k == id) ≡ false → lookup k h'.connections ≡ lookup k h.connections)
  unfolding remove_connection get_connection
  remove_step id h (some c) v e =
      let keys = remove-keys id h.connections (v.keys, v.distinct) in
      (
        record h { connections = remove id h.connections },
        inl ((λ gone. cc (gone, e)), rw (remove_connection, e) refl),
        record { next = v.next; keys = keys.0; distinct = keys.1 },
        rw (get_connection, lookup-remove_self id h.connections) refl,
        λ k other. lookup-remove_other k id h.connections other,
      )
  remove_step id h none v e =
      (h, inr (e, rw (remove_connection, e) refl), v, rw (get_connection, e) refl, λ k other. refl)

  -- Closing a connection succeeds exactly if the id is in use. The id is invalid afterwards, and the
  -- other connections are found as before.
  pub remove_connection_lem :
      (id : ℕ) (h : HandleManager C)
      → IsValid h
      → (h' : HandleManager C) × (((lookup id h.connections ≢ none)
            × (remove_connection id h ≡ (ok tt, h')))
          ⊎ ((lookup id h.connections ≡ none)
              × (remove_connection id h ≡ (err (invalid_handle id), h'))))
        × IsValid h'
        × (get_connection h' id ≡ err (invalid_handle id))
        × ((k : ℕ) → (k == id) ≡ false → lookup k h'.connections ≡ lookup k h.connections)
  remove_connection_lem id h v = remove_step id h (lookup id h.connections) v refl
