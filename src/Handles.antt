-- ===== src/Handles.antt =====
-- handles/mod.rs: the connections of the engine, by id.
pub mod Alloc
pub mod Laws
mod Tests
use dart_odbc_fast.Prelude.{
  ℕ, zero, suc, ◌+◌, ◌%◌, ◌^◌, Bool, true, false, not, ◌||◌, ◌&&◌, ◌==◌, if◌then◌else◌, List, [],
  ◌∷◌, any, map, Option, none, some, ok, err,
}
use dart_odbc_fast.Error.{
  OdbcError, OdbcResult, format, internal_error, invalid_handle, environment_not_initialized,
}

abbrev pub max_conn_id_alloc_attempts : ℕ
max_conn_id_alloc_attempts = 1000

-- `HandleManager`, over the type of a connection. The map of the connections is a list of its
-- entries, the last one inserted first.
pub record HandleManager {ℓ} (C : Type ℓ) : Type ℓ where
  pub has_env : Bool
  pub connections : List (ℕ × C)
  pub next_conn_id : ℕ

module _ {ℓ} {C : Type ℓ} where
  abbrev pub ids : List (ℕ × C) → List ℕ
  ids [] = []
  ids ((k, c) ∷ entries) = k ∷ ids entries

  unfoldable pub lookup : ℕ → List (ℕ × C) → Option C
  lookup id [] = none
  lookup id ((k, c) ∷ entries) = let rest = lookup id entries in if k == id then some c else rest

  unfoldable pub remove : ℕ → List (ℕ × C) → List (ℕ × C)
  remove id [] = []
  remove id ((k, c) ∷ entries) =
      let rest = remove id entries in if k == id then rest else (k, c) ∷ rest

-- `connections.contains_key(&id)`, by the ids.
unfoldable pub contains_key : ℕ → List ℕ → Bool
contains_key id keys = any (λ k. k == id) keys

-- The loop that looks for a free id: the id, if it finds one, and the next candidate.
unfoldable pub alloc_conn_id : ℕ → ℕ → List ℕ → Option ℕ × ℕ
alloc_conn_id zero next keys = (none, next)
alloc_conn_id (suc attempts) next keys =
    let rest = alloc_conn_id attempts ((next + 1) % 2 ^ 32) keys in
    if not (next == 0) && not (contains_key next keys)
    then (some next, (next + 1) % 2 ^ 32)
    else rest

module _ {ℓ} {C : Type ℓ} where
  -- `create_connection_with_options`, with what the driver answers to the connection string.
  unfoldable pub create_connection : OdbcResult C → HandleManager C → OdbcResult ℕ × HandleManager C
  create_connection (err e) h =
      if h.has_env then (err e, h) else (err environment_not_initialized, h)
  create_connection (ok connection) h =
      if h.has_env
      then (let (found, next) =
            alloc_conn_id max_conn_id_alloc_attempts h.next_conn_id (ids h.connections) in
          elim found [
            | none ↦ (
              err (
                  internal_error (format "Failed to allocate connection ID after max attempts" [])),
              record h { next_conn_id = next },
            )
            | some conn_id ↦ (
              ok conn_id,
              record h { next_conn_id = next; connections = (conn_id, connection) ∷ h.connections },
            )
          ])
      else (err environment_not_initialized, h)

  unfoldable pub get_connection : HandleManager C → ℕ → OdbcResult C
  get_connection h conn_id = elim (lookup conn_id h.connections) [
    | some c ↦ ok c
    | none ↦ err (invalid_handle conn_id)
  ]

  unfoldable pub remove_connection : ℕ → HandleManager C → OdbcResult (Unit {0}) × HandleManager C
  remove_connection conn_id h = elim (lookup conn_id h.connections) [
    | some c ↦ (ok tt, record h { connections = remove conn_id h.connections })
    | none ↦ (err (invalid_handle conn_id), h)
  ]
